-- ===== src/Payroll/Calculation/Payable.antt =====
-- Who is paid, described without the loops of `CalculatePayrollRun`, and that the loops agree.
use payflow_backend.Common.{
  ℕ, ◌≡◌, refl, ◌∙◌, true, Option, none, some, List, [], ◌∷◌, ◌&&◌, ◌==◌, if◌then◌else◌, map, arith,
  Bool-cases, inl, inr, All,
}
use payflow_backend.Payroll.Types.{Cadre, Employee, Business, Adjustment, Entry, Go}
use payflow_backend.Payroll.Calculation.Entries.{calculate_employee_entry}
use payflow_backend.Payroll.Calculation.Runs.{
  Store, Totals, contains, is_empty, active_employees, find_by_ids, cadre_map, assign_cadre,
  assign_cadres, add_entry, run_entry, run_entries,
}

module _ {F : Type 0} where
  -- The business's cadre of that id: the last one, should the table hold several.
  unfoldable pub find_cadre : ℕ → ℕ → List (Cadre F) → Option (Cadre F)
  find_cadre business_id i [] = none
  find_cadre business_id i (c ∷ cs) = elim (find_cadre business_id i cs) [
    | some d ↦ some d
    | none ↦ if i == c.id && c.business_id == business_id then some c else none
  ]

  abbrev or_else : Option (Cadre F) → Option (Cadre F) → Option (Cadre F)
  or_else (some c) d = some c
  or_else none d = d

  -- The two queries and the map give every wanted id its cadre.
  cadre_map-find_cadre :
      (ids : List ℕ) (business_id i : ℕ) (cs : List (Cadre F)) (m : ℕ → Option (Cadre F))
      → contains i ids ≡ true
      → cadre_map (find_by_ids ids business_id cs) m i ≡ or_else (find_cadre business_id i cs) (m i)
  unfolding cadre_map find_by_ids find_cadre
  cadre_map-find_cadre ids business_id i [] m h = refl
  cadre_map-find_cadre ids business_id i (c ∷ cs) m h = ground (
    arith,
    cadre_map-find_cadre ids business_id i cs m h,
    cadre_map-find_cadre ids business_id i cs (λ j. if j == c.id then some c else m j) h,
  )

  abbrev pub Wanted : List ℕ → Employee F → Type 0
  Wanted ids e = contains e.cadre_id ids ≡ true

  Wanted-weaken :
      (n : ℕ) (ids : List ℕ) (es : List (Employee F))
      → All (Wanted ids) es
      → All (Wanted (n ∷ ids)) es
  unfolding contains
  Wanted-weaken n ids [] h = tt
  Wanted-weaken n ids (e ∷ es) h = (ground (arith, h.0), Wanted-weaken n ids es h.1)

  -- Every employee's cadre is asked for.
  pub All-Wanted : (es : List (Employee F)) → All (Wanted (map (λ e. e.cadre_id) es)) es
  unfolding contains
  All-Wanted [] = tt
  All-Wanted (e ∷ es) = (ground arith, Wanted-weaken e.cadre_id _ es (All-Wanted es))

  abbrev pub Finds : (ℕ → Option (Cadre F)) → (ℕ → Option (Cadre F)) → Employee F → Type 0
  Finds m find e = m e.cadre_id ≡ find e.cadre_id

  or_else-none : (o : Option (Cadre F)) → or_else o none ≡ o
  or_else-none none = refl
  or_else-none (some c) = refl

  pub loaded-Finds :
      (ids : List ℕ) (business_id : ℕ) (cs : List (Cadre F)) (es : List (Employee F))
      → All (Wanted ids) es
      → All
          (Finds
            (cadre_map (find_by_ids ids business_id cs) (λ _. none))
            (λ i. find_cadre business_id i cs))
          es
  loaded-Finds ids business_id cs [] h = tt
  loaded-Finds ids business_id cs (e ∷ es) h = (
    cadre_map-find_cadre ids business_id e.cadre_id cs (λ _. none) h.0
        ∙ or_else-none (find_cadre business_id e.cadre_id cs),
    loaded-Finds ids business_id cs es h.1,
  )

module _ (go : Go) where
  open go use {Float}

  module _ (business : Business) (store : Store Float) (adjs : ℕ → List Adjustment) where
    unfoldable pub entry_for : Employee Float → Cadre Float → Entry
    entry_for e c =
        (calculate_employee_entry go (record e { cadre = some c }) c business
          (store.find_active_loans e.id) (adjs e.id)).0

    -- The entry, if the cadre exists and has an earning component.
    unfoldable pub with_entry : Employee Float → Option (Cadre Float) → List Entry → List Entry
    with_entry e none rest = rest
    with_entry e (some c) rest =
        if is_empty c.earning_components then rest else entry_for e c ∷ rest

    -- An entry for each active employee whose cadre exists and has an earning component, in order.
    unfoldable pub entries_of : (ℕ → Option (Cadre Float)) → List (Employee Float) → List Entry
    unfolding with_entry
    entries_of find [] = []
    entries_of find (e ∷ es) =
        let rest = entries_of find es in
        if e.is_active then with_entry e (find e.cadre_id) rest else rest

    unfoldable pub entries_of_active :
        (ℕ → Option (Cadre Float)) → List (Employee Float) → List Entry
    entries_of_active find [] = []
    entries_of_active find (e ∷ es) = with_entry e (find e.cadre_id) (entries_of_active find es)

    pub entries_of-active :
        (find : ℕ → Option (Cadre Float)) (es : List (Employee Float))
        → entries_of_active find (active_employees es) ≡ entries_of find es
    unfolding entries_of entries_of_active active_employees
    entries_of-active find [] = refl
    entries_of-active find (e ∷ es) = elim (Bool-cases e.is_active) [
      | inl on ↦ rw (on, ← entries_of-active find es)
      | inr off ↦ rw (off, ← entries_of-active find es)
    ]

    unfoldable pub add_entries : List Entry → Totals → Totals
    add_entries [] t = t
    add_entries (e ∷ es) t = add_entries es (add_entry e e.total_employer_cost t)

    entry_costs :
        (e : Employee Float) (c : Cadre Float)
        → let (entry, tax) =
            calculate_employee_entry go
              (record e { cadre = some c })
              c
              business
              (store.find_active_loans e.id)
              (adjs e.id) in
          (entry ≡ entry_for e c) × (tax.total_employer_costs ≡ (entry_for e c).total_employer_cost)
    unfolding entry_for calculate_employee_entry
    entry_costs e c = (refl, refl)

    add_entry_step :
        (e : Employee Float) (c : Cadre Float) (t : Totals) (rest : List Entry)
        → add_entries rest
            (run_entry go business store adjs (record e { cadre = some c }) (some c) t)
          ≡ add_entries (with_entry e (some c) rest) t
    unfolding run_entry with_entry
    add_entry_step e c t rest = elim (Bool-cases (is_empty c.earning_components)) [
      | inl bare ↦ rw bare
      | inr earning ↦
          rw earning (rw (entry_costs e c).0 (rw (entry_costs e c).1 (unfold add_entries in refl)))
    ]

    run_step :
        (e : Employee Float) (o : Option (Cadre Float)) (es : List (Employee Float)) (t : Totals)
        (rest : List Entry)
        → ((t' : Totals) → run_entries go business store adjs es t' ≡ add_entries rest t')
        → run_entries go business store adjs (assign_cadre e o es) t
          ≡ add_entries (with_entry e o rest) t
    unfolding assign_cadre
    run_step e none es t rest ih = unfold with_entry in ih t
    run_step e (some c) es t rest ih =
        unfold run_entries in
        ih (run_entry go business store adjs (record e { cadre = some c }) (some c) t)
        ∙ add_entry_step e c t rest

    pub run_entries-entries_of :
        (m find : ℕ → Option (Cadre Float)) (es : List (Employee Float)) (t : Totals)
        → All (Finds m find) es
        → run_entries go business store adjs (assign_cadres m es) t
          ≡ add_entries (entries_of_active find es) t
    unfolding entries_of_active assign_cadres
    run_entries-entries_of m find [] t h = unfold run_entries add_entries in refl
    run_entries-entries_of m find (e ∷ es) t h =
        let ih = λ (t' : Totals). run_entries-entries_of m find es t' h.1 in
        rw h.0 (run_step e (find e.cadre_id) (assign_cadres m es) t (entries_of_active find es) ih)
