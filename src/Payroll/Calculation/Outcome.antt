-- ===== src/Payroll/Calculation/Outcome.antt =====
-- How `CalculatePayrollRun` ends: with a draft of exactly the entries that are due, or an error.
use payflow_backend.Common.{
  ℕ, ◌≡◌, ◌≢◌, refl, sym, ◌∙◌, Bool, true, false, Option, none, some, List, [], ◌∷◌, ◌++◌, map, All,
  Bool-cases, inl, inr, ◌⊎◌,
}
use mathlib.Core.List.{append-nil, append_assoc}
use payflow_backend.Common.Errors.{Error, Result, ok, err, ◌>>◌, guard_not}
use payflow_backend.Payroll.Types.{Cadre, Employee, Business, Adjustment, Entry, Run, Go}
use payflow_backend.Payroll.Calculation.Totals.{IsPayslip, calculate_employee_entry-IsPayslip}
use payflow_backend.Payroll.Calculation.Runs.{
  Store, Totals, no_totals, is_empty, active_employees, find_by_ids, cadre_map, assign_cadres,
  add_entry, run_entries, run_of, calculate_payroll_run,
}
use payflow_backend.Payroll.Calculation.Payable.{
  find_cadre, All-Wanted, loaded-Finds, entry_for, with_entry, entries_of, entries_of_active,
  entries_of-active, add_entries, run_entries-entries_of,
}
use payflow_backend.Payroll.Calculation.RunTotals.{
  IsTotalled, no_totals-IsTotalled, add_entry-IsTotalled, IsPayroll,
}

module _ (go : Go) where
  open go use {Float}

  run_of-IsPayroll :
      (business_id : ℕ) (period : ℕ × ℕ) (now : ℕ) (t : Totals)
      → IsTotalled t
      → IsPayroll (run_of go business_id period now t)
  unfolding run_of
  run_of-IsPayroll business_id period now t i = record {
    is_draft = refl;
    gross_total = i.gross_total;
    deduction_total = i.deduction_total;
    net_total = i.net_total;
    employer_total = i.employer_total;
    company_total = refl;
    balance = i.balance;
  }

  module _ (business : Business) (store : Store Float) (adjs : ℕ → List Adjustment) where
    with_entry-IsPayslip :
        (e : Employee Float) (o : Option (Cadre Float)) (es : List Entry)
        → All IsPayslip es
        → All IsPayslip (with_entry go business store adjs e o es)
    unfolding with_entry
    with_entry-IsPayslip e none es h = h
    with_entry-IsPayslip e (some c) es h = elim (Bool-cases (is_empty c.earning_components)) [
      | inl bare ↦ rw bare h
      | inr earning ↦
          rw earning (unfold entry_for in calculate_employee_entry-IsPayslip go _ c business _ _, h)
    ]

    entries_of_active-IsPayslip :
        (find : ℕ → Option (Cadre Float)) (es : List (Employee Float))
        → All IsPayslip (entries_of_active go business store adjs find es)
    unfolding entries_of_active
    entries_of_active-IsPayslip find [] = tt
    entries_of_active-IsPayslip find (e ∷ es) =
        with_entry-IsPayslip e (find e.cadre_id) (entries_of_active go business store adjs find es)
          (entries_of_active-IsPayslip find es)

    add_entries-IsTotalled :
        (es : List Entry) (t : Totals)
        → All IsPayslip es
        → IsTotalled t
        → IsTotalled (add_entries go business store adjs es t)
    unfolding add_entries
    add_entries-IsTotalled [] t h i = i
    add_entries-IsTotalled (e ∷ es) t h i =
        add_entries-IsTotalled es (add_entry e e.total_employer_cost t) h.1
          (add_entry-IsTotalled e t h.0 i)

    entries-add_entries :
        (es : List Entry) (t : Totals)
        → (add_entries go business store adjs es t).entries ≡ t.entries ++ es
    unfolding add_entries
    entries-add_entries [] t = sym (append-nil t.entries)
    entries-add_entries (e ∷ es) t =
        entries-add_entries es (add_entry e e.total_employer_cost t)
        ∙ unfold add_entry in append_assoc t.entries (e ∷ []) es

    -- The loop over the employees, from nothing.
    run_totals :
        (business_id : ℕ) (cadres : List (Cadre Float)) (es : List (Employee Float))
        → let active = active_employees es in
          let m =
            cadre_map (find_by_ids (map (λ e. e.cadre_id) active) business_id cadres) (λ _. none) in
          let due = entries_of go business store adjs (λ i. find_cadre business_id i cadres) es in
          let t = run_entries go business store adjs (assign_cadres m active) no_totals in
          (t.entries ≡ due) × IsTotalled t
    run_totals business_id cadres es =
        let active = active_employees es in
        let ids = map (λ (e : Employee Float). e.cadre_id) active in
        let m = cadre_map (find_by_ids ids business_id cadres) (λ _. none) in
        let find = λ (i : ℕ). find_cadre business_id i cadres in
        let due = entries_of_active go business store adjs find active in
        let loops =
          run_entries-entries_of go business store adjs m find active no_totals
            (loaded-Finds ids business_id cadres active (All-Wanted active)) in
        rw loops (
          entries-add_entries due no_totals ∙ entries_of-active go business store adjs find es,
          add_entries-IsTotalled due no_totals (entries_of_active-IsPayslip find active)
              no_totals-IsTotalled,
        )

  -- How a calculation may end, given the entries that are due: a draft of exactly those, or an
  -- error where none is due.
  abbrev pub Outcome : List Entry → Result Run → Type 0
  Outcome due (ok run) = (run.entries ≡ due) × (due ≢ []) × IsPayroll run
  Outcome due (err e) = due ≡ []

  is_empty-cases {ℓ} :
      {A : Type ℓ} (xs : List A)
      → ((is_empty xs ≡ true) × (xs ≡ [])) ⊎ ((is_empty xs ≡ false) × (xs ≢ []))
  is_empty-cases [] = inl (refl, refl)
  is_empty-cases (x ∷ xs) = inr (refl, λ e. cc)

  outcome :
      (due : List Entry) (nobody : Bool) (business_id : ℕ) (period : ℕ × ℕ) (now : ℕ) (t : Totals)
      → (nobody ≡ true → due ≡ [])
      → t.entries ≡ due
      → IsTotalled t
      → Outcome due (
          guard_not nobody Error.other
          >> (guard_not (is_empty t.entries) Error.validation_failed
              >> ok (run_of go business_id period now t)))
  outcome due true business_id period now t none_due h i = none_due refl
  outcome due false business_id period now t none_due h i = elim (is_empty-cases t.entries) [
    | inl (e, is) ↦ rw e (sym h ∙ is)
    | inr (e, isnt) ↦
        rw e
          (unfold run_of in h, λ none. isnt (h ∙ none), run_of-IsPayroll business_id period now t i)
  ]

  nobody_due :
      (business : Business) (store : Store Float) (adjs : ℕ → List Adjustment) (due : List Entry)
      (emps : List (Employee Float))
      → (run_entries go business store adjs emps no_totals).entries ≡ due
      → is_empty emps ≡ true
      → due ≡ []
  unfolding run_entries
  nobody_due business store adjs due [] h e = sym h
  nobody_due business store adjs due (x ∷ emps) h e = cc

  -- Where the business, its employees and the cadres can be read, the calculation succeeds exactly
  -- if some active employee has an existing cadre of the business with an earning component. The
  -- run is then a draft with one entry for each such employee, in order, every total is the int64
  -- sum of the entries, and net pay plus deductions is gross pay plus bonuses.
  pub calculate_payroll_run_lem :
      (store : Store Float) (business_id : ℕ) (period : ℕ × ℕ) (now : ℕ)
      (adjs : ℕ → List Adjustment) (business : Business) (employees : List (Employee Float))
      (cadres : List (Cadre Float))
      → store.find_business business_id ≡ some business
      → store.find_employees business_id ≡ some employees
      → store.cadres ≡ some cadres
      → Outcome
          (entries_of go business store adjs (λ i. find_cadre business_id i cadres) employees)
          (calculate_payroll_run go store business_id period now adjs)
  unfolding calculate_payroll_run entries_of entry_for
  calculate_payroll_run_lem store business_id period now adjs business employees cadres hb he hc =
      let (same, totals) = run_totals business store adjs business_id cadres employees in
      rw (hb, he, hc)
        (outcome _ _ business_id period now _ (nobody_due business store adjs _ _ same) same totals)
