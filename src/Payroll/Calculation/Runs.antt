-- ===== src/Payroll/Calculation/Runs.antt =====
-- `CalculatePayrollRun`: which employees are paid, and the totals of the run. What the repositories
-- answer is the argument `Store`, with `none` for a query that fails.
use payflow_backend.Common.{
  ℕ, Bool, true, false, Option, none, some, List, [], ◌∷◌, ◌++◌, ◌&&◌, ◌||◌, ◌==◌, if◌then◌else◌,
  map,
}
use payflow_backend.Common.Int.{ℤ, pos}
use payflow_backend.Common.Int64.{add64}
use payflow_backend.Common.Errors.{Error, Result, ok, err, ◌>>=◌, ◌>>◌, guard_not}
use payflow_backend.Payroll.Types.{
  Cadre, Employee, Business, Loan, Adjustment, Entry, Status, Run, Go,
}
use payflow_backend.Payroll.Calculation.Entries.{calculate_employee_entry}

pub record Store (F : Type 0) : Type 0 where
  pub find_business : ℕ → Option Business
  pub find_employees : ℕ → Option (List (Employee F))
  -- the table of all cadres, with their components and rules
  pub cadres : Option (List (Cadre F))
  pub find_active_loans : ℕ → Option (List Loan)

-- `fmt.Errorf` around an error of the repository.
abbrev pub or_fail {ℓ} : {A : Type ℓ} → Option A → Result A
or_fail none = err Error.other
or_fail (some a) = ok a

abbrev pub is_empty {ℓ} : {A : Type ℓ} → List A → Bool
is_empty [] = true
is_empty (x ∷ xs) = false

unfoldable pub contains : ℕ → List ℕ → Bool
contains n [] = false
contains n (m ∷ ms) = m == n || contains n ms

module _ {F : Type 0} where
  unfoldable pub active_employees : List (Employee F) → List (Employee F)
  active_employees [] = []
  active_employees (e ∷ es) = if e.is_active then e ∷ active_employees es else active_employees es

  -- `CadreRepository.FindByIDs`: `WHERE id IN ? AND business_id = ?`.
  unfoldable pub find_by_ids : List ℕ → ℕ → List (Cadre F) → List (Cadre F)
  unfolding contains
  find_by_ids ids business_id [] = []
  find_by_ids ids business_id (c ∷ cs) =
      let rest = find_by_ids ids business_id cs in
      if contains c.id ids && c.business_id == business_id then c ∷ rest else rest

  -- The map from a cadre's id to the cadre: a later cadre of the same id wins.
  unfoldable pub cadre_map : List (Cadre F) → (ℕ → Option (Cadre F)) → ℕ → Option (Cadre F)
  cadre_map [] m = m
  cadre_map (c ∷ cs) m = cadre_map cs (λ i. if i == c.id then some c else m i)

  unfoldable pub assign_cadre :
      Employee F → Option (Cadre F) → List (Employee F) → List (Employee F)
  assign_cadre e none es = es
  assign_cadre e (some c) es = record e { cadre = some c } ∷ es

  -- Employees whose cadre was not loaded are left out.
  unfoldable pub assign_cadres : (ℕ → Option (Cadre F)) → List (Employee F) → List (Employee F)
  unfolding assign_cadre
  assign_cadres m [] = []
  assign_cadres m (e ∷ es) = assign_cadre e (m e.cadre_id) (assign_cadres m es)

pub record Totals : Type 0 where
  pub gross : ℤ
  pub deductions : ℤ
  pub net : ℤ
  pub employer_costs : ℤ
  pub entries : List Entry

abbrev pub no_totals : Totals
no_totals = record {
  gross = pos 0;
  deductions = pos 0;
  net = pos 0;
  employer_costs = pos 0;
  entries = [];
}

unfoldable pub add_entry : Entry → ℤ → Totals → Totals
add_entry e costs t = record {
  gross = add64 t.gross e.gross_pay;
  deductions = add64 t.deductions e.total_deductions;
  net = add64 t.net e.net_pay;
  employer_costs = add64 t.employer_costs costs;
  entries = t.entries ++ (e ∷ []);
}

module _ (go : Go) where
  open go use {Float, add_days}

  module _ (business : Business) (store : Store Float) (adjs : ℕ → List Adjustment) where
    -- One round of the loop: who has no cadre or no earning component is skipped.
    unfoldable pub run_entry : Employee Float → Option (Cadre Float) → Totals → Totals
    unfolding add_entry
    run_entry emp none t = t
    run_entry emp (some cadre) t =
        let (entry, tax) =
          calculate_employee_entry go emp cadre business (store.find_active_loans emp.id)
            (adjs emp.id) in
        if is_empty cadre.earning_components then t else add_entry entry tax.total_employer_costs t

    unfoldable pub run_entries : List (Employee Float) → Totals → Totals
    unfolding run_entry
    run_entries [] t = t
    run_entries (emp ∷ emps) t = run_entries emps (run_entry emp emp.cadre t)

  -- The run is not stored yet, so it has the id 0.
  unfoldable pub run_of : ℕ → ℕ × ℕ → ℕ → Totals → Run
  run_of business_id period now t = record {
    id = 0;
    business_id = business_id;
    period = period;
    status = Status.draft;
    total_gross_pay = t.gross;
    total_deductions = t.deductions;
    total_net_pay = t.net;
    total_employer_costs = t.employer_costs;
    total_cost_to_company = add64 t.gross t.employer_costs;
    scheduled_for = add_days now 5;
    entries = t.entries;
  }

  -- `period` is the year and the month of the request's date.
  unfoldable pub calculate_payroll_run :
      Store Float → ℕ → ℕ × ℕ → ℕ → (ℕ → List Adjustment) → Result Run
  unfolding active_employees find_by_ids cadre_map assign_cadres run_entries run_of
  calculate_payroll_run store business_id period now adjs = do
    business ← or_fail (store.find_business business_id)
    all_employees ← or_fail (store.find_employees business_id)
    let active = active_employees all_employees
    cadres ← or_fail (store.cadres)
    let loaded = find_by_ids (map (λ e. e.cadre_id) active) business_id cadres
    let employees = assign_cadres (cadre_map loaded (λ _. none)) active
    let totals = run_entries business store adjs employees no_totals
    guard_not (is_empty employees) Error.other
    guard_not (is_empty totals.entries) Error.validation_failed
    ok (run_of business_id period now totals)
