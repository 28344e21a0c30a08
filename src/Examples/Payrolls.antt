-- ===== src/Examples/Payrolls.antt =====
-- One employee with one earning component, over a Go whose float64 values are whole numbers.
use Prim.Native.String.{◌++◌}
use payflow_backend.Common.{◌+◌, ◌*◌, refl, true, false, none, some, [], ◌∷◌}
use payflow_backend.Common.Int.{ℤ, pos, ◌*ℤ◌}
use payflow_backend.Common.Int64.{div64}
use payflow_backend.Common.Texts.{same_text}
use payflow_backend.Payroll.Types.{ComponentType, Cadre, Employee, Business, Adjustment, Go}
use payflow_backend.Payroll.Calculation.Entries.{calculate_employee_entry}
use payflow_backend.Payroll.Calculation.Runs.{Store, calculate_payroll_run}
use payflow_backend.Payroll.Calculation.Payable.{find_cadre, entries_of}
use payflow_backend.Payroll.Calculation.Totals.{IsPayslip, calculate_employee_entry-IsPayslip}
use payflow_backend.Payroll.Calculation.Outcome.{Outcome, calculate_payroll_run_lem}

abbrev whole_numbers : Go
whole_numbers = record {
  Float = ℤ;
  of_int64 = λ a. a;
  to_int64 = λ a. a;
  mul = λ a b. a *ℤ b;
  div = λ a b. div64 a 100;
  hundred = pos 100;
  equal_fold = same_text;
  append = λ s t. s ++ t;
  add_days = λ now n. now + n * 86400;
}

abbrev a_cadre : Cadre ℤ
a_cadre = record {
  id = 4;
  business_id = 7;
  name = "Analyst";
  earning_components =
      record { name = "Basic pay"; amount = pos 30_000_000; component_type = ComponentType.basic }
      ∷ [];
  deduction_rules = [];
}

abbrev an_employee : Employee ℤ
an_employee = record {
  id = 11;
  cadre_id = 4;
  full_name = "Ada";
  bank_name = "gtb";
  bank_account_number = "0123456789";
  is_active = true;
  bank_account_verified = true;
  annual_rent_paid = pos 0;
  cadre = none;
}

abbrev a_business : Business
a_business = record {
  payroll_requires_approval = true;
  payroll_auto_process = false;
  pension_enabled = true;
  nhf_enabled = true;
  nsitf_enabled = true;
  paye_enabled = true;
  currency = "NGN";
  subscription_tier = "free";
}

abbrev a_bonus : Adjustment
a_bonus = record { item_name = "Bonus"; amount = pos 1_000_000; component_type = "bonus" }

abbrev a_store : Store ℤ
a_store = record {
  find_business = λ i. some a_business;
  find_employees = λ i. some (an_employee ∷ []);
  cadres = some (a_cadre ∷ []);
  find_active_loans = λ i. some [];
}

calculate_employee_entry-IsPayslip_example :
    IsPayslip
      (calculate_employee_entry whole_numbers an_employee a_cadre a_business
        (some [])
        (a_bonus ∷ [])).0
calculate_employee_entry-IsPayslip_example =
    calculate_employee_entry-IsPayslip whole_numbers an_employee a_cadre a_business (some [])
      (a_bonus ∷ [])

calculate_payroll_run_lem_example :
    Outcome whole_numbers
      (entries_of whole_numbers a_business a_store
        (λ i. a_bonus ∷ [])
        (λ i. find_cadre 7 i (a_cadre ∷ []))
        (an_employee ∷ []))
      (calculate_payroll_run whole_numbers a_store 7 (2026, 5) 1000 (λ i. a_bonus ∷ []))
calculate_payroll_run_lem_example =
    calculate_payroll_run_lem whole_numbers a_store 7 (2026, 5) 1000 (λ i. a_bonus ∷ []) a_business
      (an_employee ∷ []) (a_cadre ∷ []) refl refl refl
