-- ===== src/Payroll/Calculation/Totals.antt =====
-- An entry of the payroll as the employee reads it.
use payflow_backend.Common.{◌≡◌, refl, Option, List}
use payflow_backend.Common.Int64.{add64, sub64}
use payflow_backend.Tax.Selector.{calculate_for_country}
use payflow_backend.Tax.Selector.Consistent.{calculate_for_country-IsConsistent}
use payflow_backend.Payroll.Types.{Employee, Cadre, Business, Loan, Adjustment, Entry, Go}
use payflow_backend.Payroll.Calculation.Entries.{before_tax, tax_input, calculate_employee_entry}
use payflow_backend.Payroll.Calculation.Details.{
  is_earning, is_bonus, is_deducted, tally, before_tax-Reconciles, final_sheet-Reconciles,
}

-- The lines of the entry add up to its totals, and the net pay is what they leave.
pub record IsPayslip (e : Entry) : Type 0 where
  pub gross_lines : e.gross_pay ≡ tally is_earning e.details
  pub bonus_lines : e.bonuses ≡ tally is_bonus e.details
  pub deduction_lines : e.total_deductions ≡ tally is_deducted e.details
  pub net_lines : e.net_pay ≡ sub64 (add64 e.gross_pay e.bonuses) e.total_deductions
  pub employer_total : e.total_employer_cost ≡ add64 e.employer_pension e.employer_nsitf
  pub company_total : e.total_cost_to_company ≡ add64 e.gross_pay e.total_employer_cost

module _ (go : Go) where
  open go use {Float}

  -- Whatever the cadre, the loans and the adjustments, and also where sums wrap: gross pay, bonuses
  -- and deductions are the int64 sums of the entry's own detail lines, the net pay is gross plus
  -- bonuses minus deductions, and the employer's cost is pension plus NSITF on top of the gross.
  pub calculate_employee_entry-IsPayslip :
      (emp : Employee Float) (cadre : Cadre Float) (business : Business)
      (loans : Option (List Loan)) (adjs : List Adjustment)
      → IsPayslip (calculate_employee_entry go emp cadre business loans adjs).0
  unfolding calculate_employee_entry
  calculate_employee_entry-IsPayslip emp cadre business loans adjs =
      let s = before_tax go cadre in
      let i = tax_input go emp business s in
      let r = calculate_for_country business.currency i in
      let lines = final_sheet-Reconciles go r loans adjs s (before_tax-Reconciles go cadre) in
      record {
        gross_lines = lines.gross_lines;
        bonus_lines = lines.bonus_lines;
        deduction_lines = lines.deduction_lines;
        net_lines = refl;
        employer_total = (calculate_for_country-IsConsistent business.currency i).employer_total;
        company_total = refl;
      }
