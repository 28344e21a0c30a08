-- ===== src/Tax/Selector.antt =====
-- internal/service/tax/selector.go: the engine of the business's currency.
pub mod Consistent
pub mod Laws
use Prim.Native.String.{String}
use text.Mathlib.Text.{◌==◌ as str_eq}
use payflow_backend.Common.{if◌then◌else◌}
use payflow_backend.Common.Int.{pos}
use payflow_backend.Common.Int64.{add64}
use payflow_backend.Tax.Types.{Input, Result, GhanaInput, GhanaResult}
use payflow_backend.Tax.Nigeria
use payflow_backend.Tax.Ghana

abbrev pub ghana_input : Input → GhanaInput
ghana_input i = record {
  basic_pay = i.basic_pay;
  housing_pay = i.housing_pay;
  transport_pay = i.transport_pay;
  other_pay = i.other_pay;
  gross_pay = i.gross_pay;
  pension_enabled = i.pension_enabled;
  paye_enabled = i.paye_enabled;
}

unfoldable pub of_ghana : GhanaResult → Result
of_ghana r = record {
  paye = r.paye;
  employee_pension = add64 r.employee_pension r.tier2_pension;
  nhf = pos 0;
  employer_pension = r.employer_pension;
  nsitf = pos 0;
  pension_base = r.pension_base;
  annual_gross = r.annual_gross;
  annual_taxable_income = r.annual_taxable_income;
  rent_relief = pos 0;
  total_employee_deductions = r.total_employee_deductions;
  total_employer_costs = r.total_employer_costs;
}

unfoldable pub calculate_ghana : Input → Result
unfolding of_ghana
calculate_ghana input = of_ghana (Ghana.calculate (ghana_input input))

unfoldable pub calculate_for_country : String → Input → Result
calculate_for_country currency input =
    if str_eq currency "GHS" then calculate_ghana input else Nigeria.calculate input
