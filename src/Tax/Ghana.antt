-- ===== src/Tax/Ghana.antt =====
-- internal/service/tax/ghana: engine.go, paye.go and pension.go, the statutory deductions of one
-- employee for one month in Ghana, in pesewas.
pub mod Spec
pub mod Refinement
pub mod Laws
use payflow_backend.Common.{ℕ, List, [], ◌∷◌, ◌&&◌, if◌then◌else◌}
use payflow_backend.Common.Int.{ℤ, pos, ltb_ℤ, leb_ℤ, eqb_ℤ}
use payflow_backend.Common.Int64.{add64, sub64, mul64, div64}
use payflow_backend.Tax.Types.{GhanaInput, GhanaResult}
use payflow_backend.Tax.Brackets.{Bracket, bracket, bracket_loop}

abbrev pub ssnit_cap_monthly : ℤ
ssnit_cap_monthly = pos 6_900_000

abbrev pub brackets : List Bracket
brackets =
    bracket 588_000 0
    ∷ bracket 720_000 5
    ∷ bracket 876_000 10
    ∷ bracket 4_676_000 17
    ∷ bracket 23_876_000 25
    ∷ bracket 60_500_000 30
    ∷ bracket 0 35
    ∷ []

-- The rate 17 stands for 17.5 %.
unfoldable pub bracket_share : ℤ → ℤ → ℤ
bracket_share income rate =
    if eqb_ℤ rate (pos 17)
    then div64 (mul64 income (pos 175)) 1000
    else div64 (mul64 income rate) 100

unfoldable pub apply_brackets : ℤ → ℤ
apply_brackets taxable_income = bracket_loop bracket_share taxable_income brackets (pos 0) (pos 0)

-- The monthly tax and the annual taxable income.
unfoldable pub calculate_monthly_paye : ℤ → ℤ → ℤ × ℤ
calculate_monthly_paye monthly_gross monthly_ssnit =
    let monthly_taxable = sub64 monthly_gross monthly_ssnit in
    let annual_taxable = mul64 monthly_taxable (pos 12) in
    if leb_ℤ monthly_taxable (pos 0)
    then (pos 0, pos 0)
    else (div64 (apply_brackets annual_taxable) 12, annual_taxable)

-- The base of each contribution, up to the insurable cap.
abbrev pub capped_base : ℤ → ℤ
capped_base basic_pay = if ltb_ℤ ssnit_cap_monthly basic_pay then ssnit_cap_monthly else basic_pay

unfoldable pub calculate_employee_pension : ℤ → ℤ
calculate_employee_pension basic_pay = div64 (mul64 (capped_base basic_pay) (pos 55)) 1000

unfoldable pub calculate_employer_pension : ℤ → ℤ
calculate_employer_pension basic_pay = div64 (mul64 (capped_base basic_pay) (pos 13)) 100

unfoldable pub calculate_tier2_pension : ℤ → ℤ
calculate_tier2_pension basic_pay = div64 (mul64 (capped_base basic_pay) (pos 5)) 100

unfoldable pub calculate : GhanaInput → GhanaResult
calculate input =
    let pensioned = input.pension_enabled && ltb_ℤ (pos 0) input.basic_pay in
    let employee = if pensioned then calculate_employee_pension input.basic_pay else pos 0 in
    let employer = if pensioned then calculate_employer_pension input.basic_pay else pos 0 in
    let tier2 = if pensioned then calculate_tier2_pension input.basic_pay else pos 0 in
    let tax =
      if input.paye_enabled && ltb_ℤ (pos 0) input.gross_pay
      then calculate_monthly_paye input.gross_pay employee
      else (pos 0, pos 0) in
    record {
      paye = tax.0;
      employee_pension = employee;
      tier2_pension = tier2;
      employer_pension = employer;
      pension_base = input.basic_pay;
      annual_gross = mul64 input.gross_pay (pos 12);
      annual_taxable_income = tax.1;
      total_employee_deductions = add64 (add64 employee tier2) tax.0;
      total_employer_costs = employer;
    }
