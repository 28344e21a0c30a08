-- ===== src/Tax/Nigeria.antt =====
-- internal/service/tax/engine.go, paye.go, pension.go, nhf.go and nsitf.go: the statutory
-- deductions of one employee for one month under the Nigeria Tax Act 2025, in kobo.
pub mod Spec
pub mod Refinement
pub mod Laws
use payflow_backend.Common.{ℕ, List, [], ◌∷◌, ◌&&◌, if◌then◌else◌}
use payflow_backend.Common.Int.{ℤ, pos, ltb_ℤ, leb_ℤ}
use payflow_backend.Common.Int64.{add64, sub64, mul64, div64}
use payflow_backend.Tax.Types.{Input, Result}
use payflow_backend.Tax.Brackets.{Bracket, bracket, bracket_loop}

abbrev pub minimum_wage_monthly : ℤ
minimum_wage_monthly = pos 7_000_000

abbrev pub max_rent_relief : ℤ
max_rent_relief = pos 50_000_000

abbrev pub brackets : List Bracket
brackets =
    bracket 80_000_000 0
    ∷ bracket 300_000_000 15
    ∷ bracket 1_200_000_000 18
    ∷ bracket 2_500_000_000 21
    ∷ bracket 5_000_000_000 23
    ∷ bracket 0 25
    ∷ []

-- `taxableInBracket * b.rate / 100`
unfoldable pub bracket_share : ℤ → ℤ → ℤ
bracket_share income rate = div64 (mul64 income rate) 100

unfoldable pub apply_brackets : ℤ → ℤ
apply_brackets taxable_income = bracket_loop bracket_share taxable_income brackets (pos 0) (pos 0)

unfoldable pub capped_rent_relief : ℤ → ℤ
capped_rent_relief annual_rent_paid =
    let relief = div64 (mul64 annual_rent_paid (pos 20)) 100 in
    if ltb_ℤ max_rent_relief relief then max_rent_relief else relief

-- The monthly tax, the annual taxable income and the rent relief.
unfoldable pub calculate_monthly_paye : ℤ → ℤ → ℤ → ℤ → ℤ × ℤ × ℤ
calculate_monthly_paye monthly_gross monthly_pension monthly_nhf annual_rent_paid =
    let annual_gross = mul64 monthly_gross (pos 12) in
    let annual_pension = mul64 monthly_pension (pos 12) in
    let annual_nhf = mul64 monthly_nhf (pos 12) in
    let rent_relief = capped_rent_relief annual_rent_paid in
    let annual_taxable = sub64 (sub64 (sub64 annual_gross annual_pension) annual_nhf) rent_relief in
    if leb_ℤ monthly_gross minimum_wage_monthly
    then (pos 0, pos 0, pos 0)
    else if leb_ℤ annual_taxable (pos 0)
    then (pos 0, pos 0, rent_relief)
    else (div64 (apply_brackets annual_taxable) 12, annual_taxable, rent_relief)

unfoldable pub calculate_employee_pension : ℤ → ℤ
calculate_employee_pension pension_base = div64 (mul64 pension_base (pos 8)) 100

unfoldable pub calculate_employer_pension : ℤ → ℤ
calculate_employer_pension pension_base = div64 (mul64 pension_base (pos 10)) 100

unfoldable pub calculate_nhf : ℤ → ℤ
calculate_nhf basic_pay = div64 (mul64 basic_pay (pos 25)) 1000

unfoldable pub calculate_nsitf : ℤ → ℤ
calculate_nsitf gross_pay = div64 (mul64 gross_pay (pos 1)) 100

unfoldable pub calculate : Input → Result
calculate input =
    let pension_base = add64 (add64 input.basic_pay input.housing_pay) input.transport_pay in
    let pensioned = input.pension_enabled && ltb_ℤ (pos 0) pension_base in
    let employee = if pensioned then calculate_employee_pension pension_base else pos 0 in
    let employer = if pensioned then calculate_employer_pension pension_base else pos 0 in
    let housing_fund =
      if input.nhf_enabled && ltb_ℤ (pos 0) input.basic_pay
      then calculate_nhf input.basic_pay
      else pos 0 in
    let insurance =
      if input.nsitf_enabled && ltb_ℤ (pos 0) input.gross_pay
      then calculate_nsitf input.gross_pay
      else pos 0 in
    let tax =
      if input.paye_enabled && ltb_ℤ (pos 0) input.gross_pay
      then calculate_monthly_paye input.gross_pay employee housing_fund input.annual_rent_paid
      else (pos 0, pos 0, pos 0) in
    record {
      paye = tax.0;
      employee_pension = employee;
      nhf = housing_fund;
      employer_pension = employer;
      nsitf = insurance;
      pension_base = pension_base;
      annual_gross = mul64 input.gross_pay (pos 12);
      annual_taxable_income = tax.1;
      rent_relief = tax.2;
      total_employee_deductions = add64 (add64 employee housing_fund) tax.0;
      total_employer_costs = add64 employer insurance;
    }
