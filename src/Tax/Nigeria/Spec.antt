-- ===== src/Tax/Nigeria/Spec.antt =====
-- What the Nigeria Tax Act asks for, over the natural numbers: no machine word, no early return.
use Prim.Native.Nat.{min}
use payflow_backend.Common.{
  ℕ, ◌+◌, ◌-◌, ◌*◌, ◌/◌, List, [], ◌∷◌, Bool, leb, not, ◌&&◌, if◌then◌else◌,
}
use payflow_backend.Common.Int.{pos}
use payflow_backend.Tax.Types.{Input, Result}
use payflow_backend.Tax.Schedule.{schedule_tax, bands}

-- Per cent of an amount, rounded down to the kobo.
unfoldable pub percent : ℕ → ℕ → ℕ
percent x r = x * r / 100

abbrev pub table : List (ℕ × ℕ)
table =
    (80_000_000, 0)
    ∷ (300_000_000, 15)
    ∷ (1_200_000_000, 18)
    ∷ (2_500_000_000, 21)
    ∷ (5_000_000_000, 23)
    ∷ (0, 25)
    ∷ []

unfoldable pub annual_tax : ℕ → ℕ
annual_tax t = schedule_tax percent (bands 0 table) t

-- 20 % of the rent, at most NGN 500,000.
abbrev pub relief : ℕ → ℕ
relief rent = min (rent * 20 / 100) 50_000_000

abbrev pub taxable : ℕ → ℕ → ℕ → ℕ → ℕ
taxable gross pension nhf rent = gross * 12 - (pension * 12 + nhf * 12 + relief rent)

-- A gross pay up to the minimum wage is exempt.
unfoldable pub monthly_paye : ℕ → ℕ → ℕ → ℕ → ℕ
monthly_paye gross pension nhf rent =
    if leb gross 7_000_000 then 0 else annual_tax (taxable gross pension nhf rent) / 12

-- One employee's month: amounts in kobo, and which deductions the business has switched on.
pub record Month : Type 0 where
  pub basic : ℕ
  pub housing : ℕ
  pub transport : ℕ
  pub other : ℕ
  pub rent : ℕ
  pub pension_on : Bool
  pub nhf_on : Bool
  pub nsitf_on : Bool
  pub paye_on : Bool

abbrev pub gross_of : Month → ℕ
gross_of m = m.basic + m.housing + m.transport + m.other

abbrev pub input_of : Month → Input
input_of m = record {
  basic_pay = pos m.basic;
  housing_pay = pos m.housing;
  transport_pay = pos m.transport;
  other_pay = pos m.other;
  gross_pay = pos (gross_of m);
  annual_rent_paid = pos m.rent;
  pension_enabled = m.pension_on;
  nhf_enabled = m.nhf_on;
  nsitf_enabled = m.nsitf_on;
  paye_enabled = m.paye_on;
}

abbrev pub pension_base_of : Month → ℕ
pension_base_of m = m.basic + m.housing + m.transport

unfoldable pub employee_pension_of : Month → ℕ
employee_pension_of m = if m.pension_on then pension_base_of m * 8 / 100 else 0

unfoldable pub employer_pension_of : Month → ℕ
employer_pension_of m = if m.pension_on then pension_base_of m * 10 / 100 else 0

unfoldable pub nhf_of : Month → ℕ
nhf_of m = if m.nhf_on then m.basic * 25 / 1000 else 0

unfoldable pub nsitf_of : Month → ℕ
nsitf_of m = if m.nsitf_on then gross_of m / 100 else 0

unfoldable pub paye_of : Month → ℕ
paye_of m =
    if m.paye_on then monthly_paye (gross_of m) (employee_pension_of m) (nhf_of m) m.rent else 0

abbrev pub is_taxed : Month → Bool
is_taxed m = m.paye_on && not (leb (gross_of m) 7_000_000)

-- The whole monthly result.
unfoldable pub result_of : Month → Result
result_of m = record {
  paye = pos (paye_of m);
  employee_pension = pos (employee_pension_of m);
  nhf = pos (nhf_of m);
  employer_pension = pos (employer_pension_of m);
  nsitf = pos (nsitf_of m);
  pension_base = pos (pension_base_of m);
  annual_gross = pos (gross_of m * 12);
  annual_taxable_income =
      pos
        (if is_taxed m then taxable (gross_of m) (employee_pension_of m) (nhf_of m) m.rent else 0);
  rent_relief = pos (if is_taxed m then relief m.rent else 0);
  total_employee_deductions = pos (employee_pension_of m + nhf_of m + paye_of m);
  total_employer_costs = pos (employer_pension_of m + nsitf_of m);
}
