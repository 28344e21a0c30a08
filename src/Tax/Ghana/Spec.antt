-- ===== src/Tax/Ghana/Spec.antt =====
-- The Ghanaian deductions over the natural numbers: bands and rates of internal/service/tax/ghana. Tier
-- 2 is 5 % of the employee's pay on top of the 5.5 %, as in engine.go; the comment in pension.go counts
-- it into the 18.5 % that the two contributions make.
use Prim.Native.Nat.{min}
use payflow_backend.Common.{ℕ, ◌+◌, ◌-◌, ◌*◌, ◌/◌, List, [], ◌∷◌, Bool, ◌==◌, if◌then◌else◌}
use payflow_backend.Common.Int.{pos}
use payflow_backend.Tax.Types.{GhanaInput, GhanaResult}
use payflow_backend.Tax.Schedule.{schedule_tax, bands}

-- Per cent of an amount, rounded down to the pesewa; the fourth band's 17 is 17.5 %.
unfoldable pub percent : ℕ → ℕ → ℕ
percent x r = if r == 17 then x * 175 / 1000 else x * r / 100

abbrev pub table : List (ℕ × ℕ)
table =
    (588_000, 0)
    ∷ (720_000, 5)
    ∷ (876_000, 10)
    ∷ (4_676_000, 17)
    ∷ (23_876_000, 25)
    ∷ (60_500_000, 30)
    ∷ (0, 35)
    ∷ []

unfoldable pub annual_tax : ℕ → ℕ
annual_tax t = schedule_tax percent (bands 0 table) t

-- One employee's month, in pesewas, and which deductions the business has switched on.
pub record Month : Type 0 where
  pub basic : ℕ
  pub housing : ℕ
  pub transport : ℕ
  pub other : ℕ
  pub pension_on : Bool
  pub paye_on : Bool

abbrev pub gross_of : Month → ℕ
gross_of m = m.basic + m.housing + m.transport + m.other

abbrev pub input_of : Month → GhanaInput
input_of m = record {
  basic_pay = pos m.basic;
  housing_pay = pos m.housing;
  transport_pay = pos m.transport;
  other_pay = pos m.other;
  gross_pay = pos (gross_of m);
  pension_enabled = m.pension_on;
  paye_enabled = m.paye_on;
}

-- `permille` of the insurable basic pay.
unfoldable pub contribution_of : ℕ → Month → ℕ
contribution_of permille m = if m.pension_on then min m.basic 6_900_000 * permille / 1000 else 0

unfoldable pub taxable_of : Month → ℕ
taxable_of m = if m.paye_on then (gross_of m - contribution_of 55 m) * 12 else 0

unfoldable pub result_of : Month → GhanaResult
result_of m = record {
  paye = pos (annual_tax (taxable_of m) / 12);
  employee_pension = pos (contribution_of 55 m);
  tier2_pension = pos (contribution_of 50 m);
  employer_pension = pos (contribution_of 130 m);
  pension_base = pos m.basic;
  annual_gross = pos (gross_of m * 12);
  annual_taxable_income = pos (taxable_of m);
  total_employee_deductions =
      pos (contribution_of 55 m + contribution_of 50 m + annual_tax (taxable_of m) / 12);
  total_employer_costs = pos (contribution_of 130 m);
}
