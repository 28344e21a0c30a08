-- ===== src/Tax/Selector/Laws.antt =====
-- The choice between the two engines, with what each of them computes.
use text.Mathlib.Text.{◌==◌ as str_eq}
use text.Mathlib.TextEquality.{eq_iff}
use Prim.Native.String.{String}
use payflow_backend.Common.{
  ◌+◌, ◌*◌, ◌/◌, ◌^◌, ◌<◌, ◌≡◌, refl, sym, ◌∙◌, ◌⊎◌, inl, inr, Bool-cases, true≢false, arith,
}
use payflow_backend.Common.Int.{pos}
use payflow_backend.Common.Int64.{add64-pos}
use payflow_backend.Tax.Types.{Result}
use payflow_backend.Tax.Nigeria.Spec.{Month, gross_of, input_of, result_of}
use payflow_backend.Tax.Nigeria.Laws.{calculate-result_of}
use payflow_backend.Tax.Ghana.Spec.{
  annual_tax, Month as GhanaMonth, contribution_of, taxable_of, gross_of as gross_of_ghana,
  result_of as result_of_ghana,
}
use payflow_backend.Tax.Ghana.Laws.{calculate-result_of_ghana, contribution_le}
use payflow_backend.Tax.Selector.{of_ghana, calculate_ghana, calculate_for_country}

-- The same month, for the other engine: it knows neither rent, nor NHF, nor NSITF.
abbrev pub ghana_month : Month → GhanaMonth
ghana_month m = record {
  basic = m.basic;
  housing = m.housing;
  transport = m.transport;
  other = m.other;
  pension_on = m.pension_on;
  paye_on = m.paye_on;
}

-- The Ghanaian result in the shape that both countries share: the employee's pension is both tiers.
unfoldable pub shared_result_of : GhanaMonth → Result
shared_result_of m = record {
  paye = pos (annual_tax (taxable_of m) / 12);
  employee_pension = pos (contribution_of 55 m + contribution_of 50 m);
  nhf = pos 0;
  employer_pension = pos (contribution_of 130 m);
  nsitf = pos 0;
  pension_base = pos m.basic;
  annual_gross = pos (gross_of_ghana m * 12);
  annual_taxable_income = pos (taxable_of m);
  rent_relief = pos 0;
  total_employee_deductions =
      pos (contribution_of 55 m + contribution_of 50 m + annual_tax (taxable_of m) / 12);
  total_employer_costs = pos (contribution_of 130 m);
}

of_ghana-result_of :
    (m : GhanaMonth) → gross_of_ghana m < 2 ^ 50 → of_ghana (result_of_ghana m) ≡ shared_result_of m
unfolding of_ghana result_of_ghana shared_result_of
of_ghana-result_of m h =
    rw (add64-pos (contribution_of 55 m) (contribution_of 50 m) (omega (arith, contribution_le m)))
      refl

ghana_engine :
    (m : Month)
    → gross_of m < 2 ^ 50
    → calculate_ghana (input_of m) ≡ shared_result_of (ghana_month m)
unfolding calculate_ghana
ghana_engine m h =
    rw (calculate-result_of_ghana (ghana_month m) h) (of_ghana-result_of (ghana_month m) h)

-- With non-negative amounts, a gross pay that is the sum of the parts, and a gross pay and a rent below
-- 2 ^ 50: in the currency GHS every field of the result is the amount that the Ghanaian bands and
-- rates give, and in any other currency the one that the Nigerian rules give.
pub calculate_for_country-result_of :
    (currency : String) (m : Month)
    → gross_of m < 2 ^ 50
    → m.rent < 2 ^ 50
    → ((currency ≡ "GHS")
        × (calculate_for_country currency (input_of m) ≡ shared_result_of (ghana_month m)))
      ⊎ ((currency ≡ "GHS" → ⊥) × (calculate_for_country currency (input_of m) ≡ result_of m))
unfolding calculate_for_country
calculate_for_country-result_of currency m small small_rent =
    elim (Bool-cases (str_eq currency "GHS")) [
      | inl ghs ↦ inl ((eq_iff currency "GHS").0 ghs, rw ghs (ghana_engine m small))
      | inr other ↦ inr (
        λ same. true≢false (sym ((eq_iff currency "GHS").1 same) ∙ other),
        rw other (calculate-result_of m small small_rent),
      )
    ]
