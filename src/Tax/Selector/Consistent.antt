-- ===== src/Tax/Selector/Consistent.antt =====
-- The totals of a result are the sums of its parts, whichever country's engine made it.
use text.Mathlib.Text.{◌==◌ as str_eq}
use Prim.Native.String.{String}
use payflow_backend.Common.{
  ◌≡◌, refl, Bool, true, false, if◌then◌else◌, arith, inl, inr, sym, ◌∙◌, Bool-cases,
}
use payflow_backend.Common.Int.{ℤ, pos}
use payflow_backend.Common.Int64.{
  Fits, add64, mul64, add64_comm, add64_assoc, add64_zero, add64-Fits, mul64-Fits, div64-Fits,
}
use payflow_backend.Tax.Types.{Input, Result}
use payflow_backend.Tax.Nigeria
use payflow_backend.Tax.Ghana
use payflow_backend.Tax.Selector.{calculate_ghana, calculate_for_country}

-- The employee's deductions are the three that a payslip shows, and the employer's costs the two.
pub record IsConsistent (r : Result) : Type 0 where
  pub employee_total : r.total_employee_deductions ≡ add64 (add64 r.paye r.employee_pension) r.nhf
  pub employer_total : r.total_employer_costs ≡ add64 r.employer_pension r.nsitf

Fits-if : (b : Bool) (x : ℤ) → Fits x → Fits (if b then x else pos 0)
Fits-if true x h = h
Fits-if false x h = omega arith

employer_pension-Fits : (basic : ℤ) → Fits (Ghana.calculate_employer_pension basic)
unfolding Ghana.calculate_employer_pension
employer_pension-Fits basic =
    div64-Fits (mul64 (Ghana.capped_base basic) (pos 13)) 100
      (mul64-Fits (Ghana.capped_base basic) (pos 13)) (omega arith)

rotate : (a b c : ℤ) → add64 (add64 a b) c ≡ add64 (add64 c a) b
rotate a b c = add64_comm (add64 a b) c ∙ sym (add64_assoc c a b)

nigeria-IsConsistent : (i : Input) → IsConsistent (Nigeria.calculate i)
unfolding Nigeria.calculate
nigeria-IsConsistent i = record { employee_total = rotate _ _ _; employer_total = refl }

ghana-IsConsistent : (i : Input) → IsConsistent (calculate_ghana i)
unfolding calculate_ghana Ghana.calculate
ghana-IsConsistent i = record {
  employee_total = add64_comm _ _ ∙ sym (add64_zero _ (add64-Fits _ _));
  employer_total = sym (add64_zero _ (Fits-if _ _ (employer_pension-Fits i.basic_pay)));
}

-- For every currency and every input, also one whose int64 sums wrap: the total of the employee's
-- deductions is PAYE plus pension plus NHF, and the employer's costs are pension plus NSITF.
pub calculate_for_country-IsConsistent :
    (currency : String) (i : Input) → IsConsistent (calculate_for_country currency i)
unfolding calculate_for_country
calculate_for_country-IsConsistent currency i = elim (Bool-cases (str_eq currency "GHS")) [
  | inl ghs ↦ rw ghs (ghana-IsConsistent i)
  | inr other ↦ rw other (nigeria-IsConsistent i)
]
