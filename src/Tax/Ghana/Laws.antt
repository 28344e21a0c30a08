-- ===== src/Tax/Ghana/Laws.antt =====
-- The monthly result of the Ghanaian engine against the specification.
use Prim.Native.Nat.{min}
use payflow_backend.Common.{
  ℕ, ◌+◌, ◌-◌, ◌*◌, ◌/◌, ◌^◌, ◌≤◌, ◌<◌, ◌≡◌, refl, ◌&&◌, if◌then◌else◌, arith,
}
use payflow_backend.Common.Int.{ℤ, pos, ltb_ℤ, ◌≤ℤ◌}
use payflow_backend.Common.Int64.{div64, mul64, add64, add64-pos, sub64-pos, mul64-pos, scaled}
use payflow_backend.Tax.Ghana.{
  capped_base, calculate_monthly_paye, calculate_employee_pension, calculate_employer_pension,
  calculate_tier2_pension, calculate,
}
use payflow_backend.Tax.Ghana.Spec.{
  annual_tax, Month, gross_of, input_of, contribution_of, taxable_of, result_of,
}
use payflow_backend.Tax.Ghana.Refinement.{
  apply_brackets-annual_tax, annual_tax_zero, annual_tax-le-top,
}

capped_base_lem : (x : ℕ) → capped_base (pos x) ≡ pos (min x 6_900_000)
capped_base_lem x = ground arith

pub contribution_le : (m : Month) → contribution_of 55 m + contribution_of 50 m ≤ gross_of m / 2
unfolding contribution_of
contribution_le m = ground arith

paye_le : (m : Month) → annual_tax (taxable_of m) / 12 ≤ gross_of m / 2
unfolding taxable_of
paye_le m = ground (arith, annual_tax-le-top (taxable_of m))

module _ (m : Month) (small : gross_of m < 2 ^ 50) where
  contribution :
      (k d permille : ℕ)
      → k < 256
      → min m.basic 6_900_000 * k / d ≡ min m.basic 6_900_000 * permille / 1000
      → (if m.pension_on && ltb_ℤ (pos 0) (pos m.basic)
          then div64 (mul64 (capped_base (pos m.basic)) (pos k)) d
          else pos 0)
        ≡ pos (contribution_of permille m)
  unfolding contribution_of
  contribution k d permille hk e =
      rw (capped_base_lem m.basic)
        (rw (scaled (min m.basic 6_900_000) k d (omega arith) hk) (rw e (ground arith)))

  employee_step :
      (if m.pension_on && ltb_ℤ (pos 0) (pos m.basic)
        then calculate_employee_pension (pos m.basic)
        else pos 0)
      ≡ pos (contribution_of 55 m)
  unfolding calculate_employee_pension
  employee_step = contribution 55 1000 55 (omega arith) refl

  employer_step :
      (if m.pension_on && ltb_ℤ (pos 0) (pos m.basic)
        then calculate_employer_pension (pos m.basic)
        else pos 0)
      ≡ pos (contribution_of 130 m)
  unfolding calculate_employer_pension
  employer_step = contribution 13 100 130 (omega arith) (omega arith)

  tier2_step :
      (if m.pension_on && ltb_ℤ (pos 0) (pos m.basic)
        then calculate_tier2_pension (pos m.basic)
        else pos 0)
      ≡ pos (contribution_of 50 m)
  unfolding calculate_tier2_pension
  tier2_step = contribution 5 100 50 (omega arith) (omega arith)

  deductions_step :
      add64
        (add64 (pos (contribution_of 55 m)) (pos (contribution_of 50 m)))
        (pos (annual_tax (taxable_of m) / 12))
      ≡ pos (contribution_of 55 m + contribution_of 50 m + annual_tax (taxable_of m) / 12)
  deductions_step =
      let a = contribution_of 55 m in
      let b = contribution_of 50 m in
      let t = annual_tax (taxable_of m) / 12 in
      rw (add64-pos a b (omega (arith, contribution_le m)))
        (add64-pos (a + b) t (omega (arith, contribution_le m, paye_le m)))

  paye_step :
      ◌≡◌ {A = ℤ × ℤ}
        (if m.paye_on && ltb_ℤ (pos 0) (pos (gross_of m))
          then calculate_monthly_paye (pos (gross_of m)) (pos (contribution_of 55 m))
          else (pos 0, pos 0))
        (pos (annual_tax (taxable_of m) / 12), pos (taxable_of m))
  unfolding calculate_monthly_paye taxable_of div64
  paye_step =
      let g = gross_of m in
      let s = contribution_of 55 m in
      let within : s ≤ g = omega (arith, contribution_le m) in
      rw (sub64-pos g s (omega arith) within) (
        rw (mul64-pos (g - s) 12 (omega arith)) (
          rw (apply_brackets-annual_tax ((g - s) * 12) (omega arith))
            (ground (arith, annual_tax_zero))))

-- With non-negative amounts, a gross pay that is the sum of the parts and is below 2 ^ 50 pesewas,
-- every field of the engine's result is the amount that the bands and rates give over the natural
-- numbers, where Tier 2 is deducted from the employee's pay besides the 5.5 per cent: no intermediate
-- int64 value wraps.
pub calculate-result_of_ghana :
    (m : Month) → gross_of m < 2 ^ 50 → calculate (input_of m) ≡ result_of m
unfolding calculate result_of
calculate-result_of_ghana m hg = rw (employee_step m hg) (
    rw (employer_step m hg) (
      rw (tier2_step m hg) (
        rw (paye_step m hg)
          (rw (deductions_step m hg) (rw (mul64-pos (gross_of m) 12 (omega arith)))))))

-- Under the same bound the deductions are an amount from 0 up to the gross pay, so the take-home
-- pay is never negative.
pub calculate_take_home_ghana :
    (m : Month)
    → gross_of m < 2 ^ 50
    → let r = calculate (input_of m) in
      (pos 0 ≤ℤ r.total_employee_deductions) × (r.total_employee_deductions ≤ℤ pos (gross_of m))
unfolding result_of
calculate_take_home_ghana m hg =
    rw (calculate-result_of_ghana m hg) (omega (arith, contribution_le m, paye_le m))
