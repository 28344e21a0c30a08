-- ===== src/Tax/Nigeria/Laws.antt =====
-- The monthly result of the Nigerian engine: agreement with the specification, and what an employee
-- and a business can rely on.
use payflow_backend.Common.{
  ℕ, ◌+◌, ◌*◌, ◌/◌, ◌^◌, ◌≤◌, ◌<◌, ◌≡◌, Bool, false, ◌&&◌, leb, if◌then◌else◌, arith, ap, ◌∙◌,
}
use payflow_backend.Common.Int.{ℤ, pos, ltb_ℤ, ◌≤ℤ◌, ◌+ℤ◌, int_laws}
use payflow_backend.Common.Int64.{div64, mul64, add64, add64-pos, mul64-pos, scaled}
use payflow_backend.Tax.Schedule.Laws.{schedule_tax_mono, schedule_tax_step, schedule_tax-le-top}
use payflow_backend.Tax.Schedule.{bands}
use payflow_backend.Tax.Nigeria.{
  calculate_monthly_paye, calculate_employee_pension, calculate_employer_pension, calculate_nhf,
  calculate_nsitf, calculate,
}
use payflow_backend.Tax.Nigeria.Spec.{
  percent, table, annual_tax, relief, taxable, monthly_paye, Month, gross_of, input_of,
  pension_base_of, employee_pension_of, employer_pension_of, nhf_of, nsitf_of, paye_of, is_taxed,
  result_of,
}
use payflow_backend.Tax.Nigeria.Refinement.{
  table-IsRising, percent-IsShare, annual_tax-le, calculate_monthly_paye-monthly_paye,
}

-- A contribution that is switched on, of a base that may be 0.
contribution :
    (on : Bool) (x k d : ℕ)
    → x < 2 ^ 55
    → k < 256
    → (if on && ltb_ℤ (pos 0) (pos x) then div64 (mul64 (pos x) (pos k)) d else pos 0)
      ≡ pos (if on then x * k / d else 0)
contribution on x k d h small = rw (scaled x k d h small) (ground arith)

deductions_le : (m : Month) → employee_pension_of m + nhf_of m ≤ gross_of m
unfolding employee_pension_of nhf_of
deductions_le m = ground arith

paye_of-le : (m : Month) → paye_of m + employee_pension_of m + nhf_of m ≤ gross_of m
unfolding paye_of monthly_paye
paye_of-le m = ground (
  arith,
  deductions_le m,
  annual_tax-le (taxable (gross_of m) (employee_pension_of m) (nhf_of m) m.rent),
)

-- The PAYE step of the engine, switched on or off.
paye_step :
    (m : Month)
    → gross_of m < 2 ^ 50
    → m.rent < 2 ^ 50
    → ◌≡◌ {A = ℤ × ℤ × ℤ}
        (if m.paye_on && ltb_ℤ (pos 0) (pos (gross_of m))
          then calculate_monthly_paye
              (pos (gross_of m))
              (pos (employee_pension_of m))
              (pos (nhf_of m))
              (pos m.rent)
          else (pos 0, pos 0, pos 0))
        (
          pos (paye_of m),
          pos (
              if is_taxed m
              then taxable (gross_of m) (employee_pension_of m) (nhf_of m) m.rent
              else 0),
          pos (if is_taxed m then relief m.rent else 0),
        )
unfolding paye_of monthly_paye
paye_step m hg hr =
    rw
      (calculate_monthly_paye-monthly_paye (gross_of m) (employee_pension_of m) (nhf_of m) m.rent hg
        hr (deductions_le m))
      (ground arith)

module _ (m : Month) (small : gross_of m < 2 ^ 50) where
  employee_step :
      (if m.pension_on && ltb_ℤ (pos 0) (pos (pension_base_of m))
        then calculate_employee_pension (pos (pension_base_of m))
        else pos 0)
      ≡ pos (employee_pension_of m)
  unfolding calculate_employee_pension employee_pension_of
  employee_step = contribution m.pension_on (pension_base_of m) 8 100 (omega arith) (omega arith)

  employer_step :
      (if m.pension_on && ltb_ℤ (pos 0) (pos (pension_base_of m))
        then calculate_employer_pension (pos (pension_base_of m))
        else pos 0)
      ≡ pos (employer_pension_of m)
  unfolding calculate_employer_pension employer_pension_of
  employer_step = contribution m.pension_on (pension_base_of m) 10 100 (omega arith) (omega arith)

  nhf_step :
      (if m.nhf_on && ltb_ℤ (pos 0) (pos m.basic) then calculate_nhf (pos m.basic) else pos 0)
      ≡ pos (nhf_of m)
  unfolding calculate_nhf nhf_of
  nhf_step = contribution m.nhf_on m.basic 25 1000 (omega arith) (omega arith)

  nsitf_step :
      (if m.nsitf_on && ltb_ℤ (pos 0) (pos (gross_of m))
        then calculate_nsitf (pos (gross_of m))
        else pos 0)
      ≡ pos (nsitf_of m)
  unfolding calculate_nsitf nsitf_of
  nsitf_step =
      contribution m.nsitf_on (gross_of m) 1 100 (omega arith) (omega arith) ∙ ap pos (ground arith)

  base_step :
      add64 (add64 (pos m.basic) (pos m.housing)) (pos m.transport) ≡ pos (pension_base_of m)
  base_step =
      rw (add64-pos m.basic m.housing (omega arith))
        (add64-pos (m.basic + m.housing) m.transport (omega arith))

  deductions_step :
      add64 (add64 (pos (employee_pension_of m)) (pos (nhf_of m))) (pos (paye_of m))
      ≡ pos (employee_pension_of m + nhf_of m + paye_of m)
  deductions_step =
      rw (add64-pos (employee_pension_of m) (nhf_of m) (omega (arith, paye_of-le m)))
        (add64-pos (employee_pension_of m + nhf_of m) (paye_of m) (omega (arith, paye_of-le m)))

  costs_step :
      add64 (pos (employer_pension_of m)) (pos (nsitf_of m))
      ≡ pos (employer_pension_of m + nsitf_of m)
  unfolding employer_pension_of nsitf_of
  costs_step = add64-pos (employer_pension_of m) (nsitf_of m) (ground arith)

-- With non-negative amounts, a gross pay that is the sum of the parts and a gross pay and a rent
-- below 2 ^ 50 kobo, every field of the engine's result is the amount that the specification gives:
-- no intermediate int64 value wraps.
pub calculate-result_of :
    (m : Month) → gross_of m < 2 ^ 50 → m.rent < 2 ^ 50 → calculate (input_of m) ≡ result_of m
unfolding calculate result_of
calculate-result_of m hg hr = rw (base_step m hg) (
    rw (employee_step m hg) (
      rw (employer_step m hg) (
        rw (nhf_step m hg) (
          rw (nsitf_step m hg) (
            rw (paye_step m hg hr) (
              rw (deductions_step m hg)
                (rw (costs_step m hg) (rw (mul64-pos (gross_of m) 12 (omega arith))))))))))

percent-le-top : (x r : ℕ) → r ≤ 25 → percent x r * 100 ≤ x * 25
unfolding percent
percent-le-top x r h = let scaled : x * r ≤ x * 25 = grind arith in omega arith

annual_tax-le-quarter : (t : ℕ) → annual_tax t * 4 ≤ t
unfolding annual_tax
annual_tax-le-quarter t =
    omega
      (arith, schedule_tax-le-top percent 25 percent-le-top table t table-IsRising (omega arith))

annual_tax_mono : (t u : ℕ) → t ≤ u → annual_tax t ≤ annual_tax u
unfolding annual_tax
annual_tax_mono t u h = schedule_tax_mono percent percent-IsShare (bands 0 table) t u h

annual_tax_step : (t u : ℕ) → t ≤ u → annual_tax u + t ≤ annual_tax t + u
unfolding annual_tax
annual_tax_step t u h = schedule_tax_step percent percent-IsShare table t u table-IsRising h

paye_of-le-quarter : (m : Month) → paye_of m * 4 ≤ gross_of m
unfolding paye_of monthly_paye
paye_of-le-quarter m =
    ground (
      arith,
      annual_tax-le-quarter (taxable (gross_of m) (employee_pension_of m) (nhf_of m) m.rent),
    )

monthly_paye_rise :
    (g g' p n rent : ℕ)
    → 7_000_000 < g
    → g ≤ g'
    → (monthly_paye g p n rent ≤ monthly_paye g' p n rent)
      × (monthly_paye g' p n rent + g ≤ monthly_paye g p n rent + g')
unfolding monthly_paye
monthly_paye_rise g g' p n rent exempt rise =
    let t = taxable g p n rent in
    let t' = taxable g' p n rent in
    let more : t ≤ t' = omega arith in
    ground (arith, annual_tax_mono t t' more, annual_tax_step t t' more)

-- What the employee keeps is never negative: under the same bounds the deductions are an amount
-- from 0 up to the gross pay, and twelve times the PAYE is at most a quarter of the annual gross.
pub calculate_take_home :
    (m : Month)
    → gross_of m < 2 ^ 50
    → m.rent < 2 ^ 50
    → let r = calculate (input_of m) in
      (pos 0 ≤ℤ r.total_employee_deductions)
      × (r.total_employee_deductions ≤ℤ pos (gross_of m))
      × (r.paye ≤ℤ pos (gross_of m / 4))
unfolding result_of
calculate_take_home m hg hr =
    rw (calculate-result_of m hg hr) (omega (arith, paye_of-le m, paye_of-le-quarter m))

-- Above the minimum wage, with gross pay and rent below 2 ^ 50 kobo and contributions within the
-- lower gross pay, a rise in gross pay never lowers the PAYE and never lowers what is left after
-- it, all else equal.
pub calculate_monthly_paye_rise :
    (g g' p n rent : ℕ)
    → 7_000_000 < g
    → g ≤ g'
    → g' < 2 ^ 50
    → rent < 2 ^ 50
    → p + n ≤ g
    → let before = (calculate_monthly_paye (pos g) (pos p) (pos n) (pos rent)).0 in
      let after = (calculate_monthly_paye (pos g') (pos p) (pos n) (pos rent)).0 in
      (before ≤ℤ after) × (after +ℤ pos g ≤ℤ before +ℤ pos g')
calculate_monthly_paye_rise g g' p n rent exempt rise hg hr h =
    let below : leb g 7_000_000 ≡ false = ground arith in
    let above : leb g' 7_000_000 ≡ false = ground arith in
    let (tax, kept) = monthly_paye_rise g g' p n rent exempt rise in
    rw (calculate_monthly_paye-monthly_paye g p n rent (omega arith) hr h) (
      rw (calculate_monthly_paye-monthly_paye g' p n rent hg hr (omega arith))
        (rw below (rw above (omega int_laws))))
