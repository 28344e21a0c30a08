-- ===== src/Tax/Nigeria/Refinement.antt =====
-- The int64 engine computes what the specification says, to the kobo, for all amounts below 2 ^ 50.
use native.Mathlib.Decide.{dec_le}
use payflow_backend.Common.{
  ℕ, ◌+◌, ◌-◌, ◌*◌, ◌/◌, ◌^◌, ◌≤◌, ◌<◌, ◌≡◌, if◌then◌else◌, arith, ap, ◌∙◌, leb,
}
use payflow_backend.Common.Int.{ℤ, pos, sub_ℕ, leb_ℤ}
use payflow_backend.Common.Int64.{div64, sub64, sub64-pos, mul64-pos, sub64-sub_ℕ, scaled}
use payflow_backend.Tax.Schedule.{IsRising, IsShare}
use payflow_backend.Tax.Schedule.Laws.{schedule_tax_below, schedule_tax-le}
use payflow_backend.Tax.Schedule.Refinement.{bracket_loop-schedule}
use payflow_backend.Tax.Nigeria.{
  bracket_share, apply_brackets, capped_rent_relief, calculate_monthly_paye,
}
use payflow_backend.Tax.Nigeria.Spec.{percent, table, annual_tax, relief, taxable, monthly_paye}

pub table-IsRising : IsRising 0 table
table-IsRising = ground arith

percent_step : (x y r : ℕ) → x ≤ y → r ≤ 100 → percent y r + x ≤ percent x r + y
unfolding percent
percent_step x y r h k = let grows : y * r ≤ x * r + (y - x) * 100 = grind arith in omega arith

percent_mono : (x y r : ℕ) → x ≤ y → percent x r ≤ percent y r
unfolding percent
percent_mono x y r h = let grows : x * r ≤ y * r = grind arith in omega arith

pub percent-IsShare : IsShare percent
unfolding percent
percent-IsShare = record {
  share_zero = λ r. omega arith;
  share_mono = percent_mono;
  share_step = percent_step;
}

bracket_share-percent :
    (x r : ℕ) → x < 2 ^ 55 → r ≤ 100 → bracket_share (pos x) (pos r) ≡ pos (percent x r)
unfolding bracket_share percent div64
bracket_share-percent x r h k = let fits : x * r < 2 ^ 63 = grind arith in rw (mul64-pos x r fits)

-- The loop over the brackets charges each band its own rate.
pub apply_brackets-annual_tax : (t : ℕ) → t < 2 ^ 55 → apply_brackets (pos t) ≡ pos (annual_tax t)
unfolding apply_brackets annual_tax
apply_brackets-annual_tax t h =
    bracket_loop-schedule bracket_share percent bracket_share-percent percent-IsShare t h table 0 0
      table-IsRising (omega arith)
    ∙ ap pos (omega arith)

capped_rent_relief-relief :
    (rent : ℕ) → rent < 2 ^ 55 → capped_rent_relief (pos rent) ≡ pos (relief rent)
unfolding capped_rent_relief
capped_rent_relief-relief rent h = rw (scaled rent 20 100 h (omega arith)) (ground arith)

annual_taxable-sub_ℕ :
    (g p n r : ℕ)
    → g < 2 ^ 50
    → p + n ≤ g
    → r ≤ 50_000_000
    → sub64 (sub64 (sub64 (pos (g * 12)) (pos (p * 12))) (pos (n * 12))) (pos r)
      ≡ sub_ℕ (g * 12 - p * 12 - n * 12) r
annual_taxable-sub_ℕ g p n r hg h hr =
    rw (sub64-pos (g * 12) (p * 12) (omega arith) (omega arith)) (
      rw (sub64-pos (g * 12 - p * 12) (n * 12) (omega arith) (omega arith))
        (sub64-sub_ℕ (g * 12 - p * 12 - n * 12) r (omega arith) (omega arith)))

pub annual_tax_zero : annual_tax 0 ≡ 0
unfolding annual_tax
annual_tax_zero = schedule_tax_below percent percent-IsShare 0 table 0 table-IsRising (omega arith)

pub annual_tax-le : (t : ℕ) → annual_tax t ≤ t
unfolding annual_tax
annual_tax-le t = schedule_tax-le percent percent-IsShare table t table-IsRising

-- The two exits of the function: no tax without taxable income, and a twelfth of the annual tax.
paye_exit :
    (a r : ℕ)
    → a < 2 ^ 55
    → ◌≡◌ {A = ℤ × ℤ × ℤ}
        (if leb_ℤ (sub_ℕ a r) (pos 0)
          then (pos 0, pos 0, pos r)
          else (div64 (apply_brackets (sub_ℕ a r)) 12, sub_ℕ a r, pos r))
        (pos (annual_tax (a - r) / 12), pos (a - r), pos r)
unfolding div64
paye_exit a r h = elim (dec_le a r) [
  | yes none_left ↦ let e : a - r ≡ 0 = omega arith in rw (e, annual_tax_zero) (ground arith)
  | no some_left ↦
      let e : sub_ℕ a r ≡ pos (a - r) = ground arith in
      rw (e, apply_brackets-annual_tax (a - r) (omega arith)) (ground arith)
]

-- The monthly PAYE on non-negative amounts whose pension and NHF stay within the gross pay.
pub calculate_monthly_paye-monthly_paye :
    (g p n rent : ℕ)
    → g < 2 ^ 50
    → rent < 2 ^ 50
    → p + n ≤ g
    → calculate_monthly_paye (pos g) (pos p) (pos n) (pos rent) ≡ (
        if leb g 7_000_000
        then (pos 0, pos 0, pos 0)
        else (pos (monthly_paye g p n rent), pos (taxable g p n rent), pos (relief rent)))
unfolding calculate_monthly_paye monthly_paye
calculate_monthly_paye-monthly_paye g p n rent hg hr h =
    let e : taxable g p n rent ≡ g * 12 - p * 12 - n * 12 - relief rent = omega arith in
    rw (mul64-pos g 12 (omega arith)) (
      rw (mul64-pos p 12 (omega arith)) (
        rw (mul64-pos n 12 (omega arith)) (
          rw (capped_rent_relief-relief rent (omega arith)) (
            rw (annual_taxable-sub_ℕ g p n (relief rent) hg h (omega arith)) (
              rw (paye_exit (g * 12 - p * 12 - n * 12) (relief rent) (omega arith))
                (rw e (ground arith)))))))
