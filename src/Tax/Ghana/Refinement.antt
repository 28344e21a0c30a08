-- ===== src/Tax/Ghana/Refinement.antt =====
-- The int64 loop over the Ghanaian brackets computes the schedule.
use payflow_backend.Common.{ℕ, ◌+◌, ◌-◌, ◌*◌, ◌^◌, ◌≤◌, ◌<◌, ◌≡◌, arith, ap, ◌∙◌}
use payflow_backend.Common.Int.{pos}
use payflow_backend.Common.Int64.{scaled}
use payflow_backend.Tax.Schedule.{IsRising, IsShare}
use payflow_backend.Tax.Schedule.Laws.{schedule_tax_below, schedule_tax-le-top}
use payflow_backend.Tax.Schedule.Refinement.{bracket_loop-schedule}
use payflow_backend.Tax.Ghana.{bracket_share, apply_brackets}
use payflow_backend.Tax.Ghana.Spec.{percent, table, annual_tax}

pub table-IsRising : IsRising 0 table
table-IsRising = ground arith

percent_step : (x y r : ℕ) → x ≤ y → r ≤ 100 → percent y r + x ≤ percent x r + y
unfolding percent
percent_step x y r h k = let grows : y * r ≤ x * r + (y - x) * 100 = grind arith in ground arith

percent_mono : (x y r : ℕ) → x ≤ y → percent x r ≤ percent y r
unfolding percent
percent_mono x y r h = let grows : x * r ≤ y * r = grind arith in ground arith

pub percent-IsShare : IsShare percent
unfolding percent
percent-IsShare = record {
  share_zero = λ r. ground arith;
  share_mono = percent_mono;
  share_step = percent_step;
}

bracket_share-percent :
    (x r : ℕ) → x < 2 ^ 55 → r ≤ 100 → bracket_share (pos x) (pos r) ≡ pos (percent x r)
unfolding bracket_share percent
bracket_share-percent x r h k =
    rw (scaled x 175 1000 h (omega arith)) (rw (scaled x r 100 h (omega arith)) (ground arith))

-- The loop over the brackets charges each band its own rate.
pub apply_brackets-annual_tax : (t : ℕ) → t < 2 ^ 55 → apply_brackets (pos t) ≡ pos (annual_tax t)
unfolding apply_brackets annual_tax
apply_brackets-annual_tax t h =
    bracket_loop-schedule bracket_share percent bracket_share-percent percent-IsShare t h table 0 0
      table-IsRising (omega arith)
    ∙ ap pos (omega arith)

pub annual_tax_zero : annual_tax 0 ≡ 0
unfolding annual_tax
annual_tax_zero = schedule_tax_below percent percent-IsShare 0 table 0 table-IsRising (omega arith)

percent-le-top : (x r : ℕ) → r ≤ 35 → percent x r * 100 ≤ x * 35
unfolding percent
percent-le-top x r h = let scaled_up : x * r ≤ x * 35 = grind arith in ground arith

pub annual_tax-le-top : (t : ℕ) → annual_tax t * 100 ≤ t * 35
unfolding annual_tax
annual_tax-le-top t =
    schedule_tax-le-top percent 35 percent-le-top table t table-IsRising (omega arith)
