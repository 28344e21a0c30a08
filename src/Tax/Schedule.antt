-- ===== src/Tax/Schedule.antt =====
-- A progressive schedule as the tax acts state it: each band takes its own share of the income that

-- falls in it. The loop of `applyBrackets` computes it, and its laws hold for every schedule.
pub mod Laws
pub mod Refinement
use Prim.Native.Nat.{min}
use payflow_backend.Common.{
  ℕ, zero, suc, ◌+◌, ◌-◌, ◌*◌, ◌/◌, ◌^◌, ◌≤◌, ◌<◌, ◌≡◌, refl, ◌⊎◌, List, [], ◌∷◌, map, arith, ◌==◌,
  if◌then◌else◌, All, Bool-cases, inl, inr,
}
use payflow_backend.Common.Int.{ℤ, pos}
use payflow_backend.Common.Int64.{add64, sub64, add64-pos, sub64-pos}
use payflow_backend.Tax.Brackets.{Bracket, bracket, taxable_in_bracket, bracket_loop}

-- A band of incomes above `lower`, `width` wide, or without end if `width` is 0.
pub record Band : Type 0 where
  pub lower : ℕ
  pub width : ℕ
  pub rate : ℕ

abbrev pub band_income : Band → ℕ → ℕ
band_income b t = if b.width == 0 then t - b.lower else min (t - b.lower) b.width

module _ (share : ℕ → ℕ → ℕ) where
  unfoldable pub schedule_tax : List Band → ℕ → ℕ
  schedule_tax [] t = 0
  schedule_tax (b ∷ bs) t = share (band_income b t) b.rate + schedule_tax bs t

-- The bands that a table of cumulative ceilings and rates means, from `prev` on.
abbrev pub bands : ℕ → List (ℕ × ℕ) → List Band
bands prev [] = []
bands prev ((c, r) ∷ rest) = record { lower = prev; width = c - prev; rate = r } ∷ bands c rest

-- The ceilings rise, only the last one may be 0, and the rates are percentages.
abbrev pub IsRising : ℕ → List (ℕ × ℕ) → Type 0
IsRising prev [] = Unit
IsRising prev ((c, r) ∷ []) = ((c ≡ 0) ⊎ (prev < c)) × (r ≤ 100)
IsRising prev ((c, r) ∷ rest) = (prev < c) × (r ≤ 100) × IsRising c rest

-- A rate's share grows with the income, and never faster than it.
pub record IsShare (share : ℕ → ℕ → ℕ) : Type 0 where
  pub share_zero : (r : ℕ) → share 0 r ≡ 0
  pub share_mono : (x y r : ℕ) → x ≤ y → share x r ≤ share y r
  pub share_step : (x y r : ℕ) → x ≤ y → r ≤ 100 → share y r + x ≤ share x r + y
