-- ===== src/Tax/Schedule/Laws.antt =====
-- What holds of every progressive schedule over a rising table.
use payflow_backend.Common.{ℕ, ◌+◌, ◌-◌, ◌*◌, ◌≤◌, ◌≡◌, refl, List, [], ◌∷◌, arith, All}
use payflow_backend.Tax.Schedule.{Band, band_income, schedule_tax, bands, IsRising, IsShare}

-- The income that lies in some band.
covered : List Band → ℕ → ℕ
covered [] t = 0
covered (b ∷ bs) t = band_income b t + covered bs t

abbrev pub RateLe : ℕ → Band → Type 0
RateLe n b = b.rate ≤ n

band_income_mono : (b : Band) (t u : ℕ) → t ≤ u → band_income b t ≤ band_income b u
band_income_mono b t u h = ground arith

RateLe-bands :
    (prev : ℕ) (table : List (ℕ × ℕ)) → IsRising prev table → All (RateLe 100) (bands prev table)
RateLe-bands prev [] h = tt
RateLe-bands prev ((c, r) ∷ []) h = (h.1, tt)
RateLe-bands prev ((c, r) ∷ (d ∷ rest)) h = (h.1, RateLe-bands c (d ∷ rest) h.2)

-- Neighbouring bands do not overlap: what they cover grows as the income does.
covered-bands :
    (prev : ℕ) (table : List (ℕ × ℕ)) (t u : ℕ)
    → IsRising prev table
    → t ≤ u
    → covered (bands prev table) u + (t - prev) ≤ covered (bands prev table) t + (u - prev)
unfolding covered
covered-bands prev [] t u h k = omega arith
covered-bands prev ((c, r) ∷ []) t u h k = ground arith
covered-bands prev ((c, r) ∷ (d ∷ rest)) t u h k =
    ground (arith, covered-bands c (d ∷ rest) t u h.2 k)

module _ (share : ℕ → ℕ → ℕ) (is : IsShare share) where
  -- Income up to the lowest bound is free of tax.
  pub schedule_tax_below :
      (prev : ℕ) (table : List (ℕ × ℕ)) (t : ℕ)
      → IsRising prev table
      → t ≤ prev
      → schedule_tax share (bands prev table) t ≡ 0
  unfolding schedule_tax
  schedule_tax_below prev [] t h k = refl
  schedule_tax_below prev ((c, r) ∷ []) t h k = ground (arith, is.share_zero r)
  schedule_tax_below prev ((c, r) ∷ (d ∷ rest)) t h k =
      ground (arith, is.share_zero r, schedule_tax_below c (d ∷ rest) t h.2 (omega arith))

  pub schedule_tax_mono :
      (bs : List Band) (t u : ℕ) → t ≤ u → schedule_tax share bs t ≤ schedule_tax share bs u
  unfolding schedule_tax
  schedule_tax_mono [] t u h = omega arith
  schedule_tax_mono (b ∷ bs) t u h = omega (
    arith,
    is.share_mono (band_income b t) (band_income b u) b.rate (band_income_mono b t u h),
    schedule_tax_mono bs t u h,
  )

  schedule_tax-covered :
      (bs : List Band) (t u : ℕ)
      → All (RateLe 100) bs
      → t ≤ u
      → schedule_tax share bs u + covered bs t ≤ schedule_tax share bs t + covered bs u
  unfolding schedule_tax covered
  schedule_tax-covered [] t u h k = omega arith
  schedule_tax-covered (b ∷ bs) t u h k = omega (
    arith,
    is.share_step (band_income b t) (band_income b u) b.rate (band_income_mono b t u k) h.0,
    schedule_tax-covered bs t u h.1 k,
  )

  -- More income never means less income after tax.
  pub schedule_tax_step :
      (table : List (ℕ × ℕ)) (t u : ℕ)
      → IsRising 0 table
      → t ≤ u
      → schedule_tax share (bands 0 table) u + t ≤ schedule_tax share (bands 0 table) t + u
  schedule_tax_step table t u h k = omega (
    arith,
    schedule_tax-covered (bands 0 table) t u (RateLe-bands 0 table h) k,
    covered-bands 0 table t u h k,
  )

  pub schedule_tax-le :
      (table : List (ℕ × ℕ)) (t : ℕ) → IsRising 0 table → schedule_tax share (bands 0 table) t ≤ t
  schedule_tax-le table t h = omega (
    arith,
    schedule_tax_step table 0 t h (omega arith),
    schedule_tax_below 0 table 0 h (omega arith),
  )

covered_zero : (bs : List Band) → covered bs 0 ≡ 0
unfolding covered
covered_zero [] = refl
covered_zero (b ∷ bs) = ground (arith, covered_zero bs)

-- Where no rate exceeds `top` per cent, neither does the whole tax.
module _ (share : ℕ → ℕ → ℕ) (top : ℕ)
    (capped : (x r : ℕ) → r ≤ top → share x r * 100 ≤ x * top) where
  schedule_tax-le-covered :
      (bs : List Band) (t : ℕ)
      → All (RateLe top) bs
      → schedule_tax share bs t * 100 ≤ covered bs t * top
  unfolding schedule_tax covered
  schedule_tax-le-covered [] t h = omega arith
  schedule_tax-le-covered (b ∷ bs) t h =
      omega (arith, capped (band_income b t) b.rate h.0, schedule_tax-le-covered bs t h.1)

  pub schedule_tax-le-top :
      (table : List (ℕ × ℕ)) (t : ℕ)
      → IsRising 0 table
      → All (RateLe top) (bands 0 table)
      → schedule_tax share (bands 0 table) t * 100 ≤ t * top
  schedule_tax-le-top table t h k =
      let all_in : covered (bands 0 table) t ≤ t =
        omega (arith, covered-bands 0 table 0 t h (omega arith), covered_zero (bands 0 table)) in
      let scaled : covered (bands 0 table) t * top ≤ t * top = grind arith in
      omega (arith, schedule_tax-le-covered (bands 0 table) t k)
