-- ===== src/Tax/Schedule/Refinement.antt =====
-- The loop of `applyBrackets` over int64 computes the schedule, and no step of it overflows.
use native.Mathlib.Decide.{dec_le}
use payflow_backend.Common.{
  ℕ, ◌+◌, ◌-◌, ◌^◌, ◌≤◌, ◌<◌, ◌≡◌, refl, ◌⊎◌, List, [], ◌∷◌, arith, inr, ap, ◌∙◌,
}
use payflow_backend.Common.Int.{ℤ, pos}
use payflow_backend.Common.Int64.{add64-pos, sub64-pos}
use payflow_backend.Tax.Brackets.{Bracket, bracket, taxable_in_bracket, bracket_loop}
use payflow_backend.Tax.Schedule.{band_income, schedule_tax, bands, IsRising, IsShare}
use payflow_backend.Tax.Schedule.Laws.{schedule_tax_below}

abbrev pub table_brackets : List (ℕ × ℕ) → List Bracket
table_brackets [] = []
table_brackets ((c, r) ∷ rest) = bracket c r ∷ table_brackets rest

-- The part of the income in a bracket that the loop reaches, as a number.
taxable_in_bracket_lem :
    (t prev c r : ℕ)
    → t < 2 ^ 55
    → prev < t
    → (c ≡ 0) ⊎ (prev < c)
    → taxable_in_bracket (pos t) (pos prev) (bracket c r)
      ≡ pos (band_income (record { lower = prev; width = c - prev; rate = r }) t)
unfolding taxable_in_bracket
taxable_in_bracket_lem t prev c r ht hp h = ground (arith, sub64-pos t prev, sub64-pos c prev)

module _ (share64 : ℤ → ℤ → ℤ) (share : ℕ → ℕ → ℕ)
    (agrees : (x r : ℕ) → x < 2 ^ 55 → r ≤ 100 → share64 (pos x) (pos r) ≡ pos (share x r))
    (is : IsShare share) where
  share-le : (x r : ℕ) → r ≤ 100 → share x r ≤ x
  share-le x r h = omega (arith, is.share_step 0 x r (omega arith) h, is.share_zero r)

  module _ (t : ℕ) (small : t < 2 ^ 55) where
    -- One round of the loop.
    bracket_loop_step :
        (c r : ℕ) (bs : List Bracket) (tax prev : ℕ)
        → (c ≡ 0) ⊎ (prev < c)
        → r ≤ 100
        → tax ≤ prev
        → prev < t
        → bracket_loop share64 (pos t) (bracket c r ∷ bs) (pos tax) (pos prev)
          ≡ bracket_loop share64
              (pos t)
              bs
              (pos (
                tax
                + share (band_income (record { lower = prev; width = c - prev; rate = r }) t) r))
              (pos c)
    unfolding bracket_loop
    bracket_loop_step c r bs tax prev hc hr htax hp =
        let x : ℕ = band_income (record { lower = prev; width = c - prev; rate = r }) t in
        let hx : x ≤ t - prev = ground arith in
        rw (taxable_in_bracket_lem t prev c r small hp hc) (
          rw (agrees x r (omega arith) hr)
            (rw (add64-pos tax (share x r) (omega (arith, share-le x r hr))) (ground arith)))

    -- The loop breaks once the income lies below the bracket.
    bracket_loop_stop :
        (bs : List Bracket) (tax prev : ℕ)
        → t ≤ prev
        → bracket_loop share64 (pos t) bs (pos tax) (pos prev) ≡ pos tax
    unfolding bracket_loop
    bracket_loop_stop [] tax prev h = refl
    bracket_loop_stop (b ∷ bs) tax prev h = ground arith

    pub bracket_loop-schedule :
        (table : List (ℕ × ℕ)) (tax prev : ℕ)
        → IsRising prev table
        → tax ≤ prev
        → bracket_loop share64 (pos t) (table_brackets table) (pos tax) (pos prev)
          ≡ pos (tax + schedule_tax share (bands prev table) t)
    unfolding schedule_tax
    bracket_loop-schedule [] tax prev h htax = unfold bracket_loop in ap pos (omega arith)
    bracket_loop-schedule ((c, r) ∷ []) tax prev h htax = elim (dec_le t prev) [
      | yes below ↦
          bracket_loop_stop _ tax prev below
          ∙ ap pos (omega (arith, schedule_tax_below share is prev ((c, r) ∷ []) t h below))
      | no above ↦
          bracket_loop_step c r [] tax prev h.0 h.1 htax (omega arith)
          ∙ unfold bracket_loop in ap pos (omega arith)
    ]
    bracket_loop-schedule ((c, r) ∷ (d ∷ rest)) tax prev h htax = elim (dec_le t prev) [
      | yes below ↦
          bracket_loop_stop _ tax prev below
          ∙ ap pos (omega (arith, schedule_tax_below share is prev ((c, r) ∷ (d ∷ rest)) t h below))
      | no above ↦
          let x : ℕ = band_income (record { lower = prev; width = c - prev; rate = r }) t in
          let hx : x ≤ c - prev = ground arith in
          bracket_loop_step c r (table_brackets (d ∷ rest)) tax prev (inr h.0) h.1 htax
            (omega arith)
          ∙ bracket_loop-schedule (d ∷ rest) (tax + share x r) c h.2
              (omega (arith, share-le x r h.1))
          ∙ ap pos (omega arith)
    ]
