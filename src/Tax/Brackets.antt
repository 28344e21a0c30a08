-- ===== src/Tax/Brackets.antt =====
-- The loop of `applyBrackets`, which internal/service/tax/paye.go and
-- internal/service/tax/ghana/paye.go both have; they differ in how a bracket's share is rounded.
use payflow_backend.Common.{ℕ, List, [], ◌∷◌, if◌then◌else◌}
use payflow_backend.Common.Int.{ℤ, pos, ltb_ℤ, leb_ℤ, eqb_ℤ}
use payflow_backend.Common.Int64.{add64, sub64}

-- `ceiling` is cumulative, and 0 in the top bracket; `rate` is in per cent.
pub record Bracket : Type 0 where
  pub ceiling : ℤ
  pub rate : ℤ

abbrev pub bracket : ℕ → ℕ → Bracket
bracket c r = record { ceiling = pos c; rate = pos r }

-- What of the income lies in the bracket above `prev`.
unfoldable pub taxable_in_bracket : ℤ → ℤ → Bracket → ℤ
taxable_in_bracket income prev b =
    if eqb_ℤ b.ceiling (pos 0)
    then sub64 income prev
    else if ltb_ℤ b.ceiling income
    then sub64 b.ceiling prev
    else sub64 income prev

module _ (share : ℤ → ℤ → ℤ) (income : ℤ) where
  unfoldable pub bracket_loop : List Bracket → ℤ → ℤ → ℤ
  unfolding taxable_in_bracket
  bracket_loop [] tax prev = tax
  bracket_loop (b ∷ bs) tax prev =
      if leb_ℤ income prev
      then tax
      else bracket_loop bs (add64 tax (share (taxable_in_bracket income prev b) b.rate)) b.ceiling
