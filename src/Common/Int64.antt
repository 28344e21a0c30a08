-- ===== src/Common/Int64.antt =====
-- Go's int64: an integer whose every operation wraps modulo 2 ^ 64, with division towards zero.
use Prim.Native.Nat.{ℕ, suc, ◌+◌, ◌-◌, ◌*◌, ◌/◌, ◌%◌, ◌^◌, ◌≤◌, ◌<◌}
use mathlib.Core.Path.{◌≡◌, sym, ap, ◌∙◌}
use native.Mathlib.Omega.{arith}
use payflow_backend.Common.Tests.{ltb, if◌then◌else◌}
use payflow_backend.Common.Int.{ℤ, pos, negsuc, pos_part, neg_part, sub_ℕ, ◌+ℤ◌, ◌-ℤ◌, ◌*ℤ◌}

-- The value of the low 64 bits, read as two's complement.
unfoldable pub wrap64 : ℤ → ℤ
wrap64 (pos n) = let r = n % 2 ^ 64 in if ltb r (2 ^ 63) then pos r else negsuc (2 ^ 64 - r - 1)
wrap64 (negsuc n) = let r = n % 2 ^ 64 in if ltb r (2 ^ 63) then negsuc r else pos (2 ^ 64 - r - 1)

-- The integers that an int64 holds.
abbrev pub Fits : ℤ → Type 0
Fits a = (pos_part a < 2 ^ 63) × (neg_part a ≤ 2 ^ 63)

pub wrap64-Fits : (a : ℤ) → Fits (wrap64 a)
unfolding wrap64
wrap64-Fits a = ground arith

pub wrap64_of_Fits : (a : ℤ) → Fits a → wrap64 a ≡ a
unfolding wrap64
wrap64_of_Fits a h = ground arith

unfoldable pub add64 : ℤ → ℤ → ℤ
add64 a b = wrap64 (a +ℤ b)

unfoldable pub sub64 : ℤ → ℤ → ℤ
sub64 a b = wrap64 (a -ℤ b)

unfoldable pub mul64 : ℤ → ℤ → ℤ
mul64 a b = wrap64 (a *ℤ b)

unfoldable pub neg64 : ℤ → ℤ
neg64 a = wrap64 (pos 0 -ℤ a)

-- `a / d` for a constant d > 0: towards zero, and never out of range.
unfoldable pub div64 : ℤ → ℕ → ℤ
div64 (pos n) d = pos (n / d)
div64 (negsuc n) d = sub_ℕ 0 (suc n / d)

pub add64_exact : (a b : ℤ) → Fits (a +ℤ b) → add64 a b ≡ a +ℤ b
unfolding add64
add64_exact a b h = wrap64_of_Fits (a +ℤ b) h

pub sub64_exact : (a b : ℤ) → Fits (a -ℤ b) → sub64 a b ≡ a -ℤ b
unfolding sub64
sub64_exact a b h = wrap64_of_Fits (a -ℤ b) h

-- Non-negative operands whose result stays in range.
pub add64-pos : (a b : ℕ) → a + b < 2 ^ 63 → add64 (pos a) (pos b) ≡ pos (a + b)
unfolding add64 wrap64 ◌+ℤ◌
add64-pos a b h = ground arith

pub sub64-pos : (a b : ℕ) → a < 2 ^ 63 → b ≤ a → sub64 (pos a) (pos b) ≡ pos (a - b)
unfolding sub64 wrap64 ◌-ℤ◌
sub64-pos a b h k = ground arith

pub mul64-pos : (a b : ℕ) → a * b < 2 ^ 63 → mul64 (pos a) (pos b) ≡ pos (a * b)
unfolding mul64 wrap64 ◌*ℤ◌
mul64-pos a b h = ground arith

-- Wrapping sums form a commutative group: through the residue of an integer modulo 2 ^ 64.
residue : ℤ → ℕ
residue (pos n) = n % 2 ^ 64
residue (negsuc n) = 2 ^ 64 - 1 - n % 2 ^ 64

residue-wrap64 : (a : ℤ) → residue (wrap64 a) ≡ residue a
unfolding residue wrap64
residue-wrap64 (pos n) = ground arith
residue-wrap64 (negsuc n) = ground arith

residue-+ℤ : (a b : ℤ) → residue (a +ℤ b) ≡ (residue a + residue b) % 2 ^ 64
unfolding residue ◌+ℤ◌
residue-+ℤ (pos m) (pos n) = ground arith
residue-+ℤ (pos m) (negsuc n) = ground arith
residue-+ℤ (negsuc m) (pos n) = ground arith
residue-+ℤ (negsuc m) (negsuc n) = ground arith

wrap64_of_residue : (a b : ℤ) → residue a ≡ residue b → wrap64 a ≡ wrap64 b
unfolding residue wrap64
wrap64_of_residue (pos m) (pos n) h = ground arith
wrap64_of_residue (pos m) (negsuc n) h = ground arith
wrap64_of_residue (negsuc m) (pos n) h = ground arith
wrap64_of_residue (negsuc m) (negsuc n) h = ground arith

pub add64_comm : (a b : ℤ) → add64 a b ≡ add64 b a
unfolding add64
add64_comm a b = wrap64_of_residue (a +ℤ b) (b +ℤ a) (omega (arith, residue-+ℤ a b, residue-+ℤ b a))

pub add64_assoc : (a b c : ℤ) → add64 (add64 a b) c ≡ add64 a (add64 b c)
unfolding add64
add64_assoc a b c = wrap64_of_residue (wrap64 (a +ℤ b) +ℤ c) (a +ℤ wrap64 (b +ℤ c)) (
    omega (
      arith,
      residue-+ℤ (wrap64 (a +ℤ b)) c,
      residue-wrap64 (a +ℤ b),
      residue-+ℤ a b,
      residue-+ℤ a (wrap64 (b +ℤ c)),
      residue-wrap64 (b +ℤ c),
      residue-+ℤ b c,
    ))

-- The difference of two non-negative int64 values is always exact.
pub sub64-sub_ℕ : (a b : ℕ) → a < 2 ^ 63 → b ≤ 2 ^ 63 → sub64 (pos a) (pos b) ≡ sub_ℕ a b
unfolding sub64 wrap64 ◌-ℤ◌
sub64-sub_ℕ a b h k = ground arith

-- `amount * k / d` for a small constant k.
pub scaled : (x k d : ℕ) → x < 2 ^ 55 → k < 256 → div64 (mul64 (pos x) (pos k)) d ≡ pos (x * k / d)
unfolding div64
scaled x k d h small = let fits : x * k < 2 ^ 63 = grind arith in rw (mul64-pos x k fits)

pub add64_zero : (a : ℤ) → Fits a → add64 a (pos 0) ≡ a
unfolding add64 wrap64 ◌+ℤ◌
add64_zero a h = ground arith

pub add64-Fits : (a b : ℤ) → Fits (add64 a b)
unfolding add64
add64-Fits a b = wrap64-Fits (a +ℤ b)

-- A quotient of an int64 by a positive constant is an int64.
pub div64-Fits : (a : ℤ) (d : ℕ) → Fits a → 0 < d → Fits (div64 a d)
unfolding div64
div64-Fits (pos n) d h k = let shrinks : n / d ≤ n = grind arith in omega arith
div64-Fits (negsuc n) d h k = let shrinks : suc n / d ≤ suc n = grind arith in ground arith

pub mul64-Fits : (a b : ℤ) → Fits (mul64 a b)
unfolding mul64
mul64-Fits a b = wrap64-Fits (a *ℤ b)

residue--ℤ : (a b : ℤ) → (residue (a -ℤ b) + residue b) % 2 ^ 64 ≡ residue a
unfolding residue ◌-ℤ◌
residue--ℤ (pos m) (pos n) = ground arith
residue--ℤ (pos m) (negsuc n) = ground arith
residue--ℤ (negsuc m) (pos n) = ground arith
residue--ℤ (negsuc m) (negsuc n) = ground arith

-- A wrapped subtraction is undone by the addition.
pub add64-sub64 : (a b : ℤ) → Fits a → add64 (sub64 a b) b ≡ a
unfolding add64 sub64
add64-sub64 a b h =
    wrap64_of_residue (wrap64 (a -ℤ b) +ℤ b) a
      (omega (arith, residue-+ℤ (wrap64 (a -ℤ b)) b, residue-wrap64 (a -ℤ b), residue--ℤ a b))
    ∙ wrap64_of_Fits a h

pub add64_interchange :
    (a b c d : ℤ) → add64 (add64 a b) (add64 c d) ≡ add64 (add64 a c) (add64 b d)
add64_interchange a b c d =
    add64_assoc a b (add64 c d)
    ∙ ap (add64 a)
        (sym (add64_assoc b c d) ∙ ap (λ x. add64 x d) (add64_comm b c) ∙ add64_assoc c b d)
    ∙ sym (add64_assoc a c (add64 b d))
