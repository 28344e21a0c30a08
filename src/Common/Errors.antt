-- ===== src/Common/Errors.antt =====
-- internal/domain/error.go: the sentinel errors that callers test for. `fmt.Errorf` with `%w` keeps
-- the sentinel, so a wrapped error is the error itself; `other` is an error with none of them inside.
use mathlib.Core.Path.{◌≡◌}
use mathlib.Core.Bool.{Bool, true, false}

pub data Error : Type 0 where
  not_found conflict unauthorized forbidden : Error
  validation_failed payment_gateway_failed internal_server : Error
  other : Error

-- A Go result pair `(A, error)`.
pub data Result {ℓ} (A : Type ℓ) : Type ℓ where
  ok : A → Result A
  err : Error → Result A

-- `if c { return nil, e }`
abbrev pub guard_not : Bool → Error → Result (Unit {0})
guard_not true e = err e
guard_not false e = ok tt

-- `x, err := m; if err != nil { return nil, err }`
infixl 5 ◌>>=◌
abbrev pub ◌>>=◌ {ℓ κ} : {X : Type ℓ} {Y : Type κ} → Result X → (X → Result Y) → Result Y
err e >>= next = err e
ok x >>= next = next x

infixl 5 ◌>>◌
abbrev pub ◌>>◌ {κ} : {Y : Type κ} → Result (Unit {0}) → Result Y → Result Y
err e >> next = err e
ok done >> next = next

pub ok≢err {ℓ} : {A : Type ℓ} {a : A} {e : Error} → ◌≡◌ {A = Result A} (ok a) (err e) → ⊥
ok≢err h = cc
