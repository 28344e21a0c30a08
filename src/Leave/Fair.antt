-- ===== src/Leave/Fair.antt =====
-- The invariant of the tables of leave.
use Prim.Native.String.{String}
use payflow_backend.Common.{
  ℕ, ◌+◌, ◌^◌, ◌<◌, ◌≡◌, refl, ap, ◌∙◌, Bool, true, false, Option, none, some, All, if◌then◌else◌,
}
use payflow_backend.Common.Int.{pos, pos_part}
use payflow_backend.Common.Errors.{Result, ok, err}
use payflow_backend.Common.Texts.{same_text}
use payflow_backend.Leave.Store.{
  LeaveType, LeaveRequest, BalanceKey, LeaveBalance, LeaveTables, or_not_found, balance_of,
  same_key,
}
use payflow_backend.Leave.Service.{key_of}
use payflow_backend.Leave.Requests.{approved_in, approved_days}
use payflow_backend.Leave.Balances.{used_days}

-- Days used and days left, both not negative, make up the entitlement, which is an int64.
abbrev pub IsBalanced : LeaveBalance → Type 0
IsBalanced b =
    (u : ℕ) × (r : ℕ) × (b.used ≡ pos u)
    × (b.remaining ≡ pos r)
    × (b.entitled ≡ pos (u + r))
    × (u + r < 2 ^ 63)

-- A stored request asks for at least one day.
abbrev pub AsksDays : LeaveRequest → Type 0
AsksDays r = (d : ℕ) × (r.days ≡ pos d) × (0 < d)

abbrev pub IsEntitling : LeaveType → Type 0
IsEntitling t = (n : ℕ) × (t.default_days ≡ pos n) × (n < 2 ^ 63)

module _ (year_of : ℕ → ℕ) where
  -- For every employee, leave type and year, the balance has used the days of the approved requests.
  abbrev pub IsDeducted : LeaveTables → Type 0
  IsDeducted s =
      (key : BalanceKey)
      → used_days (balance_of key s.balances) ≡ approved_days year_of key s.requests

  abbrev pub IsFair : LeaveTables → Type 0
  IsFair s =
      All IsBalanced s.balances × All AsksDays s.requests × All IsEntitling s.types × IsDeducted s

  pub approved-pending : same_text "pending" "approved" ≡ false
  unfolding same_text
  approved-pending = refl

  pub approved-rejected : same_text "rejected" "approved" ≡ false
  unfolding same_text
  approved-rejected = refl

  pub approved-approved : same_text "approved" "approved" ≡ true
  unfolding same_text
  approved-approved = refl

  -- A request that is not approved counts for nothing.
  pub not_counted :
      (key : BalanceKey) (r : LeaveRequest) (status : String)
      → r.status ≡ status
      → same_text status "approved" ≡ false
      → approved_in year_of key r ≡ 0
  not_counted key r status h k = rw (ap (λ t. same_text t "approved") h ∙ k) refl

  -- An approved request counts with its days, for its own balance.
  pub counts :
      (key : BalanceKey) (r : LeaveRequest) (c : Bool)
      → r.status ≡ "approved"
      → same_key (key_of year_of r) key ≡ c
      → approved_in year_of key r ≡ (if c then pos_part r.days else 0)
  counts key r c h k = rw (ap (λ t. same_text t "approved") h ∙ approved-approved) (rw k refl)

  -- What a call leaves, whatever it returns.
  abbrev pub Leaves : {A : Type 0} → Result A × LeaveTables → Type 0
  Leaves r = IsFair r.1

ok-inj : {A : Type 0} {a b : A} → ◌≡◌ {A = Result A} (ok a) (ok b) → a ≡ b
ok-inj {A} {a} h = ap (λ r. from r) h
  where
    from : Result A → A
    from (err e) = a
    from (ok c) = c

pub found_row :
    {A : Type 0} (fails : Bool) (o : Option A) (a : A) → or_not_found fails o ≡ ok a → o ≡ some a
found_row true o a h = absurd (cc)
found_row false none a h = absurd (cc)
found_row false (some b) a h = ap (λ c. some c) (ok-inj h)
