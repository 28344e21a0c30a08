-- ===== src/Limits/Velocity.antt =====
-- internal/api/middleware/velocity.go: the limit on transfers of a business for each hour and day.
-- Times are nanoseconds; the mutexes make each request one step.
pub mod Windows
pub mod History
use payflow_backend.Common.{
  ℕ, ◌+◌, ◌*◌, Bool, true, false, ◌&&◌, Option, none, some, List, [], ◌∷◌, ◌++◌, ◌==◌, ltb, leb,
  length, if◌then◌else◌,
}

-- Limits that are not above zero are off.
pub record TransferVelocityConfig : Type 0 where
  pub max_per_hour : ℕ
  pub max_per_day : ℕ

pub record TransferCounter : Type 0 where
  pub hourly : List ℕ
  pub daily : List ℕ

abbrev pub an_hour : ℕ
an_hour = 60 * 60 * 1000000000

abbrev pub a_day : ℕ
a_day = 24 * an_hour

-- `t.After(now.Add(-window))`, without the subtraction.
abbrev pub is_recent : (window now t : ℕ) → Bool
is_recent window now t = ltb now (t + window)

abbrev pub trimmed : (window now : ℕ) → List ℕ → List ℕ
trimmed window now [] = []
trimmed window now (t ∷ ts) =
    if is_recent window now t then t ∷ trimmed window now ts else trimmed window now ts

-- `cleanup`
unfoldable pub cleanup : ℕ → TransferCounter → TransferCounter
cleanup now c = record { hourly = trimmed an_hour now c.hourly; daily = trimmed a_day now c.daily }

abbrev pub is_full : (limit : ℕ) → List ℕ → Bool
is_full limit ts = ltb 0 limit && leb limit (length ts)

abbrev pub recorded : ℕ → TransferCounter → TransferCounter
recorded now c = record { hourly = c.hourly ++ (now ∷ []); daily = c.daily ++ (now ∷ []) }

-- The handler's decision on one counter: whether the request goes on.
unfoldable pub decide : TransferVelocityConfig → ℕ → TransferCounter → Bool × TransferCounter
unfolding cleanup
decide cfg now c =
    let c' = cleanup now c in
    if is_full cfg.max_per_hour c'.hourly
    then (false, c')
    else if is_full cfg.max_per_day c'.daily
    then (false, c')
    else (true, recorded now c')

-- The counters, by business.
abbrev pub Counters : Type 0
Counters = ℕ → Option TransferCounter

abbrev pub or_new : Option TransferCounter → TransferCounter
or_new none = record { hourly = []; daily = [] }
or_new (some c) = c

abbrev pub store : ℕ → TransferCounter → Counters → Counters
store b c cs b' = if b' == b then some c else cs b'

-- `TransferVelocityLimiter`, the request of a business; without claims it goes on.
unfoldable pub limit_velocity :
    TransferVelocityConfig → (claims : Option ℕ) → (now : ℕ) → Counters → Bool × Counters
unfolding decide
limit_velocity cfg none now cs = (true, cs)
limit_velocity cfg (some b) now cs =
    let (passes, c) = decide cfg now (or_new (cs b)) in (passes, store b c cs)

abbrev pub cleaned : ℕ → Option TransferCounter → Option TransferCounter
cleaned now none = none
cleaned now (some c) = some (cleanup now c)

-- The periodic cleanup of every counter.
unfoldable pub clean_all : ℕ → Counters → Counters
unfolding cleanup
clean_all now cs b = cleaned now (cs b)
