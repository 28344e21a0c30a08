-- ===== src/Limits/Velocity/Windows.antt =====
-- Counting the times in a window.
use payflow_backend.Common.{
  ℕ, suc, ◌+◌, ◌≤◌, ◌<◌, ◌≡◌, refl, ap, inl, inr, true, false, ◌&&◌, List, [], ◌∷◌, ◌++◌, leb,
  length, if◌then◌else◌, arith, Bool-cases, if-holds,
}
use payflow_backend.Limits.Velocity.{is_recent, trimmed}

-- How many times are recent.
abbrev pub recent : (window now : ℕ) → List ℕ → ℕ
recent window now [] = 0
recent window now (t ∷ ts) =
    if is_recent window now t then suc (recent window now ts) else recent window now ts

-- How many times lie in the window that ends at `end`: after `end - window`, and not after `end`.
abbrev pub within : (window end : ℕ) → List ℕ → ℕ
within window end [] = 0
within window end (t ∷ ts) =
    if leb t end && is_recent window end t then suc (within window end ts) else within window end ts

pub length-trimmed : (w now : ℕ) (ts : List ℕ) → length (trimmed w now ts) ≡ recent w now ts
length-trimmed w now [] = refl
length-trimmed w now (t ∷ ts) = elim (Bool-cases (is_recent w now t)) [
  | inl q ↦ rw q (ap suc (length-trimmed w now ts))
  | inr q ↦ rw q (length-trimmed w now ts)
]

still_old :
    (w now later t : ℕ) → now ≤ later → is_recent w now t ≡ false → is_recent w later t ≡ false
still_old w now later t h k = ground arith

-- What is trimmed away is not recent later.
pub recent-trimmed :
    (w now later : ℕ) (ts : List ℕ)
    → now ≤ later
    → recent w later (trimmed w now ts) ≡ recent w later ts
recent-trimmed w now later [] h = refl
recent-trimmed w now later (t ∷ ts) h = elim (Bool-cases (is_recent w now t)) [
  | inl q ↦ rw q (elim (Bool-cases (is_recent w later t)) [
    | inl k ↦ rw k (ap suc (recent-trimmed w now later ts h))
    | inr k ↦ rw k (recent-trimmed w now later ts h)
  ])
  | inr q ↦ rw q (rw (still_old w now later t h q) (recent-trimmed w now later ts h))
]

pub recent-append :
    (w now : ℕ) (ts us : List ℕ) → recent w now (ts ++ us) ≡ recent w now ts + recent w now us
recent-append w now [] us = omega arith
recent-append w now (t ∷ ts) us = elim (Bool-cases (is_recent w now t)) [
  | inl q ↦ rw q (omega (arith, recent-append w now ts us))
  | inr q ↦ rw q (omega (arith, recent-append w now ts us))
]

-- Time makes times old.
recent_falls : (w now later : ℕ) (ts : List ℕ) → now ≤ later → recent w later ts ≤ recent w now ts
recent_falls w now later [] h = omega arith
recent_falls w now later (t ∷ ts) h = elim (Bool-cases (is_recent w now t)) [
  | inl q ↦ rw q (elim (Bool-cases (is_recent w later t)) [
    | inl k ↦ rw k (omega (arith, recent_falls w now later ts h))
    | inr k ↦ rw k (omega (arith, recent_falls w now later ts h))
  ])
  | inr q ↦ rw q (rw (still_old w now later t h q) (recent_falls w now later ts h))
]

within-recent : (w end : ℕ) (ts : List ℕ) → within w end ts ≤ recent w end ts
within-recent w end [] = omega arith
within-recent w end (t ∷ ts) = elim (Bool-cases (is_recent w end t)) [
  | inl q ↦ rw q (elim (Bool-cases (leb t end)) [
    | inl k ↦ rw k (omega (arith, within-recent w end ts))
    | inr k ↦ rw k (omega (arith, within-recent w end ts))
  ])
  | inr q ↦ rw q (elim (Bool-cases (leb t end)) [
    | inl k ↦ rw k (within-recent w end ts)
    | inr k ↦ rw k (within-recent w end ts)
  ])
]

-- No window of this length has more times than the limit, unless the limit is off.
abbrev pub IsLimited : (limit window : ℕ) → List ℕ → Type 0
IsLimited limit window log = (end : ℕ) → 0 < limit → within window end log ≤ limit

pub accepted-IsLimited :
    (limit w now : ℕ) (log : List ℕ)
    → (0 < limit → recent w now log < limit)
    → IsLimited limit w log
    → IsLimited limit w (now ∷ log)
accepted-IsLimited limit w now log room h end on = elim (Bool-cases (leb now end)) [
  | inl k ↦
      let later : now ≤ end = reached now end k in
      let few = within-recent w end log in
      let fewer = recent_falls w now end log later in
      let least = room on in
      rw k (
        if-holds (λ n. n ≤ limit) (is_recent w end now) (suc (within w end log)) (within w end log)
          (omega arith) (omega arith))
  | inr k ↦ rw k (h end on)
]
  where
    reached : (m n : ℕ) → leb m n ≡ true → m ≤ n
    reached m n h = ground arith
