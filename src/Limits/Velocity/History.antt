-- ===== src/Limits/Velocity/History.antt =====
-- No hour and no day has more transfers of a business than its limit, over any history of requests.
use payflow_backend.Common.{
  ℕ, ◌≤◌, ◌<◌, ◌≡◌, refl, sym, subst, ◌∙◌, inl, inr, Bool, true, false, ◌&&◌, Option, none, some,
  List, [], ◌∷◌, ◌++◌, ◌==◌, ltb, leb, length, if◌then◌else◌, arith, Bool-cases,
}
use payflow_backend.Limits.Velocity.{
  TransferVelocityConfig, TransferCounter, Counters, an_hour, a_day, is_recent, trimmed, cleanup,
  is_full, recorded, decide, or_new, limit_velocity, cleaned, clean_all,
}
use payflow_backend.Limits.Velocity.Windows.{
  recent, IsLimited, length-trimmed, recent-trimmed, recent-append, accepted-IsLimited,
}

-- A request with or without claims, or the periodic cleanup.
pub data Event : Type 0 where
  requested : (claims : Option ℕ) → (now : ℕ) → Event
  ticked : (now : ℕ) → Event

abbrev pub time_of : Event → ℕ
time_of (Event.requested claims now) = now
time_of (Event.ticked now) = now

-- The clock does not run back.
abbrev pub IsClocked : ℕ → List Event → Type 0
IsClocked last [] = Unit
IsClocked last (e ∷ es) = (last ≤ time_of e) × IsClocked (time_of e) es

abbrev pub is_business : ℕ → Option ℕ → Bool
is_business b none = false
is_business b (some b') = b' == b

module _ (cfg : TransferVelocityConfig) (b : ℕ) where
  -- The transfers of the business that the limiter let through, the last one first.
  unfoldable pub log_step : Event → Counters × List ℕ → Counters × List ℕ
  unfolding limit_velocity clean_all
  log_step (Event.requested claims now) (cs, log) =
      let (passes, cs') = limit_velocity cfg claims now cs in
      (cs', if passes && is_business b claims then now ∷ log else log)
  log_step (Event.ticked now) (cs, log) = (clean_all now cs, log)

  unfoldable pub log_run : List Event → Counters × List ℕ → Counters × List ℕ
  unfolding log_step
  log_run [] r = r
  log_run (e ∷ es) r = log_run es (log_step e r)

  -- What the counter knows of the log, from the time `last` on.
  abbrev Knows : ℕ → TransferCounter → List ℕ → Type 0
  Knows last c log =
      (now : ℕ)
      → last ≤ now
      → (recent an_hour now c.hourly ≡ recent an_hour now log)
        × (recent a_day now c.daily ≡ recent a_day now log)

  abbrev Within : List ℕ → Type 0
  Within log = IsLimited cfg.max_per_hour an_hour log × IsLimited cfg.max_per_day a_day log

  cleanup-Knows :
      (last now : ℕ) (c : TransferCounter) (log : List ℕ)
      → last ≤ now
      → Knows last c log
      → Knows now (cleanup now c) log
  unfolding cleanup
  cleanup-Knows last now c log h k later m =
      let (hours, days) = k later (omega arith) in
      (
        recent-trimmed an_hour now later c.hourly m ∙ hours,
        recent-trimmed a_day now later c.daily m ∙ days,
      )

  one_more :
      (w later now : ℕ) (ts log : List ℕ)
      → recent w later ts ≡ recent w later log
      → recent w later (ts ++ (now ∷ [])) ≡ recent w later (now ∷ log)
  one_more w later now ts log h = elim (Bool-cases (is_recent w later now)) [
    | inl q ↦
        let all : recent w later (now ∷ []) ≡ 1 = rw q refl in
        rw q (omega (arith, recent-append w later ts (now ∷ []), all))
    | inr q ↦
        let all : recent w later (now ∷ []) ≡ 0 = rw q refl in
        rw q (omega (arith, recent-append w later ts (now ∷ []), all))
  ]

  recorded-Knows :
      (now : ℕ) (c : TransferCounter) (log : List ℕ)
      → Knows now c log
      → Knows now (recorded now c) (now ∷ log)
  recorded-Knows now c log k later m =
      let (hours, days) = k later m in
      (one_more an_hour later now c.hourly log hours, one_more a_day later now c.daily log days)

  room :
      (limit n : ℕ) (ts : List ℕ) → length ts ≡ n → is_full limit ts ≡ false → 0 < limit → n < limit
  room limit n ts h k on = free limit (length ts) n h k on
    where
      free : (limit m n : ℕ) → m ≡ n → (ltb 0 limit && leb limit m) ≡ false → 0 < limit → n < limit
      free limit m n h k on = ground arith

  logged : Bool → ℕ → List ℕ → List ℕ
  logged p now log = if p then now ∷ log else log

  -- The counter after a decision knows the log after it, and the log keeps its limits.
  abbrev Decided : ℕ → List ℕ → Bool × TransferCounter → Type 0
  Decided now log (p, c) = Knows now c (logged p now log) × Within (logged p now log)

  decide-Decided :
      (last now : ℕ) (c : TransferCounter) (log : List ℕ)
      → last ≤ now
      → Knows last c log
      → Within log
      → Decided now log (decide cfg now c)
  unfolding decide cleanup logged
  decide-Decided last now c log h k (hours, days) =
      let c' = cleanup now c in
      let knows = cleanup-Knows last now c log h k in
      let (hour, day) = k now h in
      elim (Bool-cases (is_full cfg.max_per_hour (trimmed an_hour now c.hourly))) [
        | inl q ↦ rw q (knows, (hours, days))
        | inr q ↦ rw q (elim (Bool-cases (is_full cfg.max_per_day (trimmed a_day now c.daily))) [
          | inl e ↦ rw e (knows, (hours, days))
          | inr e ↦ rw e (
            recorded-Knows now c' log knows,
            (
              accepted-IsLimited cfg.max_per_hour an_hour now log
                  (room cfg.max_per_hour (recent an_hour now log) (trimmed an_hour now c.hourly)
                    (length-trimmed an_hour now c.hourly ∙ hour) q)
                  hours,
              accepted-IsLimited cfg.max_per_day a_day now log
                  (room cfg.max_per_day (recent a_day now log) (trimmed a_day now c.daily)
                    (length-trimmed a_day now c.daily ∙ day) e)
                  days,
            ),
          )
        ])
      ]

  -- The counter of the business knows the log, and the log keeps its limits.
  abbrev pub IsHeld : ℕ → Counters × List ℕ → Type 0
  IsHeld last (cs, log) = Knows last (or_new (cs b)) log × Within log

  equal : (m n : ℕ) → (m == n) ≡ true → m ≡ n
  equal m n h = ground arith

  back : (m n : ℕ) → (m == n) ≡ false → (n == m) ≡ false
  back m n h = ground arith

  and_true : (p : Bool) → (p && true) ≡ p
  and_true true = refl
  and_true false = refl

  and_false : (p : Bool) → (p && false) ≡ false
  and_false true = refl
  and_false false = refl

  later-Knows :
      (last now : ℕ) (c : TransferCounter) (log : List ℕ)
      → last ≤ now
      → Knows last c log
      → Knows now c log
  later-Knows last now c log h k later m = k later (omega arith)

  cleaned-Knows :
      (last now : ℕ) (o : Option TransferCounter) (log : List ℕ)
      → last ≤ now
      → Knows last (or_new o) log
      → Knows now (or_new (cleaned now o)) log
  cleaned-Knows last now none log h k = later-Knows last now (or_new none) log h k
  cleaned-Knows last now (some c) log h k = cleanup-Knows last now c log h k

  own_step :
      (last now : ℕ) (cs : Counters) (log : List ℕ)
      → last ≤ now
      → IsHeld last (cs, log)
      → IsHeld now (log_step (Event.requested (some b) now) (cs, log))
  unfolding log_step limit_velocity logged
  own_step last now cs log h (knows, limits) =
      let here : (b == b) ≡ true = ground arith in
      let (passes, c) = decide cfg now (or_new (cs b)) in
      rw here (rw (and_true passes) (decide-Decided last now (or_new (cs b)) log h knows limits))

  step-IsHeld :
      (e : Event) (last : ℕ) (cs : Counters) (log : List ℕ)
      → last ≤ time_of e
      → IsHeld last (cs, log)
      → IsHeld (time_of e) (log_step e (cs, log))
  unfolding log_step limit_velocity clean_all
  step-IsHeld (Event.ticked now) last cs log h (knows, limits) =
      (cleaned-Knows last now (cs b) log h knows, limits)
  step-IsHeld (Event.requested none now) last cs log h (knows, limits) =
      (later-Knows last now (or_new (cs b)) log h knows, limits)
  step-IsHeld (Event.requested (some b') now) last cs log h (knows, limits) =
      elim (Bool-cases (b' == b)) [
        | inl q ↦
            subst (λ x. IsHeld now (log_step (Event.requested (some x) now) (cs, log)))
              (sym (equal b' b q)) (own_step last now cs log h (knows, limits))
        | inr q ↦
            let (passes, c) = decide cfg now (or_new (cs b')) in
            rw q (
              rw (back b' b q)
                (rw (and_false passes) (later-Knows last now (or_new (cs b)) log h knows, limits)))
      ]

  run-IsHeld :
      (es : List Event) (last : ℕ) (r : Counters × List ℕ)
      → IsClocked last es
      → IsHeld last r
      → Within (log_run es r).1
  unfolding log_run
  run-IsHeld [] last (cs, log) clocked h = h.1
  run-IsHeld (e ∷ es) last (cs, log) clocked h =
      run-IsHeld es (time_of e) (log_step e (cs, log)) clocked.1
        (step-IsHeld e last cs log clocked.0 h)

  -- From the start of the server, over any history of requests of any businesses and of periodic
  -- cleanups, by a clock that does not run back: for each business, no hour has more of its transfers
  -- that passed the limiter than the limit for an hour, and no day more than the limit for a day,
  -- where such a limit is set; an hour or a day ends at any time and does not include its start.
  pub log_run-IsLimited :
      (es : List Event)
      → IsClocked 0 es
      → (let log = (log_run es ((λ b'. none), [])).1 in
          IsLimited cfg.max_per_hour an_hour log × IsLimited cfg.max_per_day a_day log)
  log_run-IsLimited es clocked =
      run-IsHeld es 0 ((λ b'. none), []) clocked
        ((λ now h. (refl, refl)), ((λ end on. omega arith), λ end on. omega arith))
