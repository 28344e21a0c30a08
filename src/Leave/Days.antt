-- ===== src/Leave/Days.antt =====
-- `countBusinessDays` of internal/service/leave_service.go, against a count by whole weeks. A time is
-- a number of nanoseconds by the clock of the zone that the start was given in, whose offset does not
-- change, since 1970 began on that clock, a Thursday.
use payflow_backend.Common.{
  ℕ, zero, suc, ◌+◌, ◌-◌, ◌*◌, ◌/◌, ◌%◌, ◌<◌, ◌≡◌, ap, ◌∙◌, inl, inr, Bool, true, false, not, ◌&&◌,
  Option, none, some, if◌then◌else◌, ltb, ◌==◌, arith, Bool-cases,
}

abbrev pub a_day : ℕ
a_day = 24 * 60 * 60 * 1000000000

-- `Weekday`: 0 is Sunday, 6 is Saturday.
abbrev pub weekday : ℕ → ℕ
weekday t = (t / a_day + 4) % 7

abbrev pub is_business_day : ℕ → Bool
is_business_day t = not (weekday t == 6) && not (weekday t == 0)

abbrev pub one_if : Bool → ℕ
one_if true = 1
one_if false = 0

-- The loop, for at most `fuel` rounds; `days` is what it has counted.
unfoldable pub count_from : (fuel d end days : ℕ) → Option ℕ
count_from zero d end days = if ltb end d then some days else none
count_from (suc fuel) d end days =
    let rest = count_from fuel (d + a_day) end (days + one_if (is_business_day d)) in
    if ltb end d then some days else rest

-- `countBusinessDays`
unfoldable pub count_business_days : (start end : ℕ) → Option ℕ
unfolding count_from
count_business_days start end = count_from (end / a_day + 1) start end 0

-- The dates from `start` to `end`.
abbrev pub dates : (start end : ℕ) → ℕ
dates start end = if ltb end start then 0 else suc ((end - start) / a_day)

-- The business days among `n` days in a row, of which the first has the weekday `day`.
abbrev pub business_days : (n day : ℕ) → ℕ
business_days zero day = 0
business_days (suc n) day =
    one_if (not (day == 6) && not (day == 0)) + business_days n ((day + 1) % 7)

-- Five in each whole week, and those of the days that are left.
abbrev pub by_weeks : (n day : ℕ) → ℕ
by_weeks n day = 5 * (n / 7) + business_days (n % 7) day

after_week : ℕ → ℕ
after_week n = suc (suc (suc (suc (suc (suc (suc n))))))

week : (n day : ℕ) → day < 7 → business_days (after_week n) day ≡ 5 + business_days n day
unfolding after_week
week n zero h = omega arith
week n (suc zero) h = omega arith
week n (suc (suc zero)) h = omega arith
week n (suc (suc (suc zero))) h = omega arith
week n (suc (suc (suc (suc zero)))) h = omega arith
week n (suc (suc (suc (suc (suc zero))))) h = omega arith
week n (suc (suc (suc (suc (suc (suc zero)))))) h = omega arith
week n (suc (suc (suc (suc (suc (suc (suc day))))))) h = absurd (omega arith)

weeks : (k r day : ℕ) → day < 7 → business_days (7 * k + r) day ≡ 5 * k + business_days r day
unfolding after_week
weeks zero r day h =
    let same : 7 * 0 + r ≡ r = omega arith in omega (arith, ap (λ n. business_days n day) same)
weeks (suc k) r day h =
    let more : 7 * suc k + r ≡ after_week (7 * k + r) = omega arith in
    omega (arith, ap (λ n. business_days n day) more, week (7 * k + r) day h, weeks k r day h)

next_weekday : (d : ℕ) → weekday (d + a_day) ≡ (weekday d + 1) % 7
next_weekday d = omega arith

dates_next : (d end : ℕ) → ltb end d ≡ false → dates (d + a_day) end ≡ (end - d) / a_day
dates_next d end h = ground arith

past : (d end : ℕ) → end < d + 0 → ltb end d ≡ true
past d end h = ground arith

none_more : (days : ℕ) → some days ≡ some (days + 0)
none_more days = ap some (omega arith)

added : (days x n : ℕ) → days + x + n ≡ days + (x + n)
added days x n = omega arith

loop :
    (fuel d end days : ℕ)
    → end < d + fuel * a_day
    → count_from fuel d end days ≡ some (days + business_days (dates d end) (weekday d))
unfolding count_from
loop zero d end days h = rw (past d end (omega arith)) (none_more days)
loop (suc fuel) d end days h = elim (Bool-cases (ltb end d)) [
  | inl q ↦ rw q (none_more days)
  | inr q ↦ rw q (
      loop fuel (d + a_day) end (days + one_if (is_business_day d)) (omega arith)
      ∙ ap (λ n. some (days + one_if (is_business_day d) + n))
          (ap (λ k. business_days k (weekday (d + a_day))) (dates_next d end q)
            ∙ ap (business_days ((end - d) / a_day)) (next_weekday d))
      ∙ ap some (
          added days (one_if (is_business_day d))
            (business_days ((end - d) / a_day) ((weekday d + 1) % 7))))
]

by_weeks_lem : (n day : ℕ) → day < 7 → business_days n day ≡ by_weeks n day
by_weeks_lem n day h =
    let parts : n ≡ 7 * (n / 7) + n % 7 = omega arith in
    ap (λ k. business_days k day) parts ∙ weeks (n / 7) (n % 7) day h

-- For all times, `countBusinessDays` ends, within as many rounds as there are days since 1970 up to
-- the end, and it returns five days for each whole week from the start to the end and the business
-- days among the dates that are left, of which there are at most six.
pub count_business_days-by_weeks :
    (start end : ℕ)
    → count_business_days start end ≡ some (by_weeks (dates start end) (weekday start))
unfolding count_business_days
count_business_days-by_weeks start end =
    loop (end / a_day + 1) start end 0 (omega arith)
    ∙ ap some (omega (arith, by_weeks_lem (dates start end) (weekday start) (omega arith)))
