-- ===== src/Schedule/Last/Weekly.antt =====
-- The runs of a weekly schedule.
use yc_sheduler.Prelude.{
  ℕ, ◌+◌, ◌-◌, ◌*◌, ◌≤◌, ◌<◌, ◌≡◌, ◌≢◌, ◌⊎◌, pos, pos_part, neg_part, sub_ℕ, subst, ok, arith, inl,
  inr, ◌==◌, ltb, if◌then◌else◌, ltb_of_lt,
}
use yc_sheduler.Config.{Bytes}
use yc_sheduler.GoTime.Civil.{weekday_of_day}
use yc_sheduler.GoTime.Instant.{
  Location, Time, day_number, clock, year, month, day, weekday, add_date, date,
}
use yc_sheduler.GoTime.Fixed.{IsFixed, ns_lem, clock-lt, add_date-days}
use yc_sheduler.Schedule.Clock.{Clock, parse_time_string}
use yc_sheduler.Schedule.Clock.Formats.{IsClock, parse_time_string-IsClock}
use yc_sheduler.Schedule.Last.{at_clock, days_since, get_last_weekly_time, target_weekday}
use yc_sheduler.Schedule.Last.AtClock.{seconds_of, day_ns, Shows, at_clock-same}

-- The run of a weekly schedule at or before `n`, and less than a week old.
abbrev pub IsLastWeekly : Clock → ℕ → ℕ → Time → Type 0
IsLastWeekly c d n t =
    (t.ns ≤ n) × (n < t.ns + 7 * day_ns) × (clock t ≡ seconds_of c) × (weekday t ≡ d)

-- The days back to the wanted weekday, a week if that is today and the time is still to come.
abbrev back_days : ℕ → ℕ → ℕ → ℕ → ℕ
back_days current target k n =
    let back = days_since current target in
    if back == 0 then (if ltb n k then 7 else back) else back

-- What the number of days back is, by the weekday of day `z`.
back_days_lem :
    (z d k n : ℕ)
    → d < 7
    → 7 ≤ z
    → let b = back_days (weekday_of_day z) d k n in
      (weekday_of_day (z - b) ≡ d) × (b ≤ 7) × (b ≡ 0 → k ≤ n) × (b ≡ 7 → n < k)
unfolding weekday_of_day
back_days_lem z d k n h late = ground arith

choose_week :
    {l : Location} (f : IsFixed l) (n k b : ℕ) (t : Time) (c : Clock) (valid : IsClock c)
    → let now : Time = record { ns = n; loc = l } in
      8 ≤ day_number now
      → b ≤ 7
      → (b ≡ 0 → k ≤ n)
      → (b ≡ 7 → n < k)
      → Shows f c valid (day_number now) (record { ns = k; loc = l })
      → Shows f c valid (day_number now - b) t
      → (t.ns ≤ n) × (n < t.ns + 7 * day_ns)
choose_week {l} f n k b t c valid late small zero_back week_back today shows = elim (==_cases b) [
  | inl e ↦ (
    omega (arith, zero_back e, ns_lem f n (omega arith)),
    omega (arith, ns_lem f n (omega arith), clock-lt f n),
  )
  | inr (inl e) ↦ (omega (arith, ns_lem f n (omega arith)), omega (arith, week_back e))
  | inr (inr (lo, hi)) ↦ (
    omega (arith, ns_lem f n (omega arith), clock-lt f n),
    omega (arith, ns_lem f n (omega arith), clock-lt f n),
  )
]
  where
    ==_cases : (m : ℕ) → (m ≡ 0) ⊎ ((m ≡ 7) ⊎ ((1 ≤ m) × (m ≢ 7)))
    ==_cases m = ground arith

back_parts : (b : ℕ) → (pos_part (sub_ℕ 0 b) ≡ 0) × (neg_part (sub_ℕ 0 b) ≡ b)
back_parts b = ground arith

-- The date `b` days back.
target_day :
    {l : Location} (f : IsFixed l) (n b : ℕ)
    → let now : Time = record { ns = n; loc = l } in
      8 ≤ day_number now
      → b ≤ 7
      → day_number (add_date now (pos 0) (pos 0) (sub_ℕ 0 b)) ≡ day_number now - b
target_day f n b late small =
    omega (
      arith,
      add_date-days f n (sub_ℕ 0 b) (omega arith) (omega (arith, back_parts b)),
      back_parts b,
    )

-- The last run, with the day `z` that it is on.
abbrev pub IsWeeklyRun :
    {l : Location} → IsFixed l → (c : Clock) → IsClock c → ℕ → ℕ → Time → ℕ → Type 0
IsWeeklyRun f c valid d n t z =
    (t.ns ≤ n) × (n < t.ns + 7 * day_ns) × (weekday_of_day z ≡ d) × Shows f c valid z t

pub get_last_weekly_time-IsWeeklyRun :
    {l : Location} (f : IsFixed l) (s : Bytes) (c : Clock) (d n : ℕ)
    → (e : parse_time_string s ≡ ok c) → d < 7
    → 8 ≤ day_number (record { ns = n; loc = l })
    → (t : Time) × (get_last_weekly_time s (pos d) (record { ns = n; loc = l }) l ≡ ok t)
      × ((z : ℕ) × IsWeeklyRun f c (parse_time_string-IsClock s c e) d n t z)
unfolding get_last_weekly_time target_weekday weekday date
get_last_weekly_time-IsWeeklyRun {l} f s c d n e small late =
    (t, rw (e, ltb_of_lt d 7 small), (day_number now - b, (fits.0, fits.1, back.0, shows)))
  where
    now : Time
    now = record { ns = n; loc = l }

    valid : IsClock c
    valid = parse_time_string-IsClock s c e

    today : Time
    today = at_clock (year now) (month now) (pos (day now)) c l

    b : ℕ
    b = back_days (weekday now) d today.ns n

    target : Time
    target = add_date now (pos 0) (pos 0) (sub_ℕ 0 b)

    t : Time
    t = at_clock (year target) (month target) (pos (day target)) c l

    back :
        (weekday_of_day (day_number now - b) ≡ d)
        × (b ≤ 7)
        × (b ≡ 0 → today.ns ≤ n)
        × (b ≡ 7 → n < today.ns)
    back = back_days_lem (day_number now) d today.ns n small (omega arith)

    shows : Shows f c valid (day_number now - b) t
    shows =
        subst (λ z. Shows f c valid z t) (target_day f n b late back.1)
          (at_clock-same f c valid target (rw (target_day f n b late back.1) (omega (arith, back))))

    fits : (t.ns ≤ n) × (n < t.ns + 7 * day_ns)
    fits =
        choose_week f n today.ns b t c valid late back.1 back.2 back.3
          (at_clock-same f c valid now (omega arith)) shows

-- For a time of day that can be read, a weekday from 0 to 6, in a location with a fixed offset, and
-- `n` from day 8 of the calendar on: there is a result, it is on that weekday and at that time of
-- day, not after `n`, and `n` is less than a week later.
pub get_last_weekly_time-last :
    {l : Location} (f : IsFixed l) (s : Bytes) (c : Clock) (d n : ℕ)
    → parse_time_string s ≡ ok c
    → d < 7
    → 8 ≤ day_number (record { ns = n; loc = l })
    → (t : Time) × (get_last_weekly_time s (pos d) (record { ns = n; loc = l }) l ≡ ok t)
      × IsLastWeekly c d n t
unfolding weekday
get_last_weekly_time-last f s c d n e small late =
    let (t, found, (z, (before, near, day_is, shows))) =
      get_last_weekly_time-IsWeeklyRun f s c d n e small late in
    (t, found, (before, near, shows.1, rw shows.0 day_is))
