-- ===== src/Schedule/Last/Monthly.antt =====
-- The runs of a monthly schedule.
pub mod Run
use yc_sheduler.Schedule.Last.Months.{
  month_index, days_in, in_month, previous_month_lem, mday_facts, month_back,
}
use yc_sheduler.Prelude.{
  ℕ, ◌+◌, ◌-◌, ◌*◌, ◌%◌, ◌≤◌, ◌<◌, ◌≡◌, refl, pos, negsuc, ok, arith, Bool-cases, inl, inr, ==_iff,
  ltb→lt, false, true, ltb→ge, ◌∙◌, if◌then◌else◌, subst, ltb_of_lt, ap, leb, leb_of_le, leb_of_gt,
}
use yc_sheduler.Config.{Bytes}
use yc_sheduler.GoTime.Civil.{month_start, month_of_day, mday_of_day}
use yc_sheduler.GoTime.CivilLaws.{month_of_day_bounds, month_start-mday}
use yc_sheduler.GoTime.Instant.{
  Location, Time, second_ns, day_seconds, day_number, clock, year, month, day, add_date, after,
}
use yc_sheduler.GoTime.Fixed.{IsFixed, ns_lem, clock-lt}
use yc_sheduler.Schedule.Clock.{Clock, parse_time_string}
use yc_sheduler.Schedule.Clock.Formats.{IsClock, parse_time_string-IsClock}
use yc_sheduler.Schedule.Last.{at_clock, previous_month, get_last_monthly_time}
use yc_sheduler.Schedule.Last.AtClock.{seconds_of, Shows}

-- The run on day `d` of month `m`, as the local instant that a clock would show.
abbrev pub run_of : ℕ → Clock → ℕ → ℕ → ℕ
run_of west c m d = ((month_start m + d - 1) * day_seconds + seconds_of c + west) * second_ns

-- `t` is the run of some month `m`, not after `n`, and the run of month `m + 1` is after `n`.
abbrev pub IsLastMonthly : {l : Location} → IsFixed l → Clock → ℕ → ℕ → Time → Type 0
IsLastMonthly f c d n t =
    (m : ℕ) × (day_number t ≡ month_start m + d - 1)
    × (clock t ≡ seconds_of c)
    × (t.ns ≤ n)
    × (n + f.east * second_ns < run_of f.west c (m + 1) d)

pub month_wanted :
    {l : Location} (f : IsFixed l) (n : ℕ) (c : Clock) (valid : IsClock c) (d : ℕ)
    → let now : Time = record { ns = n; loc = l } in
      let wanted = at_clock (year now) (month now) (pos d) c l in
      100 ≤ day_number now
      → 1 ≤ d
      → d ≤ days_in (month_index now)
      → Shows f c valid (month_start (month_index now) + d - 1) wanted × (month wanted ≡ month now)
unfolding month
month_wanted {l} f n c valid d late d1 fits =
    let now : Time = record { ns = n; loc = l } in
    let facts = mday_facts (day_number now) late in
    let shows = in_month f c valid now d (omega (arith, facts)) (omega (arith, facts)) d1 in
    let same =
      month_start-mday (month_index now) d (omega (arith, facts)) d1 (omega (arith, facts)) in
    (shows, ap (λ m. m % 12 + 1) (ap month_of_day shows.0 ∙ same.0))

-- If the run of this month is still to come, the program finds that of the month before.
pub earlier_month :
    {l : Location} (f : IsFixed l) (n : ℕ) (c : Clock) (valid : IsClock c) (d : ℕ)
    → let now : Time = record { ns = n; loc = l } in
      let wanted = at_clock (year now) (month now) (pos d) c l in
      100 ≤ day_number now
      → 1 ≤ d
      → d ≤ 28
      → n < wanted.ns
      → Shows f c valid (month_start (month_index now - 1) + d - 1) (previous_month (pos d) c now l)
earlier_month {l} f n c valid d late d1 d28 coming =
    let now : Time = record { ns = n; loc = l } in
    let facts = mday_facts (day_number now) late in
    let shows = (month_wanted f n c valid d late d1 (omega (arith, facts))).0 in
    let day_is : day now ≡ mday_of_day (day_number now) = unfold day in refl in
    let time = ns_lem f n (omega arith) in
    let e = (month_back f n late).0 (omega (arith, facts, day_is, shows, clock-lt f n)) in
    subst (λ k. Shows f c valid (month_start k + d - 1) (previous_month (pos d) c now l)) e
      (previous_month_lem f c valid now d (rw e (omega (arith, facts)))
        (rw e (omega (arith, facts))) d1 (rw e (omega (arith, facts))))

choose_month :
    {l : Location} (f : IsFixed l) (n : ℕ) (c : Clock) (valid : IsClock c) (d : ℕ)
    → let now : Time = record { ns = n; loc = l } in
      let wanted = at_clock (year now) (month now) (pos d) c l in
      100 ≤ day_number now
      → 1 ≤ d
      → d ≤ 28
      → IsLastMonthly f c d n (if after wanted now then previous_month (pos d) c now l else wanted)
choose_month {l} f n c valid d late d1 d28 = elim (Bool-cases (after wanted now)) [
  | inl coming ↦
      let (day_is, clock_is, old, next) = before (ltb→lt n wanted.ns coming) in
      rw coming (month_index now - 1, day_is, clock_is, old, next)
  | inr passed ↦ rw passed (
    month_index now,
    shows.0,
    shows.1,
    ltb→ge n wanted.ns passed,
    omega (
      arith,
      month_of_day_bounds (day_number now),
      shows,
      mday_facts (day_number now) late,
      ns_lem f n (omega arith),
      clock-lt f n,
    ),
  )
]
  where
    now : Time
    now = record { ns = n; loc = l }

    wanted : Time
    wanted = at_clock (year now) (month now) (pos d) c l

    shows : Shows f c valid (month_start (month_index now) + d - 1) wanted
    shows = (month_wanted f n c valid d late d1 (omega (arith, mday_facts (day_number now) late))).0

    before :
        n < wanted.ns
        → let t = previous_month (pos d) c now l in
          (day_number t ≡ month_start (month_index now - 1) + d - 1)
          × (clock t ≡ seconds_of c)
          × (t.ns ≤ n)
          × (n + f.east * second_ns < run_of f.west c (month_index now - 1 + 1) d)
    before coming =
        let facts = mday_facts (day_number now) late in
        let time = ns_lem f n (omega arith) in
        let before = earlier_month f n c valid d late d1 d28 coming in
        (before.0, before.1, omega (arith, facts, time, before), omega (arith, facts, shows))

-- For a time of day that can be read, a day that every month has (1 to 28), in a location with a
-- fixed offset, and `n` from day 100 of the calendar on: there is a result, it is the run on that
-- day of some month, not after `n`, and the run of the next month is after `n`.
pub get_last_monthly_time-last :
    {l : Location} (f : IsFixed l) (s : Bytes) (c : Clock) (d n : ℕ)
    → parse_time_string s ≡ ok c
    → 1 ≤ d
    → d ≤ 28
    → 100 ≤ day_number (record { ns = n; loc = l })
    → (t : Time) × (get_last_monthly_time s (pos d) (record { ns = n; loc = l }) l ≡ ok t)
      × IsLastMonthly f c d n t
unfolding get_last_monthly_time
get_last_monthly_time-last {l} f s c d n e d1 d28 late =
    let valid = parse_time_string-IsClock s c e in
    let now : Time = record { ns = n; loc = l } in
    let same =
      (month_wanted f n c valid d late d1 (omega (arith, mday_facts (day_number now) late))).1 in
    (_, rw (e, (==_iff _ _).1 same), choose_month f n c valid d late d1 d28)

-- In a location with a fixed offset, from day 100 of the calendar on: if the month before is too
-- short for the day on which the program asks, then for a day of the month that the current month
-- has, and whose run in it is still to come, the result lies after the current time.
pub get_last_monthly_time-future :
    {l : Location} (f : IsFixed l) (s : Bytes) (c : Clock) (d n : ℕ)
    → let now : Time = record { ns = n; loc = l } in
      parse_time_string s ≡ ok c
      → 1 ≤ d
      → d ≤ days_in (month_index now)
      → 100 ≤ day_number now
      → days_in (month_index now - 1) < day now
      → n + f.east * second_ns < run_of f.west c (month_index now) d
      → (t : Time) × (get_last_monthly_time s (pos d) now l ≡ ok t) × (n < t.ns)
unfolding get_last_monthly_time
get_last_monthly_time-future {l} f s c d n e d1 fits late over coming = (
  previous_month (pos d) c now l,
  rw (e, (==_iff _ _).1 wants.1, ltb_of_lt n wanted.ns (omega (arith, wants.0))),
  omega (arith, same),
)
  where
    valid : IsClock c
    valid = parse_time_string-IsClock s c e

    now : Time
    now = record { ns = n; loc = l }

    wanted : Time
    wanted = at_clock (year now) (month now) (pos d) c l

    wants :
        Shows f c valid (month_start (month_index now) + d - 1) wanted × (month wanted ≡ month now)
    wants = month_wanted f n c valid d late d1 fits

    stuck : month_index (add_date now (pos 0) (negsuc 0) (pos 0)) ≡ month_index now
    stuck = (month_back f n late).1 over

    same : Shows f c valid (month_start (month_index now) + d - 1) (previous_month (pos d) c now l)
    same =
        let facts = mday_facts (day_number now) late in
        subst (λ k. Shows f c valid (month_start k + d - 1) (previous_month (pos d) c now l)) stuck
          (previous_month_lem f c valid now d (rw stuck (omega (arith, facts)))
            (rw stuck (omega (arith, facts))) d1 (rw stuck fits))
