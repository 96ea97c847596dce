-- ===== src/Schedule/Last/Monthly/Run.antt =====
-- In which month the run of a monthly schedule is.
use yc_sheduler.Schedule.Last.Monthly.{run_of, month_wanted, earlier_month}
use yc_sheduler.Schedule.Last.Months.{month_index, mday_facts}
use yc_sheduler.Prelude.{
  ℕ, ◌+◌, ◌-◌, ◌*◌, ◌%◌, ◌≤◌, ◌≡◌, refl, pos, ok, arith, Bool-cases, inl, inr, ==_iff, ltb→lt,
  false, true, ltb→ge, if◌then◌else◌, leb, leb_of_le, leb_of_gt, ◌<◌, ap, leb→le, leb→gt,
}
use yc_sheduler.Config.{Bytes}
use yc_sheduler.GoTime.Civil.{month_start, mday_of_day}
use yc_sheduler.GoTime.CivilLaws.{month_of_day_bounds}
use yc_sheduler.GoTime.Instant.{
  Location, Time, second_ns, day_seconds, day_number, clock, year, month, day, after,
}
use yc_sheduler.GoTime.Fixed.{IsFixed, ns_lem, clock-lt}
use yc_sheduler.Schedule.Clock.{Clock, parse_time_string}
use yc_sheduler.Schedule.Clock.Formats.{IsClock, parse_time_string-IsClock}
use yc_sheduler.Schedule.Last.{at_clock, previous_month, get_last_monthly_time}
use yc_sheduler.Schedule.Last.AtClock.{seconds_of, Shows}

-- The last run, as a clock would show it: in this month if its moment of the month has come, and in
-- the month before otherwise.
abbrev pub IsMonthlyRun : {l : Location} → IsFixed l → Clock → ℕ → Time → Time → ℕ → Type 0
IsMonthlyRun f c d now t m =
    (t.ns + f.east * second_ns ≡ run_of f.west c m d)
    × (m
          + (if leb ((d * day_seconds + seconds_of c) * second_ns)
                ((day now * day_seconds + clock now) * second_ns + now.ns % second_ns)
              then 0
              else 1)
        ≡ month_index now)

choose_run :
    {l : Location} (f : IsFixed l) (n : ℕ) (c : Clock) (valid : IsClock c) (d : ℕ)
    → let now : Time = record { ns = n; loc = l } in
      let wanted = at_clock (year now) (month now) (pos d) c l in
      100 ≤ day_number now
      → 1 ≤ d
      → d ≤ 28
      → (m : ℕ) × IsMonthlyRun f c d now
          (if after wanted now then previous_month (pos d) c now l else wanted)
          m
choose_run {l} f n c valid d late d1 d28 = elim (Bool-cases (after wanted now)) [
  | inl coming ↦
      let facts = mday_facts (day_number now) late in
      let time = ns_lem f n (omega arith) in
      let less = ltb→lt n wanted.ns coming in
      let old = earlier_month f n c valid d late d1 d28 less in
      let low : leb run_moment now_moment ≡ false =
        leb_of_gt run_moment now_moment (omega (arith, shows, time, facts, day_is)) in
      rw (coming, low) (month_index now - 1, (old.2, omega (arith, facts)))
  | inr passed ↦
      let facts = mday_facts (day_number now) late in
      let time = ns_lem f n (omega arith) in
      let less = ltb→ge n wanted.ns passed in
      let high : leb run_moment now_moment ≡ true =
        leb_of_le run_moment now_moment (omega (arith, shows, time, facts, day_is)) in
      rw (passed, high) (month_index now, (shows.2, omega arith))
]
  where
    now : Time
    now = record { ns = n; loc = l }

    wanted : Time
    wanted = at_clock (year now) (month now) (pos d) c l

    shows : Shows f c valid (month_start (month_index now) + d - 1) wanted
    shows = (month_wanted f n c valid d late d1 (omega (arith, mday_facts (day_number now) late))).0

    day_is : day now ≡ mday_of_day (day_number now)
    day_is = unfold day in refl

    run_moment : ℕ
    run_moment = (d * day_seconds + seconds_of c) * second_ns

    now_moment : ℕ
    now_moment = (day now * day_seconds + clock now) * second_ns + n % second_ns

pub get_last_monthly_time-IsMonthlyRun :
    {l : Location} (f : IsFixed l) (s : Bytes) (c : Clock) (d n : ℕ)
    → parse_time_string s ≡ ok c
    → 1 ≤ d
    → d ≤ 28
    → 100 ≤ day_number (record { ns = n; loc = l })
    → (t : Time) × (get_last_monthly_time s (pos d) (record { ns = n; loc = l }) l ≡ ok t)
      × ((m : ℕ) × IsMonthlyRun f c d (record { ns = n; loc = l }) t m)
unfolding get_last_monthly_time
get_last_monthly_time-IsMonthlyRun {l} f s c d n e d1 d28 late =
    let valid = parse_time_string-IsClock s c e in
    let now : Time = record { ns = n; loc = l } in
    let same =
      (month_wanted f n c valid d late d1 (omega (arith, mday_facts (day_number now) late))).1 in
    let wanted = at_clock (year now) (month now) (pos d) c l in
    (
      if after wanted now then previous_month (pos d) c now l else wanted,
      rw (e, (==_iff _ _).1 same),
      choose_run f n c valid d late d1 d28,
    )

module _ {l : Location} (f : IsFixed l) (c : Clock) (valid : IsClock c) (d : ℕ) where
  -- The run is not after `n`, and that of the next month is.
  pub run_bounds :
      (n m : ℕ) (t : Time)
      → 100 ≤ day_number (record { ns = n; loc = l })
      → 1 ≤ d
      → d ≤ 28
      → IsMonthlyRun f c d (record { ns = n; loc = l }) t m
      → (t.ns ≤ n) × (n + f.east * second_ns < run_of f.west c (m + 1) d) × (3 ≤ m)
  unfolding day
  run_bounds n m t late d1 d28 (at, month_is) =
      let now : Time = record { ns = n; loc = l } in
      let facts = mday_facts (day_number now) late in
      let time = ns_lem f n (omega arith) in
      elim (Bool-cases (
        leb ((d * day_seconds + seconds_of c) * second_ns)
          ((day now * day_seconds + clock now) * second_ns + n % second_ns))) [
            | inl come ↦
                let e = rw come at month_is in
                let here : m ≡ month_index now = omega (arith, e) in
                let first = ap month_start here in
                let second = ap (λ k. month_start (k + 1)) here in
                let less = leb→le _ _ come in
                (
                  omega (arith, at, time, facts, first, less),
                  omega (
                    arith,
                    time,
                    facts,
                    second,
                    month_of_day_bounds (day_number now),
                    clock-lt f n,
                  ),
                  omega (arith, here, facts),
                )
            | inr wait ↦
                let e = rw wait at month_is in
                let here : m + 1 ≡ month_index now = omega (arith, e) in
                let back : m ≡ month_index now - 1 = omega (arith, here) in
                let first = ap month_start here in
                let second = ap month_start back in
                let more = leb→gt _ _ wait in
                (
                  omega (arith, at, time, facts, second, valid),
                  omega (arith, time, facts, first, more),
                  omega (arith, back, facts),
                )
          ]
