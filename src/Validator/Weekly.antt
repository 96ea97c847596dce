-- ===== src/Validator/Weekly.antt =====
-- Which state the validator expects of a resource with a weekly schedule.
use yc_sheduler.Prelude.{
  ℕ, ◌+◌, ◌*◌, ◌/◌, ◌%◌, ◌≤◌, ◌<◌, ◌≡◌, Bool, true, false, not, ◌&&◌, if◌then◌else◌, some, ok,
  arith, ltb, leb, ◌∙◌, ltb_ℤ, pos, String,
}
use yc_sheduler.Config.{Schedule, ActionConfig}
use yc_sheduler.GoTime.Civil.{weekday_of_day}
use yc_sheduler.GoTime.Instant.{Location, Time, second_ns, day_number, weekday, in_location, after}
use yc_sheduler.GoTime.Fixed.{IsFixed, ns_lem, clock-lt}
use yc_sheduler.Schedule.Clock.{Clock, parse_time_string}
use yc_sheduler.Schedule.Clock.Formats.{IsClock, parse_time_string-IsClock}
use yc_sheduler.Schedule.Last.{CronParser, get_last_weekly_time}
use yc_sheduler.Schedule.Last.AtClock.{seconds_of, day_ns}
use yc_sheduler.Schedule.Last.Weekly.{IsWeeklyRun, get_last_weekly_time-IsWeeklyRun}
use yc_sheduler.Validator.{
  TimeZones, get_last_execution_time, location_of, running, stopped, determine_expected_state,
}
use yc_sheduler.Validator.Expected.{time_of_day, ltb-moved, both_enabled, nonempty}

-- A moment of a week or a month, by its day and the nanoseconds since midnight.
abbrev pub moment_of : ℕ → ℕ → ℕ
moment_of d x = d * day_ns + x

-- Whether a moment lies from `a` on and before `b`, over the end of the period if `b` comes
-- before `a`.
abbrev pub in_period : ℕ → ℕ → ℕ → Bool
in_period a b p = if ltb a b then leb a p && ltb p b else ltb b a && not (leb b p && ltb p a)

-- Weeks are counted in `q` and `r`, days in `z` and `k`; the rest is nanoseconds.
week_of :
    (z k q r d e a x : ℕ)
    → z + 3 ≡ 7 * q + d
    → k + 3 ≡ 7 * r + e
    → d < 7
    → e < 7
    → a < day_ns
    → x < day_ns
    → z * day_ns + a ≤ k * day_ns + x
    → k * day_ns + x < z * day_ns + a + 7 * day_ns
    → q + (if leb (moment_of d a) (moment_of e x) then 0 else 1) ≡ r
week_of z k q r d e a x hz hk hd he ha hx lo hi = ground arith

later_week :
    (z y q q' r d d' a b p : ℕ)
    → z + 3 ≡ 7 * q + d
    → y + 3 ≡ 7 * q' + d'
    → d < 7
    → d' < 7
    → a < day_ns
    → b < day_ns
    → q + (if leb (moment_of d a) p then 0 else 1) ≡ r
    → q' + (if leb (moment_of d' b) p then 0 else 1) ≡ r
    → ltb (y * day_ns + b) (z * day_ns + a) ≡ in_period (moment_of d a) (moment_of d' b) p
later_week z y q q' r d d' a b p hz hy hd hd' ha hb eq eq' = ground arith

-- Two weekly runs, each the last at or before `n`: which is the later one.
later_weekly :
    {l : Location} (f : IsFixed l) (a b : Clock) (va : IsClock a) (vb : IsClock b) (d d' n z y : ℕ)
    (t u : Time)
    → d < 7
    → d' < 7
    → 8 ≤ day_number (record { ns = n; loc = l })
    → IsWeeklyRun f a va d n t z
    → IsWeeklyRun f b vb d' n u y
    → after t u
      ≡ in_period
          (moment_of d (seconds_of a * second_ns))
          (moment_of d' (seconds_of b * second_ns))
          (moment_of
            (weekday (record { ns = n; loc = l }))
            (time_of_day (record { ns = n; loc = l })))
unfolding weekday weekday_of_day
later_weekly {l} f a b va vb d d' n z y t u hd hd' late (t1, t2, t3, t4) (u1, u2, u3, u4) =
    ltb-moved t.ns u.ns (z * day_ns + seconds_of a * second_ns)
      (y * day_ns + seconds_of b * second_ns) (f.east * second_ns) (f.west * second_ns)
      (omega (arith, t4)) (omega (arith, u4))
    ∙ later_week z y ((z + 3) / 7) ((y + 3) / 7) ((k + 3) / 7) d d' (seconds_of a * second_ns)
        (seconds_of b * second_ns) (moment_of ((k + 3) % 7) x) (omega (arith, t3))
        (omega (arith, u3)) hd hd' (omega (arith, va)) (omega (arith, vb))
        (week_of z k ((z + 3) / 7) ((k + 3) / 7) d ((k + 3) % 7) (seconds_of a * second_ns) x
          (omega (arith, t3)) (omega arith) hd (omega arith) (omega (arith, va)) x_lt
          (omega (arith, moment, t1, t4)) (omega (arith, moment, t2, t4)))
        (week_of y k ((y + 3) / 7) ((k + 3) / 7) d' ((k + 3) % 7) (seconds_of b * second_ns) x
          (omega (arith, u3)) (omega arith) hd' (omega arith) (omega (arith, vb)) x_lt
          (omega (arith, moment, u1, u4)) (omega (arith, moment, u2, u4)))
  where
    now : Time
    now = record { ns = n; loc = l }

    k : ℕ
    k = day_number now

    x : ℕ
    x = time_of_day now

    moment : n + f.east * second_ns ≡ k * day_ns + x + f.west * second_ns
    moment = omega (arith, ns_lem f n (omega arith))

    x_lt : x < day_ns
    x_lt = omega (arith, clock-lt f n)

get_last_execution_time-weekly :
    (parser : CronParser) (sch : Schedule) (action : ActionConfig) (now : Time) (l : Location)
    (c : Clock) (d : ℕ)
    → sch.type ≡ "weekly"
    → action.day ≡ pos d
    → d < 7
    → parse_time_string action.time ≡ ok c
    → get_last_execution_time parser sch action now l
      ≡ get_last_weekly_time action.time (pos d) now l
unfolding get_last_execution_time
get_last_execution_time-weekly parser sch action now l c d weekly on small e =
    let low : ltb_ℤ (pos d) (pos 0) ≡ false = ground arith in
    let high : ltb_ℤ (pos 6) (pos d) ≡ false = ground arith in
    simp (weekly, on, nonempty action.time c e, low, high)

-- A weekly schedule with both actions enabled on days from 0 to 6, with times that can be read, in a
-- location with a fixed offset, and a current time from day 8 of the calendar on: the resource is
-- expected to run exactly from the start in the week on and before the stop, over Saturday night if
-- the stop comes earlier in the week, and never if the two are the same.
pub determine_expected_state-weekly :
    {l : Location} (f : IsFixed l) (parser : CronParser) (zones : TimeZones) (timezone : String)
    (sch : Schedule) (start stop : ActionConfig) (a b : Clock) (d d' : ℕ) (now : Time)
    → location_of zones timezone ≡ l
    → sch.type ≡ "weekly"
    → sch.actions.start ≡ some start
    → sch.actions.stop ≡ some stop
    → start.enabled ≡ true
    → stop.enabled ≡ true
    → start.day ≡ pos d
    → stop.day ≡ pos d'
    → d < 7
    → d' < 7
    → parse_time_string start.time ≡ ok a
    → parse_time_string stop.time ≡ ok b
    → 8 ≤ day_number (in_location now l)
    → determine_expected_state parser zones timezone sch now ≡ (
        if in_period
          (moment_of d (seconds_of a * second_ns))
          (moment_of d' (seconds_of b * second_ns))
          (moment_of (weekday (in_location now l)) (time_of_day (in_location now l)))
        then running
        else stopped)
determine_expected_state-weekly {l} f parser zones timezone sch start stop a b d d' now here weekly
      es ee on off od od' hd hd' pa pb late =
    let (t, found, (z, run)) =
      get_last_weekly_time-IsWeeklyRun f start.time a d now.ns pa hd late in
    let (u, found', (y, run')) =
      get_last_weekly_time-IsWeeklyRun f stop.time b d' now.ns pb hd' late in
    both_enabled parser zones timezone sch start stop now es ee on off
    ∙ rw
        (
          here,
          get_last_execution_time-weekly parser sch start (in_location now l) l a d weekly od hd pa,
          get_last_execution_time-weekly parser sch stop (in_location now l) l b d' weekly od' hd'
              pb,
          found,
          found',
        )
        (rw (
          later_weekly f a b (parse_time_string-IsClock start.time a pa)
            (parse_time_string-IsClock stop.time b pb) d d' now.ns z y t u hd hd' late run run'))
