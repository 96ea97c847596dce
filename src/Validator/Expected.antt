-- ===== src/Validator/Expected.antt =====
-- Which state the validator expects of a resource.
use yc_sheduler.Scheduler.Definition.{is_empty}
use yc_sheduler.Prelude.{
  ℕ, ◌+◌, ◌*◌, ◌%◌, ◌≤◌, ◌<◌, ◌≡◌, refl, String, Bool, true, false, not, ◌&&◌, if◌then◌else◌, some,
  ok, arith, ltb, leb, [], ◌∷◌, ◌∙◌,
}
use yc_sheduler.Config.{Bytes, Schedule, ActionConfig, is_enabled}
use yc_sheduler.GoTime.Instant.{
  Location, Time, second_ns, day_seconds, day_number, clock, in_location, after,
}
use yc_sheduler.GoTime.Fixed.{IsFixed, ns_lem, clock-lt}
use yc_sheduler.Schedule.Clock.{Clock, parse_time_string, scan_ints, scan_int}
use yc_sheduler.Schedule.Clock.Formats.{parse_time_string-IsClock}
use yc_sheduler.Schedule.Last.{CronParser, get_last_daily_time}
use yc_sheduler.Schedule.Last.AtClock.{seconds_of, day_ns}
use yc_sheduler.Schedule.Last.Daily.{IsLastDaily, get_last_daily_time-last}
use yc_sheduler.Validator.{
  TimeZones, get_last_execution_time, location_of, running, stopped, later_action,
  determine_expected_state,
}

-- If not both actions are enabled, the expected state is running with only the start enabled,
-- stopped with only the stop enabled, and none otherwise, at every time.
determine_expected_state-single :
    (parser : CronParser) (zones : TimeZones) (timezone : String) (sch : Schedule) (now : Time)
    → (is_enabled sch.actions.start && is_enabled sch.actions.stop) ≡ false
    → determine_expected_state parser zones timezone sch now ≡ (
        if is_enabled sch.actions.start
        then running
        else if is_enabled sch.actions.stop
        then stopped
        else ("", ""))
unfolding determine_expected_state
determine_expected_state-single parser zones timezone sch now h = ground arith

-- The nanoseconds since midnight that a clock in the location of `t` shows.
abbrev pub time_of_day : Time → ℕ
time_of_day t = clock t * second_ns + t.ns % second_ns

-- Whether a time of day lies after `a` and up to `b`, over midnight if `b` comes before `a`.
abbrev pub in_window : ℕ → ℕ → ℕ → Bool
in_window a b x = if ltb a b then ltb a x && leb x b else ltb b a && not (ltb b x && leb x a)

-- Days are counted in `z`, `y` and `k`; the rest is nanoseconds.
before_window :
    (z k a x : ℕ)
    → a < day_ns
    → x < day_ns
    → z * day_ns + a < k * day_ns + x
    → k * day_ns + x ≤ z * day_ns + a + day_ns
    → z + (if ltb a x then 0 else 1) ≡ k
before_window z k a x ha hx lo hi = ground arith

later_run :
    (z y k a b x : ℕ)
    → a < day_ns
    → b < day_ns
    → x < day_ns
    → z + (if ltb a x then 0 else 1) ≡ k
    → y + (if ltb b x then 0 else 1) ≡ k
    → ltb (y * day_ns + b) (z * day_ns + a) ≡ in_window a b x
later_run z y k a b x ha hb hx ez ey = ground arith

-- Moving both sides by the offset from UTC keeps the order.
pub ltb-moved : (t u p q e w : ℕ) → t + e ≡ p + w → u + e ≡ q + w → ltb u t ≡ ltb q p
ltb-moved t u p q e w et eu = ground arith

-- Two daily runs, each the last before `n`: which is the later one.
later_daily :
    {l : Location} (f : IsFixed l) (a b : Clock) (n : ℕ) (t u : Time)
    → 2 ≤ day_number (record { ns = n; loc = l })
    → seconds_of a < day_seconds
    → seconds_of b < day_seconds
    → IsLastDaily f a n t
    → IsLastDaily f b n u
    → after t u
      ≡ in_window
          (seconds_of a * second_ns)
          (seconds_of b * second_ns)
          (time_of_day (record { ns = n; loc = l }))
later_daily {l} f a b n t u late ha hb (z, t1, t2, _, t3) (y, u1, u2, _, u3) =
    ltb-moved t.ns u.ns (z * day_ns + seconds_of a * second_ns)
      (y * day_ns + seconds_of b * second_ns) (f.east * second_ns) (f.west * second_ns)
      (omega arith) (omega arith)
    ∙ later_run z y k (seconds_of a * second_ns) (seconds_of b * second_ns) x (omega arith)
        (omega arith) x_lt
        (before_window z k (seconds_of a * second_ns) x (omega arith) x_lt (omega (arith, moment))
          (omega (arith, moment)))
        (before_window y k (seconds_of b * second_ns) x (omega arith) x_lt (omega (arith, moment))
          (omega (arith, moment)))
  where
    now : Time
    now = record { ns = n; loc = l }

    k : ℕ
    k = day_number now

    x : ℕ
    x = time_of_day now

    moment : n + f.east * second_ns ≡ k * day_ns + x + f.west * second_ns
    moment = omega (arith, ns_lem f n (omega arith))

    x_lt : x < day_ns
    x_lt = omega (arith, clock-lt f n)

pub nonempty : (s : Bytes) (c : Clock) → parse_time_string s ≡ ok c → is_empty s ≡ false
unfolding parse_time_string scan_ints scan_int
nonempty [] c e = cc
nonempty (x ∷ s) c e = refl

get_last_execution_time-daily :
    (parser : CronParser) (sch : Schedule) (action : ActionConfig) (now : Time) (l : Location)
    (c : Clock)
    → sch.type ≡ "daily"
    → parse_time_string action.time ≡ ok c
    → get_last_execution_time parser sch action now l ≡ get_last_daily_time action.time now l
unfolding get_last_execution_time
get_last_execution_time-daily parser sch action now l c daily e =
    simp (daily, nonempty action.time c e)

pub both_enabled :
    (parser : CronParser) (zones : TimeZones) (timezone : String) (sch : Schedule)
    (start stop : ActionConfig) (now : Time)
    → sch.actions.start ≡ some start
    → sch.actions.stop ≡ some stop
    → start.enabled ≡ true
    → stop.enabled ≡ true
    → let l = location_of zones timezone in
      determine_expected_state parser zones timezone sch now
      ≡ later_action
          (get_last_execution_time parser sch start (in_location now l) l)
          (get_last_execution_time parser sch stop (in_location now l) l)
unfolding determine_expected_state is_enabled
both_enabled parser zones timezone sch start stop now es ee on off = simp (es, ee, on, off)

-- A daily schedule with both actions enabled and times that can be read, in a location with a fixed
-- offset, and a current time from day 2 of the calendar on: the resource is expected to run exactly
-- in the window that begins after the start time and ends with the stop time, over midnight if the
-- stop time is the earlier one, and never if the two are the same.
pub determine_expected_state-daily :
    {l : Location} (f : IsFixed l) (parser : CronParser) (zones : TimeZones) (timezone : String)
    (sch : Schedule) (start stop : ActionConfig) (a b : Clock) (now : Time)
    → location_of zones timezone ≡ l
    → sch.type ≡ "daily"
    → sch.actions.start ≡ some start
    → sch.actions.stop ≡ some stop
    → start.enabled ≡ true
    → stop.enabled ≡ true
    → parse_time_string start.time ≡ ok a
    → parse_time_string stop.time ≡ ok b
    → 2 ≤ day_number (in_location now l)
    → determine_expected_state parser zones timezone sch now ≡ (
        if in_window
          (seconds_of a * second_ns)
          (seconds_of b * second_ns)
          (time_of_day (in_location now l))
        then running
        else stopped)
determine_expected_state-daily {l} f parser zones timezone sch start stop a b now here daily es ee
      on off pa pb late =
    let (t, found, last) = get_last_daily_time-last f start.time a now.ns pa late in
    let (u, found', last') = get_last_daily_time-last f stop.time b now.ns pb late in
    both_enabled parser zones timezone sch start stop now es ee on off
    ∙ rw
        (
          here,
          get_last_execution_time-daily parser sch start (in_location now l) l a daily pa,
          get_last_execution_time-daily parser sch stop (in_location now l) l b daily pb,
          found,
          found',
        )
        (rw (
          later_daily f a b now.ns t u late
            (omega (arith, parse_time_string-IsClock start.time a pa))
            (omega (arith, parse_time_string-IsClock stop.time b pb)) last last'))
