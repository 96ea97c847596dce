-- ===== src/Validator/Monthly.antt =====
-- Which state the validator expects of a resource with a monthly schedule.
use yc_sheduler.Validator.Weekly.{in_period, moment_of}
use yc_sheduler.Prelude.{
  ℕ, ◌+◌, ◌-◌, ◌*◌, ◌≤◌, ◌<◌, ◌≡◌, Bool, true, false, if◌then◌else◌, some, ok, arith, ltb, leb, ◌∙◌,
  ltb_ℤ, pos, String, ap,
}
use yc_sheduler.Config.{Schedule, ActionConfig}
use yc_sheduler.GoTime.Civil.{month_start}
use yc_sheduler.GoTime.Instant.{Location, Time, second_ns, day_number, day, in_location, after}
use yc_sheduler.GoTime.Fixed.{IsFixed}
use yc_sheduler.Schedule.Clock.{Clock, parse_time_string}
use yc_sheduler.Schedule.Clock.Formats.{IsClock, parse_time_string-IsClock}
use yc_sheduler.Schedule.Last.{CronParser, get_last_monthly_time}
use yc_sheduler.Schedule.Last.AtClock.{seconds_of, day_ns}
use yc_sheduler.Schedule.Last.Months.{month_index, mday_facts}
use yc_sheduler.Schedule.Last.Monthly.Run.{IsMonthlyRun, get_last_monthly_time-IsMonthlyRun}
use yc_sheduler.Validator.{
  TimeZones, get_last_execution_time, location_of, running, stopped, determine_expected_state,
}
use yc_sheduler.Validator.Expected.{time_of_day, ltb-moved, both_enabled, nonempty}

-- The month of a run begins on day `q` if the moment has come, and on day `p` otherwise.
month_of_run :
    (m k : ℕ) (come : Bool)
    → m + (if come then 0 else 1) ≡ k
    → month_start m ≡ (if come then month_start k else month_start (k - 1))
month_of_run m k true e = ap month_start (omega arith)
month_of_run m k false e = ap month_start (omega arith)

later_month :
    (p q d d' a b x : ℕ)
    → p + 28 ≤ q
    → 1 ≤ d
    → d ≤ 28
    → 1 ≤ d'
    → d' ≤ 28
    → a < day_ns
    → b < day_ns
    → ltb
        (((if leb (moment_of d' b) x then q else p) + d' - 1) * day_ns + b)
        (((if leb (moment_of d a) x then q else p) + d - 1) * day_ns + a)
      ≡ in_period (moment_of d a) (moment_of d' b) x
later_month p q d d' a b x apart d1 d28 d1' d28' ha hb = ground arith

-- Two monthly runs, each the last at or before the current time: which is the later one.
later_monthly :
    {l : Location} (f : IsFixed l) (a b : Clock) (va : IsClock a) (vb : IsClock b) (d d' m m' : ℕ)
    (now t u : Time)
    → 1 ≤ d
    → d ≤ 28
    → 1 ≤ d'
    → d' ≤ 28
    → 100 ≤ day_number now
    → IsMonthlyRun f a d now t m
    → IsMonthlyRun f b d' now u m'
    → after t u
      ≡ in_period
          (moment_of d (seconds_of a * second_ns))
          (moment_of d' (seconds_of b * second_ns))
          (moment_of (day now) (time_of_day now))
later_monthly f a b va vb d d' m m' now t u d1 d28 d1' d28' late (t1, t2) (u1, u2) =
    let k = month_index now in
    let x = moment_of (day now) (time_of_day now) in
    let facts = mday_facts (day_number now) late in
    let A = seconds_of a * second_ns in
    let B = seconds_of b * second_ns in
    let mt = month_of_run m k (leb (moment_of d A) x) (ground (arith, t2)) in
    let mu = month_of_run m' k (leb (moment_of d' B) x) (ground (arith, u2)) in
    ltb-moved t.ns u.ns ((month_start m + d - 1) * day_ns + A)
      ((month_start m' + d' - 1) * day_ns + B) (f.east * second_ns) (f.west * second_ns)
      (omega (arith, t1)) (omega (arith, u1))
    ∙ rw (mt, mu)
        (later_month (month_start (k - 1)) (month_start k) d d' A B x (omega (arith, facts)) d1 d28
          d1' d28' (omega (arith, va)) (omega (arith, vb)))

get_last_execution_time-monthly :
    (parser : CronParser) (sch : Schedule) (action : ActionConfig) (now : Time) (l : Location)
    (c : Clock) (d : ℕ)
    → sch.type ≡ "monthly"
    → action.day ≡ pos d
    → 1 ≤ d
    → d ≤ 28
    → parse_time_string action.time ≡ ok c
    → get_last_execution_time parser sch action now l
      ≡ get_last_monthly_time action.time (pos d) now l
unfolding get_last_execution_time
get_last_execution_time-monthly parser sch action now l c d monthly on d1 d28 e =
    let low : ltb_ℤ (pos d) (pos 1) ≡ false = ground arith in
    let high : ltb_ℤ (pos 31) (pos d) ≡ false = ground arith in
    simp (monthly, on, nonempty action.time c e, low, high)

-- A monthly schedule with both actions enabled on days that every month has (1 to 28), with times
-- that can be read, in a location with a fixed offset, and a current time from day 100 of the
-- calendar on: the resource is expected to run exactly from the start in the month on and before the
-- stop, over the end of the month if the stop comes earlier in it, and never if the two are the
-- same.
pub determine_expected_state-monthly :
    {l : Location} (f : IsFixed l) (parser : CronParser) (zones : TimeZones) (timezone : String)
    (sch : Schedule) (start stop : ActionConfig) (a b : Clock) (d d' : ℕ) (now : Time)
    → location_of zones timezone ≡ l
    → sch.type ≡ "monthly"
    → sch.actions.start ≡ some start
    → sch.actions.stop ≡ some stop
    → start.enabled ≡ true
    → stop.enabled ≡ true
    → start.day ≡ pos d
    → stop.day ≡ pos d'
    → 1 ≤ d
    → d ≤ 28
    → 1 ≤ d'
    → d' ≤ 28
    → parse_time_string start.time ≡ ok a
    → parse_time_string stop.time ≡ ok b
    → 100 ≤ day_number (in_location now l)
    → determine_expected_state parser zones timezone sch now ≡ (
        if in_period
          (moment_of d (seconds_of a * second_ns))
          (moment_of d' (seconds_of b * second_ns))
          (moment_of (day (in_location now l)) (time_of_day (in_location now l)))
        then running
        else stopped)
determine_expected_state-monthly {l} f parser zones timezone sch start stop a b d d' now here
      monthly es ee on off od od' d1 d28 d1' d28' pa pb late =
    let (t, found, (m, run)) =
      get_last_monthly_time-IsMonthlyRun f start.time a d now.ns pa d1 d28 late in
    let (u, found', (m', run')) =
      get_last_monthly_time-IsMonthlyRun f stop.time b d' now.ns pb d1' d28' late in
    both_enabled parser zones timezone sch start stop now es ee on off
    ∙ rw
        (
          here,
          get_last_execution_time-monthly parser sch start (in_location now l) l a d monthly od d1
              d28 pa,
          get_last_execution_time-monthly parser sch stop (in_location now l) l b d' monthly od' d1'
              d28' pb,
          found,
          found',
        )
        (rw (
          later_monthly f a b (parse_time_string-IsClock start.time a pa)
            (parse_time_string-IsClock stop.time b pb) d d' m m' (in_location now l) t u d1 d28 d1'
            d28' late run run'))
