-- ===== src/Tests/Written.antt =====
-- Texts of times, the goroutines of the server, and the generator of the schemas.
use yc_sheduler.Prelude.{
  ℕ, ◌*◌, ◌-◌, ltb, if◌then◌else◌, ◌<◌, ◌+◌, ◌≤◌, ◌≡◌, ◌⊎◌, refl, true, false, none, [], ◌∷◌, ok,
  arith,
}
use yc_sheduler.Config.Files.{bytes_lt}
use yc_sheduler.GoTime.Civil.{mday_of_day, month_of_day, month_start}
use yc_sheduler.GoTime.Instant.{
  Location, day_seconds, month, day, hour, minute, second, clock, Time, second_ns, day_number,
  local_seconds, year,
}
use yc_sheduler.Calendar.{
  Event, new_event, less, format_date, format_clock, format_rfc3339, calendar_location,
  events_in_range,
}
use yc_sheduler.Calendar.Parse.{
  parse_clock, with_seconds, without_seconds, field, getnum, colon, ended,
}
use yc_sheduler.Schedule.Clock.{past_colon}
use yc_sheduler.Calendar.Complete.{AllReadable, daily}
use yc_sheduler.Calendar.Complete.Ordered.{IsComplete, year_10000, events_in_range-IsComplete}
use yc_sheduler.Schedule.Clock.Formats.{hh_mm}
use yc_sheduler.Tests.Times.{today}
use yc_sheduler.Calendar.Chronology.{IsShown}
use yc_sheduler.Config.Rfc3339.{accepts_rfc3339, unmarshal_rfc3339, time_of}
use yc_sheduler.Config.Rfc3339.Written.{format_rfc3339-read}
use yc_sheduler.Web.Server.Running.{
  Server, started, cancelled, call, wake, close, return, serve_ends, start, outside, Runs, rest,
  more, remaining, IsStopped, IsWaiting, Moves, Runs-IsStopped,
}
use yc_sheduler.SchemaGen
use yc_sheduler.SchemaGen.{Schema, World, generate}
use yc_sheduler.SchemaGen.Written.{Ends, generate-Ends}
use yc_sheduler.Tests.Fixtures.{
  moscow, moscow_fixed, zones, now, now_ns, clock_at, every, cron_of, office_hours,
}

pub now-IsShown : IsShown moscow_fixed now_ns
unfolding day_number local_seconds year month_of_day month_start
now-IsShown = (refl, omega arith, omega arith)

read_clock :
    (parse_clock (hh_mm 9 0) ≡ ok (clock_at 9 0)) × (parse_clock (hh_mm 18 0) ≡ ok (clock_at 18 0))
unfolding parse_clock with_seconds without_seconds field getnum colon past_colon ended
read_clock = (refl, refl)

office_hours_readable : AllReadable (office_hours ∷ [])
office_hours_readable = (
  (
    (λ enabled. (daily refl, (clock_at 9 0, read_clock.0))),
    (λ enabled. (daily refl, (clock_at 18 0, read_clock.1))),
  ),
  tt,
)

here : calendar_location zones "" ≡ ok moscow
unfolding calendar_location
here = refl

this_century : day_number now < year_10000
unfolding month_start
this_century = omega (arith, today)

-- One day of the office.
events_in_range-IsComplete_example :
    IsComplete moscow_fixed
      (day_number now)
      (day_number now)
      (office_hours ∷ [])
      (events_in_range (cron_of (every second_ns)) zones 3 (office_hours ∷ []) "" now now)
events_in_range-IsComplete_example =
    events_in_range-IsComplete moscow_fixed (cron_of (every second_ns)) zones 3 (office_hours ∷ [])
      "" now now here office_hours_readable (omega (arith, today)) (omega arith) this_century
      (omega (arith, today))

-- 27 October 2024, 01:00 in UTC, when Berlin falls back from two hours ahead to one.
abbrev fall_back : ℕ
fall_back = 739491 * day_seconds + 3600

abbrev berlin : Location
berlin = record {
  zone = λ s. record {
    ahead = if ltb s fall_back then 7200 else 3600;
    behind = 0;
    since = 0;
    until = 0;
  };
}

abbrev berlin_event : ℕ → Event
berlin_event s = new_event office_hours "start" (record { ns = s * second_ns; loc = berlin })

-- The event at 02:30 after the change comes before that at 02:45, which is earlier.
out_of_order :
    (fall_back - 900 < fall_back + 1800)
    × (less (berlin_event (fall_back + 1800)) (berlin_event (fall_back - 900)) ≡ true)
unfolding less new_event format_rfc3339 format_date format_clock year month day hour minute second
    day_number clock local_seconds month_of_day month_start mday_of_day bytes_lt
out_of_order = (omega arith, refl)

format_rfc3339-read_example :
    let s = format_rfc3339 (record { ns = now_ns; loc = moscow }) in
    (accepts_rfc3339 s ≡ true)
    × (unmarshal_rfc3339 moscow (ok s) ≡ ok s)
    × ((t : Time) × (time_of moscow s ≡ ok t) × (t.ns ≡ now_ns))
format_rfc3339-read_example = format_rfc3339-read moscow_fixed moscow now_ns now-IsShown refl refl

-- After a call of `Shutdown` and the six steps that follow it.
abbrev halted : Server
halted = record {
  ctx_done = true;
  closed = true;
  serving = false;
  watching = false;
  pending = 0;
  waiting = 0;
  active = 0;
  warnings = 0;
}

abbrev halting : Runs 6 (cancelled started) halted
halting = more (wake refl refl refl) (
    more (close 1 refl refl) (
      more (return 0 refl refl refl) (
        more (serve_ends refl refl refl)
          (more (close 0 refl refl) (more (return 0 refl refl refl) rest)))))

Runs-IsStopped_example :
    (6 + remaining halted ≤ remaining (cancelled started))
    × (halted.warnings ≤ 1)
    × (IsStopped halted ⊎ IsWaiting halted ⊎ Moves halted)
Runs-IsStopped_example = Runs-IsStopped (outside start call) refl halting

abbrev empty_schema : Schema
empty_schema = record { version = ""; title = ""; description = ""; rest = [] }

-- A disk on which all goes well.
abbrev disk : SchemaGen.Outside
disk = record {
  dir = λ path. "schemas";
  mkdir_all = λ path w. none;
  create = λ path w. none;
  encode = λ schema pretty. ok (1 ∷ []);
  write = λ target bytes w. (bytes, none);
  close = λ path w. none;
  add_comments = λ path. none;
  reflect_config = λ path. empty_schema;
  reflect_schedule = λ path. empty_schema;
}

abbrev empty_world : World
empty_world = record { files = []; stdout = []; notes = [] }

generate-Ends_example :
    Ends disk "schemas/config.json" "schemas/schedule.json" "" true empty_world
      (generate disk "schemas/config.json" "schemas/schedule.json" "" true empty_world)
generate-Ends_example =
    generate-Ends disk (λ target bytes w h. refl) "schemas/config.json" "schemas/schedule.json" ""
      true empty_world
