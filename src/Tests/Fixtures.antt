-- ===== src/Tests/Fixtures.antt =====
-- A location, times of day, schedules, and small versions of the services outside the repository.
use yc_sheduler.Prelude.{
  ℕ, ◌+◌, ◌-◌, ◌*◌, refl, ℤ, pos, Bool, true, false, not, Option, none, some, List, [], ◌∷◌, ◌++◌,
  ok, String, keep, arith, ok_injective,
}
use yc_sheduler.Config.{Bytes, Resource, ActionConfig, Schedule}
use yc_sheduler.GoTime.Instant.{Location, Time, second_ns, day_seconds}
use yc_sheduler.GoTime.Fixed.{IsFixed}
use yc_sheduler.Schedule.Clock.{Clock}
use yc_sheduler.Schedule.Clock.Formats.{hh_mm}
use yc_sheduler.Schedule.Last.{CronParser, CronSchedule}
use yc_sheduler.Resource.{StateChecker, Operator}
use yc_sheduler.Scheduler.Jobs.{Job, Gocron, GocronLaws, tagged}
use yc_sheduler.Validator.{TimeZones}

-- Three hours ahead of UTC, always.
abbrev pub moscow : Location
moscow = record { zone = λ s. record { ahead = 10800; behind = 0; since = 0; until = 0 } }

abbrev pub moscow_fixed : IsFixed moscow
moscow_fixed = record {
  east = 10800;
  west = 0;
  east_lt = omega arith;
  west_lt = omega arith;
  ahead_is = λ s. refl;
  behind_is = λ s. refl;
}

abbrev pub zones : TimeZones
zones = record { local = moscow; load = λ name. none }

-- 31 March 2024, 10:00 in Moscow.
abbrev pub now_ns : ℕ
now_ns = (739281 * day_seconds + 36000 - 10800) * second_ns

abbrev pub now : Time
now = record { ns = now_ns; loc = moscow }

abbrev pub clock_at : ℕ → ℕ → Clock
clock_at h m = record { hour = h; minute = m; second = 0 }

-- The first run after an instant of an expression that runs on every whole multiple of `step`.
abbrev pub every : ℕ → CronSchedule
every step t = record { ns = t.ns + step; loc = t.loc }

abbrev pub cron_of : CronSchedule → CronParser
cron_of next = record { with_seconds = λ tab. none; standard = λ tab. some next }

abbrev pub vm : Resource
vm = record { type = "vm"; id = "vm-1"; folder_id = "folder-1" }

abbrev pub action : Bytes → ℤ → Bool → ActionConfig
action time day enabled = record { time = time; crontab = ""; day = day; enabled = enabled }

abbrev pub schedule : String → Option ActionConfig → Option ActionConfig → Schedule
schedule kind start stop = record {
  display_name = "";
  actions = record { start = start; stop = stop };
  cron_job = none;
  daily_job = none;
  weekly_job = none;
  monthly_job = none;
  resource = vm;
  name = "office";
  type = kind;
}

-- Runs from 09:00 to 18:00.
abbrev pub office_hours : Schedule
office_hours =
    schedule "daily" (some (action (hh_mm 9 0) (pos 0) true))
      (some (action (hh_mm 18 0) (pos 0) true))

-- A scheduler that is the list of its jobs.
abbrev pub gocron : Gocron (List Job)
gocron = record {
  new_job = λ g j. ok (g ++ j ∷ []);
  remove_by_tags = λ g tag. keep (λ j. not (tagged tag j.tags)) g;
  jobs = λ g. g;
}

pub gocron_laws : GocronLaws gocron
gocron_laws = record {
  jobs-new_job = λ g g' j e. ok_injective g' (g ++ j ∷ []) (cc);
  jobs-remove_by_tags = λ g tag. refl;
}

-- A world that is the state of the one resource there is.
abbrev pub checker : StateChecker String
checker = record { get_state = λ r w. (ok (w, false), w) }

abbrev pub operator : Operator String
operator = record { start = λ r w. (ok tt, "running"); stop = λ r w. (ok tt, "stopped") }
