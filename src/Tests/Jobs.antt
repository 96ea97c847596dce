-- ===== src/Tests/Jobs.antt =====
-- Jobs, their registration, and the validator.
use yc_sheduler.Validator.Monthly.{determine_expected_state-monthly}
use yc_sheduler.Validator.Weekly.{in_period, moment_of, determine_expected_state-weekly}
use yc_sheduler.Prelude.{
  ◌≤◌, ◌≡◌, refl, String, true, false, if◌then◌else◌, Option, none, some, List, [], ◌∷◌, err, Error,
  arith, time_out_of_range, pos, ◌*◌,
}
use yc_sheduler.Config.{Schedule}
use yc_sheduler.GoTime.Instant.{second_ns, weekday, day}
use yc_sheduler.Schedule.Clock.{parse_time, parse_time_string, scan_ints, scan_int}
use yc_sheduler.Schedule.Clock.Formats.{hh_mm}
use yc_sheduler.Metrics.{new}
use yc_sheduler.Executor.{State, make, try_lock}
use yc_sheduler.Executor.Behaviour.{called, counted, one_more, status, make-called}
use yc_sheduler.Executor.Interleaving.{
  Stage, waiting, working, finished, job, System, Reach, begin, next, spawn, acquire, refuse,
  working_on, Reach-IsExclusive,
}
use yc_sheduler.Scheduler.{replace_schedules}
use yc_sheduler.Scheduler.Jobs.{Job}
use yc_sheduler.Scheduler.Definition.{schedule_to_job_definition}
use yc_sheduler.Scheduler.Registration.{
  Adds, schedule_jobs, unmanaged, replace_schedules-jobs, replace_schedules-lost,
}
use yc_sheduler.Validator.{
  get_last_execution_time, determine_expected_state, location_of, running, stopped, run_once,
}
use yc_sheduler.Validator.Expected.{in_window, time_of_day, determine_expected_state-daily}
use yc_sheduler.Validator.Agreement.{is_ok, get_last_execution_time-definition}
use yc_sheduler.Validator.Corrections.{Grows, IsCorrection, run_once-corrections}
use yc_sheduler.Tests.Times.{read_time, today}
use yc_sheduler.Tests.Fixtures.{
  moscow, moscow_fixed, zones, now, clock_at, every, cron_of, vm, action, schedule, office_hours,
  gocron, gocron_laws, checker, operator,
}

abbrev idle : State String
idle = record { locks = []; metrics = some new; world = "stopped" }

make-called_example :
    ((make checker operator office_hours "start" false idle).world
      ≡ called checker operator vm "start" false [] "stopped")
    × (counted (make checker operator office_hours "start" false idle).metrics
        ≡ one_more vm "start" (status checker operator vm "start" false "stopped") (some new))
    × ((make checker operator office_hours "start" false idle).locks ≡ [])
make-called_example = make-called checker operator office_hours "start" false idle

abbrev system : List String → Stage → Stage → System
system locks a b = record { locks = locks; jobs = job "k" a ∷ job "k" b ∷ [] }

-- Two jobs on one key: one works, the other one is refused.
refused : Reach (system ("k" ∷ []) finished working)
unfolding try_lock
refused =
    next {s = system ("k" ∷ []) waiting working}
      (next {s = system [] waiting waiting}
        (next {s = record { locks = []; jobs = job "k" waiting ∷ [] }} (next begin (spawn "k" refl))
          (spawn "k" refl))
        (acquire "k" (job "k" waiting ∷ []) [] refl refl refl))
      (refuse "k" [] (job "k" working ∷ []) refl refl refl)

Reach-IsExclusive_example :
    (working_on "k" (job "k" finished ∷ job "k" working ∷ []) ≡ 1)
    × (working_on "k" (job "k" finished ∷ job "k" working ∷ []) ≤ 1)
Reach-IsExclusive_example = Reach-IsExclusive refused "k"

replace_schedules-jobs_example :
    (g' : List Job) × (o : Option Error) × (replace_schedules gocron false
        (office_hours ∷ [])
        (some [])
      ≡ (some g', o))
    × Adds gocron gocron_laws
        (unmanaged gocron gocron_laws [])
        (g', o)
        (schedule_jobs false (office_hours ∷ []))
replace_schedules-jobs_example =
    replace_schedules-jobs gocron gocron_laws false (office_hours ∷ []) []

abbrev too_late : Schedule
too_late = schedule "daily" (some (action (hh_mm 25 0) (pos 0) true)) none

bad_time :
    schedule_to_job_definition too_late (action (hh_mm 25 0) (pos 0) true) ≡ err time_out_of_range
unfolding schedule_to_job_definition parse_time parse_time_string scan_ints scan_int
bad_time = refl

replace_schedules-lost_example :
    (g' : List Job) × (replace_schedules gocron false (too_late ∷ []) (some [])
      ≡ (some g', some time_out_of_range))
    × (g' ≡ unmanaged gocron gocron_laws [])
replace_schedules-lost_example =
    replace_schedules-lost gocron gocron_laws false too_late [] []
      (action (hh_mm 25 0) (pos 0) true) time_out_of_range refl refl bad_time

abbrev only_start : Schedule
only_start = schedule "daily" (some (action (hh_mm 9 0) (pos 0) true)) none

determine_expected_state-daily_example :
    determine_expected_state (cron_of (every second_ns)) zones "" office_hours now ≡ (
      if in_window (32400 * second_ns) (64800 * second_ns) (time_of_day now)
      then running
      else stopped)
determine_expected_state-daily_example =
    determine_expected_state-daily moscow_fixed (cron_of (every second_ns)) zones "" office_hours
      (action (hh_mm 9 0) (pos 0) true) (action (hh_mm 18 0) (pos 0) true) (clock_at 9 0)
      (clock_at 18 0) now (unfold location_of in refl) refl refl refl refl refl
      (read_time 9 (omega arith)) (read_time 18 (omega arith)) (omega (arith, today))

get_last_execution_time-definition_example :
    is_ok (
      get_last_execution_time
        (cron_of (every second_ns))
        only_start
        (action (hh_mm 9 0) (pos 0) true)
        now
        moscow)
    ≡ is_ok (schedule_to_job_definition only_start (action (hh_mm 9 0) (pos 0) true))
get_last_execution_time-definition_example =
    get_last_execution_time-definition (cron_of (every second_ns)) only_start
      (action (hh_mm 9 0) (pos 0) true) now moscow refl

run_once-corrections_example :
    Grows checker gocron gocron_laws
      (IsCorrection checker gocron gocron_laws
        (cron_of (every second_ns))
        zones
        ""
        false
        now
        (office_hours ∷ []))
      []
      new
      (run_once checker gocron
        (cron_of (every second_ns))
        zones
        ""
        false
        now
        (office_hours ∷ [])
        (record { world = "stopped"; scheduler = some []; metrics = some new }))
run_once-corrections_example =
    run_once-corrections checker gocron gocron_laws (cron_of (every second_ns)) zones "" false now
      (office_hours ∷ []) "stopped" [] new

-- From Monday 09:00 to Friday 18:00.
abbrev working_week : Schedule
working_week =
    schedule "weekly" (some (action (hh_mm 9 0) (pos 1) true))
      (some (action (hh_mm 18 0) (pos 5) true))

determine_expected_state-weekly_example :
    determine_expected_state (cron_of (every second_ns)) zones "" working_week now ≡ (
      if in_period
        (moment_of 1 (32400 * second_ns))
        (moment_of 5 (64800 * second_ns))
        (moment_of (weekday now) (time_of_day now))
      then running
      else stopped)
determine_expected_state-weekly_example =
    determine_expected_state-weekly moscow_fixed (cron_of (every second_ns)) zones "" working_week
      (action (hh_mm 9 0) (pos 1) true) (action (hh_mm 18 0) (pos 5) true) (clock_at 9 0)
      (clock_at 18 0) 1 5 now (unfold location_of in refl) refl refl refl refl refl refl refl
      (omega arith) (omega arith) (read_time 9 (omega arith)) (read_time 18 (omega arith))
      (omega (arith, today))

-- From 09:00 on the 25th of a month to 18:00 on the 5th of the next.
abbrev end_of_month : Schedule
end_of_month =
    schedule "monthly" (some (action (hh_mm 9 0) (pos 25) true))
      (some (action (hh_mm 18 0) (pos 5) true))

determine_expected_state-monthly_example :
    determine_expected_state (cron_of (every second_ns)) zones "" end_of_month now ≡ (
      if in_period
        (moment_of 25 (32400 * second_ns))
        (moment_of 5 (64800 * second_ns))
        (moment_of (day now) (time_of_day now))
      then running
      else stopped)
determine_expected_state-monthly_example =
    determine_expected_state-monthly moscow_fixed (cron_of (every second_ns)) zones "" end_of_month
      (action (hh_mm 9 0) (pos 25) true) (action (hh_mm 18 0) (pos 5) true) (clock_at 9 0)
      (clock_at 18 0) 25 5 now (unfold location_of in refl) refl refl refl refl refl refl refl
      (omega arith) (omega arith) (omega arith) (omega arith) (read_time 9 (omega arith))
      (read_time 18 (omega arith)) (omega (arith, today))
