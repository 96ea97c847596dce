-- ===== src/Validator.antt =====
-- internal/validator/validator.go: the state that a schedule asks for now, and the jobs that correct
-- a resource which is in another one. The time zone database is a parameter.
pub mod Expected
pub mod Weekly
pub mod Monthly
pub mod Agreement
pub mod Corrections
pub mod Answers
pub mod Settling
pub mod Convergence
pub mod Loop
use yc_sheduler.Prelude.{
  String, joined, str_eq, not, ltb_ℤ, pos, Bool, true, false, ◌&&◌, ◌||◌, if◌then◌else◌, List, [],
  ◌∷◌, Option, none, some, Result, ok, err, Error, missing_time, missing_crontab, invalid_weekday,
  invalid_month_day, unknown_type,
}
use yc_sheduler.Config.{Schedule, ActionConfig, is_enabled}
use yc_sheduler.GoTime.Instant.{Location, Time, after, in_location}
use yc_sheduler.Schedule.Last.{
  CronParser, get_last_daily_time, get_last_weekly_time, get_last_monthly_time, get_last_cron_time,
}
use yc_sheduler.Resource.{StateChecker}
use yc_sheduler.Metrics.{Metrics, inc_validator_correction, if_recorded}
use yc_sheduler.Scheduler.Definition.{is_empty}
use yc_sheduler.Scheduler.Jobs.{Gocron, Task}
use yc_sheduler.Scheduler.{add_one_time_job}

-- `time.Local` and `time.LoadLocation`.
pub record TimeZones : Type 0 where
  pub local : Location
  pub load : String → Option Location

unfoldable pub get_last_execution_time :
    CronParser → Schedule → ActionConfig → Time → Location → Result Time
get_last_execution_time parser sch action now l =
    if str_eq sch.type "daily"
    then (if is_empty action.time then err missing_time else get_last_daily_time action.time now l)
    else if str_eq sch.type "weekly"
    then (if is_empty action.time
        then err missing_time
        else if ltb_ℤ action.day (pos 0) || ltb_ℤ (pos 6) action.day
        then err invalid_weekday
        else get_last_weekly_time action.time action.day now l)
    else if str_eq sch.type "monthly"
    then (if is_empty action.time
        then err missing_time
        else if ltb_ℤ action.day (pos 1) || ltb_ℤ (pos 31) action.day
        then err invalid_month_day
        else get_last_monthly_time action.time action.day now l)
    else if str_eq sch.type "cron"
    then (if str_eq action.crontab ""
        then err missing_crontab
        else get_last_cron_time parser action.crontab now)
    else err unknown_type

-- The configured location, and the local one if there is none or it cannot be loaded.
unfoldable pub location_of : TimeZones → String → Location
location_of zones timezone =
    if not (str_eq timezone "")
    then elim (zones.load timezone) [ some l ↦ l | none ↦ zones.local ]
    else zones.local

abbrev pub running : String × String
running = ("running", "start")

abbrev pub stopped : String × String
stopped = ("stopped", "stop")

-- Which of the last start and the last stop came later.
abbrev pub later_action : Result Time → Result Time → String × String
later_action (err e) stop = running
later_action (ok start) (err e) = stopped
later_action (ok start) (ok stop) = if after start stop then running else stopped

-- Both actions, if both are enabled.
abbrev both :
    Option ActionConfig
    → Option ActionConfig
    → (ActionConfig → ActionConfig → String × String)
    → String × String
both (some start) (some stop) f = f start stop
both _ _ f = ("", "")

unfoldable pub determine_expected_state :
    CronParser → TimeZones → String → Schedule → Time → String × String
determine_expected_state parser zones timezone sch now =
    let has_start = is_enabled sch.actions.start in
    let has_stop = is_enabled sch.actions.stop in
    let l = location_of zones timezone in
    let now_in_tz = in_location now l in
    if has_start && not has_stop
    then running
    else if has_stop && not has_start
    then stopped
    else if has_start && has_stop
    then both sch.actions.start sch.actions.stop (λ start stop.
      later_action (get_last_execution_time parser sch start now_in_tz l)
        (get_last_execution_time parser sch stop now_in_tz l))
    else ("", "")

-- What the validation loop acts on.
pub record State (W G : Type 0) : Type 0 where
  pub world : W
  pub scheduler : Option G
  pub metrics : Option Metrics

-- `sch.Name + ":validator:" + expectedAction`, and the job that it names.
abbrev pub corrective_name : Schedule → String → String
corrective_name sch action = joined (sch.name ∷ ":validator:" ∷ action ∷ [])

abbrev pub corrective_task : Bool → Schedule → String → Task
corrective_task dry_run sch action = record { schedule = sch; action = action; dry_run = dry_run }

module _ {W G : Type 0} (checker : StateChecker W) (cron : Gocron G) where
  -- The metric counts a corrective job that was added.
  corrected : Schedule → String → Option G × Option Error → State W G → State W G
  unfolding inc_validator_correction
  corrected sch action (g, some e) s = record s { scheduler = g }
  corrected sch action (g, none) s = record s {
    scheduler = g;
    metrics = if_recorded s.metrics λ m. inc_validator_correction m sch.resource.type action;
  }

  -- A mismatch between the actual state and the expected one adds a one-time job.
  pub correct : Bool → Schedule → String × String → String → State W G → State W G
  unfolding corrected
  correct dry_run sch (expected_state, action) actual s =
      if str_eq action ""
      then s
      else if not (str_eq actual expected_state)
      then corrected sch action
          (add_one_time_job cron (corrective_name sch action) (corrective_task dry_run sch action)
            s.scheduler)
          s
      else s

  -- What the loop does with the answer of `GetState`.
  pub validate : Bool → Schedule → String × String → Result (String × Bool) → State W G → State W G
  unfolding correct
  validate dry_run sch expected (err e) s = s
  validate dry_run sch expected (ok (actual, is_transitional)) s =
      if is_transitional then s else correct dry_run sch expected actual s

  unfoldable pub validate_schedule :
      CronParser → TimeZones → String → Bool → Time → Schedule → State W G → State W G
  unfolding validate
  validate_schedule parser zones timezone dry_run now sch s =
      let (state, w) = checker.get_state sch.resource s.world in
      validate dry_run sch (determine_expected_state parser zones timezone sch now) state
        (record s { world = w })

  -- One round over a snapshot of the schedules, at one time `now`.
  unfoldable pub run_once :
      CronParser → TimeZones → String → Bool → Time → List Schedule → State W G → State W G
  unfolding validate_schedule
  run_once parser zones timezone dry_run now [] s = s
  run_once parser zones timezone dry_run now (sch ∷ rest) s =
      run_once parser zones timezone dry_run now rest
        (validate_schedule parser zones timezone dry_run now sch s)
