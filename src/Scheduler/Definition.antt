-- ===== src/Scheduler/Definition.antt =====
-- `ScheduleToJobDefinition`.
use yc_sheduler.Prelude.{
  str_eq, ltb_ℤ, pos, Bool, false, ◌||◌, if◌then◌else◌, [], ◌∷◌, Result, ok, err, ◌>>=◌,
  missing_crontab, missing_time, invalid_weekday, invalid_month_day, unknown_type,
}
use yc_sheduler.Config.{Bytes, ActionConfig, Schedule}
use yc_sheduler.Schedule.Clock.{parse_time, parse_weekday, parse_day_of_month}
use yc_sheduler.Scheduler.Jobs.{JobDefinition, cron_job, daily_job, weekly_job, monthly_job}

abbrev pub is_empty : Bytes → Bool
is_empty [] = Bool.true
is_empty (_ ∷ _) = false

unfoldable pub schedule_to_job_definition : Schedule → ActionConfig → Result JobDefinition
schedule_to_job_definition sch action =
    if str_eq sch.type "cron"
    then (if str_eq action.crontab ""
        then err missing_crontab
        else ok (cron_job action.crontab false))
    else if str_eq sch.type "daily"
    then (if is_empty action.time
        then err missing_time
        else (do at ← parse_time action.time; ok (daily_job 1 at)))
    else if str_eq sch.type "weekly"
    then (if is_empty action.time
        then err missing_time
        else if ltb_ℤ action.day (pos 0) || ltb_ℤ (pos 6) action.day
        then err invalid_weekday
        else (do
          at ← parse_time action.time
          weekday ← parse_weekday action.day
          ok (weekly_job 1 weekday at)))
    else if str_eq sch.type "monthly"
    then (if is_empty action.time
        then err missing_time
        else if ltb_ℤ action.day (pos 1) || ltb_ℤ (pos 31) action.day
        then err invalid_month_day
        else (do
          at ← parse_time action.time
          day ← parse_day_of_month action.day
          ok (monthly_job 1 day at)))
    else err unknown_type
