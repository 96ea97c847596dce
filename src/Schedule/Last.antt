-- ===== src/Schedule/Last.antt =====
-- `GetLastDailyTime`, `GetLastWeeklyTime`, `GetLastMonthlyTime` and `GetLastCronTime`. The cron
-- library is not part of the repository: its two parsers are a parameter, and a parsed expression
-- is its `Next` function.
pub mod AtClock
pub mod Daily
pub mod Weekly
pub mod Months
pub mod Monthly
pub mod Cron
use yc_sheduler.Prelude.{
  ℕ, zero, suc, ◌+◌, ◌-◌, ◌==◌, ltb, if◌then◌else◌, ℤ, pos, negsuc, sub_ℕ, ltb_ℤ, String, Bool, not,
  ◌||◌, Option, none, some, Result, ok, err, ◌>>=◌, invalid_weekday, invalid_cron, no_cron_before,
  no_cron_found,
}
use yc_sheduler.Config.{Bytes}
use yc_sheduler.GoTime.Instant.{
  Location, Time, zero_ns, is_zero, after, equal, year, month, day, weekday, date, add_date,
}
use yc_sheduler.Schedule.Clock.{Clock, parse_time_string}

-- The time of day `c` on the day of `t`, a clock in `l` showing it.
abbrev pub at_clock : ℕ → ℕ → ℤ → Clock → Location → Time
at_clock y m d c l = date y m d c.hour c.minute c.second 0 l

unfoldable pub get_last_daily_time : Bytes → Time → Location → Result Time
get_last_daily_time time_str now l = do
  c ← parse_time_string time_str
  let today = at_clock (year now) (month now) (pos (day now)) c l
  ok (
      if after today now || equal today now
      then add_date today (pos 0) (pos 0) (negsuc 0)
      else today)

-- The `switch` that turns 0 to 6 into a `time.Weekday`.
unfoldable pub target_weekday : ℤ → Result ℕ
target_weekday (pos d) = if ltb d 7 then ok d else err invalid_weekday
target_weekday (negsuc n) = err invalid_weekday

-- `current - target`, and a week more if that is negative.
abbrev days_since : ℕ → ℕ → ℕ
days_since current target = if ltb current target then current + 7 - target else current - target

unfoldable pub get_last_weekly_time : Bytes → ℤ → Time → Location → Result Time
get_last_weekly_time time_str day_of_week now l = do
  c ← parse_time_string time_str
  target ← target_weekday day_of_week
  let back = days_since (weekday now) target
  let today = at_clock (year now) (month now) (pos (day now)) c l
  let back' = if back == 0 then (if after today now then 7 else back) else back
  let target_date = add_date now (pos 0) (pos 0) (sub_ℕ 0 back')
  ok (at_clock (year target_date) (month target_date) (pos (day target_date)) c l)

-- The month before that of `now`: on the wanted day, or on its last day if it is too short.
unfoldable pub previous_month : ℤ → Clock → Time → Location → Time
previous_month day_of_month c now l =
    let last_month = add_date now (pos 0) (negsuc 0) (pos 0) in
    let last_day = at_clock (year last_month) (month last_month + 1) (pos 0) c l in
    if ltb_ℤ (pos (day last_day)) day_of_month
    then last_day
    else at_clock (year last_month) (month last_month) day_of_month c l

unfoldable pub get_last_monthly_time : Bytes → ℤ → Time → Location → Result Time
get_last_monthly_time time_str day_of_month now l = do
  c ← parse_time_string time_str
  let wanted = at_clock (year now) (month now) day_of_month c l
  let this_month =
      if not (month wanted == month now) then previous_month day_of_month c now l else wanted
  ok (if after this_month now then previous_month day_of_month c now l else this_month)

-- `cron.Schedule`, by its method `Next`.
abbrev pub CronSchedule : Type 0
CronSchedule = Time → Time

-- `cron.Parser.Parse` for expressions of six fields and of five.
pub record CronParser : Type 0 where
  pub with_seconds : String → Option CronSchedule
  pub standard : String → Option CronSchedule

unfoldable pub parse_cron : CronParser → String → Result CronSchedule
parse_cron p crontab = elim (p.with_seconds crontab) [
  | some next ↦ ok next
  | none ↦ elim (p.standard crontab) [ some next ↦ ok next | none ↦ err invalid_cron ]
]

abbrev pub utc : Location
utc = record { zone = λ s. record { ahead = 0; behind = 0; since = 0; until = 0 } }

-- `time.Time{}`
abbrev pub zero_time : Time
zero_time = record { ns = zero_ns; loc = utc }

-- The loop, with the rounds that are left.
unfoldable pub find_last : ℕ → CronSchedule → Time → Time → Time → Result Time
find_last zero next now prev last = if not (is_zero prev) then ok prev else err no_cron_found
find_last (suc rounds) next now prev last =
    let more = find_last rounds next now last (next last) in
    if after last now || equal last now
    then (if is_zero prev then err no_cron_before else ok prev)
    else more

abbrev pub max_iterations : ℕ
max_iterations = 10000

unfoldable pub get_last_cron_time : CronParser → String → Time → Result Time
get_last_cron_time p crontab now = do
  next ← parse_cron p crontab
  find_last max_iterations next now zero_time (next (add_date now (negsuc 0) (pos 0) (pos 0)))
