-- ===== src/Tests/Times.antt =====
-- The times of runs.
use yc_sheduler.Schedule.Last.AtClock.{day_ns}
use yc_sheduler.Schedule.Last.Cron.{
  year_before, IsNext, IsLastRun, get_last_cron_time-last, get_last_cron_time-stale,
}
use yc_sheduler.Schedule.Last.Months.{days_in, month_index}
use yc_sheduler.Schedule.Last.Monthly.{run_of, get_last_monthly_time-future}
use yc_sheduler.Prelude.{ℕ, ◌+◌, ◌-◌, ◌*◌, ◌%◌, ◌≤◌, ◌<◌, ◌≡◌, refl, pos, ok, arith, String}
use yc_sheduler.GoTime.Civil.{month_start, month_of_day, mday_of_day}
use yc_sheduler.GoTime.Instant.{
  Location, Time, second_ns, day_seconds, local_seconds, day_number, day, date, date_days, to_utc,
  add_date, year, month, hour, minute, second, clock,
}
use yc_sheduler.Schedule.Clock.{parse_time_string}
use yc_sheduler.Schedule.Clock.Formats.{hh_mm, parse_time_string-formats}
use yc_sheduler.Schedule.Last.{parse_cron, get_last_monthly_time, get_last_cron_time, CronSchedule}
use yc_sheduler.Tests.Fixtures.{moscow, moscow_fixed, now_ns, now, clock_at, every, cron_of}

pub read_time : (h : ℕ) → h < 24 → parse_time_string (hh_mm h 0) ≡ ok (clock_at h 0)
read_time h small = (parse_time_string-formats h 0 0 small (omega arith) (omega arith)).0

pub today : day_number now ≡ 739281
unfolding day_number local_seconds
today = refl

this_month :
    (31 ≤ days_in (month_index now))
    × (days_in (month_index now - 1) < day now)
    × (now_ns + 10800 * second_ns < run_of 0 (clock_at 18 0) (month_index now) 31)
unfolding day day_number local_seconds month_of_day month_start mday_of_day
this_month = (omega arith, omega arith, omega arith)

-- On 31 March at 10:00, the last run on day 31 at 18:00 is found on this very day.
get_last_monthly_time-future_example :
    (t : Time) × (get_last_monthly_time (hh_mm 18 0) (pos 31) now moscow ≡ ok t) × (now_ns < t.ns)
get_last_monthly_time-future_example =
    get_last_monthly_time-future moscow_fixed (hh_mm 18 0) (clock_at 18 0) 31 now_ns
      (read_time 18 (omega arith)) (omega arith) this_month.0 (omega (arith, today)) this_month.1
      this_month.2

year_ago : (year_before now).ns ≡ (738915 * day_seconds + 25200) * second_ns
unfolding add_date date date_days to_utc day_number local_seconds year month day hour minute second
    clock month_of_day month_start mday_of_day
year_ago = refl

-- The expression that a parser of one schedule makes of any text.
parsed : {next : CronSchedule} (tab : String) → parse_cron (cron_of next) tab ≡ ok next
unfolding parse_cron
parsed tab = refl

-- The runs at 10:00 in Moscow, wherever.
abbrev pub DailyAtTen : Location → ℕ → Type 0
DailyAtTen l k = (k + 10800 * second_ns) % day_ns ≡ 36000 * second_ns

-- The next of them.
abbrev at_ten : CronSchedule
at_ten t = record {
  ns = t.ns + day_ns - (t.ns + 10800 * second_ns + day_ns - 36000 * second_ns) % day_ns;
  loc = t.loc;
}

at_ten-IsNext : IsNext at_ten DailyAtTen
at_ten-IsNext = record {
  stays = λ t. refl;
  is_run = λ t. omega arith;
  later = λ t. omega arith;
  least = λ t k runs h. omega arith;
}

-- A run every day: the last one before now is found.
get_last_cron_time-last_example :
    (r : Time) × (get_last_cron_time (cron_of at_ten) "0 10 * * *" now ≡ ok r)
    × IsLastRun DailyAtTen now r
get_last_cron_time-last_example =
    get_last_cron_time-last (cron_of at_ten) "0 10 * * *" at_ten day_ns now (parsed _) at_ten-IsNext
      (λ t. omega arith) (omega (arith, year_ago)) (omega (arith, year_ago))
      (omega (arith, year_ago))

abbrev half_hour : ℕ
half_hour = 1800 * second_ns

-- A run every half hour: the one that is found is not the last one.
get_last_cron_time-stale_example :
    (r : Time) × (get_last_cron_time (cron_of (every half_hour)) "*/30 * * * *" now ≡ ok r)
    × ((every half_hour r).ns < now_ns)
get_last_cron_time-stale_example =
    get_last_cron_time-stale moscow_fixed (cron_of (every half_hour)) "*/30 * * * *"
      (every half_hour) half_hour now_ns (parsed _) (λ t. omega arith) (λ t. omega arith)
      (omega arith) (omega (arith, today)) (omega (arith, year_ago))
