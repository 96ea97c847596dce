-- ===== src/Tests/Events.antt =====
-- Events of the calendar.
use yc_sheduler.Calendar.Latest.Weekly.{IsRunOn, IsLatestUpTo, expand_days-get_last_weekly_time}
use yc_sheduler.Calendar.Latest.Monthly.{IsRunOnDay, expand_days-get_last_monthly_time}
use yc_sheduler.Calendar.Latest.{IsRun, IsLatest, expand_days-get_last_daily_time}
use yc_sheduler.Calendar.Parse.{
  parse_clock, with_seconds, without_seconds, field, getnum, colon, ended,
}
use yc_sheduler.Schedule.Clock.Formats.{hh_mm}
use yc_sheduler.Schedule.Clock.{parse_time_string, past_colon, scan_ints, scan_int, digits}
use yc_sheduler.Config.{Bytes}
use mathlib.Core.List.{Memᴰ}
use yc_sheduler.Prelude.{
  ℕ, ◌+◌, ◌*◌, ◌≡◌, ◌↔◌, refl, none, some, List, arith, ◌==◌, ◌-◌, ok, err, invalid_time, [], ◌∷◌,
  true, ◌≤◌, ◌<◌, pos,
}
use yc_sheduler.GoTime.Instant.{Time, second_ns, day_seconds, weekday, day}
use yc_sheduler.Schedule.Last.{
  zero_time, get_last_daily_time, get_last_weekly_time, get_last_monthly_time,
}
use yc_sheduler.Schedule.Last.Cron.{IsNext}
use yc_sheduler.Schedule.Last.AtClock.{day_ns}
use yc_sheduler.Calendar.{expand_days, expand_cron}
use yc_sheduler.Calendar.Cron
use yc_sheduler.Tests.Fixtures.{moscow, moscow_fixed, now, now_ns, clock_at, every}

abbrev midnight : ℕ
midnight = (739281 * day_seconds - 10800) * second_ns

expand_cron-endless_example : expand_cron (λ t. zero_time) moscow now now 1000 now ≡ none
expand_cron-endless_example =
    Cron.expand_cron-endless (λ t. zero_time) moscow now now 1000 now (λ t. refl) (omega arith)

-- Every instant is a run.
always : IsNext (every 1) (λ l k. Unit {0})
always = record {
  stays = λ t. refl;
  is_run = λ t. tt;
  later = λ t. omega arith;
  least = λ t k runs h. omega arith;
}

abbrev soon : Time
soon = record { ns = now_ns + 5; loc = moscow }

expand_cron-events_example :
    (ts : List Time) × (expand_cron (every 1) moscow now soon 5 now ≡ some ts)
    × (Memᴰ (record { ns = now_ns + 1; loc = moscow }) ts
        ↔ Cron.IsEvent (every 1) moscow now soon (λ l k. Unit {0}) always now_ns (now_ns + 1))
expand_cron-events_example =
    Cron.expand_cron-events (every 1) moscow now soon (λ l k. Unit {0}) always 5 now (now_ns + 1)
      (omega arith) (omega arith)

half_past : parse_clock (hh_mm 9 30) ≡ ok (clock_at 9 30)
unfolding parse_clock with_seconds without_seconds field getnum colon past_colon ended
half_past = refl

-- The calendar refuses what the scheduler takes.
abbrev trailing : Bytes
trailing = b'9' ∷ b':' ∷ b'3' ∷ b'0' ∷ b'x' ∷ []

refused :
    (parse_time_string trailing ≡ ok (clock_at 9 30)) × (parse_clock trailing ≡ err invalid_time)
unfolding parse_clock with_seconds without_seconds field getnum colon past_colon ended
    parse_time_string scan_ints scan_int digits
refused = (refl, refl)

-- A week from the day before on.
abbrev day_before : ℕ
day_before = midnight - day_ns

abbrev weeks_before : ℕ
weeks_before = midnight - 14 * day_ns

expand_days-get_last_daily_time_example :
    (ts : List Time) × (t : Time) × (expand_days
        (λ d. true)
        (clock_at 9 30)
        moscow
        (record { ns = day_before + 7 * day_ns; loc = moscow })
        8
        (record { ns = day_before; loc = moscow })
      ≡ some ts)
    × (get_last_daily_time (hh_mm 9 30) now moscow ≡ ok t)
    × ((k : ℕ)
        → Memᴰ (record { ns = k; loc = moscow }) ts
          ↔ ((day_before ≤ k) × (k < day_before + 7 * day_ns) × IsRun moscow (clock_at 9 30) k))
    × IsLatest (IsRun moscow (clock_at 9 30)) now_ns t.ns
    × Memᴰ (record { ns = t.ns; loc = moscow }) ts
expand_days-get_last_daily_time_example =
    expand_days-get_last_daily_time moscow_fixed (hh_mm 9 30) (clock_at 9 30) 8 739280 day_before 7
      now_ns half_past (omega arith) (omega arith) (omega arith) (omega arith) (omega arith)
      (omega arith)

-- Fridays of three weeks.
expand_days-get_last_weekly_time_example :
    (ts : List Time) × (t : Time) × (expand_days
        (λ x. weekday x == 5)
        (clock_at 9 30)
        moscow
        (record { ns = weeks_before + 21 * day_ns; loc = moscow })
        22
        (record { ns = weeks_before; loc = moscow })
      ≡ some ts)
    × (get_last_weekly_time (hh_mm 9 30) (pos 5) now moscow ≡ ok t)
    × ((k : ℕ)
        → Memᴰ (record { ns = k; loc = moscow }) ts ↔ (
            (weeks_before ≤ k)
            × (k < weeks_before + 21 * day_ns)
            × IsRunOn moscow (clock_at 9 30) 5 k))
    × IsLatestUpTo (IsRunOn moscow (clock_at 9 30) 5) now_ns t.ns
    × Memᴰ (record { ns = t.ns; loc = moscow }) ts
expand_days-get_last_weekly_time_example =
    expand_days-get_last_weekly_time moscow_fixed (hh_mm 9 30) (clock_at 9 30) 5 22 739267
      weeks_before 21 now_ns half_past (omega arith) (omega arith) (omega arith) (omega arith)
      (omega arith) (omega arith) (omega arith)

abbrev months_before : ℕ
months_before = midnight - 70 * day_ns

expand_days-get_last_monthly_time_example :
    (ts : List Time) × (t : Time) × (expand_days
        (λ x. day x == 28)
        (clock_at 9 30)
        moscow
        (record { ns = months_before + 90 * day_ns; loc = moscow })
        91
        (record { ns = months_before; loc = moscow })
      ≡ some ts)
    × (get_last_monthly_time (hh_mm 9 30) (pos 28) now moscow ≡ ok t)
    × ((k : ℕ)
        → Memᴰ (record { ns = k; loc = moscow }) ts ↔ (
            (months_before ≤ k)
            × (k < months_before + 90 * day_ns)
            × IsRunOnDay moscow (clock_at 9 30) 28 k))
    × IsLatestUpTo (IsRunOnDay moscow (clock_at 9 30) 28) now_ns t.ns
    × Memᴰ (record { ns = t.ns; loc = moscow }) ts
expand_days-get_last_monthly_time_example =
    expand_days-get_last_monthly_time moscow_fixed (hh_mm 9 30) (clock_at 9 30) 28 91 739211
      months_before 90 now_ns half_past (omega arith) (omega arith) (omega arith) (omega arith)
      (omega arith) (omega arith) (omega arith) (omega arith)
