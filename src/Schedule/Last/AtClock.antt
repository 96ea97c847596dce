-- ===== src/Schedule/Last/AtClock.antt =====
-- The time of day that a schedule names, on a given day.
use yc_sheduler.Prelude.{ℕ, ◌+◌, ◌*◌, ◌≤◌, ◌<◌, ◌≡◌, ℤ, pos, arith}
use yc_sheduler.GoTime.Instant.{
  Location, Time, second_ns, day_seconds, day_number, clock, year, month, day, date_days,
}
use yc_sheduler.GoTime.Fixed.{IsFixed, day_number-date, clock-date, ns-date, date_days-same}
use yc_sheduler.Schedule.Clock.{Clock}
use yc_sheduler.Schedule.Clock.Formats.{IsClock}
use yc_sheduler.Schedule.Last.{at_clock}

abbrev pub seconds_of : Clock → ℕ
seconds_of c = c.hour * 3600 + c.minute * 60 + c.second

abbrev pub day_ns : ℕ
day_ns = day_seconds * second_ns

module _ {l : Location} (f : IsFixed l) (c : Clock) (valid : IsClock c) where
  -- What a clock in `l` shows at a time that `at_clock` builds, and the instant.
  abbrev pub Shows : ℕ → Time → Type 0
  Shows z t =
      (day_number t ≡ z)
      × (clock t ≡ seconds_of c)
      × (t.ns + f.east * second_ns ≡ (z * day_seconds + seconds_of c + f.west) * second_ns)

  pub at_clock_lem :
      (y m : ℕ) (d : ℤ) (z : ℕ) → date_days y m d ≡ z → 1 ≤ z → Shows z (at_clock y m d c l)
  at_clock_lem y m d z e late =
      let on : 1 ≤ date_days y m d = rw e late in
      let fits : seconds_of c < day_seconds = omega arith in
      (
        omega (arith, day_number-date f y m d c.hour c.minute c.second 0 on (omega arith) fits, e),
        clock-date f y m d c.hour c.minute c.second 0 on (omega arith) fits,
        omega (arith, ns-date f y m d c.hour c.minute c.second 0 on (omega arith) fits, e),
      )

  -- On the day that `t` shows.
  pub at_clock-same :
      (t : Time)
      → 1 ≤ day_number t
      → Shows (day_number t) (at_clock (year t) (month t) (pos (day t)) c l)
  at_clock-same t late =
      at_clock_lem (year t) (month t) (pos (day t)) (day_number t)
        (unfold year month day in date_days-same (day_number t)) late
