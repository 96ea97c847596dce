-- ===== src/Schedule/Last/Months.antt =====
-- Months and their days, and the month before as `add_date` finds it.
use yc_sheduler.Prelude.{
  ℕ, ◌+◌, ◌-◌, ◌*◌, ◌≤◌, ◌<◌, ◌≡◌, refl, pos, negsuc, arith, ◌∙◌, ltb_of_ge, ap,
}
use yc_sheduler.GoTime.Civil.{month_start, month_of_day, mday_of_day}
use yc_sheduler.GoTime.CivilLaws.{
  month_of_day_bounds, mday_of_day_lem, month_start-mday, month_start-step, month_of_day_unique,
  late_month,
}
use yc_sheduler.GoTime.Instant.{Location, Time, day_number, year, month, day, add_date}
use yc_sheduler.GoTime.Fixed.{IsFixed, day_number-month_back, date_days_lem}
use yc_sheduler.Schedule.Clock.{Clock}
use yc_sheduler.Schedule.Clock.Formats.{IsClock}
use yc_sheduler.Schedule.Last.{at_clock, previous_month}
use yc_sheduler.Schedule.Last.AtClock.{Shows, at_clock_lem}

-- The month that a time shows, counted from January of year 0.
abbrev pub month_index : Time → ℕ
month_index t = month_of_day (day_number t)

-- The days of a month.
abbrev pub days_in : ℕ → ℕ
days_in m = month_start (m + 1) - month_start m

-- The year and the month that a time shows, put together again.
pub month_index_lem : (t : Time) (k : ℕ) → 12 * year t + (month t + k) - 1 ≡ month_index t + k
unfolding year month
month_index_lem t k = omega arith

module _ {l : Location} (f : IsFixed l) (c : Clock) (valid : IsClock c) where
  -- The time of day on day `d` of the month that `t` shows.
  pub in_month :
      (t : Time) (d : ℕ)
      → 2 ≤ month_index t
      → 1 ≤ month_start (month_index t)
      → 1 ≤ d
      → Shows f c valid
          (month_start (month_index t) + d - 1)
          (at_clock (year t) (month t) (pos d) c l)
  in_month t d m2 s1 d1 =
      at_clock_lem f c valid (year t) (month t) (pos d) _
        (date_days_lem (year t) (month t) (month_index t) (pos d) (unfold year month in omega arith)
          ∙ omega arith)
        (omega arith)

  -- The last day of that month.
  pub month_end :
      (t : Time)
      → 2 ≤ month_index t
      → 1 ≤ month_start (month_index t)
      → Shows f c valid
          (month_start (month_index t + 1) - 1)
          (at_clock (year t) (month t + 1) (pos 0) c l)
  month_end t m2 s1 =
      at_clock_lem f c valid (year t) (month t + 1) (pos 0) _
        (date_days_lem (year t) (month t + 1) (month_index t + 1) (pos 0) (month_index_lem t 1)
          ∙ omega arith)
        (omega (arith, month_start-step (month_index t) m2))

  pub day-month_end :
      (t : Time)
      → 3 ≤ month_index t
      → 1 ≤ month_start (month_index t)
      → day (at_clock (year t) (month t + 1) (pos 0) c l) ≡ days_in (month_index t)
  unfolding day
  day-month_end t m3 s1 =
      let m = month_index t in
      let step = month_start-step m (omega arith) in
      let same : month_start (m + 1) - 1 ≡ month_start m + days_in m - 1 = omega arith in
      rw ((month_end t (omega arith) s1).0, same)
        (month_start-mday m (days_in m) (omega arith) (omega arith) (omega arith)).1

  -- The month before is the one that `add_date` lands in: there the wanted day, or the last one.
  pub previous_month_lem :
      (now : Time) (d : ℕ)
      → let last = add_date now (pos 0) (negsuc 0) (pos 0) in
        3 ≤ month_index last
        → 1 ≤ month_start (month_index last)
        → 1 ≤ d
        → d ≤ days_in (month_index last)
        → Shows f c valid (month_start (month_index last) + d - 1) (previous_month (pos d) c now l)
  unfolding previous_month
  previous_month_lem now d m3 s1 d1 fits =
      let last = add_date now (pos 0) (negsuc 0) (pos 0) in
      rw
        (ltb_of_ge (day (at_clock (year last) (month last + 1) (pos 0) c l) + 0) (d + 0)
          (rw (day-month_end last m3 s1) (omega arith)))
        (in_month last d (omega arith) s1 d1)

-- What is known of the day of the month of a day.
pub mday_facts :
    (z : ℕ)
    → 100 ≤ z
    → let m = month_of_day z in
      (1 ≤ mday_of_day z)
      × (mday_of_day z ≤ 31)
      × (month_start m + mday_of_day z ≡ z + 1)
      × (month_start (m - 1 + 1) ≡ month_start m)
      × (4 ≤ m)
      × (31 ≤ month_start (m - 1))
      × (month_start (m - 1) + 28 ≤ month_start m)
      × (month_start m + 28 ≤ month_start (m + 1))
mday_facts z h =
    let m = month_of_day z in
    let (four, first) = late_month z h in
    let (lo, hi) = month_of_day_bounds z in
    let same : month_start (m - 1 + 1) ≡ month_start m = ap month_start (omega arith) in
    let step = month_start-step m (omega arith) in
    let before = month_start-step (m - 1) (omega arith) in
    let day_is = mday_of_day_lem z in
    (omega arith, omega arith, day_is, same, four, first, omega arith, step.0)

-- A month back from a day that the month before has, and from one that it does not have: then the
-- date overflows into the month itself.
pub month_back :
    {l : Location} (f : IsFixed l) (n : ℕ)
    → let now : Time = record { ns = n; loc = l } in
      let last = add_date now (pos 0) (negsuc 0) (pos 0) in
      100 ≤ day_number now
      → ((day now ≤ days_in (month_index now - 1)) → month_index last ≡ month_index now - 1)
        × ((days_in (month_index now - 1) < day now) → month_index last ≡ month_index now)
month_back {l} f n late =
    let z = day_number now in
    let facts = mday_facts z late in
    let back = day_number-month_back f n (omega arith) (omega (arith, facts)) in
    let day_is : day now ≡ mday_of_day z = unfold day in refl in
    (
      λ fits.
          month_of_day_unique (month_index now - 1) (day_number last) (omega (arith, facts))
            (omega (arith, facts, back, day_is)) (omega (arith, facts, back, day_is, fits)),
      λ over.
          month_of_day_unique (month_index now) (day_number last) (omega (arith, facts))
            (omega (arith, facts, back, day_is, over)) (omega (arith, facts, back, day_is)),
    )
  where
    now : Time
    now = record { ns = n; loc = l }

    last : Time
    last = add_date now (pos 0) (negsuc 0) (pos 0)
