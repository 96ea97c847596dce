-- ===== src/GoTime/Fixed.antt =====
-- Dates in a location whose offset from UTC never changes: what `date` builds is shown by the clock.
use yc_sheduler.Prelude.{
  ℕ, ◌+◌, ◌-◌, ◌*◌, ◌/◌, ◌%◌, ◌≤◌, ◌<◌, ℤ, pos, negsuc, pos_part, neg_part, sub_ℕ, ◌≡◌, arith, ◌∙◌,
}
use yc_sheduler.GoTime.Civil.{month_start, month_of_day, mday_of_day}
use yc_sheduler.GoTime.CivilLaws.{
  mday_of_day_lem, month_of_day_bounds, month_start-year, month_start-step, late_year,
}
use yc_sheduler.GoTime.Instant.{
  Location, Time, second_ns, day_seconds, local_seconds, day_number, clock, nanosecond, year, month,
  day, hour, minute, second, date_days, to_utc, date, add_date, shift,
}

-- An offset from UTC of less than a day either way.
pub record IsFixed (l : Location) : Type 0 where
  pub east : ℕ
  pub west : ℕ
  pub east_lt : east < day_seconds
  pub west_lt : west < day_seconds
  pub ahead_is : (s : ℕ) → (l.zone s).ahead ≡ east
  pub behind_is : (s : ℕ) → (l.zone s).behind ≡ west

module _ {l : Location} (f : IsFixed l) where
  to_utc_lem : (s : ℕ) → day_seconds ≤ s → to_utc l s ≡ s + f.west - f.east
  unfolding to_utc
  to_utc_lem s h =
      let u = s + (l.zone s).behind - (l.zone s).ahead in
      ground (arith, f.ahead_is s, f.behind_is s, f.ahead_is u, f.behind_is u)

  -- The local second of a UTC second.
  local_seconds_lem :
      (u n : ℕ)
      → n < second_ns
      → local_seconds (record { ns = u * second_ns + n; loc = l }) ≡ u + f.east - f.west
  unfolding local_seconds
  local_seconds_lem u n h =
      let e : (u * second_ns + n) / second_ns ≡ u = omega arith in
      rw (e, f.ahead_is u, f.behind_is u)

  -- The clock shows the date and the time of day that `date` was given.
  pub local_seconds-date :
      (y m : ℕ) (d : ℤ) (h mi s n : ℕ)
      → 1 ≤ date_days y m d
      → n < second_ns
      → local_seconds (date y m d h mi s n l)
        ≡ date_days y m d * day_seconds + h * 3600 + mi * 60 + s
  unfolding date
  local_seconds-date y m d h mi s n late small =
      let w = date_days y m d * day_seconds + h * 3600 + mi * 60 + s in
      local_seconds_lem (to_utc l w) n small
      ∙ omega (arith, to_utc_lem w (omega arith), f.east_lt, f.west_lt)

  module _ (y m : ℕ) (d : ℤ) (h mi s n : ℕ) (late : 1 ≤ date_days y m d) (small : n < second_ns)
      (fits : h * 3600 + mi * 60 + s < day_seconds) where
    pub day_number-date : day_number (date y m d h mi s n l) ≡ date_days y m d
    unfolding day_number
    day_number-date = omega (arith, local_seconds-date y m d h mi s n late small)

    pub clock-date : clock (date y m d h mi s n l) ≡ h * 3600 + mi * 60 + s
    unfolding clock
    clock-date = omega (arith, local_seconds-date y m d h mi s n late small)

    pub ns-date :
        (date y m d h mi s n l).ns + f.east * second_ns
        ≡ (date_days y m d * day_seconds + h * 3600 + mi * 60 + s + f.west) * second_ns + n
    unfolding date
    ns-date = omega (
      arith,
      to_utc_lem (date_days y m d * day_seconds + h * 3600 + mi * 60 + s) (omega arith),
      f.east_lt,
    )

pub date_days_lem :
    (y m k : ℕ) (d : ℤ)
    → 12 * y + m - 1 ≡ k
    → date_days y m d ≡ month_start k + pos_part d - (neg_part d + 1)
unfolding date_days
date_days_lem y m k d e = rw e

-- The date that a day shows denotes that day, and a signed number of days moves it by as many.
pub date_days-shift :
    (z : ℕ) (d : ℤ)
    → date_days
        (month_of_day z / 12)
        (month_of_day z % 12 + 1)
        (sub_ℕ (mday_of_day z + pos_part d) (neg_part d))
      ≡ z + pos_part d - neg_part d
date_days-shift z d =
    let e : 12 * (month_of_day z / 12) + (month_of_day z % 12 + 1) - 1 ≡ month_of_day z =
      omega arith in
    rw (date_days_lem _ _ (month_of_day z) _ e) (ground (arith, mday_of_day_lem z))

pub date_days-same :
    (z : ℕ) → date_days (month_of_day z / 12) (month_of_day z % 12 + 1) (pos (mday_of_day z)) ≡ z
date_days-same z =
    let e : 12 * (month_of_day z / 12) + (month_of_day z % 12 + 1) - 1 ≡ month_of_day z =
      omega arith in
    rw (date_days_lem _ _ (month_of_day z) _ e) (omega (arith, mday_of_day_lem z))

shift-zero : (n : ℕ) → shift n (pos 0) ≡ n
shift-zero n = omega arith

-- The parts of the time of day make it up.
pub hms : (t : Time) → hour t * 3600 + minute t * 60 + second t ≡ clock t
unfolding hour minute second
hms t = omega arith

module _ {l : Location} (f : IsFixed l) (t : ℕ) where
  abbrev now : Time
  now = record { ns = t; loc = l }

  -- An instant, by what the clock shows.
  pub ns_lem :
      1 ≤ day_number now
      → t + f.east * second_ns
        ≡ (day_number now * day_seconds + clock now + f.west) * second_ns + t % second_ns
  unfolding day_number clock local_seconds
  ns_lem h =
      omega (arith, f.ahead_is (t / second_ns), f.behind_is (t / second_ns), f.west_lt, f.east_lt)

  pub clock-lt : clock now < day_seconds
  unfolding clock
  clock-lt = omega arith

  -- Moving a time by days keeps the time of day, and moves the instant by whole days.
  pub add_date-days :
      (d : ℤ)
      → 1 ≤ day_number now
      → 1 + neg_part d ≤ day_number now + pos_part d
      → (day_number (add_date now (pos 0) (pos 0) d) + neg_part d ≡ day_number now + pos_part d)
        × (clock (add_date now (pos 0) (pos 0) d) ≡ clock now)
        × ((add_date now (pos 0) (pos 0) d).ns + neg_part d * (day_seconds * second_ns)
            ≡ t + pos_part d * (day_seconds * second_ns))
  unfolding add_date
  add_date-days d now_late late = (
    omega (arith, day_number-date f y m k h mi s n on small fits, days),
    clock-date f y m k h mi s n on small fits ∙ hms now,
    omega (arith, ns-date f y m k h mi s n on small fits, days, ns_lem now_late, hms now),
  )
    where
      y : ℕ
      y = shift (year now) (pos 0)

      m : ℕ
      m = shift (month now) (pos 0)

      k : ℤ
      k = sub_ℕ (day now + pos_part d) (neg_part d)

      h : ℕ
      h = hour now

      mi : ℕ
      mi = minute now

      s : ℕ
      s = second now

      n : ℕ
      n = nanosecond now

      days : date_days y m k ≡ day_number now + pos_part d - neg_part d
      days =
          rw (shift-zero (year now), shift-zero (month now))
            (unfold year month day in date_days-shift (day_number now) d)

      on : 1 ≤ date_days y m k
      on = omega (arith, days, late)

      small : n < second_ns
      small = omega arith

      fits : h * 3600 + mi * 60 + s < day_seconds
      fits = omega (arith, hms now, clock-lt)

  -- A month back, on the same day of the month, which the month before may not have.
  pub day_number-month_back :
      1 ≤ day_number now
      → 1 ≤ month_start (month_of_day (day_number now) - 1)
      → day_number (add_date now (pos 0) (negsuc 0) (pos 0)) + 1
        ≡ month_start (month_of_day (day_number now) - 1) + day now
  unfolding add_date
  day_number-month_back now_late late = omega (
    arith,
    day_number-date f y m k (hour now) (minute now) (second now) (nanosecond now) on (omega arith)
        fits,
    days,
  )
    where
      y : ℕ
      y = shift (year now) (pos 0)

      m : ℕ
      m = shift (month now) (negsuc 0)

      k : ℤ
      k = sub_ℕ (day now + 0) 0

      index : 12 * y + m - 1 ≡ month_of_day (day_number now) - 1
      index = unfold year month in omega arith

      pos_day : 1 ≤ day now
      pos_day =
          unfold day in
          omega (arith, mday_of_day_lem (day_number now), month_of_day_bounds (day_number now))

      days : date_days y m k + 1 ≡ month_start (month_of_day (day_number now) - 1) + day now
      days = rw (date_days_lem y m _ k index) (ground (arith, pos_day))

      on : 1 ≤ date_days y m k
      on = omega (arith, days, pos_day)

      fits : hour now * 3600 + minute now * 60 + second now < day_seconds
      fits = omega (arith, hms now, clock-lt)

  -- A year back is at least 365 days back.
  pub add_date-year_back :
      500 ≤ day_number now
      → (add_date now (negsuc 0) (pos 0) (pos 0)).ns + 365 * (day_seconds * second_ns) ≤ t
  unfolding add_date
  add_date-year_back late = omega (
    arith,
    ns-date f y m k (hour now) (minute now) (second now) (nanosecond now) (omega (arith, days))
        (omega arith) fits,
    days,
    ns_lem (omega arith),
    hms now,
  )
    where
      y : ℕ
      y = shift (year now) (negsuc 0)

      m : ℕ
      m = shift (month now) (pos 0)

      k : ℤ
      k = sub_ℕ (day now + 0) 0

      index : 12 * y + m - 1 ≡ month_of_day (day_number now) - 12
      index = unfold year month in omega (arith, late_year (day_number now) late)

      days : (1 ≤ date_days y m k) × (date_days y m k + 365 ≤ day_number now)
      days =
          let z = day_number now in
          let pos_day : 1 ≤ day now =
            unfold day in omega (arith, mday_of_day_lem z, month_of_day_bounds z) in
          let day_is : month_start (month_of_day z) + day now ≡ z + 1 =
            unfold day in mday_of_day_lem z in
          let start = month_start-year (month_of_day z) (late_year z late) in
          rw (date_days_lem y m _ k index) (
            ground (
              arith,
              pos_day,
              day_is,
              start,
              month_of_day_bounds z,
              month_start-step (month_of_day z) (omega (arith, late_year z late)),
            ))

      fits : hour now * 3600 + minute now * 60 + second now < day_seconds
      fits = omega (arith, hms now, clock-lt)
