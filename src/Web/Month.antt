-- ===== src/Web/Month.antt =====
-- The range of the calendar if a request names none: the current month.
use yc_sheduler.Prelude.{
  ℕ, ◌+◌, ◌-◌, ◌≤◌, ◌≡◌, ◌↔◌, refl, sym, ap, ◌∙◌, pos, negsuc, sub_ℕ, [], ok, arith, Result,
}
use yc_sheduler.Config.{Bytes}
use yc_sheduler.GoTime.Civil.{month_start, month_of_day}
use yc_sheduler.GoTime.CivilLaws.{month_of_day_bounds, month_of_day_unique, month_start-mday}
use yc_sheduler.GoTime.Instant.{
  Location, Time, day_number, clock, year, month, day, hour, minute, second, nanosecond, date,
  date_days, add_date, in_location, shift,
}
use yc_sheduler.GoTime.Fixed.{IsFixed, date_days_lem, day_number-date, clock-date, hms}
use yc_sheduler.Schedule.Last.Months.{month_index, month_index_lem, mday_facts}
use yc_sheduler.Web.{this_month, parse_calendar_range}

-- A time at midnight on day `z`.
abbrev IsMidnight : ℕ → Time → Type 0
IsMidnight z t = (day_number t ≡ z) × (clock t ≡ 0)

-- From midnight to midnight, over exactly the days of month `m`.
abbrev pub IsMonth : ℕ → Time → Time → Type 0
IsMonth m from to =
    (clock from ≡ 0)
    × (clock to ≡ 0)
    × ((z : ℕ) → (month_of_day z ≡ m) ↔ ((day_number from ≤ z) × (z ≤ day_number to)))

module _ {l : Location} (f : IsFixed l) where
  first_day :
      (now : Time)
      → 100 ≤ day_number now
      → IsMidnight (month_start (month_index now)) (date (year now) (month now) (pos 1) 0 0 0 0 l)
  first_day now late =
      let facts = mday_facts (day_number now) late in
      let days : date_days (year now) (month now) (pos 1) ≡ month_start (month_index now) =
        date_days_lem (year now) (month now) (month_index now) (pos 1)
          (unfold year month in omega arith)
        ∙ omega arith in
      (
        day_number-date f (year now) (month now) (pos 1) 0 0 0 0 (omega (arith, days, facts))
              (omega arith) (omega arith)
            ∙ days,
        clock-date f (year now) (month now) (pos 1) 0 0 0 0 (omega (arith, days, facts))
            (omega arith) (omega arith),
      )

  last_day :
      (t : ℕ)
      → let from : Time = record { ns = t; loc = l } in
        100 ≤ day_number from
        → IsMidnight (month_start (month_index from)) from
        → IsMidnight
            (month_start (month_index from + 1) - 1)
            (add_date from (pos 0) (pos 1) (negsuc 0))
  unfolding add_date
  last_day t late (first, midnight) =
      let from : Time = record { ns = t; loc = l } in
      let facts = mday_facts (day_number from) late in
      let y = shift (year from) (pos 0) in
      let m = shift (month from) (pos 1) in
      let day_is : day from ≡ 1 = unfold day in omega (arith, facts, first) in
      let k_is : sub_ℕ (day from + 0) 1 ≡ pos 0 = rw day_is refl in
      let days : date_days y m (sub_ℕ (day from + 0) 1) ≡ month_start (month_index from + 1) - 1 =
        rw k_is (
          date_days_lem y m (month_index from + 1) (pos 0) (omega (arith, month_index_lem from 1))
          ∙ omega arith) in
      let fits = hms from in
      (
        day_number-date f y m (sub_ℕ (day from + 0) 1) (hour from) (minute from) (second from)
              (nanosecond from) (omega (arith, days, facts)) (omega arith)
              (omega (arith, fits, midnight))
            ∙ days,
        clock-date f y m (sub_ℕ (day from + 0) 1) (hour from) (minute from) (second from)
              (nanosecond from) (omega (arith, days, facts)) (omega arith)
              (omega (arith, fits, midnight))
            ∙ fits
            ∙ midnight,
      )

-- In a location with a fixed offset, from day 200 of the calendar on: a request without dates asks
-- for a range from one midnight to another, whose days are exactly those of the current month.
pub parse_calendar_range-IsMonth :
    {l : Location} (f : IsFixed l) (parse : Bytes → Location → Result Time) (now : Time)
    → 200 ≤ day_number (in_location now l)
    → (from : Time) × (to : Time) × (parse_calendar_range parse [] [] now l ≡ ok (from, to))
      × IsMonth (month_index (in_location now l)) from to
unfolding parse_calendar_range this_month date
parse_calendar_range-IsMonth {l} f parse now late =
    let t = in_location now l in
    let m = month_index t in
    let from = date (year t) (month t) (pos 1) 0 0 0 0 l in
    let facts = mday_facts (day_number t) (omega arith) in
    let first = first_day f t (omega arith) in
    let same : month_index from ≡ m =
      ap month_of_day (first.0 ∙ omega arith)
      ∙ (month_start-mday m 1 (omega (arith, facts)) (omega arith) (omega (arith, facts))).0 in
    let last =
      last_day f from.ns (omega (arith, facts, first))
        (first.0 ∙ ap month_start (sym same), first.1) in
    let end = last.0 ∙ ap (λ k. month_start (k + 1) - 1) same in
    (
      from,
      add_date from (pos 0) (pos 1) (negsuc 0),
      refl,
      (
        first.1,
        last.1,
        λ z. (
          λ e.
              let begins = ap month_start e in
              let ends = ap (λ k. month_start (k + 1)) e in
              (
                omega (arith, first, month_of_day_bounds z, begins),
                omega (arith, end, month_of_day_bounds z, ends),
              ),
          λ within.
              month_of_day_unique m z (omega (arith, facts)) (omega (arith, first, within))
                (omega (arith, end, within, facts)),
        ),
      ),
    )
