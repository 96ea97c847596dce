-- ===== src/GoTime/Civil.antt =====
-- The proleptic Gregorian calendar of Go's `time` package. Day 0 is 1 March of year 0, so that the
-- leap day ends a year; a month is counted from January of year 0 (`12 * year + month - 1`).
use yc_sheduler.Prelude.{ℕ, ◌+◌, ◌-◌, ◌*◌, ◌/◌, ◌%◌}
use Prim.Native.Nat.{min}

-- The days before the year that begins in March of `y`.
abbrev pub days_before_year : ℕ → ℕ
days_before_year y = 365 * y + y / 4 - y / 100 + y / 400

-- The days before the k-th month after March.
abbrev pub days_before_month : ℕ → ℕ
days_before_month k = (153 * k + 2) / 5

-- The day on which month `m` begins.
unfoldable pub month_start : ℕ → ℕ
month_start m = days_before_year ((m - 2) / 12) + days_before_month ((m - 2) % 12)

-- The year from March that holds a day: by blocks of 400, 100, 4 and 1 years.
unfoldable pub year_of_day : ℕ → ℕ
year_of_day z =
    let in_era = z % 146097 in
    let century = min (in_era / 36524) 3 in
    let in_century = in_era - 36524 * century in
    let quad = in_century / 1461 in
    let in_quad = in_century - 1461 * quad in
    400 * (z / 146097) + 100 * century + 4 * quad + min (in_quad / 365) 3

unfoldable pub month_of_day : ℕ → ℕ
unfolding year_of_day
month_of_day z = 12 * year_of_day z + (5 * (z - days_before_year (year_of_day z)) + 2) / 153 + 2

-- The day of the month, from 1.
unfoldable pub mday_of_day : ℕ → ℕ
unfolding month_of_day month_start
mday_of_day z = z - month_start (month_of_day z) + 1

-- Sunday is 0. Day 0 is a Wednesday.
unfoldable pub weekday_of_day : ℕ → ℕ
weekday_of_day z = (z + 3) % 7
