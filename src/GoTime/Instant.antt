-- ===== src/GoTime/Instant.antt =====
-- Go's `time.Time` and `time.Location`. An instant is a number of nanoseconds since 1 March of year
-- 0, UTC; what a location is comes from the time zone database, so its zones are a parameter.
use yc_sheduler.Prelude.{
  ℕ, ◌+◌, ◌-◌, ◌*◌, ◌/◌, ◌%◌, ℤ, pos_part, neg_part, sub_ℕ, Bool, ◌||◌, ◌==◌, ltb, leb,
  if◌then◌else◌,
}
use yc_sheduler.GoTime.Civil.{month_start, month_of_day, mday_of_day, weekday_of_day}

-- A zone of a location: its offset from UTC is `ahead - behind` seconds, and it is in use from
-- second `since` up to second `until`.
pub record Zone : Type 0 where
  pub ahead : ℕ
  pub behind : ℕ
  pub since : ℕ
  pub until : ℕ

-- The zone in use at a second, Go's `lookup`.
pub record Location : Type 0 where
  pub zone : ℕ → Zone

pub record Time : Type 0 where
  pub ns : ℕ
  pub loc : Location

abbrev pub second_ns : ℕ
second_ns = 1_000_000_000

abbrev pub day_seconds : ℕ
day_seconds = 86400

-- The zero time, 1 January of year 1, is 306 days after day 0.
abbrev pub zero_ns : ℕ
zero_ns = 306 * day_seconds * second_ns

unfoldable pub is_zero : Time → Bool
is_zero t = t.ns == zero_ns

abbrev pub after : Time → Time → Bool
after t u = ltb u.ns t.ns

abbrev pub before : Time → Time → Bool
before t u = ltb t.ns u.ns

abbrev pub equal : Time → Time → Bool
equal t u = t.ns == u.ns

abbrev pub in_location : Time → Location → Time
in_location t l = record { ns = t.ns; loc = l }

-- The seconds that a clock in the time's location shows.
unfoldable pub local_seconds : Time → ℕ
local_seconds t = let s = t.ns / second_ns in let z = t.loc.zone s in s + z.ahead - z.behind

unfoldable pub day_number : Time → ℕ
day_number t = local_seconds t / day_seconds

unfoldable pub clock : Time → ℕ
clock t = local_seconds t % day_seconds

abbrev pub nanosecond : Time → ℕ
nanosecond t = t.ns % second_ns

unfoldable pub year : Time → ℕ
year t = month_of_day (day_number t) / 12

unfoldable pub month : Time → ℕ
month t = month_of_day (day_number t) % 12 + 1

unfoldable pub day : Time → ℕ
day t = mday_of_day (day_number t)

unfoldable pub weekday : Time → ℕ
weekday t = weekday_of_day (day_number t)

unfoldable pub hour : Time → ℕ
hour t = clock t / 3600

unfoldable pub minute : Time → ℕ
minute t = clock t / 60 % 60

unfoldable pub second : Time → ℕ
second t = clock t % 60

-- The day of a date whose month and day may overflow into the next or the previous one.
unfoldable pub date_days : ℕ → ℕ → ℤ → ℕ
date_days year month day = month_start (12 * year + month - 1) + pos_part day - (neg_part day + 1)

-- The UTC second at which a clock in `l` shows the local second `s`, as `time.Date` finds it.
unfoldable pub to_utc : Location → ℕ → ℕ
to_utc l s =
    let z = l.zone s in
    let utc = s + z.behind - z.ahead in
    let z' = l.zone utc in
    if z.ahead == z.behind
    then s
    else if ltb utc z.since || leb z.until utc
    then s + z'.behind - z'.ahead
    else utc

-- `time.Date`. A test that runs it also unfolds `date_days` and `to_utc`.
unfoldable pub date : ℕ → ℕ → ℤ → ℕ → ℕ → ℕ → ℕ → Location → Time
date year month day hour min sec nsec l = record {
  ns =
      to_utc l (date_days year month day * day_seconds + hour * 3600 + min * 60 + sec) * second_ns
      + nsec;
  loc = l;
}

-- A number moved by a signed one; the program moves no year or month below 0.
abbrev pub shift : ℕ → ℤ → ℕ
shift n d = n + pos_part d - neg_part d

-- `t.AddDate(years, months, days)`
unfoldable pub add_date : Time → ℤ → ℤ → ℤ → Time
unfolding date
add_date t years months days =
    date (shift (year t) years) (shift (month t) months)
      (sub_ℕ (day t + pos_part days) (neg_part days)) (hour t) (minute t) (second t) (nanosecond t)
      t.loc
