-- ===== src/Calendar/Chronology.antt =====
-- The text of a time in RFC 3339, and the order of the instants.
pub mod Order
use yc_sheduler.Prelude.{
  ℕ, ◌+◌, ◌-◌, ◌*◌, ◌/◌, ◌%◌, ◌≤◌, ◌<◌, ◌≡◌, ◌∙◌, refl, ap, Bool, true, false, [], ◌∷◌, ◌++◌, arith,
  ltb, ◌==◌, if◌then◌else◌,
}
use native.Mathlib.Decide.{dec_lt}
use yc_sheduler.Config.{Bytes}
use yc_sheduler.Config.Files.{bytes_lt}
use yc_sheduler.GoTime.Civil.{month_start, month_of_day, mday_of_day}
use yc_sheduler.GoTime.CivilLaws.{
  month_start_mono, mday_of_day_lem, month_of_day_bounds, month_of_day-ge, month_start-step,
}
use yc_sheduler.GoTime.Instant.{
  Location, Time, second_ns, day_seconds, day_number, clock, year, month, day, hour, minute, second,
}
use yc_sheduler.GoTime.Fixed.{IsFixed, ns_lem, clock-lt}
use yc_sheduler.Schedule.Clock.Formats.{two}
use yc_sheduler.Calendar.{format_date, format_clock, format_rfc3339, zone_text}

-- A date as a text, from its day, before a rest.
abbrev after_year : ℕ → Bytes → Bytes
after_year z rest = two (month_of_day z % 12 + 1) (b'-' ∷ two (mday_of_day z) rest)

abbrev date_text : ℕ → Bytes → Bytes
date_text z rest =
    two (month_of_day z / 12 / 100) (two (month_of_day z / 12 % 100) (b'-' ∷ after_year z rest))

bytes_lt-two :
    (a b : ℕ) (r s : Bytes)
    → a < 100
    → b < 100
    → bytes_lt (two a r) (two b s) ≡ (if a == b then bytes_lt r s else ltb a b)
unfolding bytes_lt
bytes_lt-two a b r s ha hb = ground arith

bytes_lt_self : (r : Bytes) → bytes_lt r r ≡ false
unfolding bytes_lt
bytes_lt_self [] = refl
bytes_lt_self (x ∷ r) = ground (arith, bytes_lt_self r)

-- Two digits before two digits are one number.
bytes_lt-four :
    (a b : ℕ) (r s : Bytes)
    → a < 10000
    → b < 10000
    → bytes_lt (two (a / 100) (two (a % 100) r)) (two (b / 100) (two (b % 100) s))
      ≡ (if a == b then bytes_lt r s else ltb a b)
bytes_lt-four a b r s ha hb =
    rw
      (
        bytes_lt-two (a / 100) (b / 100) (two (a % 100) r) (two (b % 100) s) (omega arith)
            (omega arith),
        bytes_lt-two (a % 100) (b % 100) r s (omega arith) (omega arith),
      )
      (ground arith)

months_order :
    (m n : ℕ) (rest : Bool)
    → (if m / 12 == n / 12
        then if m % 12 + 1 == n % 12 + 1 then rest else ltb (m % 12 + 1) (n % 12 + 1)
        else ltb (m / 12) (n / 12))
      ≡ (if m == n then rest else ltb m n)
months_order m n rest = ground arith

-- A month and a day of it, before another month and day.
days_order :
    (y z : ℕ) (rest : Bool)
    → (if month_of_day y == month_of_day z
        then if mday_of_day y == mday_of_day z then rest else ltb (mday_of_day y) (mday_of_day z)
        else ltb (month_of_day y) (month_of_day z))
      ≡ (if y == z then rest else ltb y z)
days_order y z rest = elim (dec_lt (month_of_day y) (month_of_day z)) [
  | yes before ↦
      let start =
        month_start_mono (month_of_day y + 1) (month_of_day z) (omega (arith, month_of_day-ge y))
          (omega (arith, before)) in
      let less : y < z = omega (arith, start, month_of_day_bounds y, month_of_day_bounds z) in
      ground (arith, before, less)
  | no not_before ↦ elim (dec_lt (month_of_day z) (month_of_day y)) [
    | yes after ↦
        let start =
          month_start_mono (month_of_day z + 1) (month_of_day y) (omega (arith, month_of_day-ge z))
            (omega (arith, after)) in
        let less : z < y = omega (arith, start, month_of_day_bounds y, month_of_day_bounds z) in
        ground (arith, after, less)
    | no not_after ↦
        let same : month_of_day y ≡ month_of_day z = omega (arith, not_before, not_after) in
        let starts = ap month_start same in
        let first = mday_of_day_lem y in
        let second = mday_of_day_lem z in ground (arith, same, starts, first, second)
  ]
]

clock_order :
    (c d : ℕ)
    → (if c / 3600 == d / 3600
        then if c / 60 % 60 == d / 60 % 60
          then if c % 60 == d % 60 then false else ltb (c % 60) (d % 60)
          else ltb (c / 60 % 60) (d / 60 % 60)
        else ltb (c / 3600) (d / 3600))
      ≡ ltb c d
clock_order c d = ground arith

bytes_lt-same : (c : ℕ) (r s : Bytes) → bytes_lt (c ∷ r) (c ∷ s) ≡ bytes_lt r s
unfolding bytes_lt
bytes_lt-same c r s = ground arith

mday-lt : (z : ℕ) → mday_of_day z < 100
mday-lt z = omega (
  arith,
  mday_of_day_lem z,
  month_of_day_bounds z,
  month_start-step (month_of_day z) (month_of_day-ge z),
)

-- The texts of two dates, before the texts of what follows them.
bytes_lt-date :
    (y z : ℕ) (r s : Bytes)
    → month_of_day y / 12 < 10000
    → month_of_day z / 12 < 10000
    → bytes_lt (date_text y r) (date_text z s) ≡ (if y == z then bytes_lt r s else ltb y z)
bytes_lt-date y z r s hy hz =
    rw
      (
        bytes_lt-four (month_of_day y / 12) (month_of_day z / 12) (b'-' ∷ after_year y r)
            (b'-' ∷ after_year z s) hy hz,
        bytes_lt-same b'-' (after_year y r) (after_year z s),
        bytes_lt-two (month_of_day y % 12 + 1) (month_of_day z % 12 + 1)
            (b'-' ∷ two (mday_of_day y) r) (b'-' ∷ two (mday_of_day z) s) (omega arith)
            (omega arith),
        bytes_lt-same b'-' (two (mday_of_day y) r) (two (mday_of_day z) s),
        bytes_lt-two (mday_of_day y) (mday_of_day z) r s (mday-lt y) (mday-lt z),
      )
      (months_order (month_of_day y) (month_of_day z) _ ∙ days_order y z (bytes_lt r s))

-- A time of day as a text, from its seconds, before a rest.
abbrev clock_text : ℕ → Bytes → Bytes
clock_text c rest = two (c / 3600) (b':' ∷ two (c / 60 % 60) (b':' ∷ two (c % 60) rest))

bytes_lt-clock :
    (c d : ℕ) (rest : Bytes)
    → c < 86400
    → d < 86400
    → bytes_lt (clock_text c rest) (clock_text d rest) ≡ ltb c d
bytes_lt-clock c d rest hc hd =
    rw
      (
        bytes_lt-two (c / 3600) (d / 3600) (b':' ∷ two (c / 60 % 60) (b':' ∷ two (c % 60) rest))
            (b':' ∷ two (d / 60 % 60) (b':' ∷ two (d % 60) rest)) (omega arith) (omega arith),
        bytes_lt-same b':' (two (c / 60 % 60) (b':' ∷ two (c % 60) rest))
            (two (d / 60 % 60) (b':' ∷ two (d % 60) rest)),
        bytes_lt-two (c / 60 % 60) (d / 60 % 60) (b':' ∷ two (c % 60) rest)
            (b':' ∷ two (d % 60) rest) (omega arith) (omega arith),
        bytes_lt-same b':' (two (c % 60) rest) (two (d % 60) rest),
        bytes_lt-two (c % 60) (d % 60) rest rest (omega arith) (omega arith),
        bytes_lt_self rest,
      )
      (clock_order c d)

instants_order :
    (y z c d j k e w : ℕ)
    → j + e * second_ns ≡ (y * day_seconds + c + w) * second_ns
    → k + e * second_ns ≡ (z * day_seconds + d + w) * second_ns
    → c < day_seconds
    → d < day_seconds
    → (if y == z then ltb c d else ltb y z) ≡ ltb j k
instants_order y z c d j k e w hj hk hc hd = ground arith

module _ {l : Location} (f : IsFixed l) where
  -- A whole second from day 1 of the calendar on, in a year of four digits.
  abbrev pub IsShown : ℕ → Type 0
  IsShown k =
      let t : Time = record { ns = k; loc = l } in
      (k % second_ns ≡ 0) × (1 ≤ day_number t) × (year t < 10000)

  -- The order of the texts is that of the instants.
  pub format_rfc3339-order :
      (j k : ℕ)
      → IsShown j
      → IsShown k
      → bytes_lt
          (format_rfc3339 (record { ns = j; loc = l }))
          (format_rfc3339 (record { ns = k; loc = l }))
        ≡ ltb j k
  unfolding format_rfc3339 format_date format_clock year month day hour minute second
  format_rfc3339-order j k (whole, late, small) (whole', late', small') =
      let t : Time = record { ns = j; loc = l } in
      let u : Time = record { ns = k; loc = l } in
      let rest = zone_text f.east f.west in
      let dates =
        bytes_lt-date (day_number t) (day_number u) (b'T' ∷ clock_text (clock t) rest)
          (b'T' ∷ clock_text (clock u) rest) small small' in
      let clocks =
        bytes_lt-same b'T' (clock_text (clock t) rest) (clock_text (clock u) rest)
        ∙ bytes_lt-clock (clock t) (clock u) rest (clock-lt f j) (clock-lt f k) in
      let first = ns_lem f j late in
      let second' = ns_lem f k late' in
      rw
        (
          f.ahead_is (j / second_ns),
          f.behind_is (j / second_ns),
          f.ahead_is (k / second_ns),
          f.behind_is (k / second_ns),
        )
        (dates
          ∙ rw clocks (
              instants_order (day_number t) (day_number u) (clock t) (clock u) j k f.east f.west
                (omega (arith, first, whole)) (omega (arith, second', whole')) (clock-lt f j)
                (clock-lt f k)))
