-- ===== src/GoTime/CivilLaws.antt =====
-- A day lies in its month, and the months follow one another.
use yc_sheduler.Prelude.{ℕ, zero, suc, ◌+◌, ◌-◌, ◌*◌, ◌/◌, ◌≤◌, ◌<◌, ◌≡◌, refl, ap, subst, arith}
use yc_sheduler.GoTime.Civil.{
  days_before_year, days_before_month, month_start, year_of_day, month_of_day, mday_of_day,
  weekday_of_day,
}
use native.Mathlib.Decide.{dec_lt}
use native.Mathlib.Nat.{le_antisymm, zero-add, suc-add}
use native.Mathlib.Numerals.{add-one}

-- 1 January 2026 was a Thursday.
known_day :
    (month_of_day 739922 ≡ 12 * 2026 + 0) × (mday_of_day 739922 ≡ 1) × (weekday_of_day 739922 ≡ 4)
unfolding month_of_day mday_of_day weekday_of_day
known_day = (refl, refl, refl)

year_of_day_bounds :
    (z : ℕ) → (days_before_year (year_of_day z) ≤ z) × (z < days_before_year (year_of_day z + 1))
unfolding year_of_day
year_of_day_bounds z = omega arith

-- The month of a day, by its year and the days since 1 March.
month_of_day_lem :
    (z : ℕ)
    → (12 * year_of_day z + 2 ≤ month_of_day z)
      × (month_of_day z < 12 * year_of_day z + 14)
      × (month_of_day z
          ≡ 12 * year_of_day z + (5 * (z - days_before_year (year_of_day z)) + 2) / 153 + 2)
unfolding month_of_day
month_of_day_lem z = omega (arith, year_of_day_bounds z)

month_start_lem :
    (y k : ℕ) → k < 12 → month_start (12 * y + k + 2) ≡ days_before_year y + days_before_month k
unfolding month_start
month_start_lem y k h = omega arith

month_start_next : (y : ℕ) → month_start (12 * y + 14) ≡ days_before_year (y + 1)
unfolding month_start
month_start_next y = omega arith

year_length : (y : ℕ) → days_before_year (y + 1) ≤ days_before_year y + 366
year_length y = omega arith

month_in_year :
    (a c z : ℕ)
    → a ≤ z
    → z < c
    → c ≤ a + 366
    → let k = (5 * (z - a) + 2) / 153 in
      (k < 12) × (a + days_before_month k ≤ z) × (z < a + days_before_month (k + 1))
month_in_year a c z lo hi len = (omega arith, omega arith, omega arith)

-- `b` stands for the first day of the year from March, and `c` for that of the next.
month_bounds :
    (y z k b c : ℕ)
    → b ≡ days_before_year y
    → c ≡ days_before_year (y + 1)
    → z < c
    → k < 12
    → b + days_before_month k ≤ z
    → z < b + days_before_month (k + 1)
    → (month_start (12 * y + k + 2) ≤ z) × (z < month_start (12 * y + k + 2 + 1))
month_bounds y z k b c eb ec hi small from to = elim (dec_lt k 11) [
  | yes l ↦
      let next : 12 * y + k + 2 + 1 ≡ 12 * y + (k + 1) + 2 = omega arith in
      (
        rw (month_start_lem y k small, ← eb) from,
        rw (next, month_start_lem y (k + 1) (omega arith), ← eb) to,
      )
  | no n ↦
      let next : 12 * y + k + 2 + 1 ≡ 12 * y + 14 = omega arith in
      (rw (month_start_lem y k small, ← eb) from, rw (next, month_start_next y, ← ec) hi)
]

-- Every day lies in its month.
pub month_of_day_bounds :
    (z : ℕ) → (month_start (month_of_day z) ≤ z) × (z < month_start (month_of_day z + 1))
month_of_day_bounds z =
    let y = year_of_day z in
    let (lo, hi) = year_of_day_bounds z in
    let (small, from, to) = month_in_year (days_before_year y) _ z lo hi (year_length y) in
    rw (month_of_day_lem z).2 (month_bounds y z _ _ _ refl refl hi small from to)

-- A month has 28 to 31 days.
pub month_start-step :
    (m : ℕ)
    → 2 ≤ m
    → (month_start m + 28 ≤ month_start (m + 1)) × (month_start (m + 1) ≤ month_start m + 31)
unfolding month_start
month_start-step m h = omega arith

-- Later months begin later.
month_start_mono_by : (k m : ℕ) → 2 ≤ m → month_start m ≤ month_start (k + m)
month_start_mono_by zero m h = rw zero-add (omega arith)
month_start_mono_by (suc k) m h = rw suc-add (
    rw (← add-one (k + m))
      (omega (arith, month_start_mono_by k m h, month_start-step (k + m) (omega arith))))

pub month_start_mono : (m n : ℕ) → 2 ≤ m → m ≤ n → month_start m ≤ month_start n
month_start_mono m n h l =
    subst (λ k. month_start m ≤ month_start k) (omega arith) (month_start_mono_by (n - m) m h)

pub month_of_day-ge : (z : ℕ) → 2 ≤ month_of_day z
month_of_day-ge z = omega (arith, month_of_day_lem z)

-- A month's days have that month and no other.
pub month_of_day_unique :
    (m z : ℕ) → 2 ≤ m → month_start m ≤ z → z < month_start (m + 1) → month_of_day z ≡ m
month_of_day_unique m z h lo hi = le_antisymm below above
  where
    bounds : (month_start (month_of_day z) ≤ z) × (z < month_start (month_of_day z + 1))
    bounds = month_of_day_bounds z

    below : month_of_day z ≤ m
    below = elim (dec_lt m (month_of_day z)) [
      | yes l ↦ absurd (
          omega
            (arith, bounds, month_start_mono (m + 1) (month_of_day z) (omega arith) (omega arith)))
      | no n ↦ omega arith
    ]

    above : m ≤ month_of_day z
    above = elim (dec_lt (month_of_day z) m) [
      | yes l ↦ absurd (
          omega (
            arith,
            bounds,
            month_start_mono (month_of_day z + 1) m (omega (arith, month_of_day-ge z))
                (omega arith),
          ))
      | no n ↦ omega arith
    ]

-- The day of the month, from the day on which the month begins.
pub mday_of_day_lem : (z : ℕ) → month_start (month_of_day z) + mday_of_day z ≡ z + 1
unfolding mday_of_day
mday_of_day_lem z = omega (arith, month_of_day_bounds z)

-- Day `d` of month `m`, if the month has it, is in that month and is its `d`-th day.
pub month_start-mday :
    (m d : ℕ)
    → 2 ≤ m
    → 1 ≤ d
    → month_start m + d ≤ month_start (m + 1)
    → (month_of_day (month_start m + d - 1) ≡ m) × (mday_of_day (month_start m + d - 1) ≡ d)
month_start-mday m d h one fits =
    (same, omega (arith, mday_of_day_lem (month_start m + d - 1), ap month_start same))
  where
    same : month_of_day (month_start m + d - 1) ≡ m
    same = month_of_day_unique m (month_start m + d - 1) h (omega arith) (omega arith)

-- From day 100 on, June of year 0 has begun, and the month before has a beginning too.
pub late_month : (z : ℕ) → 100 ≤ z → (4 ≤ month_of_day z) × (31 ≤ month_start (month_of_day z - 1))
unfolding month_start
late_month z h = elim (dec_lt (month_of_day z) 4) [
  | yes l ↦ absurd (impossible l)
  | no n ↦ (
    omega arith,
    omega (arith, month_start_mono 3 (month_of_day z - 1) (omega arith) (omega arith)),
  )
]
  where
    impossible : month_of_day z < 4 → ⊥
    impossible l = omega (
      arith,
      (month_of_day_bounds z).1,
      month_start_mono (month_of_day z + 1) 5 (omega (arith, month_of_day-ge z)) (omega arith),
    )

-- The same month a year before begins 365 or 366 days earlier.
pub month_start-year :
    (m : ℕ)
    → 14 ≤ m
    → (month_start (m - 12) + 365 ≤ month_start m) × (month_start m ≤ month_start (m - 12) + 366)
unfolding month_start
month_start-year m h = omega arith

-- From day 500 on, the year before has begun.
pub late_year : (z : ℕ) → 500 ≤ z → 14 ≤ month_of_day z
unfolding month_start
late_year z h = elim (dec_lt (month_of_day z) 14) [
  | yes l ↦ absurd (
      omega (
        arith,
        (month_of_day_bounds z).1,
        month_start_mono (month_of_day z + 1) 14 (omega (arith, month_of_day-ge z)) (omega arith),
      ))
  | no n ↦ omega arith
]
