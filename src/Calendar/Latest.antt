-- ===== src/Calendar/Latest.antt =====
-- The calendar and the validator on one daily action: `expandAction` lists its runs in a range, and
-- `GetLastDailyTime` looks for the latest of them.
pub mod Weekly
pub mod Monthly
use mathlib.Core.List.{Memᴰ}
use yc_sheduler.Prelude.{
  ℕ, ◌+◌, ◌*◌, ◌%◌, ◌/◌, ◌≤◌, ◌<◌, ◌≡◌, ◌↔◌, refl, sym, ◌∙◌, true, some, List, ok, arith,
  Bool-cases, inl, inr, ltb,
}
use yc_sheduler.Config.{Bytes}
use yc_sheduler.GoTime.Instant.{
  Location, Time, second_ns, day_seconds, day_number, clock, local_seconds,
}
use yc_sheduler.GoTime.Fixed.{IsFixed, ns_lem}
use yc_sheduler.Schedule.Clock.{Clock}
use yc_sheduler.Schedule.Clock.Formats.{IsClock, parse_time_string-IsClock}
use yc_sheduler.Schedule.Last.{get_last_daily_time}
use yc_sheduler.Schedule.Last.AtClock.{seconds_of, day_ns}
use yc_sheduler.Schedule.Last.Daily.{IsLastDaily, get_last_daily_time-last}
use yc_sheduler.Calendar.{expand_days}
use yc_sheduler.Calendar.Parse.{parse_clock}
use yc_sheduler.Calendar.Agreement.{parse_clock-agrees}
use yc_sheduler.Calendar.Days.{Starts, expand_days-events}

-- What both go by: the instants at which a daily action runs.
abbrev pub IsRun : Location → Clock → ℕ → Type 0
IsRun l c k = (k % second_ns ≡ 0) × (clock (record { ns = k; loc = l }) ≡ seconds_of c)

-- The latest instant with a property before `n`.
abbrev pub IsLatest : (ℕ → Type 0) → ℕ → ℕ → Type 0
IsLatest P n t = P t × (t < n) × ((k : ℕ) → P k → k < n → k ≤ t)

pub some_injective : (a b : List Time) → some a ≡ some b → a ≡ b
some_injective a b e = cc

module _ {l : Location} (f : IsFixed l) (c : Clock) (valid : IsClock c) where
  -- An instant of day `z` is a run if it is that many seconds after the start of the day.
  pub IsRun-of_day :
      (z k : ℕ)
      → 1 ≤ z
      → k + f.east * second_ns ≡ (z * day_seconds + seconds_of c + f.west) * second_ns
      → IsRun l c k
  unfolding clock local_seconds
  IsRun-of_day z k late at = (
    omega (arith, at),
    omega
        (arith, f.ahead_is (k / second_ns), f.behind_is (k / second_ns), f.west_lt, f.east_lt, at),
  )

  pub late_day :
      (k : ℕ) → day_seconds * second_ns * 3 ≤ k → 2 ≤ day_number (record { ns = k; loc = l })
  unfolding day_number local_seconds
  late_day k h =
      omega (arith, f.ahead_is (k / second_ns), f.behind_is (k / second_ns), f.west_lt, f.east_lt)

  IsLastDaily-IsLatest :
      (n : ℕ) (t : Time) → 4 * day_ns ≤ n → IsLastDaily f c n t → IsLatest (IsRun l c) n t.ns
  IsLastDaily-IsLatest n t late (z, before, near, _, at) = (
    IsRun-of_day z t.ns (omega (arith, f.west_lt, valid)) at,
    before,
    (λ k (whole, shown) less. not_later k whole shown less),
  )
    where
      not_later :
          (k : ℕ)
          → k % second_ns ≡ 0
          → clock (record { ns = k; loc = l }) ≡ seconds_of c
          → k < n
          → k ≤ t.ns
      not_later k whole shown less = elim (Bool-cases (ltb k (3 * day_ns))) [
        | inl early ↦ let e : k < 3 * day_ns = ground arith in omega arith
        | inr far ↦
            let e : 3 * day_ns ≤ k = ground arith in
            omega (arith, ns_lem f k (omega (arith, late_day k (omega arith))), shown)
      ]

  -- What the calendar lists in a range.
  listed_runs :
      (fuel z start days k : ℕ) (ts : List Time)
      → Starts f c valid z start
      → 2 ≤ z
      → days < fuel
      → expand_days
          (λ d. true)
          c
          l
          (record { ns = start + days * day_ns; loc = l })
          fuel
          (record { ns = start; loc = l })
        ≡ some ts
      → Memᴰ (record { ns = k; loc = l }) ts
        ↔ ((start ≤ k) × (k < start + days * day_ns) × IsRun l c k)
  listed_runs fuel z start days k ts starts late enough made =
      let (ts', made', events) =
        expand_days-events f c valid (λ d. true) fuel z start days k starts late enough in
      let same : ts' ≡ ts = some_injective ts' ts (sym made' ∙ made) in
      let events' = rw same at events in
      (
        (λ m. let (a, b, whole, shown, _) = events'.0 m in (a, b, (whole, shown))),
        (λ (a, b, (whole, shown)). events'.1 (a, b, whole, shown, refl)),
      )

-- A daily action whose time the calendar can read, in a location with a fixed offset; a range of
-- whole days, from day 2 of the calendar on, for which the loop has more fuel than days; and a time
-- `n` in the range, at least a day after its start and four days after the first instant. The
-- calendar lists exactly the runs in the range, the validator finds the latest run of all before
-- `n`, and that one is in the list.
pub expand_days-get_last_daily_time :
    {l : Location} (f : IsFixed l) (s : Bytes) (c : Clock) (fuel z start days n : ℕ)
    → (read : parse_clock s ≡ ok c)
    → let valid = parse_time_string-IsClock s c (parse_clock-agrees s c read) in
      Starts f c valid z start
      → 2 ≤ z
      → days < fuel
      → start + day_ns ≤ n
      → n ≤ start + days * day_ns
      → 4 * day_ns ≤ n
      → (ts : List Time) × (t : Time) × (expand_days
            (λ d. true)
            c
            l
            (record { ns = start + days * day_ns; loc = l })
            fuel
            (record { ns = start; loc = l })
          ≡ some ts)
        × (get_last_daily_time s (record { ns = n; loc = l }) l ≡ ok t)
        × ((k : ℕ)
            → Memᴰ (record { ns = k; loc = l }) ts
              ↔ ((start ≤ k) × (k < start + days * day_ns) × IsRun l c k))
        × IsLatest (IsRun l c) n t.ns
        × Memᴰ (record { ns = t.ns; loc = l }) ts
expand_days-get_last_daily_time {l} f s c fuel z start days n read starts late enough from to far =
    let valid = parse_time_string-IsClock s c (parse_clock-agrees s c read) in
    let (ts, made, _) =
      expand_days-events f c valid (λ d. true) fuel z start days 0 starts late enough in
    let (t, found, last) =
      get_last_daily_time-last f s c n (parse_clock-agrees s c read)
        (late_day f c valid n (omega arith)) in
    let latest = IsLastDaily-IsLatest f c valid n t far last in
    (
      ts,
      t,
      made,
      found,
      (λ k. listed_runs f c valid fuel z start days k ts starts late enough made),
      latest,
      (listed_runs f c valid fuel z start days t.ns ts starts late enough made).1
          (omega (arith, last.2), omega (arith, last.1), latest.0),
    )
