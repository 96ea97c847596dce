-- ===== src/Calendar/Latest/Weekly.antt =====
-- The calendar and the validator on one weekly action.
use mathlib.Core.List.{Memᴰ}
use yc_sheduler.Prelude.{
  ℕ, ◌+◌, ◌*◌, ◌%◌, ◌≤◌, ◌<◌, ◌≡◌, ◌↔◌, ◌==◌, ==_iff, sym, ◌∙◌, some, List, ok, arith, Bool-cases,
  inl, inr, ltb, pos,
}
use yc_sheduler.Config.{Bytes}
use yc_sheduler.GoTime.Civil.{weekday_of_day}
use yc_sheduler.GoTime.Instant.{Location, Time, second_ns, day_number, clock, weekday}
use yc_sheduler.GoTime.Fixed.{IsFixed, ns_lem, clock-lt}
use yc_sheduler.Schedule.Clock.{Clock}
use yc_sheduler.Schedule.Clock.Formats.{IsClock, parse_time_string-IsClock}
use yc_sheduler.Schedule.Last.{get_last_weekly_time}
use yc_sheduler.Schedule.Last.AtClock.{seconds_of, day_ns}
use yc_sheduler.Schedule.Last.Weekly.{IsWeeklyRun, get_last_weekly_time-IsWeeklyRun}
use yc_sheduler.Calendar.{expand_days}
use yc_sheduler.Calendar.Parse.{parse_clock}
use yc_sheduler.Calendar.Agreement.{parse_clock-agrees}
use yc_sheduler.Calendar.Days.{Starts, expand_days-events}
use yc_sheduler.Calendar.Latest.{IsRun, IsRun-of_day, late_day, some_injective}

-- The instants at which a weekly action runs.
abbrev pub IsRunOn : Location → Clock → ℕ → ℕ → Type 0
IsRunOn l c d k = IsRun l c k × (weekday (record { ns = k; loc = l }) ≡ d)

-- The latest instant with a property up to `n`, `n` included.
abbrev pub IsLatestUpTo : (ℕ → Type 0) → ℕ → ℕ → Type 0
IsLatestUpTo P n t = P t × (t ≤ n) × ((k : ℕ) → P k → k ≤ n → k ≤ t)

module _ {l : Location} (f : IsFixed l) (c : Clock) (valid : IsClock c) (d : ℕ) where
  IsWeeklyRun-IsLatestUpTo :
      (n z : ℕ) (t : Time)
      → 12 * day_ns ≤ n
      → IsWeeklyRun f c valid d n t z
      → IsLatestUpTo (IsRunOn l c d) n t.ns
  unfolding weekday weekday_of_day
  IsWeeklyRun-IsLatestUpTo n z t late (before, near, day_is, (_, _, at)) = (
    (IsRun-of_day f c valid z t.ns (omega (arith, f.west_lt, valid)) at, on),
    before,
    (λ k ((whole, shown), wanted) less. not_later k whole shown wanted less),
  )
    where
      same_day : day_number (record { ns = t.ns; loc = l }) ≡ z
      same_day = omega (
        arith,
        at,
        ns_lem f t.ns (omega (arith, late_day f c valid t.ns (omega arith))),
        clock-lt f t.ns,
      )

      on : (day_number (record { ns = t.ns; loc = l }) + 3) % 7 ≡ d
      on = rw same_day day_is

      not_later :
          (k : ℕ)
          → k % second_ns ≡ 0
          → clock (record { ns = k; loc = l }) ≡ seconds_of c
          → (day_number (record { ns = k; loc = l }) + 3) % 7 ≡ d
          → k ≤ n
          → k ≤ t.ns
      not_later k whole shown wanted less = elim (Bool-cases (ltb k (3 * day_ns))) [
        | inl early ↦ let e : k < 3 * day_ns = ground arith in omega arith
        | inr far ↦
            let e : 3 * day_ns ≤ k = ground arith in
            omega (arith, ns_lem f k (omega (arith, late_day f c valid k (omega arith))), shown)
      ]

  -- What the calendar lists in a range.
  listed_runs :
      (fuel z start days k : ℕ) (ts : List Time)
      → Starts f c valid z start
      → 2 ≤ z
      → days < fuel
      → expand_days
          (λ x. weekday x == d)
          c
          l
          (record { ns = start + days * day_ns; loc = l })
          fuel
          (record { ns = start; loc = l })
        ≡ some ts
      → Memᴰ (record { ns = k; loc = l }) ts
        ↔ ((start ≤ k) × (k < start + days * day_ns) × IsRunOn l c d k)
  unfolding weekday
  listed_runs fuel z start days k ts starts late enough made =
      let (ts', made', events) =
        expand_days-events f c valid (λ x. weekday_of_day x == d) fuel z start days k starts late
          enough in
      let same : ts' ≡ ts = some_injective ts' ts (sym made' ∙ made) in
      let events' = rw same at events in
      (
        (λ m.
            let (a, b, whole, shown, on) = events'.0 m in
            (a, b, ((whole, shown), (==_iff _ _).0 on))),
        (λ (a, b, ((whole, shown), on)). events'.1 (a, b, whole, shown, (==_iff _ _).1 on)),
      )

-- A weekly action on a weekday from 0 to 6 whose time the calendar can read, in a location with a
-- fixed offset; a range of whole days, from day 2 of the calendar on, for which the loop has more
-- fuel than days; and a time `n` in the range, at least a week after its start and twelve days after
-- the first instant. The calendar lists exactly the runs in the range, the validator finds the latest
-- run of all at or before `n`, and that one is in the list.
pub expand_days-get_last_weekly_time :
    {l : Location} (f : IsFixed l) (s : Bytes) (c : Clock) (d fuel z start days n : ℕ)
    → (read : parse_clock s ≡ ok c)
    → let valid = parse_time_string-IsClock s c (parse_clock-agrees s c read) in
      d < 7
      → Starts f c valid z start
      → 2 ≤ z
      → days < fuel
      → start + 7 * day_ns ≤ n
      → n < start + days * day_ns
      → 12 * day_ns ≤ n
      → (ts : List Time) × (t : Time) × (expand_days
            (λ x. weekday x == d)
            c
            l
            (record { ns = start + days * day_ns; loc = l })
            fuel
            (record { ns = start; loc = l })
          ≡ some ts)
        × (get_last_weekly_time s (pos d) (record { ns = n; loc = l }) l ≡ ok t)
        × ((k : ℕ)
            → Memᴰ (record { ns = k; loc = l }) ts
              ↔ ((start ≤ k) × (k < start + days * day_ns) × IsRunOn l c d k))
        × IsLatestUpTo (IsRunOn l c d) n t.ns
        × Memᴰ (record { ns = t.ns; loc = l }) ts
unfolding weekday
expand_days-get_last_weekly_time {l} f s c d fuel z start days n read small starts late enough from
      to far =
    let same = parse_clock-agrees s c read in
    let valid = parse_time_string-IsClock s c same in
    let (ts, made, _) =
      expand_days-events f c valid (λ x. weekday_of_day x == d) fuel z start days 0 starts late
        enough in
    let far_on : 8 ≤ day_number (record { ns = n; loc = l }) = omega (
      arith,
      ns_lem f n (omega (arith, late_day f c valid n (omega arith))),
      clock-lt f n,
      f.west_lt,
    ) in
    let (t, found, (y, run)) = get_last_weekly_time-IsWeeklyRun f s c d n same small far_on in
    let latest = IsWeeklyRun-IsLatestUpTo f c valid d n y t far run in
    (
      ts,
      t,
      made,
      found,
      (λ k. listed_runs f c valid d fuel z start days k ts starts late enough made),
      latest,
      (listed_runs f c valid d fuel z start days t.ns ts starts late enough made).1
          (omega (arith, run.1), omega (arith, run.0), latest.0),
    )
