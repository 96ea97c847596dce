-- ===== src/Calendar/Latest/Monthly.antt =====
-- The calendar and the validator on one monthly action.
use mathlib.Core.List.{Memᴰ}
use yc_sheduler.Prelude.{
  ℕ, ◌+◌, ◌*◌, ◌%◌, ◌≤◌, ◌<◌, ◌≡◌, ◌↔◌, ◌==◌, ==_iff, sym, ◌∙◌, some, List, ok, arith, Bool-cases,
  inl, inr, ltb, pos, ltb→lt, ltb→ge, ◌-◌,
}
use yc_sheduler.Config.{Bytes}
use yc_sheduler.GoTime.Instant.{Location, Time, second_ns, day_number, clock, day}
use yc_sheduler.GoTime.Fixed.{IsFixed, ns_lem, clock-lt}
use yc_sheduler.Schedule.Clock.{Clock}
use yc_sheduler.Schedule.Clock.Formats.{IsClock, parse_time_string-IsClock}
use yc_sheduler.Schedule.Last.{get_last_monthly_time}
use yc_sheduler.Schedule.Last.AtClock.{seconds_of, day_ns}
use yc_sheduler.Schedule.Last.Monthly.{run_of}
use yc_sheduler.Schedule.Last.Monthly.Run.{
  IsMonthlyRun, run_bounds, get_last_monthly_time-IsMonthlyRun,
}
use yc_sheduler.GoTime.CivilLaws.{
  month_start_mono, mday_of_day_lem, month_of_day-ge, month_start-mday, month_start-step,
}
use yc_sheduler.GoTime.Civil.{month_start, month_of_day, mday_of_day}
use yc_sheduler.Calendar.Latest.Weekly.{IsLatestUpTo}
use yc_sheduler.Calendar.{expand_days}
use yc_sheduler.Calendar.Parse.{parse_clock}
use yc_sheduler.Calendar.Agreement.{parse_clock-agrees}
use yc_sheduler.Calendar.Days.{Starts, expand_days-events}
use yc_sheduler.Calendar.Latest.{IsRun, IsRun-of_day, late_day, some_injective}

-- The instants at which a monthly action runs.
abbrev pub IsRunOnDay : Location → Clock → ℕ → ℕ → Type 0
IsRunOnDay l c d k = IsRun l c k × (day (record { ns = k; loc = l }) ≡ d)

module _ {l : Location} (f : IsFixed l) (c : Clock) (valid : IsClock c) (d : ℕ) where
  IsMonthlyRun-IsLatestUpTo :
      (n m : ℕ) (t : Time)
      → 200 * day_ns ≤ n
      → 100 ≤ day_number (record { ns = n; loc = l })
      → 1 ≤ d
      → d ≤ 28
      → IsMonthlyRun f c d (record { ns = n; loc = l }) t m
      → IsLatestUpTo (IsRunOnDay l c d) n t.ns
  unfolding day
  IsMonthlyRun-IsLatestUpTo n m t far late d1 d28 run = (
    (
      IsRun-of_day f c valid (month_start m + d - 1) t.ns
          (omega (arith, run.0, early, f.west_lt, valid)) run.0,
      on,
    ),
    within.0,
    (λ k ((whole, shown), wanted) less. not_later k whole shown wanted less),
  )
    where
      within : (t.ns ≤ n) × (n + f.east * second_ns < run_of f.west c (m + 1) d) × (3 ≤ m)
      within = run_bounds f c valid d n m t late d1 d28 run

      step : (month_start m + 28 ≤ month_start (m + 1)) × (month_start (m + 1) ≤ month_start m + 31)
      step = month_start-step m (omega (arith, within.2))

      early : 3 * day_ns ≤ t.ns
      early = omega (arith, within.1, step, run.0, valid)

      on_day : day_number (record { ns = t.ns; loc = l }) + 1 ≡ month_start m + d
      on_day = omega (
        arith,
        run.0,
        ns_lem f t.ns (omega (arith, late_day f c valid t.ns (omega (arith, early)))),
        clock-lt f t.ns,
      )

      on : mday_of_day (day_number (record { ns = t.ns; loc = l })) ≡ d
      on =
          let same : day_number (record { ns = t.ns; loc = l }) ≡ month_start m + d - 1 =
            omega (arith, on_day) in
          rw same (month_start-mday m d (omega (arith, within.2)) d1 (omega (arith, step))).1

      not_later :
          (k : ℕ)
          → k % second_ns ≡ 0
          → clock (record { ns = k; loc = l }) ≡ seconds_of c
          → mday_of_day (day_number (record { ns = k; loc = l })) ≡ d
          → k ≤ n
          → k ≤ t.ns
      not_later k whole shown wanted less = elim (Bool-cases (ltb k (3 * day_ns))) [
        | inl near ↦ let e : k < 3 * day_ns = ground arith in omega (arith, early)
        | inr off ↦
            let e : 3 * day_ns ≤ k = ground arith in
            let y = day_number (record { ns = k; loc = l }) in
            let at = ns_lem f k (omega (arith, late_day f c valid k (omega arith))) in
            elim (Bool-cases (ltb m (month_of_day y))) [
              | inl after ↦
                  let more = ltb→lt _ _ after in
                  absurd (
                    omega (
                      arith,
                      at,
                      shown,
                      wanted,
                      within.1,
                      mday_of_day_lem y,
                      month_start_mono (m + 1) (month_of_day y) (omega (arith, within.2))
                          (omega (arith, more)),
                    ))
              | inr up_to ↦
                  let no_more = ltb→ge _ _ up_to in
                  omega (
                    arith,
                    at,
                    shown,
                    wanted,
                    whole,
                    run.0,
                    mday_of_day_lem y,
                    month_start_mono (month_of_day y) m (month_of_day-ge y)
                        (omega (arith, no_more)),
                  )
            ]
      ]

  -- What the calendar lists in a range.
  listed_runs :
      (fuel z start days k : ℕ) (ts : List Time)
      → Starts f c valid z start
      → 2 ≤ z
      → days < fuel
      → expand_days
          (λ x. day x == d)
          c
          l
          (record { ns = start + days * day_ns; loc = l })
          fuel
          (record { ns = start; loc = l })
        ≡ some ts
      → Memᴰ (record { ns = k; loc = l }) ts
        ↔ ((start ≤ k) × (k < start + days * day_ns) × IsRunOnDay l c d k)
  unfolding day
  listed_runs fuel z start days k ts starts late enough made =
      let (ts', made', events) =
        expand_days-events f c valid (λ x. mday_of_day x == d) fuel z start days k starts late
          enough in
      let same : ts' ≡ ts = some_injective ts' ts (sym made' ∙ made) in
      let events' = rw same at events in
      (
        (λ m.
            let (a, b, whole, shown, on) = events'.0 m in
            (a, b, ((whole, shown), (==_iff _ _).0 on))),
        (λ (a, b, ((whole, shown), on)). events'.1 (a, b, whole, shown, (==_iff _ _).1 on)),
      )

-- A monthly action on a day that every month has (1 to 28) whose time the calendar can read, in a
-- location with a fixed offset; a range of whole days, from day 2 of the calendar on, for which the
-- loop has more fuel than days; and a time `n` in the range, at least 62 days after its start and 200
-- days after the first instant. The calendar lists exactly the runs in the range, the validator finds
-- the latest run of all at or before `n`, and that one is in the list.
pub expand_days-get_last_monthly_time :
    {l : Location} (f : IsFixed l) (s : Bytes) (c : Clock) (d fuel z start days n : ℕ)
    → (read : parse_clock s ≡ ok c)
    → let valid = parse_time_string-IsClock s c (parse_clock-agrees s c read) in
      1 ≤ d
      → d ≤ 28
      → Starts f c valid z start
      → 2 ≤ z
      → days < fuel
      → start + 62 * day_ns ≤ n
      → n < start + days * day_ns
      → 200 * day_ns ≤ n
      → (ts : List Time) × (t : Time) × (expand_days
            (λ x. day x == d)
            c
            l
            (record { ns = start + days * day_ns; loc = l })
            fuel
            (record { ns = start; loc = l })
          ≡ some ts)
        × (get_last_monthly_time s (pos d) (record { ns = n; loc = l }) l ≡ ok t)
        × ((k : ℕ)
            → Memᴰ (record { ns = k; loc = l }) ts
              ↔ ((start ≤ k) × (k < start + days * day_ns) × IsRunOnDay l c d k))
        × IsLatestUpTo (IsRunOnDay l c d) n t.ns
        × Memᴰ (record { ns = t.ns; loc = l }) ts
unfolding day
expand_days-get_last_monthly_time {l} f s c d fuel z start days n read d1 d28 starts late enough
      from to far =
    let same = parse_clock-agrees s c read in
    let valid = parse_time_string-IsClock s c same in
    let (ts, made, _) =
      expand_days-events f c valid (λ x. mday_of_day x == d) fuel z start days 0 starts late
        enough in
    let far_on : 100 ≤ day_number (record { ns = n; loc = l }) = omega (
      arith,
      ns_lem f n (omega (arith, late_day f c valid n (omega arith))),
      clock-lt f n,
      f.west_lt,
    ) in
    let (t, found, (y, run)) = get_last_monthly_time-IsMonthlyRun f s c d n same d1 d28 far_on in
    let latest = IsMonthlyRun-IsLatestUpTo f c valid d n y t far far_on d1 d28 run in
    let within = run_bounds f c valid d n y t far_on d1 d28 run in
    let step = month_start-step y (omega (arith, within.2)) in
    (
      ts,
      t,
      made,
      found,
      (λ k. listed_runs f c valid d fuel z start days k ts starts late enough made),
      latest,
      (listed_runs f c valid d fuel z start days t.ns ts starts late enough made).1
          (omega (arith, run.0, within.1, step), omega (arith, within.0), latest.0),
    )
