-- ===== src/Calendar/Cron.antt =====
-- The events of cron schedules.
use mathlib.Core.List.Memᴰ.{cases_cons, not-nil}
use mathlib.Core.List.{Memᴰ}
use yc_sheduler.Prelude.{
  ℕ, zero, suc, ◌+◌, ◌≤◌, ◌<◌, ◌≡◌, refl, true, not, none, some, List, [], ◌∷◌, Option, ltb, arith,
  Bool-cases, inl, inr, if◌then◌else◌, ap, ◌↔◌,
}
use yc_sheduler.GoTime.Instant.{Location, Time, zero_ns, in_location}
use yc_sheduler.Schedule.Last.Cron.{IsNext}
use yc_sheduler.Schedule.Last.{CronSchedule, zero_time}
use yc_sheduler.Calendar.{expand_cron}

module _ (next : CronSchedule) (l : Location) (start end : Time) where
  -- For a cron expression that has no run, `next` giving the zero time, and a range that ends after
  -- the zero time, no fuel gives the loop a result.
  pub expand_cron-endless :
      (fuel : ℕ) (cursor : Time)
      → ((t : Time) → next t ≡ zero_time)
      → zero_ns < end.ns
      → expand_cron next l start end fuel cursor ≡ none
  unfolding expand_cron
  expand_cron-endless zero cursor never late = refl
  expand_cron-endless (suc fuel) cursor never late =
      let on : ltb zero_ns end.ns ≡ true = ground arith in
      rw (never (in_location cursor l), on, expand_cron-endless fuel zero_time never late) refl

  abbrev at : ℕ → Time
  at k = record { ns = k; loc = l }

  module _ (Runs : Location → ℕ → Type 0) (laws : IsNext next Runs) where
    -- A run in the range, after `from`.
    abbrev pub IsEvent : ℕ → ℕ → Type 0
    IsEvent from k = (from < k) × (start.ns ≤ k) × (k < end.ns) × Runs l k

    expand_cron-round :
        (from b k : ℕ) (rest : List Time) (o : Option (List Time))
        → from < b
        → b < end.ns
        → Runs l b
        → (Runs l k → from < k → b ≤ k)
        → o ≡ some rest
        → (Memᴰ (at k) rest ↔ IsEvent b k)
        → (ts : List Time) × ((elim o [
          | none ↦ none
          | some rest ↦ some (if not (ltb b start.ns) then at b ∷ rest else rest)
        ])
            ≡ some ts)
          × (Memᴰ (at k) ts ↔ IsEvent from k)
    expand_cron-round from b k rest o up inside is_run least made ih =
        elim (Bool-cases (ltb b start.ns)) [
          | inl early ↦
              let late : start.ns ≤ k → b < k = λ h. ground arith in
              rw (made, early)
                (
                  rest,
                  refl,
                  (
                    (λ m.
                        let (after, begun, ended, runs) = ih.0 m in
                        (omega arith, begun, ended, runs)),
                    (λ (after, begun, ended, runs). ih.1 (late begun, begun, ended, runs)),
                  ),
                )
          | inr begins ↦
              rw (made, begins)
                (
                  at b ∷ rest,
                  refl,
                  (
                    (λ m. elim (cases_cons m) [
                      | inl e ↦ rw (ap (λ (t : Time). t.ns) e) (up, ground arith, inside, is_run)
                      | inr m' ↦
                          let (after, begun, ended, runs) = ih.0 m' in
                          (omega arith, begun, ended, runs)
                    ]),
                    (λ (after, begun, ended, runs). elim (Bool-cases (ltb b k)) [
                      | inl further ↦ Memᴰ.tail (ih.1 (ground arith, begun, ended, runs))
                      | inr here ↦
                          let bound : b ≤ k = least runs after in
                          let e : k ≡ b = ground arith in Memᴰ.head (ap at e)
                    ]),
                  ),
                )
        ]

    -- If `next` gives the first run after the instant that it is asked for, in the location of the
    -- time that it is given, the loop ends when it has some fuel and at least as much as there are
    -- nanoseconds from its cursor to the end of the range, and an instant is in its result exactly if
    -- it is a run in the location of the calendar, in the range and after the cursor.
    pub expand_cron-events :
        (fuel : ℕ) (cursor : Time) (k : ℕ)
        → 1 ≤ fuel
        → end.ns ≤ cursor.ns + fuel
        → (ts : List Time) × (expand_cron next l start end fuel cursor ≡ some ts)
          × (Memᴰ (at k) ts ↔ IsEvent cursor.ns k)
    unfolding expand_cron
    expand_cron-events zero cursor k some_fuel enough = absurd (omega arith)
    expand_cron-events (suc fuel) cursor k some_fuel enough =
        let asked = in_location cursor l in
        let up = laws.later asked in
        elim (Bool-cases (ltb (next asked).ns end.ns)) [
          | inl inside ↦
              let (rest, made, ih) =
                expand_cron-events fuel (next asked) k (ground arith) (ground arith) in
              rw inside (
                expand_cron-round cursor.ns (next asked).ns k rest _ up (ground arith)
                  (laws.is_run asked) (laws.least asked k) made ih)
          | inr over ↦ rw over (
            [],
            refl,
            (
              (λ m. absurd (not-nil m)),
              (λ (after, begun, ended, runs).
                  let bound : (next asked).ns ≤ k = laws.least asked k runs after in
                  absurd (ground arith)),
            ),
          )
        ]
