-- ===== src/Calendar/Days.antt =====
-- The events of daily, weekly and monthly schedules, in a location with a fixed offset.
use mathlib.Core.List.{Memᴰ}
use mathlib.Core.List.Memᴰ.{cases_cons, not-nil}
use mathlib.Core.Bool.{true≢false}
use yc_sheduler.Prelude.{
  ℕ, zero, suc, ◌+◌, ◌*◌, ◌%◌, ◌≤◌, ◌<◌, ◌≡◌, ◌↔◌, refl, pos, Bool, true, false, Option, none, some,
  List, [], ◌∷◌, ltb, arith, Bool-cases, inl, inr, if◌then◌else◌, sym, ap, ◌∙◌, ◌/◌,
}
use yc_sheduler.GoTime.Instant.{
  Location, Time, second_ns, day_seconds, day_number, clock, add_date, date, local_seconds,
}
use yc_sheduler.GoTime.Fixed.{IsFixed, ns_lem, add_date-days}
use yc_sheduler.Schedule.Clock.{Clock}
use yc_sheduler.Schedule.Clock.Formats.{IsClock}
use yc_sheduler.Schedule.Last.AtClock.{seconds_of, day_ns, Shows, at_clock-same}
use yc_sheduler.Calendar.{expand_days, next_day}

module _ {l : Location} (f : IsFixed l) (c : Clock) (valid : IsClock c) where
  -- The first instant of the day `z`.
  abbrev pub Starts : ℕ → ℕ → Type 0
  Starts z n = n + f.east * second_ns ≡ (z * day_seconds + f.west) * second_ns

  abbrev pub on_day : ℕ → Time
  on_day n = record { ns = n; loc = l }

  day_number-Starts : (z n : ℕ) → Starts z n → 1 ≤ z → day_number (on_day n) ≡ z
  unfolding day_number local_seconds
  day_number-Starts z n h late =
      omega
        (arith, f.ahead_is (n / second_ns), f.behind_is (n / second_ns), f.west_lt, f.east_lt, h)

  pub next_day-Starts : (z n : ℕ) → Starts z n → 1 ≤ z → Starts (suc z) (next_day (on_day n)).ns
  next_day-Starts z n h late =
      let e = day_number-Starts z n h late in
      omega (arith, h, add_date-days f n (pos 1) (omega (arith, e)) (omega (arith, e)))

  -- An instant of the range on a wanted day, at which the clock shows the time of the action.
  abbrev pub IsEvent : (ℕ → Bool) → ℕ → ℕ → ℕ → Type 0
  IsEvent p n end k =
      (n ≤ k)
      × (k < end)
      × (k % second_ns ≡ 0)
      × (clock (on_day k) ≡ seconds_of c)
      × (p (day_number (on_day k)) ≡ true)

  -- The day of an instant, by its distance from the start of a day.
  same_day : (z n k : ℕ) → Starts z n → 2 ≤ z → n ≤ k → k < n + day_ns → day_number (on_day k) ≡ z
  unfolding day_number local_seconds
  same_day z n k h late from to =
      omega
        (arith, f.ahead_is (k / second_ns), f.behind_is (k / second_ns), f.west_lt, f.east_lt, h)

  -- What `on_day j` is, being at the time of the action on the day `z`.
  module _ (p : ℕ → Bool) (z n end j : ℕ) (start : Starts z n) (late : 2 ≤ z)
      (more : n + day_ns ≤ end) (shows : Shows f c valid z (on_day j)) where
    head-IsEvent : p z ≡ true → IsEvent p n end j
    head-IsEvent h = (
      omega (arith, shows, start),
      omega (arith, shows, start, more),
      omega (arith, shows.2),
      shows.1,
      rw shows.0 h,
    )

    IsEvent-tail : (k : ℕ) → IsEvent p (n + day_ns) end k → IsEvent p n end k
    IsEvent-tail k (from, to, whole, at, wanted) = (omega arith, to, whole, at, wanted)

    IsEvent-here : (k : ℕ) → IsEvent p n end k → k < n + day_ns → (k ≡ j) × (p z ≡ true)
    IsEvent-here k (from, to, whole, at, wanted) near =
        let e = same_day z n k start late from near in
        (omega (arith, shows.2, ns_lem f k (omega (arith, e)), e, at, whole), rw e at wanted)

  later : (p : ℕ → Bool) (n end k m : ℕ) → IsEvent p n end k → m ≤ k → IsEvent p m end k
  later p n end k m (from, to, whole, at, wanted) h = (h, to, whole, at, wanted)

  -- An event is at the head of the list or later.
  IsEvent-step :
      (p : ℕ → Bool) (z n end k j : ℕ) (rest : List Time)
      → Starts z n
      → 2 ≤ z
      → n + day_ns ≤ end
      → Shows f c valid z (on_day j)
      → (Memᴰ (on_day k) rest ↔ IsEvent p (n + day_ns) end k)
      → Memᴰ (on_day k) (if p z then on_day j ∷ rest else rest) ↔ IsEvent p n end k
  IsEvent-step p z n end k j rest start late more shows ih = elim (Bool-cases (p z)) [
    | inl on ↦ rw on (
      (λ m. elim (cases_cons m) [
        | inl e ↦ rw (ap (λ (t : Time). t.ns) e) (head-IsEvent p z n end j start late more shows on)
        | inr m' ↦ IsEvent-tail p z n end j start late more shows k (ih.0 m')
      ]),
      (λ e. elim (Bool-cases (ltb k (n + day_ns))) [
        | inl near ↦
            Memᴰ.head
              (ap on_day (IsEvent-here p z n end j start late more shows k e (ground arith)).0)
        | inr far ↦ Memᴰ.tail (ih.1 (later p n end k (n + day_ns) e (ground arith)))
      ]),
    )
    | inr off ↦ rw off (
      (λ m. IsEvent-tail p z n end j start late more shows k (ih.0 m)),
      (λ e. elim (Bool-cases (ltb k (n + day_ns))) [
        | inl near ↦ absurd (
            true≢false
              (sym (IsEvent-here p z n end j start late more shows k e (ground arith)).1 ∙ off))
        | inr far ↦ ih.1 (later p n end k (n + day_ns) e (ground arith))
      ]),
    )
  ]

  -- One round of the loop, after what the other rounds make.
  expand_days-round :
      (p : ℕ → Bool) (z n n' end k j : ℕ) (o : Option (List Time))
      → Starts z n
      → 2 ≤ z
      → n' ≡ n + day_ns
      → n + day_ns ≤ end
      → Shows f c valid (day_number (on_day n)) (on_day j)
      → (ts : List Time) × (o ≡ some ts) × (Memᴰ (on_day k) ts ↔ IsEvent p n' end k)
      → (ts : List Time) × ((if ltb n end
            then elim o [
              | none ↦ none
              | some rest ↦ some (if p (day_number (on_day n)) then on_day j ∷ rest else rest)
            ]
            else some [])
          ≡ some ts)
        × (Memᴰ (on_day k) ts ↔ IsEvent p n end k)
  expand_days-round p z n n' end k j o start late next more shows (ts, made, ih) =
      let inside : ltb n end ≡ true = ground arith in
      let is_z = day_number-Starts z n start (omega arith) in
      (
        _,
        rw (inside, made) refl,
        IsEvent-step p (day_number (on_day n)) n end k j ts (rw is_z start) (rw is_z late) more
            shows (rw next at ih),
      )

  -- In a location with a fixed offset, for a time of day, a range of whole days from day 2 of the
  -- calendar on, and a test `p` of days: the loop ends if it has more fuel than there are days, and
  -- an instant is in its result exactly if it is a whole second in the range, on a day that passes
  -- the test, and the clock shows the time of the action at it.
  pub expand_days-events :
      (p : ℕ → Bool) (fuel z n days k : ℕ)
      → Starts z n
      → 2 ≤ z
      → days < fuel
      → (ts : List Time) × (expand_days
            (λ d. p (day_number d))
            c
            l
            (on_day (n + days * day_ns))
            fuel
            (on_day n)
          ≡ some ts)
        × (Memᴰ (on_day k) ts ↔ IsEvent p n (n + days * day_ns) k)
  unfolding expand_days add_date date
  expand_days-events p zero z n days k start late enough = absurd (omega arith)
  expand_days-events p (suc fuel) z n zero k start late enough =
      let e : n + 0 * day_ns ≡ n = omega arith in
      let stop : ltb n n ≡ false = ground arith in
      rw (e, stop)
        (
          [],
          refl,
          ((λ m. absurd (not-nil m)), λ (from, to, whole, at, wanted). absurd (omega arith)),
        )
  expand_days-events p (suc fuel) z n (suc days) k start late enough =
      let n' = (next_day (on_day n)).ns in
      let e = day_number-Starts z n start (omega arith) in
      let next : n' ≡ n + day_ns =
        omega (arith, add_date-days f n (pos 1) (omega (arith, e)) (omega (arith, e))) in
      let end : n' + days * day_ns ≡ n + suc days * day_ns = omega (arith, next) in
      let ih = rw end at (
        expand_days-events p fuel (suc z) n' days k (next_day-Starts z n start (omega arith))
          (omega arith) (omega arith)) in
      expand_days-round p z n n' (n + suc days * day_ns) k _ _ start late next (omega arith)
        (at_clock-same f c valid (on_day n) (omega (arith, e))) ih
