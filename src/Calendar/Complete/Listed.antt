-- ===== src/Calendar/Complete/Listed.antt =====
-- What the loops of `expandAction` list for one action, and for all the schedules.
use mathlib.Core.List.{Memᴰ}
use mathlib.Core.List.Memᴰ
use yc_sheduler.Prelude.{
  ℕ, zero, suc, ◌+◌, ◌*◌, ◌/◌, ◌≤◌, ◌<◌, ◌%◌, ◌≡◌, ◌∙◌, ◌↔◌, inl, inr, refl, sym, ap, String, Bool,
  true, false, if◌then◌else◌, Option, none, some, List, [], ◌∷◌, map, arith, Bool-cases, subst,
}
use yc_sheduler.Config.{Schedule}
use yc_sheduler.GoTime.Instant.{
  Location, Time, second_ns, day_seconds, day_number, clock, local_seconds, before, date,
}
use yc_sheduler.GoTime.Fixed.{IsFixed}
use yc_sheduler.Schedule.Clock.{Clock}
use yc_sheduler.Schedule.Clock.Formats.{IsClock}
use yc_sheduler.Schedule.Last.AtClock.{seconds_of, day_ns}
use yc_sheduler.Calendar.{new_event, expand_days, next_day}
use yc_sheduler.Calendar.Days.{expand_days-events}
use yc_sheduler.Calendar.Latest.{some_injective}
use yc_sheduler.Calendar.Chronology.Order.{event_of}

abbrev pub on : Location → ℕ → Time
on l k = record { ns = k; loc = l }

-- Times of one location.
abbrev AreOn : Location → Option (List Time) → Type 0
AreOn l none = Unit
AreOn l (some ts) = (ks : List ℕ) × (ts ≡ map (on l) ks)

AreOn-step :
    (l : Location) (b : Bool) (k : ℕ) (more : Option (List Time))
    → AreOn l more
    → AreOn l (elim more [ none ↦ none | some rest ↦ some (if b then on l k ∷ rest else rest) ])
AreOn-step l b k none h = tt
AreOn-step l true k (some rest) (ks, e) = (k ∷ ks, ap (λ ts. on l k ∷ ts) e)
AreOn-step l false k (some rest) h = h

expand_days-AreOn :
    (wanted : Time → Bool) (c : Clock) (l : Location) (end : Time) (fuel : ℕ) (d : Time)
    → AreOn l (expand_days wanted c l end fuel d)
unfolding expand_days date
expand_days-AreOn wanted c l end zero d = tt
expand_days-AreOn wanted c l end (suc fuel) d = elim (Bool-cases (before d end)) [
  | inl more ↦ rw more (
      AreOn-step l (wanted d) _ (expand_days wanted c l end fuel (next_day d))
        (expand_days-AreOn wanted c l end fuel (next_day d)))
  | inr over ↦ rw over ([], refl)
]

pub events_of :
    (l : Location) (sch : Schedule) (name : String) (ks : List ℕ)
    → map (new_event sch name) (map (on l) ks) ≡ map (event_of l) (map (λ k. (sch, name, k)) ks)
events_of l sch name [] = refl
events_of l sch name (k ∷ ks) =
    ap (λ es. new_event sch name (on l k) ∷ es) (events_of l sch name ks)

module _ {l : Location} (f : IsFixed l) (fuel z start extra : ℕ)
    (starts : start + f.east * second_ns ≡ (z * day_seconds + f.west) * second_ns) (late : 2 ≤ z)
    (enough : suc extra < fuel) where
  abbrev pub end_ns : ℕ
  end_ns = start + suc extra * day_ns

  -- The range in instants, and in days.
  pub range_days :
      (k : ℕ)
      → ((start ≤ k) × (k < end_ns))
        ↔ ((z ≤ day_number (on l k)) × (day_number (on l k) ≤ z + extra))
  unfolding day_number local_seconds
  range_days k = (
    λ (from, to). (
      omega (
        arith,
        f.ahead_is (k / second_ns),
        f.behind_is (k / second_ns),
        f.west_lt,
        f.east_lt,
        starts,
      ),
      omega (
        arith,
        f.ahead_is (k / second_ns),
        f.behind_is (k / second_ns),
        f.west_lt,
        f.east_lt,
        starts,
      ),
    ),
    λ (from, to). (
      omega (
        arith,
        f.ahead_is (k / second_ns),
        f.behind_is (k / second_ns),
        f.west_lt,
        f.east_lt,
        starts,
      ),
      omega (
        arith,
        f.ahead_is (k / second_ns),
        f.behind_is (k / second_ns),
        f.west_lt,
        f.east_lt,
        starts,
      ),
    ),
  )

  -- A run on the days that pass a test.
  abbrev pub IsOn : (ℕ → Bool) → Clock → ℕ → Type 0
  IsOn p c k =
      (clock (on l k) ≡ seconds_of c)
      × (k % second_ns ≡ 0)
      × (z ≤ day_number (on l k))
      × (day_number (on l k) ≤ z + extra)
      × (p (day_number (on l k)) ≡ true)

  pub day_items :
      (p : ℕ → Bool) (c : Clock)
      → IsClock c
      → (ks : List ℕ) × (expand_days (λ d. p (day_number d)) c l (on l end_ns) fuel (on l start)
          ≡ some (map (on l) ks))
        × ((k : ℕ) → Memᴰ k ks ↔ IsOn p c k)
  day_items p c valid =
      let (ts, made, _) =
        expand_days-events f c valid p fuel z start (suc extra) 0 starts late enough in
      let (ks, e) =
        subst (AreOn l) made
          (expand_days-AreOn (λ d. p (day_number d)) c l (on l end_ns) fuel (on l start)) in
      (ks, made ∙ ap some e, λ k. members ts ks made e k)
    where
      members :
          (ts : List Time) (ks : List ℕ)
          → expand_days (λ d. p (day_number d)) c l (on l end_ns) fuel (on l start) ≡ some ts
          → ts ≡ map (on l) ks
          → (k : ℕ) → Memᴰ k ks ↔ IsOn p c k
      members ts ks made e k =
          let (ts', made', events) =
            expand_days-events f c valid p fuel z start (suc extra) k starts late enough in
          let same : ts' ≡ map (on l) ks = some_injective ts' ts (sym made' ∙ made) ∙ e in
          let events' = rw same at events in
          (
            (λ m.
                let (a, b, whole, shown, wanted) = events'.0 (Memᴰ.map (on l) m) in
                let days = (range_days k).0 (a, b) in (shown, whole, days.0, days.1, wanted)),
            (λ (shown, whole, from, to, wanted).
                let instants = (range_days k).1 (from, to) in
                let (k', m, same_time) =
                  Memᴰ.of_map (on l) ks
                    (events'.1 (instants.0, instants.1, whole, shown, wanted)) in
                Memᴰ.cast (ap (λ t. t.ns) (sym same_time)) m),
          )
