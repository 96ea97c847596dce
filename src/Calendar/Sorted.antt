-- ===== src/Calendar/Sorted.antt =====
-- The order of the events.
use mathlib.Core.List.{Perm}
use mathlib.Core.List.Perm
use yc_sheduler.Prelude.{
  Bool, true, false, ◌||◌, List, [], ◌∷◌, ◌≡◌, refl, arith, Bool-cases, inl, inr, if◌then◌else◌,
}
use yc_sheduler.Config.{Bytes}
use yc_sheduler.Config.Files.{bytes_lt}
use yc_sheduler.Calendar.{Event, less, insert_event, sort_events}

bytes_lt_asymm : (xs ys : Bytes) → bytes_lt xs ys ≡ true → bytes_lt ys xs ≡ false
unfolding bytes_lt
bytes_lt_asymm [] [] h = refl
bytes_lt_asymm [] (y ∷ ys) h = refl
bytes_lt_asymm (x ∷ xs) [] h = absurd (cc)
bytes_lt_asymm (x ∷ xs) (y ∷ ys) h = ground (arith, bytes_lt_asymm xs ys)

-- No event is earlier than the one before it, by the text of its time.
abbrev pub IsSorted : List Event → Type 0
IsSorted [] = Unit
IsSorted (e ∷ []) = Unit
IsSorted (e ∷ f ∷ es) = (bytes_lt f.time e.time ≡ false) × IsSorted (f ∷ es)

first_false : (a b r : Bool) → (if a || b then a else r) ≡ false → a ≡ false
first_false true b r h = absurd (cc)
first_false false b r h = refl

first_true : (a b r : Bool) → (if a || b then a else r) ≡ true → (a ≡ true → b ≡ false) → b ≡ false
first_true true b r h k = k refl
first_true false true r h k = absurd (cc)
first_true false false r h k = refl

pub less-false : (e f : Event) → less f e ≡ false → bytes_lt f.time e.time ≡ false
unfolding less
less-false e f h = first_false (bytes_lt f.time e.time) (bytes_lt e.time f.time) _ h

pub less-true : (e f : Event) → less f e ≡ true → bytes_lt e.time f.time ≡ false
unfolding less
less-true e f h =
    first_true (bytes_lt f.time e.time) (bytes_lt e.time f.time) _ h (bytes_lt_asymm f.time e.time)

insert_event-IsSorted : (e : Event) (es : List Event) → IsSorted es → IsSorted (insert_event e es)
unfolding insert_event
insert_event-IsSorted e [] h = tt
insert_event-IsSorted e (f ∷ []) h = elim (Bool-cases (less f e)) [
  | inl before ↦ rw before (less-true e f before, tt)
  | inr here ↦ rw here (less-false e f here, h)
]
insert_event-IsSorted e (f ∷ g ∷ es) h = elim (Bool-cases (less f e)) [
  | inr here ↦ rw here (less-false e f here, h)
  | inl before ↦ elim (Bool-cases (less g e)) [
    | inl later ↦
        let rest = rw later at (insert_event-IsSorted e (g ∷ es) h.1) in
        rw (before, later) (h.0, rest)
    | inr between ↦
        let rest = rw between at (insert_event-IsSorted e (g ∷ es) h.1) in
        rw (before, between) (less-true e f before, rest)
  ]
]

insert_event-Perm : (e : Event) (es : List Event) → Perm (insert_event e es) (e ∷ es)
unfolding insert_event
insert_event-Perm e [] = Perm.refl (e ∷ [])
insert_event-Perm e (f ∷ fs) = elim (Bool-cases (less f e)) [
  | inl before ↦ rw before (Perm.trans (Perm.cons f (insert_event-Perm e fs)) (Perm.swap e f fs))
  | inr here ↦ rw here (Perm.refl (e ∷ f ∷ fs))
]

-- The sorted events are the given ones, in an order in which no event is earlier than the one
-- before it, by the text of its time.
pub sort_events-IsSorted : (es : List Event) → IsSorted (sort_events es) × Perm (sort_events es) es
unfolding sort_events
sort_events-IsSorted [] = (tt, Perm.refl [])
sort_events-IsSorted (e ∷ es) =
    let (sorted, same) = sort_events-IsSorted es in
    (
      insert_event-IsSorted e (sort_events es) sorted,
      Perm.trans (insert_event-Perm e (sort_events es)) (Perm.cons e same),
    )
