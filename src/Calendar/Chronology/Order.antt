-- ===== src/Calendar/Chronology/Order.antt =====
-- The events of one location, in the order of their instants.
use mathlib.Core.List.{Permᴰ}
use mathlib.Core.List.Permᴰ
use yc_sheduler.Prelude.{
  ℕ, ◌≤◌, ◌≡◌, refl, sym, ap, ◌∙◌, String, List, [], ◌∷◌, map, All, All-weaken, arith, Bool-cases,
  inl, inr, ltb→ge, true, false,
}
use yc_sheduler.Config.{Schedule}
use yc_sheduler.GoTime.Instant.{Location}
use yc_sheduler.GoTime.Fixed.{IsFixed}
use yc_sheduler.Calendar.{Event, new_event, less, insert_event, sort_events}
use yc_sheduler.Calendar.Sorted.{less-false, less-true}
use yc_sheduler.Calendar.Chronology.{IsShown, format_rfc3339-order}

-- What an event is made of: its schedule, its action and its instant.
abbrev pub Item : Type 0
Item = Schedule × String × ℕ

abbrev pub event_of : Location → Item → Event
event_of l (sch, action, k) = new_event sch action (record { ns = k; loc = l })

-- Every item of a list is at or after an instant.
abbrev From : ℕ → List Item → Type 0
From b = All (λ x. b ≤ x.2)

-- No item is before one that stands in front of it.
abbrev pub InOrder : List Item → Type 0
InOrder [] = Unit
InOrder (x ∷ xs) = From x.2 xs × InOrder xs

module _ {l : Location} (f : IsFixed l) where
  abbrev pub IsShownItem : Item → Type 0
  IsShownItem x = IsShown f x.2

  less-order :
      (x y : Item)
      → IsShownItem x
      → IsShownItem y
      → (less (event_of l y) (event_of l x) ≡ true → y.2 ≤ x.2)
        × (less (event_of l y) (event_of l x) ≡ false → x.2 ≤ y.2)
  unfolding new_event
  less-order x y hx hy = (
    λ h.
        ltb→ge x.2 y.2
          (sym (format_rfc3339-order f x.2 y.2 hx hy) ∙ less-true (event_of l x) (event_of l y) h),
    λ h.
        ltb→ge y.2 x.2
          (sym (format_rfc3339-order f y.2 x.2 hy hx) ∙ less-false (event_of l x) (event_of l y) h),
  )

  insert_event-InOrder :
      (x : Item) (xs : List Item)
      → IsShownItem x
      → All IsShownItem xs
      → InOrder xs
      → (ys : List Item) × (insert_event (event_of l x) (map (event_of l) xs) ≡ map (event_of l) ys)
        × Permᴰ ys (x ∷ xs)
        × InOrder ys
        × All IsShownItem ys
        × ((b : ℕ) → b ≤ x.2 → From b xs → From b ys)
  unfolding insert_event
  insert_event-InOrder x [] hx hs ordered =
      (x ∷ [], refl, Permᴰ.refl (x ∷ []), (tt, tt), (hx, tt), λ b h t. (h, t))
  insert_event-InOrder x (y ∷ xs) hx (hy, hs) (after, ordered) =
      let (ys, made, same, in_order, shown, bounded) = insert_event-InOrder x xs hx hs ordered in
      elim (Bool-cases (less (event_of l y) (event_of l x))) [
        | inl before ↦
            let first = (less-order x y hx hy).0 before in
            (
              y ∷ ys,
              rw before (ap (λ es. event_of l y ∷ es) made),
              Permᴰ.trans (Permᴰ.cons refl same) (Permᴰ.swap refl refl),
              (bounded y.2 first after, in_order),
              (hy, shown),
              λ b h (h', t). (h', bounded b h t),
            )
        | inr here ↦
            let first = (less-order x y hx hy).1 here in
            (
              x ∷ y ∷ xs,
              rw here refl,
              Permᴰ.refl (x ∷ y ∷ xs),
              ((first, All-weaken _ _ (λ z h. omega arith) xs after), (after, ordered)),
              (hx, (hy, hs)),
              λ b h t. (h, t),
            )
      ]

  pub sorted_items :
      (xs : List Item)
      → All IsShownItem xs
      → (ys : List Item) × (sort_events (map (event_of l) xs) ≡ map (event_of l) ys)
        × Permᴰ ys xs
        × InOrder ys
        × All IsShownItem ys
  unfolding sort_events
  sorted_items [] h = ([], refl, Permᴰ.refl [], tt, tt)
  sorted_items (x ∷ xs) (h, hs) =
      let (ys, made, same, ordered, shown) = sorted_items xs hs in
      let (zs, made', same', ordered', shown', _) = insert_event-InOrder x ys h shown ordered in
      (zs, rw made made', Permᴰ.trans same' (Permᴰ.cons refl same), ordered', shown')

  -- In a location with a fixed offset, for instants of whole seconds from day 1 of the calendar on, in
  -- years of four digits: the sorted events are those of the same items, in an order in which no
  -- instant is before one that stands in front of it.
  pub sort_events-InOrder :
      (xs : List Item)
      → All IsShownItem xs
      → (ys : List Item) × (sort_events (map (event_of l) xs) ≡ map (event_of l) ys)
        × Permᴰ ys xs
        × InOrder ys
  sort_events-InOrder xs h =
      let (ys, made, same, ordered, _) = sorted_items xs h in (ys, made, same, ordered)
