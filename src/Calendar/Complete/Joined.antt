-- ===== src/Calendar/Complete/Joined.antt =====
-- The items of all the schedules.
use mathlib.Core.List.{Memᴰ}
use mathlib.Core.List.Memᴰ
use yc_sheduler.Prelude.{
  ℕ, suc, ◌+◌, ◌*◌, ◌≤◌, ◌<◌, ◌≡◌, ◌⊎◌, ◌↔◌, inl, inr, refl, sym, ap, String, some, List, [], ◌∷◌,
  ◌++◌, map, ok, subst,
}
use yc_sheduler.Config.{Schedule}
use yc_sheduler.GoTime.Instant.{Location, second_ns, day_seconds}
use yc_sheduler.GoTime.Fixed.{IsFixed}
use yc_sheduler.Schedule.Last.{CronParser}
use yc_sheduler.Calendar.{Event, Run, action_events, append_run, collect_events}
use yc_sheduler.Calendar.Chronology.Order.{Item, event_of}
use yc_sheduler.Calendar.Complete.{AllReadable, RunsAt, IsShownRun}
use yc_sheduler.Calendar.Complete.Listed.{on}
use yc_sheduler.Calendar.Complete.Actions.{item, Lists, end_time, Shown, action_events-Shown}

map-append :
    (l : Location) (xs ys : List Item)
    → map (event_of l) (xs ++ ys) ≡ map (event_of l) xs ++ map (event_of l) ys
map-append l [] ys = refl
map-append l (x ∷ xs) ys = ap (λ es. event_of l x ∷ es) (map-append l xs ys)

append_run-Lists :
    (l : Location) (r s : Run (List Event)) (xs ys : List Item)
    → Lists l r xs
    → Lists l s ys
    → Lists l (append_run r s) (xs ++ ys)
append_run-Lists l r s xs ys hr hs =
    rw (hr, hs) (ap (λ es. some (ok es)) (sym (map-append l xs ys)))

module _ {l : Location} (f : IsFixed l) (parser : CronParser) (fuel z start extra : ℕ)
    (starts : start + f.east * second_ns ≡ (z * day_seconds + f.west) * second_ns) (late : 2 ≤ z)
    (enough : suc extra < fuel) where
  -- Of all the schedules.
  abbrev pub AllShown : List Schedule → Run (List Event) → Type 0
  AllShown schedules r =
      (xs : List Item) × Lists l r xs
      × ((x : Item) → Memᴰ x xs ↔ IsShownRun l z (z + extra) schedules x)

  -- The items of the two actions of a schedule, before those of the others.
  abbrev joined_items : Schedule → List ℕ → List ℕ → List Item → List Item
  joined_items sch ks ks' xs = (map (item sch "start") ks ++ map (item sch "stop") ks') ++ xs

  module _ (sch : Schedule) (rest : List Schedule) (ks ks' : List ℕ) (xs : List Item)
      (mem : (k : ℕ) → Memᴰ k ks ↔ RunsAt l z (z + extra) sch sch.actions.start k)
      (mem' : (k : ℕ) → Memᴰ k ks' ↔ RunsAt l z (z + extra) sch sch.actions.stop k)
      (mem_xs : (x : Item) → Memᴰ x xs ↔ IsShownRun l z (z + extra) rest x) where
    joined_items-IsShownRun :
        (x : Item) → Memᴰ x (joined_items sch ks ks' xs) → IsShownRun l z (z + extra) (sch ∷ rest) x
    joined_items-IsShownRun x m =
        elim (Memᴰ.append_cases (map (item sch "start") ks ++ map (item sch "stop") ks') m) [
          | inr m' ↦ let (among, h) = (mem_xs x).0 m' in (Memᴰ.tail among, h)
          | inl m' ↦ elim (Memᴰ.append_cases (map (item sch "start") ks) m') [
            | inl a ↦
                let (k, mk, e) = Memᴰ.of_map (item sch "start") ks a in
                subst (IsShownRun l z (z + extra) (sch ∷ rest)) e
                  (Memᴰ.head refl, inl (refl, (mem k).0 mk))
            | inr b ↦
                let (k, mk, e) = Memᴰ.of_map (item sch "stop") ks' b in
                subst (IsShownRun l z (z + extra) (sch ∷ rest)) e
                  (Memᴰ.head refl, inr (refl, (mem' k).0 mk))
          ]
        ]

    -- A run of one of the two actions.
    abbrev RunsBy : Schedule → String → ℕ → Type 0
    RunsBy s name k =
        ((name ≡ "start") × RunsAt l z (z + extra) s s.actions.start k)
        ⊎ ((name ≡ "stop") × RunsAt l z (z + extra) s s.actions.stop k)

    RunsBy-item :
        (name : String) (k : ℕ)
        → RunsBy sch name k
        → Memᴰ (item sch name k) (joined_items sch ks ks' xs)
    RunsBy-item name k (inl (e, h)) = Memᴰ.append_left xs (
        Memᴰ.append_left (map (item sch "stop") ks')
          (Memᴰ.cast (ap (λ n. item sch n k) e) (Memᴰ.map (item sch "start") ((mem k).1 h))))
    RunsBy-item name k (inr (e, h)) = Memᴰ.append_left xs (
        Memᴰ.append_right (map (item sch "start") ks)
          (Memᴰ.cast (ap (λ n. item sch n k) e) (Memᴰ.map (item sch "stop") ((mem' k).1 h))))

    IsShownRun-joined_items :
        (x : Item) → IsShownRun l z (z + extra) (sch ∷ rest) x → Memᴰ x (joined_items sch ks ks' xs)
    IsShownRun-joined_items (sch', name, k) (among, h) = elim (Memᴰ.cases_cons among) [
      | inl e ↦
          Memᴰ.cast (ap (λ s. item s name k) e)
            (RunsBy-item name k (subst (λ s. RunsBy s name k) e h))
      | inr m ↦
          Memᴰ.append_right (map (item sch "start") ks ++ map (item sch "stop") ks')
            ((mem_xs (item sch' name k)).1 (m, h))
    ]

  append_run-AllShown :
      (sch : Schedule) (rest : List Schedule) (r s t : Run (List Event))
      → Shown f parser fuel z start extra starts late enough sch "start" sch.actions.start r
      → Shown f parser fuel z start extra starts late enough sch "stop" sch.actions.stop s
      → AllShown rest t
      → AllShown (sch ∷ rest) (append_run (append_run r s) t)
  append_run-AllShown sch rest r s t (ks, made, mem) (ks', made', mem') (xs, others, mem_xs) =
      let starts_of = map (item sch "start") ks in
      let stops_of = map (item sch "stop") ks' in
      (
        joined_items sch ks ks' xs,
        append_run-Lists l (append_run r s) t (starts_of ++ stops_of) xs
            (append_run-Lists l r s starts_of stops_of made made') others,
        λ x. (
          joined_items-IsShownRun sch rest ks ks' xs mem mem' mem_xs x,
          IsShownRun-joined_items sch rest ks ks' xs mem mem' mem_xs x,
        ),
      )

  pub collect_events-AllShown :
      (schedules : List Schedule)
      → AllReadable schedules
      → AllShown schedules (
          collect_events parser fuel
            (on l start)
            (end_time f parser fuel z start extra starts late enough)
            l
            schedules)
  unfolding collect_events
  collect_events-AllShown [] readable =
      ([], refl, λ x. ((λ m. absurd (Memᴰ.not-nil m)), (λ (m, _). absurd (Memᴰ.not-nil m))))
  collect_events-AllShown (sch ∷ rest) ((begin, finish), others) =
      append_run-AllShown sch rest
        (action_events parser fuel sch "start" sch.actions.start (on l start)
          (end_time f parser fuel z start extra starts late enough) l)
        (action_events parser fuel sch "stop" sch.actions.stop (on l start)
          (end_time f parser fuel z start extra starts late enough) l)
        (collect_events parser fuel (on l start)
          (end_time f parser fuel z start extra starts late enough) l rest)
        (action_events-Shown f parser fuel z start extra starts late enough sch "start"
          sch.actions.start begin)
        (action_events-Shown f parser fuel z start extra starts late enough sch "stop"
          sch.actions.stop finish)
        (collect_events-AllShown rest others)
