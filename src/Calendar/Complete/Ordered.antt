-- ===== src/Calendar/Complete/Ordered.antt =====
-- The whole calendar of a range: all the runs, in order.
use mathlib.Core.List.{Memᴰ, Permᴰ}
use mathlib.Core.List.Permᴰ
use native.Mathlib.Decide.{dec_lt}
use yc_sheduler.Prelude.{
  ℕ, suc, ◌+◌, ◌*◌, ◌-◌, ◌/◌, ◌≤◌, ◌<◌, ◌≡◌, ◌∙◌, ◌↔◌, inl, inr, refl, ap, String, false, Option,
  none, some, List, [], ◌∷◌, map, All, ok, arith, subst, ltb, Error, invalid_range,
}
use yc_sheduler.Config.{Schedule, ActionConfig}
use yc_sheduler.GoTime.Civil.{month_start, month_of_day}
use yc_sheduler.GoTime.CivilLaws.{month_of_day_bounds, month_start_mono}
use yc_sheduler.GoTime.Instant.{
  Location, Time, second_ns, day_seconds, day_number, in_location, date, add_date, year, before,
}
use yc_sheduler.GoTime.Fixed.{IsFixed}
use yc_sheduler.Schedule.Clock.{Clock}
use yc_sheduler.Schedule.Last.{CronParser}
use yc_sheduler.Schedule.Last.AtClock.{day_ns, at_clock-same}
use yc_sheduler.Validator.{TimeZones}
use yc_sheduler.Calendar.{
  Event, Run, date_only, next_day, collect_events, sorted, calendar_location, events_in_range,
  unless,
}
use yc_sheduler.Calendar.Days.{next_day-Starts}
use yc_sheduler.Calendar.Chronology.{IsShown}
use yc_sheduler.Calendar.Chronology.Order.{
  Item, event_of, InOrder, IsShownItem, sort_events-InOrder,
}
use yc_sheduler.Calendar.Complete.{AllReadable, IsShownRun, RunsAt}
use yc_sheduler.Calendar.Complete.Listed.{on}
use yc_sheduler.Calendar.Complete.Joined.{collect_events-AllShown}

-- The first day of the year 10000.
abbrev pub year_10000 : ℕ
year_10000 = month_start 120000

year-lt : (z : ℕ) → z < year_10000 → month_of_day z / 12 < 10000
year-lt z h = elim (dec_lt (month_of_day z) 120000) [
  | yes small ↦ omega arith
  | no big ↦ absurd (
      omega (
        arith,
        month_start_mono 120000 (month_of_day z) (omega arith) (omega arith),
        month_of_day_bounds z,
      ))
]

abbrev midnight : Clock
midnight = record { hour = 0; minute = 0; second = 0 }

All-members : {A : Type 0} (P : A → Type 0) (xs : List A) → ((x : A) → Memᴰ x xs → P x) → All P xs
All-members P [] h = tt
All-members P (x ∷ xs) h = (h x (Memᴰ.head refl), All-members P xs (λ y m. h y (Memᴰ.tail m)))

members : {A : Type 0} {x : A} {xs ys : List A} → Permᴰ xs ys → Memᴰ x xs → Memᴰ x ys
members Permᴰ.nil m = m
members (Permᴰ.cons e p) (Memᴰ.head h) = Memᴰ.head (h ∙ e)
members (Permᴰ.cons e p) (Memᴰ.tail m) = Memᴰ.tail (members p m)
members (Permᴰ.swap e e') (Memᴰ.head h) = Memᴰ.tail (Memᴰ.head (h ∙ e))
members (Permᴰ.swap e e') (Memᴰ.tail (Memᴰ.head h)) = Memᴰ.head (h ∙ e')
members (Permᴰ.swap e e') (Memᴰ.tail (Memᴰ.tail m)) = Memᴰ.tail (Memᴰ.tail m)
members (Permᴰ.trans p q) m = members q (members p m)

module _ {l : Location} (f : IsFixed l) where
  abbrev Begins : ℕ → ℕ → Type 0
  Begins z n = n + f.east * second_ns ≡ (z * day_seconds + f.west) * second_ns

  date_only-Begins :
      (k : ℕ)
      → 1 ≤ day_number (on l k)
      → Begins (day_number (on l k)) (date_only (on l k)).ns
        × (date_only (on l k) ≡ on l (date_only (on l k)).ns)
  unfolding date_only date
  date_only-Begins k late =
      (omega (arith, at_clock-same f midnight (omega arith) (on l k) late), refl)

  next_day-on : (n : ℕ) → next_day (on l n) ≡ on l (next_day (on l n)).ns
  unfolding add_date date
  next_day-on n = refl

  RunsAt-IsShown :
      (first last : ℕ) (sch : Schedule) (o : Option ActionConfig) (k : ℕ)
      → 2 ≤ first
      → last < year_10000
      → RunsAt l first last sch o k
      → IsShown f k
  unfolding year
  RunsAt-IsShown first last sch none k late early h = absurd h
  RunsAt-IsShown first last sch (some a) k late early (_, _, whole, from, to, _) =
      (whole, omega arith, year-lt (day_number (on l k)) (omega arith))

  IsShownRun-IsShown :
      (first last : ℕ) (schedules : List Schedule) (x : Item)
      → 2 ≤ first
      → last < year_10000
      → IsShownRun l first last schedules x
      → IsShownItem f x
  IsShownRun-IsShown first last schedules (sch, name, k) late early (m, h) = elim h [
    | inl (_, at) ↦ RunsAt-IsShown first last sch sch.actions.start k late early at
    | inr (_, at) ↦ RunsAt-IsShown first last sch sch.actions.stop k late early at
  ]

  -- The events of all the runs of a range, in order.
  abbrev pub IsComplete : ℕ → ℕ → List Schedule → Run (List Event) → Type 0
  IsComplete first last schedules r =
      (ys : List Item) × (r ≡ some (ok (map (event_of l) ys)))
      × InOrder ys
      × ((x : Item) → Memᴰ x ys ↔ IsShownRun l first last schedules x)

  sorted-IsComplete :
      (first last : ℕ) (schedules : List Schedule) (r : Run (List Event)) (xs : List Item)
      → 2 ≤ first
      → last < year_10000
      → r ≡ some (ok (map (event_of l) xs))
      → ((x : Item) → Memᴰ x xs ↔ IsShownRun l first last schedules x)
      → IsComplete first last schedules (sorted r)
  sorted-IsComplete first last schedules r xs late early made mem =
      let shown =
        All-members (IsShownItem f) xs
          (λ x m. IsShownRun-IsShown first last schedules x late early ((mem x).0 m)) in
      let (ys, in_order, same, ordered) = sort_events-InOrder f xs shown in
      (
        ys,
        rw made (ap (λ es. some (ok es)) in_order),
        ordered,
        λ x. ((λ m. (mem x).0 (members same m)), (λ h. members (Permᴰ.symm same) ((mem x).1 h))),
      )

  -- The range from the midnight of one day to that after another.
  collected-IsComplete :
      (parser : CronParser) (fuel first extra start finish : ℕ) (schedules : List Schedule)
      → AllReadable schedules
      → Begins first start
      → Begins (suc (first + extra)) finish
      → 2 ≤ first
      → first + extra < year_10000
      → suc extra < fuel
      → IsComplete first
          (first + extra)
          schedules
          (sorted (collect_events parser fuel (on l start) (on l finish) l schedules))
  collected-IsComplete parser fuel first extra start finish schedules readable begins ends late
        early enough =
      let (xs, made, mem) =
        collect_events-AllShown f parser fuel first start extra begins late enough schedules
          readable in
      let e : finish ≡ start + suc extra * day_ns = omega (arith, begins, ends) in
      rw e (
        sorted-IsComplete first (first + extra) schedules
          (collect_events parser fuel (on l start) (on l (start + suc extra * day_ns)) l schedules)
          xs late early made mem)

  unless-IsComplete :
      (parser : CronParser) (fuel first last : ℕ) (schedules : List Schedule) (from to : Time)
      (start end : ℕ) (e : Error)
      → from ≡ on l start
      → to ≡ on l end
      → ltb end start ≡ false
      → IsComplete first last schedules (
          sorted
            (collect_events parser fuel (on l start) (on l (next_day (on l end)).ns) l schedules))
      → IsComplete first last schedules (
          unless
            (before to from)
            e
            (sorted (collect_events parser fuel from (next_day to) l schedules)))
  unless-IsComplete parser fuel first last schedules from to start end e from_is to_is forward h =
      rw (from_is, to_is, forward, next_day-on end) h

  -- In a location with a fixed offset that the time zone names, for schedules whose enabled actions are
  -- daily, weekly on a day from 0 to 6 or monthly on a day from 1 to 31, at times that can be read; for
  -- days from day 2 of the calendar on and before the year 10000, with more fuel than days: the calendar
  -- lists the events of exactly the runs of these actions from the first day to the last, in an order in
  -- which no instant is before one that stands in front of it.
  pub events_in_range-IsComplete :
      (parser : CronParser) (zones : TimeZones) (fuel : ℕ) (schedules : List Schedule)
      (timezone : String) (from to : Time)
      → calendar_location zones timezone ≡ ok l
      → AllReadable schedules
      → let first = day_number (in_location from l) in
        let last = day_number (in_location to l) in
        2 ≤ first
        → first ≤ last
        → last < year_10000
        → suc (last - first) < fuel
        → IsComplete first last schedules
            (events_in_range parser zones fuel schedules timezone from to)
  unfolding events_in_range
  events_in_range-IsComplete parser zones fuel schedules timezone from to here readable late order
        early enough =
      let first = day_number (in_location from l) in
      let last = day_number (in_location to l) in
      let (begins, start_is) = date_only-Begins from.ns (omega arith) in
      let (begins', end_is) = date_only-Begins to.ns (omega arith) in
      let start = (date_only (in_location from l)).ns in
      let end = (date_only (in_location to l)).ns in
      let forward : ltb end start ≡ false = ground (arith, begins, begins') in
      let whole : first + (last - first) ≡ last = omega arith in
      let ends = next_day-Starts f midnight (omega arith) last end begins' (omega arith) in
      rw here (
        unless-IsComplete parser fuel first last schedules (date_only (in_location from l))
          (date_only (in_location to l)) start end invalid_range start_is end_is forward
          (subst
            (λ n. IsComplete first n schedules (
              sorted (
                collect_events parser fuel (on l start) (on l (next_day (on l end)).ns) l
                  schedules)))
            whole
            (collected-IsComplete parser fuel first (last - first) start (next_day (on l end)).ns
              schedules readable begins (omega (arith, ends, whole)) late (omega arith) enough)))
