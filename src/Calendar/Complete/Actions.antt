-- ===== src/Calendar/Complete/Actions.antt =====
-- The items of one action.
use mathlib.Core.List.{Memᴰ}
use mathlib.Core.List.Memᴰ
use yc_sheduler.Prelude.{
  ℕ, suc, ◌+◌, ◌*◌, ◌≤◌, ◌<◌, ◌==◌, ◌≡◌, ◌∙◌, ◌↔◌, inl, inr, refl, sym, ap, String, str_eq, Bool,
  true, false, if◌then◌else◌, pos, pos_part, Option, none, some, List, [], map, ok, arith,
  Bool-cases, ltb_ℤ, ◌||◌, ℤ, ok_injective,
}
use yc_sheduler.Config.{Schedule, ActionConfig}
use yc_sheduler.GoTime.Civil.{weekday_of_day, mday_of_day}
use yc_sheduler.GoTime.Instant.{Location, Time, second_ns, day_seconds, weekday, day}
use yc_sheduler.GoTime.Fixed.{IsFixed}
use yc_sheduler.Schedule.Clock.{Clock}
use yc_sheduler.Schedule.Clock.Formats.{parse_time_string-IsClock}
use yc_sheduler.Schedule.Last.{CronParser}
use yc_sheduler.Schedule.Last.AtClock.{seconds_of}
use yc_sheduler.Calendar.{Event, Run, expand_action, action_events}
use yc_sheduler.Calendar.Parse.{parse_clock}
use yc_sheduler.Calendar.Agreement.{parse_clock-agrees}
use yc_sheduler.Calendar.Chronology.Order.{Item, event_of}
use yc_sheduler.Calendar.Complete.{Kind, daily, weekly, monthly, IsReadable, runs_on, RunsAt}
use yc_sheduler.Calendar.Complete.Listed.{on, events_of, end_ns, IsOn, day_items}

abbrev pub item : Schedule → String → ℕ → Item
item sch name k = (sch, name, k)

-- A run that lists the events of some items.
abbrev pub Lists : Location → Run (List Event) → List Item → Type 0
Lists l r xs = r ≡ some (ok (map (event_of l) xs))

weekday_fits :
    (day : ℤ) (d : ℕ) → day ≡ pos d → d ≤ 6 → (ltb_ℤ day (pos 0) || ltb_ℤ (pos 6) day) ≡ false
weekday_fits day d e h = rw e (ground arith)

month_day_fits :
    (day : ℤ) (d : ℕ)
    → day ≡ pos d
    → 1 ≤ d
    → d ≤ 31
    → (ltb_ℤ day (pos 1) || ltb_ℤ (pos 31) day) ≡ false
month_day_fits day d e h h' = rw e (ground arith)

if-Lists-true :
    (l : Location) (b : Bool) (r : Run (List Event)) (xs : List Item)
    → b ≡ true
    → Lists l r xs
    → Lists l (if b then r else some (ok [])) xs
if-Lists-true l b r xs e h = rw e h

if-Lists-false :
    (l : Location) (b : Bool) (r : Run (List Event))
    → b ≡ false
    → Lists l (if b then r else some (ok [])) []
if-Lists-false l b r e = rw e refl

module _ {l : Location} (f : IsFixed l) (parser : CronParser) (fuel z start extra : ℕ)
    (starts : start + f.east * second_ns ≡ (z * day_seconds + f.west) * second_ns) (late : 2 ≤ z)
    (enough : suc extra < fuel) where
  abbrev pub end_time : Time
  end_time = on l (end_ns f fuel z start extra starts late enough)

  abbrev IsIn : Schedule → ActionConfig → Clock → ℕ → Type 0
  IsIn sch a c k = IsOn f fuel z start extra starts late enough (runs_on sch a) c k

  abbrev HasItems : Schedule → String → ActionConfig → Clock → Run (List Event) → Type 0
  HasItems sch name a c r =
      (ks : List ℕ) × Lists l r (map (item sch name) ks) × ((k : ℕ) → Memᴰ k ks ↔ IsIn sch a c k)

  expand_action-HasItems :
      (sch : Schedule) (name : String) (a : ActionConfig) (c : Clock)
      → Kind sch a
      → parse_clock a.time ≡ ok c
      → HasItems sch name a c (expand_action parser fuel sch name a (on l start) end_time l)
  unfolding expand_action weekday day
  expand_action-HasItems sch name a c (daily typ) read =
      let valid = parse_time_string-IsClock a.time c (parse_clock-agrees a.time c read) in
      let is_daily : str_eq sch.type "daily" ≡ true = ap (λ t. str_eq t "daily") typ in
      let (ks, made, mem) = day_items f fuel z start extra starts late enough (λ w. true) c valid in
      rw (is_daily, read, made) (ks, ap (λ es. some (ok es)) (events_of l sch name ks), mem)
  expand_action-HasItems sch name a c (weekly d typ day_is small) read =
      let valid = parse_time_string-IsClock a.time c (parse_clock-agrees a.time c read) in
      let not_daily : str_eq sch.type "daily" ≡ false = ap (λ t. str_eq t "daily") typ in
      let is_weekly : str_eq sch.type "weekly" ≡ true = ap (λ t. str_eq t "weekly") typ in
      let (ks, made, mem) =
        day_items f fuel z start extra starts late enough (λ w. weekday_of_day w == pos_part a.day)
          c valid in
      rw (not_daily, is_weekly, read, weekday_fits a.day d day_is small, made)
        (ks, ap (λ es. some (ok es)) (events_of l sch name ks), mem)
  expand_action-HasItems sch name a c (monthly d typ day_is big small) read =
      let valid = parse_time_string-IsClock a.time c (parse_clock-agrees a.time c read) in
      let not_daily : str_eq sch.type "daily" ≡ false = ap (λ t. str_eq t "daily") typ in
      let not_weekly : str_eq sch.type "weekly" ≡ false = ap (λ t. str_eq t "weekly") typ in
      let is_monthly : str_eq sch.type "monthly" ≡ true = ap (λ t. str_eq t "monthly") typ in
      let (ks, made, mem) =
        day_items f fuel z start extra starts late enough (λ w. mday_of_day w == pos_part a.day) c
          valid in
      rw (not_daily, not_weekly, is_monthly, read, month_day_fits a.day d day_is big small, made)
        (ks, ap (λ es. some (ok es)) (events_of l sch name ks), mem)

  -- Of an action that may be missing or not enabled.
  abbrev pub Shown : Schedule → String → Option ActionConfig → Run (List Event) → Type 0
  Shown sch name o r =
      (ks : List ℕ) × Lists l r (map (item sch name) ks)
      × ((k : ℕ) → Memᴰ k ks ↔ RunsAt l z (z + extra) sch o k)

  pub action_events-Shown :
      (sch : Schedule) (name : String) (o : Option ActionConfig)
      → IsReadable sch o
      → Shown sch name o (action_events parser fuel sch name o (on l start) end_time l)
  action_events-Shown sch name none readable =
      ([], refl, λ k. ((λ m. absurd (Memᴰ.not-nil m)), (λ h. absurd h)))
  action_events-Shown sch name (some a) readable = elim (Bool-cases a.enabled) [
    | inr off ↦ (
      [],
      if-Lists-false l a.enabled _ off,
      λ k. ((λ m. absurd (Memᴰ.not-nil m)), (λ h. let enabled = h.0 in absurd (cc))),
    )
    | inl enabled ↦
        let (kind, (c, read)) = readable enabled in
        let (ks, made, mem) = expand_action-HasItems sch name a c kind read in
        (
          ks,
          if-Lists-true l a.enabled _ (map (item sch name) ks) enabled made,
          λ k. (
            (λ m.
                let (shown, whole, from, to, wanted) = (mem k).0 m in
                (enabled, (c, read, shown), whole, from, to, wanted)),
            (λ (_, (c', read', shown), whole, from, to, wanted).
                let same = ap seconds_of (ok_injective c' c (sym read' ∙ read)) in
                (mem k).1 (shown ∙ same, whole, from, to, wanted)),
          ),
        )
  ]
