-- ===== src/Calendar/Keys.antt =====
-- Which resources the events of a calendar are about.
use yc_sheduler.Prelude.{
  ℕ, String, str_eq, str_eq_refl, Bool, true, false, ◌||◌, if◌then◌else◌, Option, none, some, List,
  [], ◌∷◌, map, ◌≡◌, refl, Result, ok, err, Error, All, All-append, All-weaken, Bool-cases, inl,
  inr, arith,
}
use yc_sheduler.Config.{Schedule, ActionConfig}
use yc_sheduler.GoTime.Instant.{Location, Time}
use yc_sheduler.Schedule.Last.{CronParser}
use yc_sheduler.Validator.{TimeZones}
use yc_sheduler.Calendar.{
  Event, Run, run_bind, unless, events_at, new_event, expand_action, action_events, append_run,
  collect_events, sorted, insert_event, sort_events, events_in_range, resource_key, less,
}

-- Every event of a result, if there is one.
abbrev pub AllRun : (Event → Type 0) → Run (List Event) → Type 0
AllRun P none = Unit
AllRun P (some (err e)) = Unit
AllRun P (some (ok es)) = All P es

module _ (P : Event → Type 0) where
  if-AllRun :
      (b : Bool) (r r' : Run (List Event))
      → AllRun P r
      → AllRun P r'
      → AllRun P (if b then r else r')
  if-AllRun true r r' h h' = h
  if-AllRun false r r' h h' = h'

  run_bind-AllRun :
      {A : Type 0} (m : Result A) (f : A → Run (List Event))
      → ((a : A) → AllRun P (f a))
      → AllRun P (run_bind m f)
  run_bind-AllRun (ok a) f h = h a
  run_bind-AllRun (err e) f h = tt

  unless-AllRun :
      (b : Bool) (e : Error) (r : Run (List Event)) → AllRun P r → AllRun P (unless b e r)
  unless-AllRun true e r h = tt
  unless-AllRun false e r h = h

  events_at-AllRun :
      (sch : Schedule) (name : String)
      → ((t : Time) → P (new_event sch name t))
      → (o : Option (List Time)) → AllRun P (events_at sch name o)
  events_at-AllRun sch name h none = tt
  events_at-AllRun sch name h (some ts) = go ts
    where
      go : (ts : List Time) → All P (map (new_event sch name) ts)
      go [] = tt
      go (t ∷ ts) = (h t, go ts)

  expand_action-AllRun :
      (parser : CronParser) (fuel : ℕ) (sch : Schedule) (name : String) (a : ActionConfig)
      (start end : Time) (l : Location)
      → ((t : Time) → P (new_event sch name t))
      → AllRun P (expand_action parser fuel sch name a start end l)
  unfolding expand_action
  expand_action-AllRun parser fuel sch name a start end l h =
      search (if-AllRun, run_bind-AllRun, unless-AllRun, events_at-AllRun sch name h, tt) depth 16

  action_events-AllRun :
      (parser : CronParser) (fuel : ℕ) (sch : Schedule) (name : String) (o : Option ActionConfig)
      (start end : Time) (l : Location)
      → ((t : Time) → P (new_event sch name t))
      → AllRun P (action_events parser fuel sch name o start end l)
  action_events-AllRun parser fuel sch name none start end l h = tt
  action_events-AllRun parser fuel sch name (some a) start end l h =
      if-AllRun a.enabled (expand_action parser fuel sch name a start end l) (some (ok []))
        (expand_action-AllRun parser fuel sch name a start end l h) tt

  append_run-AllRun : (r s : Run (List Event)) → AllRun P r → AllRun P s → AllRun P (append_run r s)
  append_run-AllRun none s h h' = tt
  append_run-AllRun (some (err e)) s h h' = tt
  append_run-AllRun (some (ok es)) none h h' = tt
  append_run-AllRun (some (ok es)) (some (err e)) h h' = tt
  append_run-AllRun (some (ok es)) (some (ok fs)) h h' = All-append P es fs h h'

  insert_event-All : (e : Event) (es : List Event) → P e → All P es → All P (insert_event e es)
  unfolding insert_event
  insert_event-All e [] h hs = (h, tt)
  insert_event-All e (f ∷ fs) h hs = elim (Bool-cases (less f e)) [
    | inl before ↦ rw before (hs.0, insert_event-All e fs h hs.1)
    | inr here ↦ rw here (h, hs)
  ]

  sort_events-All : (es : List Event) → All P es → All P (sort_events es)
  unfolding sort_events
  sort_events-All [] hs = tt
  sort_events-All (e ∷ es) hs = insert_event-All e (sort_events es) hs.0 (sort_events-All es hs.1)

  sorted-AllRun : (r : Run (List Event)) → AllRun P r → AllRun P (sorted r)
  sorted-AllRun none h = tt
  sorted-AllRun (some (err e)) h = tt
  sorted-AllRun (some (ok es)) h = sort_events-All es h

-- Whether one of the schedules is about a resource of that key.
abbrev pub is_about : List Schedule → String → Bool
is_about [] key = false
is_about (sch ∷ rest) key = str_eq (resource_key sch.resource) key || is_about rest key

abbrev IsAbout : List Schedule → Event → Type 0
IsAbout schedules e = is_about schedules e.resource_key ≡ true

pub AllRun-weaken :
    (P Q : Event → Type 0)
    → ((e : Event) → P e → Q e)
    → (r : Run (List Event)) → AllRun P r
    → AllRun Q r
AllRun-weaken P Q f none h = tt
AllRun-weaken P Q f (some (err e)) h = tt
AllRun-weaken P Q f (some (ok es)) h = All-weaken P Q f es h

collect_events-AllRun :
    (parser : CronParser) (fuel : ℕ) (start end : Time) (l : Location) (schedules : List Schedule)
    → AllRun (IsAbout schedules) (collect_events parser fuel start end l schedules)
unfolding collect_events new_event
collect_events-AllRun parser fuel start end l [] = tt
collect_events-AllRun parser fuel start end l (sch ∷ rest) =
    let begin = action_events parser fuel sch "start" sch.actions.start start end l in
    let finish = action_events parser fuel sch "stop" sch.actions.stop start end l in
    let others = collect_events parser fuel start end l rest in
    append_run-AllRun (IsAbout (sch ∷ rest)) (append_run begin finish) others
      (append_run-AllRun (IsAbout (sch ∷ rest)) begin finish
        (action_events-AllRun (IsAbout (sch ∷ rest)) parser fuel sch "start" sch.actions.start start
          end l own)
        (action_events-AllRun (IsAbout (sch ∷ rest)) parser fuel sch "stop" sch.actions.stop start
          end l own))
      (AllRun-weaken (IsAbout rest) (IsAbout (sch ∷ rest)) (λ e h. ground arith) others
        (collect_events-AllRun parser fuel start end l rest))
  where
    own :
        (t : Time)
        → (str_eq (resource_key sch.resource) (resource_key sch.resource)
            || is_about rest (resource_key sch.resource))
          ≡ true
    own t = rw (str_eq_refl (resource_key sch.resource)) refl

-- Every event of the calendar is about a resource of one of the schedules.
pub events_in_range-keys :
    (parser : CronParser) (zones : TimeZones) (fuel : ℕ) (schedules : List Schedule)
    (timezone : String) (from to : Time)
    → AllRun
        (λ e. is_about schedules e.resource_key ≡ true)
        (events_in_range parser zones fuel schedules timezone from to)
unfolding events_in_range
events_in_range-keys parser zones fuel schedules timezone from to = search (
  run_bind-AllRun (IsAbout schedules),
  unless-AllRun (IsAbout schedules),
  sorted-AllRun (IsAbout schedules),
  collect_events-AllRun,
)
