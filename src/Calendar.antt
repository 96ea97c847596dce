-- ===== src/Calendar.antt =====
-- internal/calendar/calendar.go: the events of the calendar. An event keeps its formatted time, date
-- and clock as bytes. A loop runs on fuel, and without enough of it there is no result.
pub mod Parse
pub mod Days
pub mod Cron
pub mod Keys
pub mod Agreement
pub mod Texts
pub mod Latest
pub mod Sorted
pub mod Title
pub mod Chronology
pub mod Complete
use yc_sheduler.Config.Files.{bytes_lt}
use yc_sheduler.Validator.{TimeZones}
use yc_sheduler.Prelude.{
  ℕ, zero, suc, ◌+◌, ◌-◌, ◌*◌, ◌/◌, ◌%◌, ◌==◌, ltb, ltb_ℤ, ℤ, pos, negsuc, if◌then◌else◌, String,
  str_eq, joined, Bool, true, false, not, ◌||◌, ◌&&◌, Option, none, some, List, [], ◌∷◌, ◌++◌, map,
  Result, ok, err, ◌>>=◌, missing_crontab, invalid_weekday, invalid_month_day, unknown_type,
  invalid_range, compare, Ordering, Error, external, pos_part,
}
use Prim.Native.String.{compare as compare_text}
use yc_sheduler.Config.{Bytes, Resource, Schedule, ActionConfig}
use yc_sheduler.GoTime.Instant.{
  Location, Time, second_ns, before, in_location, year, month, day, weekday, hour, minute, second,
  date, add_date,
}
use yc_sheduler.Schedule.Clock.Formats.{two}
use yc_sheduler.Schedule.Last.{CronParser, CronSchedule, parse_cron, at_clock}
use yc_sheduler.Schedule.Clock.{Clock}
use yc_sheduler.Calendar.Parse.{parse_clock}

pub record Event : Type 0 where
  pub schedule_name : String
  pub schedule_display_name : String
  pub resource_type : String
  pub resource_id : String
  pub folder_id : String
  pub resource_key : String
  pub action : String
  pub time : Bytes
  pub local_date : Bytes
  pub local_time : Bytes
  pub state : String
  pub status_error : String
  pub transitional : Bool

-- `t.Format("2006-01-02")`, for years of four digits.
unfoldable pub format_date : Time → Bytes
format_date t =
    two (year t / 100) (two (year t % 100) (b'-' ∷ two (month t) (b'-' ∷ two (day t) [])))

-- `t.Format("15:04:05")`
unfoldable pub format_clock : Time → Bytes
format_clock t = two (hour t) (b':' ∷ two (minute t) (b':' ∷ two (second t) []))

-- The offset from UTC in minutes, behind its sign.
abbrev pub offset : ℕ → ℕ → Bytes
offset sign minutes = sign ∷ two (minutes / 60) (b':' ∷ two (minutes % 60) [])

-- `Z07:00` of a zone that is `ahead - behind` seconds from UTC: the sign is that of the whole minutes.
abbrev pub zone_text : ℕ → ℕ → Bytes
zone_text ahead behind =
    if ahead == behind
    then b'Z' ∷ []
    else if ltb 59 (behind - ahead)
    then offset b'-' ((behind - ahead) / 60)
    else offset b'+' ((ahead - behind) / 60)

-- `t.Format(time.RFC3339)`
unfoldable pub format_rfc3339 : Time → Bytes
format_rfc3339 t =
    let z = t.loc.zone (t.ns / second_ns) in
    format_date t ++ b'T' ∷ format_clock t ++ zone_text z.ahead z.behind

unfoldable pub resource_key : Resource → String
resource_key r = joined (r.type ∷ ":" ∷ r.folder_id ∷ ":" ∷ r.id ∷ [])

unfoldable pub schedule_display_name : Schedule → String
schedule_display_name sch = if not (str_eq sch.display_name "") then sch.display_name else sch.name

unfoldable pub new_event : Schedule → String → Time → Event
new_event sch action_name t = record {
  schedule_name = sch.name;
  schedule_display_name = schedule_display_name sch;
  resource_type = sch.resource.type;
  resource_id = sch.resource.id;
  folder_id = sch.resource.folder_id;
  resource_key = resource_key sch.resource;
  action = action_name;
  time = format_rfc3339 t;
  local_date = format_date t;
  local_time = format_clock t;
  state = "";
  status_error = "";
  transitional = false;
}

unfoldable pub date_only : Time → Time
date_only t = date (year t) (month t) (pos (day t)) 0 0 0 0 t.loc

abbrev pub next_day : Time → Time
next_day t = add_date t (pos 0) (pos 0) (pos 1)

-- The loop over the days of the range: the time of day `c` on each of them that is wanted.
unfoldable pub expand_days : (Time → Bool) → Clock → Location → Time → ℕ → Time → Option (List Time)
expand_days wanted c l end zero d = none
expand_days wanted c l end (suc fuel) d =
    let more = expand_days wanted c l end fuel (next_day d) in
    if before d end
    then elim more [
      | none ↦ none
      | some rest ↦
          some (if wanted d then at_clock (year d) (month d) (pos (day d)) c l ∷ rest else rest)
    ]
    else some []

-- The loop over the runs of a cron expression.
unfoldable pub expand_cron : CronSchedule → Location → Time → Time → ℕ → Time → Option (List Time)
expand_cron next l start end zero cursor = none
expand_cron next l start end (suc fuel) cursor =
    let t = next (in_location cursor l) in
    let more = expand_cron next l start end fuel t in
    if not (before t end) then some [] else elim more [
      | none ↦ none
      | some rest ↦ some (if not (before t start) then in_location t l ∷ rest else rest)
    ]

-- A result of a loop that may not have ended.
abbrev pub Run {ℓ} : Type ℓ → Type ℓ
Run A = Option (Result A)

abbrev pub run_bind : {A B : Type 0} → Result A → (A → Run B) → Run B
run_bind (ok a) f = f a
run_bind (err e) f = some (err e)

-- The events of a schedule's action, one for each time.
abbrev pub events_at : Schedule → String → Option (List Time) → Run (List Event)
events_at sch action_name none = none
events_at sch action_name (some times) = some (ok (map (new_event sch action_name) times))

-- The rest runs only if the test fails.
abbrev pub unless : {A : Type 0} → Bool → Error → Run A → Run A
unless b e r = if b then some (err e) else r

unfoldable pub expand_action :
    CronParser → ℕ → Schedule → String → ActionConfig → Time → Time → Location → Run (List Event)
expand_action parser fuel sch action_name action start end l =
    if str_eq sch.type "daily"
    then run_bind (parse_clock action.time)
        (λ c. events_at sch action_name (expand_days (λ d. true) c l end fuel start))
    else if str_eq sch.type "weekly"
    then run_bind (parse_clock action.time) (λ c.
      unless (ltb_ℤ action.day (pos 0) || ltb_ℤ (pos 6) action.day) invalid_weekday (
        events_at sch action_name
          (expand_days (λ d. weekday d == pos_part action.day) c l end fuel start)))
    else if str_eq sch.type "monthly"
    then run_bind (parse_clock action.time) (λ c.
      unless (ltb_ℤ action.day (pos 1) || ltb_ℤ (pos 31) action.day) invalid_month_day (
        events_at sch action_name
          (expand_days (λ d. day d == pos_part action.day) c l end fuel start)))
    else if str_eq sch.type "cron"
    then unless (str_eq action.crontab "") missing_crontab (
        run_bind (parse_cron parser action.crontab) (λ next. events_at sch action_name (
          expand_cron next l start end fuel
            (record { ns = start.ns - second_ns; loc = start.loc }))))
    else some (err unknown_type)

abbrev text_lt : String → String → Bool
text_lt s t = elim (compare_text s t) [ Ordering.lt ↦ true | _ ↦ false ]

-- The order of the events.
unfoldable pub less : Event → Event → Bool
less e f =
    if bytes_lt e.time f.time || bytes_lt f.time e.time
    then bytes_lt e.time f.time
    else if not (str_eq e.schedule_name f.schedule_name)
    then text_lt e.schedule_name f.schedule_name
    else text_lt e.action f.action

unfoldable pub insert_event : Event → List Event → List Event
insert_event e [] = e ∷ []
insert_event e (f ∷ fs) = let rest = insert_event e fs in if less f e then f ∷ rest else e ∷ f ∷ fs

-- `sort.Slice(events, less)`; it leaves the order of events that are equal in it open.
unfoldable pub sort_events : List Event → List Event
sort_events [] = []
sort_events (e ∷ es) = insert_event e (sort_events es)

abbrev pub append_run : Run (List Event) → Run (List Event) → Run (List Event)
append_run (some (ok es)) (some (ok fs)) = some (ok (es ++ fs))
append_run (some (ok es)) r = r
append_run r s = r

abbrev pub action_events :
    CronParser
    → ℕ
    → Schedule
    → String
    → Option ActionConfig
    → Time
    → Time
    → Location
    → Run (List Event)
action_events parser fuel sch name none start end l = some (ok [])
action_events parser fuel sch name (some a) start end l =
    if a.enabled then expand_action parser fuel sch name a start end l else some (ok [])

-- The loop over the schedules.
unfoldable pub collect_events :
    CronParser → ℕ → Time → Time → Location → List Schedule → Run (List Event)
collect_events parser fuel start end l [] = some (ok [])
collect_events parser fuel start end l (sch ∷ rest) =
    append_run
      (append_run (action_events parser fuel sch "start" sch.actions.start start end l)
        (action_events parser fuel sch "stop" sch.actions.stop start end l))
      (collect_events parser fuel start end l rest)

abbrev pub sorted : Run (List Event) → Run (List Event)
sorted (some (ok es)) = some (ok (sort_events es))
sorted r = r

-- The location of the calendar: unlike the validator's, it must load.
unfoldable pub calendar_location : TimeZones → String → Result Location
calendar_location zones timezone =
    if not (str_eq timezone "")
    then elim (zones.load timezone) [ some l ↦ ok l | none ↦ err (external timezone) ]
    else ok zones.local

unfoldable pub events_in_range :
    CronParser → TimeZones → ℕ → List Schedule → String → Time → Time → Run (List Event)
events_in_range parser zones fuel schedules timezone from to =
    run_bind (calendar_location zones timezone) (λ l.
      let start_date = date_only (in_location from l) in
      let end_date = date_only (in_location to l) in
      unless (before end_date start_date) invalid_range
        (sorted (collect_events parser fuel start_date (next_day end_date) l schedules)))
