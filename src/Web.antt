-- ===== src/Web.antt =====
-- internal/web/calendar.go: the answer to a request for the calendar.
pub mod Statuses
pub mod Month
pub mod Server
pub mod Handlers
use yc_sheduler.Prelude.{
  ℕ, ◌+◌, ◌-◌, String, str_eq, Bool, true, false, if◌then◌else◌, Option, none, some, List, [], ◌∷◌,
  Result, ok, err, ◌>>=◌, pos, negsuc, Error, invalid_range, external, not, map,
}
use yc_sheduler.Config.{Bytes, Schedule}
use yc_sheduler.Scheduler.Definition.{is_empty}
use yc_sheduler.GoTime.Instant.{Location, Time, before, in_location, year, month, date, add_date}
use yc_sheduler.Schedule.Last.{CronParser}
use yc_sheduler.Calendar.{Event, Run, run_bind, events_in_range, format_date}
use yc_sheduler.App.Provider.{ResourceStatus, Map, State, find}
use yc_sheduler.App.Pages.{
  UiProvider, schedules, timezone, validation_interval, validation_resources, provided_statuses,
}
use yc_sheduler.Calendar.Title.{format_month_title}
use yc_sheduler.Validator.{TimeZones}

-- `loadLocation`
unfoldable pub load_location : TimeZones → String → Result Location
load_location zones timezone =
    if str_eq timezone ""
    then ok zones.local
    else elim (zones.load timezone) [ some l ↦ ok l | none ↦ err (external timezone) ]

-- The month of `now`.
unfoldable pub this_month : Time → Location → Time × Time
this_month now l =
    let t = in_location now l in
    let from = date (year t) (month t) (pos 1) 0 0 0 0 l in
    (from, add_date from (pos 0) (pos 1) (negsuc 0))

-- `parseCalendarRange`: `parse` is `time.ParseInLocation` of a date in the location.
unfoldable pub parse_calendar_range :
    (Bytes → Location → Result Time) → Bytes → Bytes → Time → Location → Result (Time × Time)
parse_calendar_range parse from_raw to_raw now l =
    if is_empty from_raw
    then if is_empty to_raw then ok (this_month now l) else err invalid_range
    else if is_empty to_raw
    then err invalid_range
    else (do
      from ← parse from_raw l
      to ← parse to_raw l
      if before to from then err invalid_range else ok (from, to))

-- One event of `mergeResourceStatuses`, given what the map has for it.
abbrev pub with_status : Event → Option ResourceStatus → Event
with_status e none = e
with_status e (some status) = record e {
  state = status.state;
  status_error = status.error;
  transitional = status.is_transitional;
}

abbrev pub merge_status : Map ResourceStatus → Event → Event
merge_status statuses e = with_status e (find e.resource_key statuses)

unfoldable pub merge_resource_statuses : List Event → Map ResourceStatus → List Event
merge_resource_statuses [] statuses = []
merge_resource_statuses (e ∷ es) statuses =
    merge_status statuses e ∷ merge_resource_statuses es statuses

-- The name of a location: that of the local one comes from the environment.
abbrev pub zone_name : String → String → String
zone_name local_name timezone = if str_eq timezone "" then local_name else timezone

-- The response, or the status code of an error.
pub record CalendarResponse : Type 0 where
  pub timezone : String
  pub validation_interval : Bytes
  pub from : Bytes
  pub to : Bytes
  pub title : Bytes
  pub events : List Event
  pub validation_resources : Bool

pub data Response : Type 0 where
  internal_error bad_request : Response
  success : CalendarResponse → Response

module _ {W : Type 0} (parser : CronParser) (zones : TimeZones) (local_name : String)
    (parse : Bytes → Location → Result Time) (fuel : ℕ) (provider : Option (UiProvider W)) where
  -- The answer with the events, after the statuses of their resources are there.
  unfoldable pub answer :
      Location → Time → Time → Time → State W → Result (List Event) → Response × State W
  answer l from to now s (err e) = (internal_error, s)
  answer l from to now s (ok events) =
      let (statuses, s') = provided_statuses provider now (schedules provider) s in
      (
        success (record {
          timezone = zone_name local_name (timezone provider);
          validation_interval = validation_interval provider;
          from = format_date from;
          to = format_date to;
          title = format_month_title (in_location from l);
          events = merge_resource_statuses events statuses;
          validation_resources = validation_resources provider;
        }),
        s',
      )

  -- After `EventsInRange`, if its loops end.
  abbrev pub with_events :
      Location → Time → Time → Time → State W → Run (List Event) → Option (Response × State W)
  with_events l from to now s none = none
  with_events l from to now s (some result) = some (answer l from to now s result)

  -- After `parseCalendarRange`.
  abbrev pub ranged : Location → Time → State W → Result (Time × Time) → Option (Response × State W)
  ranged l now s (err e) = some (bad_request, s)
  ranged l now s (ok (from, to)) =
      with_events l from to now s
        (events_in_range parser zones fuel (schedules provider) (timezone provider) from to)

  -- After `loadLocation`.
  abbrev pub located :
      Bytes → Bytes → Time → State W → Result Location → Option (Response × State W)
  located from_raw to_raw now s (err e) = some (internal_error, s)
  located from_raw to_raw now s (ok l) =
      ranged l now s (parse_calendar_range parse from_raw to_raw now l)

  -- `handleCalendar`
  unfoldable pub handle_calendar : Bytes → Bytes → Time → State W → Option (Response × State W)
  handle_calendar from_raw to_raw now s =
      located from_raw to_raw now s (load_location zones (timezone provider))
