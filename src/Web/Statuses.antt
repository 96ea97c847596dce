-- ===== src/Web/Statuses.antt =====
-- The statuses of the resources in the answer to a request for the calendar.
use yc_sheduler.Prelude.{
  ℕ, String, true, Option, none, some, List, [], ◌∷◌, All, ◌≡◌, ◌∙◌, refl, Result, ok, err,
}
use yc_sheduler.Config.{Bytes}
use yc_sheduler.GoTime.Instant.{Location, Time}
use yc_sheduler.Resource.{StateChecker}
use yc_sheduler.Schedule.Last.{CronParser}
use yc_sheduler.Validator.{TimeZones}
use yc_sheduler.Calendar.{Event, Run, events_in_range}
use yc_sheduler.Calendar.Keys.{AllRun, AllRun-weaken, is_about, events_in_range-keys}
use yc_sheduler.App.Provider.{ResourceStatus, Map, find, is_some, State, resource_statuses-keys}
use yc_sheduler.App.Pages.{UiProvider, schedules, timezone, provided_statuses}
use yc_sheduler.Web.{
  Response, internal_error, bad_request, success, with_status, merge_resource_statuses,
  load_location, parse_calendar_range, answer, with_events, ranged, located, handle_calendar,
}

-- An event shows the status that a map has for its resource.
pub record Shows (statuses : Map ResourceStatus) (e : Event) : Type 0 where
  pub status : ResourceStatus
  pub found : find e.resource_key statuses ≡ some status
  pub state : e.state ≡ status.state
  pub error : e.status_error ≡ status.error
  pub transitional : e.transitional ≡ status.is_transitional

-- The answer without a body changes nothing; with one, it shows what the provider returned, in the
-- state that the provider has then.
abbrev pub IsShowing :
    {W : Type 0} → State W → Map ResourceStatus × State W → Option (Response × State W) → Type 0
IsShowing s provided none = Unit
IsShowing s provided (some (internal_error, s')) = s' ≡ s
IsShowing s provided (some (bad_request, s')) = s' ≡ s
IsShowing s (statuses, after) (some (success resp, s')) =
    (s' ≡ after) × All (Shows statuses) resp.events

with_status-Shows :
    (statuses : Map ResourceStatus) (e : Event) (found : Option ResourceStatus)
    → find e.resource_key statuses ≡ found
    → is_some found ≡ true
    → Shows statuses (with_status e found)
with_status-Shows statuses e none eq h = absurd (cc)
with_status-Shows statuses e (some status) eq h = record {
  status = status;
  found = eq;
  state = refl;
  error = refl;
  transitional = refl;
}

merged-Shows :
    (statuses : Map ResourceStatus) (es : List Event)
    → All (λ e. is_some (find e.resource_key statuses) ≡ true) es
    → All (Shows statuses) (merge_resource_statuses es statuses)
unfolding merge_resource_statuses
merged-Shows statuses [] h = tt
merged-Shows statuses (e ∷ es) (h, hs) = (
  with_status-Shows statuses e (find e.resource_key statuses) refl h,
  merged-Shows statuses es hs,
)

module _ {W : Type 0} (parser : CronParser) (zones : TimeZones) (local_name : String)
    (parse : Bytes → Location → Result Time) (fuel : ℕ) (p : UiProvider W)
    (checker : StateChecker W) (has : p.state_checker ≡ some checker) where
  events-status :
      (from to now : Time) (s : State W)
      → AllRun
          (λ e.
            is_some (find e.resource_key (provided_statuses (some p) now (schedules (some p)) s).0)
            ≡ true)
          (events_in_range parser zones fuel (schedules (some p)) (timezone (some p)) from to)
  events-status from to now s = rw has (
      AllRun-weaken (λ e. is_about (schedules (some p)) e.resource_key ≡ true) _
        (λ e h. resource_statuses-keys checker now (schedules (some p)) s e.resource_key ∙ h)
        (events_in_range parser zones fuel (schedules (some p)) (timezone (some p)) from to)
        (events_in_range-keys parser zones fuel (schedules (some p)) (timezone (some p)) from to))

  with_events-IsShowing :
      (l : Location) (from to now : Time) (s : State W) (r : Run (List Event))
      → AllRun
          (λ e.
            is_some (find e.resource_key (provided_statuses (some p) now (schedules (some p)) s).0)
            ≡ true)
          r
      → IsShowing s
          (provided_statuses (some p) now (schedules (some p)) s)
          (with_events parser zones local_name parse fuel (some p) l from to now s r)
  unfolding answer
  with_events-IsShowing l from to now s none h = tt
  with_events-IsShowing l from to now s (some (err e)) h = refl
  with_events-IsShowing l from to now s (some (ok es)) h = (refl, merged-Shows _ es h)

  ranged-IsShowing :
      (l : Location) (now : Time) (s : State W) (range : Result (Time × Time))
      → IsShowing s
          (provided_statuses (some p) now (schedules (some p)) s)
          (ranged parser zones local_name parse fuel (some p) l now s range)
  ranged-IsShowing l now s (err e) = refl
  ranged-IsShowing l now s (ok (from, to)) =
      with_events-IsShowing l from to now s
        (events_in_range parser zones fuel (schedules (some p)) (timezone (some p)) from to)
        (events-status from to now s)

  located-IsShowing :
      (from_raw to_raw : Bytes) (now : Time) (s : State W) (l : Result Location)
      → IsShowing s
          (provided_statuses (some p) now (schedules (some p)) s)
          (located parser zones local_name parse fuel (some p) from_raw to_raw now s l)
  located-IsShowing from_raw to_raw now s (err e) = refl
  located-IsShowing from_raw to_raw now s (ok l) =
      ranged-IsShowing l now s (parse_calendar_range parse from_raw to_raw now l)

  -- With a checker, however the calendar is asked for: an answer that is an error has asked no
  -- checker and left the cache as it was; otherwise the cache and the cloud are as the provider leaves
  -- them, and every event shows the status that the provider returned for its resource.
  pub handle_calendar-IsShowing :
      (from_raw to_raw : Bytes) (now : Time) (s : State W)
      → IsShowing s
          (provided_statuses (some p) now (schedules (some p)) s)
          (handle_calendar parser zones local_name parse fuel (some p) from_raw to_raw now s)
  unfolding handle_calendar
  handle_calendar-IsShowing from_raw to_raw now s =
      located-IsShowing from_raw to_raw now s (load_location zones (timezone (some p)))
