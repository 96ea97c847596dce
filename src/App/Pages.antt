-- ===== src/App/Pages.antt =====
-- internal/app/ui_provider.go: what the provider gives to the page. The receiver may be nil, and so may
-- the store and the checker that it holds.
use yc_sheduler.Prelude.{String, Bool, false, Option, none, some, List, []}
use yc_sheduler.Config.{Bytes, Schedule}
use yc_sheduler.GoTime.Instant.{Time}
use yc_sheduler.Resource.{StateChecker}
use yc_sheduler.App.{ScheduleStore}
use yc_sheduler.App.Provider.{ResourceStatus, Map, State, resource_statuses}

-- `UIProvider`, without the cache, which is passed on as a `State`.
pub record UiProvider (W : Type 0) : Type 0 where
  pub store : Option ScheduleStore
  pub state_checker : Option (StateChecker W)
  pub interval : Bytes
  pub resources : Bool

-- `ScheduleStore.Schedules`, and none without a store.
abbrev pub stored_schedules : Option ScheduleStore → List Schedule
stored_schedules none = []
stored_schedules (some store) = store.schedules

-- `ScheduleStore.Timezone`, and none without a store.
abbrev pub stored_timezone : Option ScheduleStore → String
stored_timezone none = ""
stored_timezone (some store) = store.timezone

module _ {W : Type 0} where
  -- `NewUIProvider`, with its empty cache.
  abbrev pub new_ui_provider :
      Option ScheduleStore → Option (StateChecker W) → Bytes → Bool → W → UiProvider W × State W
  new_ui_provider store checker interval resources w = (
    record { store = store; state_checker = checker; interval = interval; resources = resources },
    record { cache = []; world = w },
  )

  abbrev pub schedules : Option (UiProvider W) → List Schedule
  schedules none = []
  schedules (some p) = stored_schedules p.store

  abbrev pub timezone : Option (UiProvider W) → String
  timezone none = ""
  timezone (some p) = stored_timezone p.store

  abbrev pub validation_interval : Option (UiProvider W) → Bytes
  validation_interval none = []
  validation_interval (some p) = p.interval

  abbrev pub validation_resources : Option (UiProvider W) → Bool
  validation_resources none = false
  validation_resources (some p) = p.resources

  abbrev pub checked_statuses :
      Option (StateChecker W) → Time → List Schedule → State W → Map ResourceStatus × State W
  checked_statuses none now schedules s = ([], s)
  checked_statuses (some checker) now schedules s = resource_statuses checker now schedules s

  -- `ResourceStatuses`, with its test for a nil provider or checker.
  abbrev pub provided_statuses :
      Option (UiProvider W) → Time → List Schedule → State W → Map ResourceStatus × State W
  provided_statuses none now schedules s = ([], s)
  provided_statuses (some p) now schedules s = checked_statuses p.state_checker now schedules s
