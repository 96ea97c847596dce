-- ===== src/App.antt =====
-- internal/app: what the parts share when schedules are loaded again, and the page's view of them.
pub mod Provider
pub mod Pages
pub mod Reload
pub mod Lifecycle
use yc_sheduler.Prelude.{String, Bool, Option, none, some, List, [], ◌∷◌, Result, ok, err, Error}
use yc_sheduler.Config.{Schedule}
use yc_sheduler.Scheduler.Jobs.{Gocron}
use yc_sheduler.Scheduler.{replace_schedules}

-- `ScheduleStore`: the schedules that the page shows. A slice is copied in and out.
pub record ScheduleStore : Type 0 where
  pub timezone : String
  pub schedules : List Schedule

unfoldable pub update : List Schedule → ScheduleStore → ScheduleStore
update schedules store = record store { schedules = schedules }

unfoldable pub new_schedule_store : String → List Schedule → ScheduleStore
unfolding update
new_schedule_store timezone schedules =
    update schedules (record { timezone = timezone; schedules = [] })

-- What a reload changes: gocron, the configuration, the validator and the store.
pub record App (G : Type 0) : Type 0 where
  pub scheduler : Option G
  pub cfg_schedules : List Schedule
  pub validator_schedules : List Schedule
  pub store : ScheduleStore

module _ {G : Type 0} (cron : Gocron G) where
  -- After `ReplaceSchedules`.
  abbrev pub replaced : List Schedule → Option G × Option Error → App G → App G × Option Error
  replaced schedules (g, some e) a = (record a { scheduler = g }, some e)
  replaced schedules (g, none) a = (
    record a {
      scheduler = g;
      cfg_schedules = schedules;
      validator_schedules = schedules;
      store = update schedules a.store;
    },
    none,
  )

  -- `reloadSchedules`, given what `LoadSchedules` returned.
  unfoldable pub reload_schedules : Bool → Result (List Schedule) → App G → App G × Option Error
  reload_schedules dry_run (err e) a = (a, some e)
  reload_schedules dry_run (ok schedules) a =
      replaced schedules (replace_schedules cron dry_run schedules a.scheduler) a
