-- ===== src/Scheduler.antt =====
-- internal/scheduler/scheduler.go. gocron is not part of the repository: its scheduler is a
-- parameter, with the three of its operations that change or list jobs. A method runs under the
-- scheduler's mutex from its first effect to its last, so it is one step here.
pub mod Jobs
pub mod Definition
pub mod Registration
pub mod Life
use yc_sheduler.Prelude.{
  String, joined, Bool, Option, none, some, List, [], ◌∷◌, Result, ok, err, Error, not_initialized,
  if◌then◌else◌,
}
use yc_sheduler.Config.{ActionConfig, Schedule}
use Jobs.{JobDefinition, one_time_job, Job, Task, Gocron}
use Definition.{schedule_to_job_definition}

abbrev pub managed_schedule_tag : String
managed_schedule_tag = "managed_schedule"

-- The job that `addJobUnlocked` hands to gocron.
abbrev pub managed_job : JobDefinition → String → Task → Job
managed_job def name fn = record {
  definition = def;
  name = name;
  tags = managed_schedule_tag ∷ [];
  task = fn;
}

-- The name of the job for an action of a schedule, and its task.
abbrev pub job_name : Schedule → String → String
job_name sch action = joined (sch.name ∷ ":" ∷ action ∷ [])

abbrev pub task_of : Bool → Schedule → String → Task
task_of dry_run sch action = record { schedule = sch; action = action; dry_run = dry_run }

module _ {G : Type 0} (cron : Gocron G) where
  -- What a method leaves behind: the jobs that it added stay, also if it fails later on.
  abbrev pub Outcome : Type 0
  Outcome = G × Option Error

  -- `s.s.NewJob(…)`, which leaves gocron as it was if it fails.
  unfoldable pub new_job : G → Job → Outcome
  new_job g j = elim (cron.new_job g j) [ ok g' ↦ (g', none) | err e ↦ (g, some e) ]

  unfoldable pub add_job_unlocked : G → JobDefinition → String → Task → Outcome
  unfolding new_job
  add_job_unlocked g def name fn = new_job g (managed_job def name fn)

  -- The rest runs only if there was no error.
  abbrev pub and_then : Outcome → (G → Outcome) → Outcome
  and_then (g, none) k = k g
  and_then (g, some e) k = (g, some e)

  -- `if action != nil && action.Enabled { … }`
  unfoldable pub register_action : Bool → Schedule → String → Option ActionConfig → G → Outcome
  unfolding add_job_unlocked
  register_action dry_run sch name none g = (g, none)
  register_action dry_run sch name (some action) g =
      if action.enabled
      then elim (schedule_to_job_definition sch action) [
        | ok def ↦ add_job_unlocked g def (job_name sch name) (task_of dry_run sch name)
        | err e ↦ (g, some e)
      ]
      else (g, none)

  unfoldable pub register_schedule_unlocked : Bool → Schedule → G → Outcome
  unfolding register_action
  register_schedule_unlocked dry_run sch g =
      and_then (register_action dry_run sch "start" sch.actions.start g)
        (register_action dry_run sch "stop" sch.actions.stop)

  -- The loop of `RegisterSchedules` and of `ReplaceSchedules`.
  unfoldable pub register_all : Bool → List Schedule → G → Outcome
  unfolding register_schedule_unlocked
  register_all dry_run [] g = (g, none)
  register_all dry_run (sch ∷ rest) g =
      and_then (register_schedule_unlocked dry_run sch g) (register_all dry_run rest)

  -- A method on a scheduler that may be nil.
  abbrev initialized : (G → Outcome) → Option G → Option G × Option Error
  initialized f none = (none, some not_initialized)
  initialized f (some g) = let (g', e) = f g in (some g', e)

  unfoldable pub register_schedules : Bool → List Schedule → Option G → Option G × Option Error
  register_schedules dry_run schedules = initialized (register_all dry_run schedules)

  unfoldable pub replace_schedules : Bool → List Schedule → Option G → Option G × Option Error
  replace_schedules dry_run schedules =
      initialized λ g. register_all dry_run schedules (cron.remove_by_tags g managed_schedule_tag)

  unfoldable pub add_job : JobDefinition → String → Task → Option G → Option G × Option Error
  add_job def name fn = initialized λ g. add_job_unlocked g def name fn

  unfoldable pub add_one_time_job : String → Task → Option G → Option G × Option Error
  add_one_time_job name fn =
      initialized
        λ g. new_job g (record { definition = one_time_job; name = name; tags = []; task = fn })
