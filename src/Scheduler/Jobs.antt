-- ===== src/Scheduler/Jobs.antt =====
-- What the program asks of gocron: definitions of jobs, jobs, and a scheduler of them.
use yc_sheduler.Prelude.{
  ℕ, ℤ, String, str_eq, Bool, false, ◌||◌, not, List, [], ◌∷◌, ◌++◌, Result, ok, ◌≡◌, keep,
}
use yc_sheduler.Config.{Schedule}
use yc_sheduler.Schedule.Clock.{Clock}

-- The call of gocron that makes the definition, with its arguments.
pub data JobDefinition : Type 0 where
  one_time_job : JobDefinition
  cron_job : String → Bool → JobDefinition
  daily_job : ℕ → Clock → JobDefinition
  weekly_job : ℕ → ℕ → Clock → JobDefinition
  monthly_job : ℕ → ℤ → Clock → JobDefinition

-- `executor.Make(stateChecker, operator, sch, action, dryRun, m)`, by what varies in the call.
pub record Task : Type 0 where
  pub schedule : Schedule
  pub action : String
  pub dry_run : Bool

pub record Job : Type 0 where
  pub definition : JobDefinition
  pub name : String
  pub tags : List String
  pub task : Task

abbrev pub tagged : String → List String → Bool
tagged tag [] = false
tagged tag (t ∷ ts) = str_eq t tag || tagged tag ts

pub record Gocron (G : Type 0) : Type 0 where
  pub new_job : G → Job → Result G
  pub remove_by_tags : G → String → G
  -- the jobs of a scheduler, in the order in which they were added
  pub jobs : G → List Job

-- The documented behaviour: `NewJob` adds the job, `RemoveByTags` removes the jobs with the tag.
pub record GocronLaws {G : Type 0} (cron : Gocron G) : Type 0 where
  pub jobs-new_job :
      (g g' : G) (j : Job) → cron.new_job g j ≡ ok g' → cron.jobs g' ≡ cron.jobs g ++ j ∷ []
  pub jobs-remove_by_tags :
      (g : G) (tag : String)
      → cron.jobs (cron.remove_by_tags g tag) ≡ keep (λ j. not (tagged tag j.tags)) (cron.jobs g)
