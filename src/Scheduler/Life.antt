-- ===== src/Scheduler/Life.antt =====
-- internal/scheduler/scheduler.go: `New`, `Start` and `Stop`. `Start` returns when its context has
-- ended; errors of gocron's `Shutdown` are only logged.
use yc_sheduler.Prelude.{
  ℕ, zero, suc, ℤ, pos, negsuc, String, str_eq, not, if◌then◌else◌, Option, none, some, Result, ok,
  err, ◌>>=◌, external,
}
use yc_sheduler.GoTime.Instant.{Location}

-- What is asked of gocron besides its jobs: a new scheduler for a location, with a limit of jobs that
-- run at a time, if any.
abbrev pub NewScheduler : Type 0 → Type 0
NewScheduler G = Location → Option ℕ → Result G

-- `time.Local`, or the location of a name.
abbrev pub scheduler_location : Location → (String → Option Location) → String → Result Location
scheduler_location local load timezone =
    if not (str_eq timezone "")
    then elim (load timezone) [ some l ↦ ok l | none ↦ err (external timezone) ]
    else ok local

-- `WithLimitConcurrentJobs`, for a positive limit.
abbrev pub limit_of : ℤ → Option ℕ
limit_of (pos zero) = none
limit_of (pos (suc n)) = some (suc n)
limit_of (negsuc n) = none

unfoldable pub new_scheduler :
    {G : Type 0} → NewScheduler G → Location → (String → Option Location) → String → ℤ → Result G
new_scheduler create local load timezone max_concurrent_jobs = do
  l ← scheduler_location local load timezone
  create l (limit_of max_concurrent_jobs)
