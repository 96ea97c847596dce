-- ===== src/Tests/Lifecycle.antt =====
-- Jobs that go on until they end, and a round of the validator with the jobs that it adds.
use yc_sheduler.Prelude.{
  ◌+◌, ◌≤◌, ◌≡◌, ◌⊎◌, refl, String, str_eq, str_eq_refl, true, false, ◌&&◌, if◌then◌else◌, none,
  some, List, [], ◌∷◌, ◌++◌, All, pos, ok,
}
use yc_sheduler.Config.{Resource, Schedule, is_enabled}
use yc_sheduler.GoTime.Instant.{second_ns}
use yc_sheduler.Schedule.Clock.Formats.{hh_mm}
use yc_sheduler.Resource.{StateChecker, Operator}
use yc_sheduler.Metrics.{Metrics, new}
use yc_sheduler.Executor.{try_lock}
use yc_sheduler.Executor.Effects.{CloudLaws}
use yc_sheduler.Executor.Interleaving.{
  Stage, waiting, working, job, System, Reach, begin, next, spawn, acquire,
}
use yc_sheduler.Executor.Progress.{remaining, Runs, rest, more, IsIdle, Advances, Runs-Idle}
use yc_sheduler.Scheduler.Jobs.{Job}
use yc_sheduler.Validator.{determine_expected_state, run_once}
use yc_sheduler.Validator.Settling.{run_jobs}
use yc_sheduler.Validator.Convergence.{run_once-settles}
use yc_sheduler.Tests.Fixtures.{zones, now, every, cron_of, action, schedule, gocron, gocron_laws}

abbrev one_job : List String → Stage → System
one_job locks stage = record { locks = locks; jobs = job "k" stage ∷ [] }

spawned : Reach (one_job [] waiting)
spawned = next begin (spawn "k" refl)

locked : Runs 1 (one_job [] waiting) (one_job ("k" ∷ []) working)
unfolding try_lock
locked = more {t = one_job ("k" ∷ []) working} (acquire "k" [] [] refl refl refl) refl rest

Runs-Idle_example :
    (1 + remaining (job "k" working ∷ []) ≤ remaining (job "k" waiting ∷ []))
    × (IsIdle (one_job ("k" ∷ []) working) ⊎ Advances (one_job ("k" ∷ []) working))
Runs-Idle_example = Runs-Idle spawned locked

-- A world that is the state of each resource, by its type and id.
abbrev World : Type 0
World = String → String → String

abbrev set : Resource → String → World → World
set r name w type id = if str_eq r.type type && str_eq r.id id then name else w type id

abbrev cloud_checker : StateChecker World
cloud_checker = record { get_state = λ r w. (ok (w r.type r.id, false), w) }

abbrev cloud_operator : Operator World
cloud_operator = record {
  start = λ r w. (ok tt, set r "running" w);
  stop = λ r w. (ok tt, set r "stopped" w);
}

cloud_laws : CloudLaws cloud_checker cloud_operator
cloud_laws = record {
  looked = λ r r' w. refl;
  starts = λ r w e. rw (str_eq_refl r.type, str_eq_refl r.id);
  stops = λ r w e. rw (str_eq_refl r.type, str_eq_refl r.id);
  apart_start = λ r r' w e. rw e;
  apart_stop = λ r r' w e. rw e;
}

abbrev all_stopped : World
all_stopped type id = "stopped"

abbrev starting : Schedule
starting = schedule "daily" (some (action (hh_mm 9 0) (pos 0) true)) none

asked :
    (determine_expected_state (cron_of (every second_ns)) zones "" starting now)
    ≡ ("running", "start")
unfolding determine_expected_state is_enabled
asked = refl

run_once-settles_example :
    (w' : World) × (g' : List Job) × (m' : Metrics) × (added : List Job) × (run_once cloud_checker
        gocron
        (cron_of (every second_ns))
        zones
        ""
        false
        now
        (starting ∷ [])
        (record { world = all_stopped; scheduler = some []; metrics = some new })
      ≡ record { world = w'; scheduler = some g'; metrics = some m' })
    × (g' ≡ [] ++ added)
    × All
        (λ sch.
          (cloud_checker.get_state sch.resource
            (run_jobs cloud_checker cloud_operator added
              (record { locks = []; metrics = some m'; world = w' })).world).0
          ≡ ok ((determine_expected_state (cron_of (every second_ns)) zones "" sch now).0, false))
        (starting ∷ [])
run_once-settles_example =
    run_once-settles cloud_checker cloud_operator gocron cloud_laws gocron_laws
      (λ g j. (g ++ j ∷ [], refl)) (cron_of (every second_ns)) zones "" now (starting ∷ [])
      all_stopped [] new (tt, tt) ((rw asked refl, (λ w. refl, λ w. refl), ("stopped", refl)), tt)
