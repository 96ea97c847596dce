-- ===== src/Main.antt =====
-- cmd/yc-scheduler/main.go and internal/signals: the process from its flags to its end. Deferred calls
-- run when `run` returns, the last one first; a crash leaves them out. The flags, what `config.Load`
-- returns, and what the outside answers are parameters.
pub mod Still
pub mod Closed
use yc_sheduler.Prelude.{
  String, str_eq, Bool, true, false, if◌then◌else◌, Option, none, some, List, [], ◌∷◌, Result, ok,
  err, Error, missing_config,
}
use yc_sheduler.Config.{Config}
use yc_sheduler.Scheduler.Jobs.{Gocron}
use yc_sheduler.Scheduler.Life.{NewScheduler}
use yc_sheduler.Validator.{TimeZones}
use yc_sheduler.App.Lifecycle.{
  Effect, create_client, check_credentials, close_client, Trace, Answers, attempt, Application,
  Exit, exited, crashed, new_app, run, shutdown,
}

-- The options that the flags and the environment give.
pub record Options : Type 0 where
  pub version : Bool
  pub config : String
  pub dry_run : Bool

-- What `flags.Parse` comes to.
pub data Flags : Type 0 where
  help : Flags
  bad : Error → Flags
  parsed : Options → Flags

module _ {G : Type 0} (cron : Gocron G) (create : NewScheduler G) (zones : TimeZones)
    (answers : Answers) (load : String → Result Config) where
  -- A deferred call, after the end of the rest.
  abbrev pub deferred : (Trace → Trace) → Exit × Trace → Exit × Trace
  deferred f (exited e, t) = (exited e, f t)
  deferred f (crashed, t) = (crashed, t)

  -- `signals.GracefulShutdown` of the client; an error is logged.
  abbrev graceful_shutdown : Trace → Trace
  graceful_shutdown t = (attempt answers close_client t).1

  abbrev shut_down : Application G → Trace → Trace
  shut_down a t = (shutdown cron create zones answers a t).1

  -- From the application on.
  abbrev pub run_application : Result (Application G) × Trace → Exit × Trace
  run_application (err e, t) = (exited (some e), t)
  run_application (ok a, t) = deferred (shut_down a) (run cron create zones answers a t)

  -- From the check of the credentials on.
  abbrev pub with_credentials : Config → Bool → Result (Unit {0}) × Trace → Exit × Trace
  with_credentials cfg dry_run (err e, t) = (exited (some e), t)
  with_credentials cfg dry_run (ok _, t) =
      deferred graceful_shutdown (run_application (new_app cron create zones answers cfg dry_run t))

  abbrev pub with_client : Config → Bool → Result (Unit {0}) × Trace → Exit × Trace
  with_client cfg dry_run (err e, t) = (exited (some e), t)
  with_client cfg dry_run (ok _, t) =
      with_credentials cfg dry_run (attempt answers check_credentials t)

  abbrev pub with_config : Bool → Result Config → Trace → Exit × Trace
  with_config dry_run (err e) t = (exited (some e), t)
  with_config dry_run (ok cfg) t = with_client cfg dry_run (attempt answers create_client t)

  -- `run`
  unfoldable pub main : Flags → Exit × Trace
  unfolding attempt shutdown run new_app
  main help = (exited none, [])
  main (bad e) = (exited (some e), [])
  main (parsed opts) =
      if opts.version
      then (exited none, [])
      else if str_eq opts.config ""
      then (exited (some missing_config), [])
      else with_config opts.dry_run (load opts.config) []
