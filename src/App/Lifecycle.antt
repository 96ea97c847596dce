-- ===== src/App/Lifecycle.antt =====
-- internal/app/app.go and internal/web/server.go: how the parts are built, run and shut down, as the
-- sequence of what the process does to the outside. `Run` returns when its context has ended.
use yc_sheduler.Prelude.{
  zero, suc, ℤ, pos, negsuc, String, str_eq, Bool, true, false, if◌then◌else◌, Option, none, some,
  List, ◌∷◌, Result, ok, err, Error, empty_schedules_dir, invalid_interval,
}
use yc_sheduler.Config.{Config, is_validation_resources_enabled}
use yc_sheduler.Scheduler.Jobs.{Gocron}
use yc_sheduler.Scheduler.Life.{NewScheduler, new_scheduler}
use yc_sheduler.Scheduler.{register_schedules}
use yc_sheduler.Validator.{TimeZones}
use yc_sheduler.Resource.{Call}
use yc_sheduler.Web.Server.{Mux, new_mux}

-- What the process does to the outside, attempts included.
pub data Effect : Type 0 where
  create_client check_credentials : Effect
  listen : ℤ → Effect
  serve_pages run_jobs : Effect
  validate_every : ℤ → Effect
  watch : String → Effect
  stop_pages stop_jobs close_client : Effect

-- The latest comes first.
abbrev pub Trace : Type 0
Trace = List Effect

-- Whether the outside reports an error, which may depend on all that went before.
abbrev pub Answers : Type 0
Answers = Effect → Trace → Option Error

abbrev pub reported : Option Error → Result (Unit {0})
reported none = ok tt
reported (some e) = err e

unfoldable pub attempt : Answers → Effect → Call Trace (Unit {0})
attempt answers e t = (reported (answers e t), e ∷ t)

-- `app.App`, as far as its life is concerned: gocron, the pages of the server, if it listens, and
-- what `New` was given.
pub record Application (G : Type 0) : Type 0 where
  pub cfg : Config
  pub scheduler : Option G
  pub web_server : Option Mux
  pub dry_run : Bool

-- How a call ended; a panic in a goroutine ends the process.
pub data Exit : Type 0 where
  exited : Option Error → Exit
  crashed : Exit

abbrev pub schedules_reload_interval : ℤ
schedules_reload_interval = pos 10000000000

-- `interval <= 0`
abbrev pub not_positive : ℤ → Bool
not_positive (pos zero) = true
not_positive (pos (suc n)) = false
not_positive (negsuc n) = true

-- `reloader.New`, with a callback.
unfoldable pub new_reloader : String → ℤ → Result (Unit {0})
new_reloader schedules_dir interval =
    if str_eq schedules_dir ""
    then err empty_schedules_dir
    else if not_positive interval
    then err invalid_interval
    else ok tt

-- `web.NewServer`: the port may be taken.
unfoldable pub new_server : Answers → ℤ → Bool → Bool → Call Trace Mux
unfolding attempt
new_server answers port metrics_enabled has_provider t =
    let (listening, t') = attempt answers (listen port) t in
    (elim listening [ err e ↦ err e | ok _ ↦ ok (new_mux metrics_enabled has_provider) ], t')

-- `webSrv = nil` after an error.
abbrev pub server_or_none : Result Mux → Option Mux
server_or_none (err e) = none
server_or_none (ok mux) = some mux

-- The first error that is left, of two.
abbrev pub errors : Result (Unit {0}) → Result (Unit {0}) → Option Error
errors (err e) r = some e
errors (ok _) (err e) = some e
errors (ok _) (ok _) = none

module _ {G : Type 0} (cron : Gocron G) (create : NewScheduler G) (zones : TimeZones)
    (answers : Answers) where
  -- From the scheduler on. A server that cannot listen is left out.
  abbrev pub with_scheduler : Config → Bool → Result G → Call Trace (Application G)
  with_scheduler cfg dry_run (err e) t = (err e, t)
  with_scheduler cfg dry_run (ok g) t =
      let (server, t') = new_server answers cfg.metrics_port cfg.metrics_enabled cfg.ui_enabled t in
      let web_server = server_or_none server in
      (
        elim (new_reloader cfg.schedules_dir schedules_reload_interval) [
          | err e ↦ err e
          | ok _ ↦
              ok (record {
                cfg = cfg;
                scheduler = some g;
                web_server = web_server;
                dry_run = dry_run;
              })
        ],
        t',
      )

  -- `app.New`
  unfoldable pub new_app : Config → Bool → Call Trace (Application G)
  unfolding new_server new_reloader new_scheduler
  new_app cfg dry_run =
      with_scheduler cfg dry_run
        (new_scheduler create zones.local zones.load cfg.timezone cfg.max_concurrent_jobs)

  -- `Scheduler.Start` from its first effect until the context has ended.
  abbrev pub run_scheduler : Option G → Trace → Exit × Trace
  run_scheduler none t = (exited (some Error.not_initialized), t)
  run_scheduler (some g) t = (exited none, stop_jobs ∷ run_jobs ∷ t)

  abbrev pub started_pages : Option Mux → Trace → Trace
  started_pages none t = t
  started_pages (some mux) t = serve_pages ∷ t

  -- `Validator.Start`: the ticker panics if its interval is not positive.
  abbrev pub started_validation : Config → Trace → Bool × Trace
  started_validation cfg t =
      if is_validation_resources_enabled cfg
      then (not_positive cfg.validation_interval, validate_every cfg.validation_interval ∷ t)
      else (false, t)

  -- What follows the registration of the schedules.
  abbrev pub registered : Application G → Option G × Option Error → Trace → Exit × Trace
  registered a (g, some e) t = (exited (some e), t)
  registered a (g, none) t =
      let (panics, t') = started_validation a.cfg (started_pages a.web_server t) in
      if panics then (crashed, t') else run_scheduler g (watch a.cfg.schedules_dir ∷ t')

  -- `App.Run`
  unfoldable pub run : Application G → Trace → Exit × Trace
  unfolding register_schedules
  run a = registered a (register_schedules cron a.dry_run a.cfg.schedules a.scheduler)

  abbrev pub stopped_pages : Option Mux → Call Trace (Unit {0})
  stopped_pages none t = (ok tt, t)
  stopped_pages (some mux) t = attempt answers stop_pages t

  abbrev pub stopped_jobs : Option G → Trace → Trace
  stopped_jobs none t = t
  stopped_jobs (some g) t = stop_jobs ∷ t

  -- `App.Shutdown`, which does not stop at an error.
  unfoldable pub shutdown : Application G → Trace → Option Error × Trace
  unfolding attempt
  shutdown a t =
      let (pages, t1) = stopped_pages a.web_server t in
      let (client, t2) = attempt answers close_client (stopped_jobs a.scheduler t1) in
      (errors pages client, t2)
