-- ===== src/Main/Still.antt =====
-- What the application leaves running, at the end of each of its methods.
use yc_sheduler.Prelude.{
  ℕ, suc, ◌≡◌, inl, inr, refl, ap, ◌∙◌, Bool, true, false, Option, none, some, [], ◌∷◌, ◌++◌,
  Result, ok, err, Error, Bool-cases,
}
use yc_sheduler.Config.{Config, is_validation_resources_enabled}
use yc_sheduler.Scheduler.Jobs.{Gocron}
use yc_sheduler.Scheduler.Life.{NewScheduler}
use yc_sheduler.Scheduler.{register_schedules}
use yc_sheduler.Validator.{TimeZones}
use yc_sheduler.Web.Server.{Mux}
use yc_sheduler.App.Lifecycle.{
  Effect, create_client, check_credentials, listen, serve_pages, run_jobs, validate_every, watch,
  stop_pages, stop_jobs, close_client, Trace, Answers, attempt, Application, Exit, exited, crashed,
  not_positive, new_server, new_reloader, with_scheduler, registered, started_pages, run, shutdown,
  run_scheduler, stopped_pages, stopped_jobs, schedules_reload_interval,
}

-- Whether gocron runs jobs, and whether the pages are served, at the end of a trace.
abbrev pub jobs_open : Trace → Bool
jobs_open [] = false
jobs_open (e ∷ t) = elim e [ run_jobs ↦ true | stop_jobs ↦ false | _ ↦ jobs_open t ]

abbrev pub pages_open : Trace → Bool
pages_open [] = false
pages_open (e ∷ t) = elim e [ serve_pages ↦ true | stop_pages ↦ false | _ ↦ pages_open t ]

-- How often the client has been closed.
abbrev pub closes : Trace → ℕ
closes [] = 0
closes (e ∷ t) = elim e [ close_client ↦ suc (closes t) | _ ↦ closes t ]

-- The client was created and then its credentials checked, before all else.
abbrev pub Begins : Trace → Type 0
Begins t = (later : Trace) × (t ≡ later ++ check_credentials ∷ create_client ∷ [])

pub Begins-more : (e : Effect) (t : Trace) → Begins t → Begins (e ∷ t)
Begins-more e t (later, is) = (e ∷ later, ap (λ x. e ∷ x) is)

-- Nothing runs.
abbrev pub IsStill : Trace → Type 0
IsStill t = Begins t × (jobs_open t ≡ false) × (pages_open t ≡ false)

-- The pages are served at most if there is a server.
abbrev IsServable : Option Mux → Trace → Type 0
IsServable none t = pages_open t ≡ false
IsServable (some mux) t = Unit

still-IsServable : (web : Option Mux) (t : Trace) → pages_open t ≡ false → IsServable web t
still-IsServable none t h = h
still-IsServable (some mux) t h = tt

-- What `Run` leaves behind.
abbrev pub AfterRun : Option Mux → Config → Exit × Trace → Type 0
AfterRun web cfg (exited e, t) = Begins t × (jobs_open t ≡ false) × IsServable web t
AfterRun web cfg (crashed, t) =
    Begins t
    × (is_validation_resources_enabled cfg ≡ true)
    × (not_positive cfg.validation_interval ≡ true)

module _ {G : Type 0} (cron : Gocron G) (create : NewScheduler G) (zones : TimeZones)
    (answers : Answers) where
  -- Jobs are not run yet, and the pages may be served.
  abbrev pub IsReady : Option Mux → Trace → Type 0
  IsReady web t = Begins t × (jobs_open t ≡ false) × IsServable web t

  started_pages-IsReady :
      (web : Option Mux) (t : Trace)
      → IsStill t
      → IsReady web (started_pages cron create zones answers web t)
  started_pages-IsReady none t (begins, jobs, pages) = (begins, jobs, pages)
  started_pages-IsReady (some mux) t (begins, jobs, pages) =
      (Begins-more serve_pages t begins, jobs, tt)

  IsReady-more :
      (web : Option Mux) (t : Trace) (e : Effect)
      → jobs_open (e ∷ t) ≡ jobs_open t
      → pages_open (e ∷ t) ≡ pages_open t
      → IsReady web t
      → IsReady web (e ∷ t)
  IsReady-more none t e j p (begins, jobs, pages) = (Begins-more e t begins, j ∙ jobs, p ∙ pages)
  IsReady-more (some mux) t e j p (begins, jobs, pages) = (Begins-more e t begins, j ∙ jobs, tt)

  IsReady-run :
      (web : Option Mux) (t : Trace) → IsReady web t → IsReady web (stop_jobs ∷ run_jobs ∷ t)
  IsReady-run none t (begins, jobs, pages) =
      (Begins-more stop_jobs _ (Begins-more run_jobs t begins), refl, pages)
  IsReady-run (some mux) t (begins, jobs, pages) =
      (Begins-more stop_jobs _ (Begins-more run_jobs t begins), refl, tt)

  registered-AfterRun :
      (a : Application G) (g : Option G) (e : Option Error) (t : Trace)
      → IsStill t
      → AfterRun a.web_server a.cfg (registered cron create zones answers a (g, e) t)
  registered-AfterRun a g (some e) t (begins, jobs, pages) =
      (begins, jobs, still-IsServable a.web_server t pages)
  registered-AfterRun a g none t still =
      let ready = started_pages-IsReady a.web_server t still in
      elim (Bool-cases (is_validation_resources_enabled a.cfg)) [
        | inr off ↦ rw off (scheduled g _ ready)
        | inl on ↦ elim (Bool-cases (not_positive a.cfg.validation_interval)) [
          | inl panics ↦ rw (on, panics) (Begins-more _ _ ready.0, on, panics)
          | inr fine ↦
              rw (on, fine)
                (scheduled g _ (
                  IsReady-more a.web_server _ (validate_every a.cfg.validation_interval) refl refl
                    ready))
        ]
      ]
    where
      scheduled :
          (g : Option G) (t : Trace)
          → IsReady a.web_server t
          → AfterRun a.web_server a.cfg
              (run_scheduler cron create zones answers g (watch a.cfg.schedules_dir ∷ t))
      scheduled none t ready =
          IsReady-more a.web_server t (watch a.cfg.schedules_dir) refl refl ready
      scheduled (some g) t ready =
          IsReady-run a.web_server _
            (IsReady-more a.web_server t (watch a.cfg.schedules_dir) refl refl ready)

  pub run-AfterRun :
      (a : Application G) (t : Trace)
      → IsStill t
      → AfterRun a.web_server a.cfg (run cron create zones answers a t)
  unfolding run
  run-AfterRun a t still =
      registered-AfterRun a (register_schedules cron a.dry_run a.cfg.schedules a.scheduler).0
        (register_schedules cron a.dry_run a.cfg.schedules a.scheduler).1 t still

  stopped_pages-IsStill :
      (web : Option Mux) (t : Trace)
      → IsReady web t
      → IsStill (stopped_pages cron create zones answers web t).1
  unfolding attempt
  stopped_pages-IsStill none t ready = ready
  stopped_pages-IsStill (some mux) t (begins, jobs, pages) =
      (Begins-more stop_pages t begins, jobs, refl)

  stopped_jobs-IsStill :
      (g : Option G) (t : Trace) → IsStill t → IsStill (stopped_jobs cron create zones answers g t)
  stopped_jobs-IsStill none t still = still
  stopped_jobs-IsStill (some g) t (begins, jobs, pages) =
      (Begins-more stop_jobs t begins, refl, pages)

  pub close_client-IsStill : (t : Trace) → IsStill t → IsStill (attempt answers close_client t).1
  unfolding attempt
  close_client-IsStill t (begins, jobs, pages) = (Begins-more close_client t begins, jobs, pages)

  pub shutdown-IsStill :
      (a : Application G) (t : Trace)
      → IsReady a.web_server t
      → IsStill (shutdown cron create zones answers a t).1
  unfolding shutdown
  shutdown-IsStill a t ready =
      close_client-IsStill _
        (stopped_jobs-IsStill a.scheduler _ (stopped_pages-IsStill a.web_server t ready))

  -- A call that leaves nothing running.
  pub with_scheduler-IsStill :
      (cfg : Config) (dry : Bool) (g : Result G) (t : Trace)
      → IsStill t
      → IsStill (with_scheduler cron create zones answers cfg dry g t).1
  unfolding new_server attempt
  with_scheduler-IsStill cfg dry (err e) t still = still
  with_scheduler-IsStill cfg dry (ok g) t (begins, jobs, pages) =
      (Begins-more (listen cfg.metrics_port) t begins, jobs, pages)

  pub with_scheduler-cfg :
      (cfg : Config) (dry : Bool) (g : Result G) (t : Trace) (a : Application G)
      → (with_scheduler cron create zones answers cfg dry g t).0 ≡ ok a
      → a.cfg ≡ cfg
  unfolding new_server attempt
  with_scheduler-cfg cfg dry (err e) t a h = absurd (cc)
  with_scheduler-cfg cfg dry (ok g) t a h =
      made (new_reloader cfg.schedules_dir schedules_reload_interval) _ h
    where
      made :
          (r : Result (Unit {0})) (a' : Application G)
          → elim r as (λ x. Result (Application G)) [ err e ↦ err e | ok u ↦ ok a' ] ≡ ok a
          → a.cfg ≡ a'.cfg
      made (err e) a' h = absurd (cc)
      made (ok u) a' h = cc
