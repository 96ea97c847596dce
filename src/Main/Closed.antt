-- ===== src/Main/Closed.antt =====
-- What the process leaves open when it ends.
use yc_sheduler.Prelude.{
  ◌≤◌, ◌≡◌, ◌⊎◌, inl, inr, refl, subst, String, str_eq, Bool, true, false, Option, none, some, [],
  ◌∷◌, Result, ok, err, Error, arith, Bool-cases,
}
use yc_sheduler.Config.{Config, is_validation_resources_enabled}
use yc_sheduler.Scheduler.Jobs.{Gocron}
use yc_sheduler.Scheduler.Life.{NewScheduler, new_scheduler}
use yc_sheduler.Validator.{TimeZones}
use yc_sheduler.App.Lifecycle.{
  create_client, check_credentials, close_client, Trace, Answers, attempt, reported, Application,
  Exit, exited, crashed, not_positive, new_app, run, shutdown,
}
use yc_sheduler.Main.{
  Flags, help, bad, parsed, run_application, with_credentials, with_client, with_config, main,
  deferred,
}
use yc_sheduler.Main.Still.{
  jobs_open, pages_open, closes, Begins, Begins-more, IsStill, AfterRun, run-AfterRun,
  shutdown-IsStill, with_scheduler-IsStill, with_scheduler-cfg,
}

module _ {G : Type 0} (cron : Gocron G) (create : NewScheduler G) (zones : TimeZones)
    (answers : Answers) where
  -- The client was created and its credentials accepted.
  abbrev pub IsAccepted : Type 0
  IsAccepted =
      (answers create_client [] ≡ none) × (answers check_credentials (create_client ∷ []) ≡ none)

  module _ (load : String → Result Config) where
    -- At a normal end: either nothing but the client and the check of its credentials was attempted,
    -- or these came first and succeeded, nothing is left running, and the client was closed. At a
    -- crash: the interval of the validation that was asked for is not positive.
    abbrev pub IsOrderly : Exit × Trace → Type 0
    IsOrderly (exited e, t) =
        ((t ≡ []) ⊎ ((t ≡ create_client ∷ []) ⊎ (t ≡ check_credentials ∷ create_client ∷ [])))
        ⊎ (IsAccepted × Begins t × (jobs_open t ≡ false) × (pages_open t ≡ false) × (1 ≤ closes t))
    IsOrderly (crashed, t) =
        IsAccepted
        × Begins t
        × ((path : String) × (cfg : Config) × (load path ≡ ok cfg)
            × (is_validation_resources_enabled cfg ≡ true)
            × (not_positive cfg.validation_interval ≡ true))

    -- After the application has ended, and before the client is closed.
    abbrev AfterApp : Config → Exit × Trace → Type 0
    AfterApp cfg (exited e, t) = IsStill t
    AfterApp cfg (crashed, t) =
        Begins t
        × (is_validation_resources_enabled cfg ≡ true)
        × (not_positive cfg.validation_interval ≡ true)

    shut_down-AfterApp :
        (a : Application G) (x : Exit × Trace)
        → AfterRun a.web_server a.cfg x
        → AfterApp a.cfg (
            deferred cron create zones answers load
              (λ t. (shutdown cron create zones answers a t).1)
              x)
    shut_down-AfterApp a (exited e, t) ready = shutdown-IsStill cron create zones answers a t ready
    shut_down-AfterApp a (crashed, t) h = h

    run_application-AfterApp :
        (cfg : Config) (r : Result (Application G)) (t : Trace)
        → IsStill t
        → ((a : Application G) → r ≡ ok a → a.cfg ≡ cfg)
        → AfterApp cfg (run_application cron create zones answers load (r, t))
    run_application-AfterApp cfg (err e) t still is = still
    run_application-AfterApp cfg (ok a) t still is =
        subst (λ c. AfterApp c (run_application cron create zones answers load (ok a, t)))
          (is a refl)
          (shut_down-AfterApp a (run cron create zones answers a t)
            (run-AfterRun cron create zones answers a t still))

    closed-IsOrderly :
        (path : String) (cfg : Config) (x : Exit × Trace)
        → load path ≡ ok cfg
        → IsAccepted
        → AfterApp cfg x
        → IsOrderly
            (deferred cron create zones answers load (λ t. (attempt answers close_client t).1) x)
    unfolding attempt
    closed-IsOrderly path cfg (exited e, t) loaded accepted (begins, jobs, pages) =
        inr (accepted, Begins-more close_client t begins, jobs, pages, omega arith)
    closed-IsOrderly path cfg (crashed, t) loaded accepted (begins, on, panics) =
        (accepted, begins, (path, cfg, loaded, on, panics))

    accepted-IsOrderly :
        (path : String) (cfg : Config) (dry : Bool)
        → load path ≡ ok cfg
        → IsAccepted
        → IsOrderly (
            with_credentials cron create zones answers load cfg dry
              (ok tt, check_credentials ∷ create_client ∷ []))
    unfolding new_app
    accepted-IsOrderly path cfg dry loaded accepted =
        let t = check_credentials ∷ create_client ∷ [] in
        let g = new_scheduler create zones.local zones.load cfg.timezone cfg.max_concurrent_jobs in
        closed-IsOrderly path cfg _ loaded accepted (
          run_application-AfterApp cfg _ _
            (with_scheduler-IsStill cron create zones answers cfg dry g t (([], refl), refl, refl))
            (λ a h. with_scheduler-cfg cron create zones answers cfg dry g t a h))

    checked-IsOrderly :
        (path : String) (cfg : Config) (dry : Bool) (o : Option Error)
        → load path ≡ ok cfg
        → answers create_client [] ≡ none
        → answers check_credentials (create_client ∷ []) ≡ o
        → IsOrderly (
            with_credentials cron create zones answers load cfg dry
              (reported o, check_credentials ∷ create_client ∷ []))
    checked-IsOrderly path cfg dry (some e) loaded created is = inl (inr (inr refl))
    checked-IsOrderly path cfg dry none loaded created is =
        accepted-IsOrderly path cfg dry loaded (created, is)

    created-IsOrderly :
        (path : String) (cfg : Config) (dry : Bool) (o : Option Error)
        → load path ≡ ok cfg
        → answers create_client [] ≡ o
        → IsOrderly
            (with_client cron create zones answers load cfg dry (reported o, create_client ∷ []))
    unfolding attempt
    created-IsOrderly path cfg dry (some e) loaded is = inl (inr (inl refl))
    created-IsOrderly path cfg dry none loaded is =
        checked-IsOrderly path cfg dry (answers check_credentials (create_client ∷ [])) loaded is
          refl

    loaded-IsOrderly :
        (path : String) (dry : Bool) (r : Result Config)
        → load path ≡ r
        → IsOrderly (with_config cron create zones answers load dry r [])
    unfolding attempt
    loaded-IsOrderly path dry (err e) is = inl (inl refl)
    loaded-IsOrderly path dry (ok cfg) is =
        created-IsOrderly path cfg dry (answers create_client []) is refl

    -- Whatever the flags, the configuration, and the answers of the outside: if the process ends
    -- without a crash, then it has attempted nothing but to create the client and to check its
    -- credentials, or both came first and succeeded, and in the end no jobs are run, no pages are
    -- served, and the client has been closed. It only crashes with a configuration that loads, that
    -- has the validation enabled, and whose interval of validation is not positive.
    pub main-IsOrderly : (flags : Flags) → IsOrderly (main cron create zones answers load flags)
    unfolding main
    main-IsOrderly help = inl (inl refl)
    main-IsOrderly (bad e) = inl (inl refl)
    main-IsOrderly (parsed opts) = elim (Bool-cases opts.version) [
      | inl shown ↦ rw shown (inl (inl refl))
      | inr on ↦ elim (Bool-cases (str_eq opts.config "")) [
        | inl none_given ↦ rw (on, none_given) (inl (inl refl))
        | inr given ↦
            rw (on, given) (loaded-IsOrderly opts.config opts.dry_run (load opts.config) refl)
      ]
    ]
