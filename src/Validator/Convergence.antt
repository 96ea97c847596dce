-- ===== src/Validator/Convergence.antt =====
-- A round of the validator, and the one-time jobs that it adds: what they come to once they have run.
use mathlib.Core.List.{append-nil, append_assoc}
use yc_sheduler.Prelude.{
  ◌≡◌, refl, sym, ap, ◌∙◌, String, str_eq, Bool, true, false, Option, none, some, List, [], ◌∷◌,
  ◌++◌, Result, ok, err, Error, All, All-of, Bool-cases, inl, inr,
}
use yc_sheduler.Config.{Resource, Schedule}
use yc_sheduler.GoTime.Instant.{Time}
use yc_sheduler.Schedule.Last.{CronParser}
use yc_sheduler.Resource.{StateChecker, Operator}
use yc_sheduler.Metrics.{Metrics, inc_validator_correction}
use yc_sheduler.Executor.Effects.{observed, CloudLaws}
use yc_sheduler.Scheduler.{new_job, add_one_time_job}
use yc_sheduler.Scheduler.Jobs.{Job, Gocron, GocronLaws}
use yc_sheduler.Validator.{
  TimeZones, State, correct, validate, validate_schedule, run_once, determine_expected_state,
  corrected,
}
use yc_sheduler.Validator.Corrections.{corrective_job}
use yc_sheduler.Validator.Answers.{determine_expected_state-IsExpectation}
use yc_sheduler.Validator.Settling.{
  AreApart, correction_of, corrections, run_jobs, IsSettled, IsCorrectable, corrections_settle,
}

abbrev pub expectation : CronParser → TimeZones → String → Time → Schedule → String × String
expectation parser zones timezone now sch = determine_expected_state parser zones timezone sch now

module _ {W G : Type 0} (checker : StateChecker W) (operator : Operator W) (cron : Gocron G)
    (cloud : CloudLaws checker operator) (laws : GocronLaws cron)
    (accepts : (g : G) (j : Job) → (g' : G) × (cron.new_job g j ≡ ok g')) where
  abbrev pub state : W → G → Metrics → State W G
  state w g m = record { world = w; scheduler = some g; metrics = some m }

  -- The jobs of `g`, then `added`; and `GetState` says the same of every resource.
  abbrev Adds : List Job → W → G → State W G → Type 0
  Adds added w g s =
      (w' : W) × (g' : G) × (m' : Metrics) × (s ≡ state w' g' m')
      × (cron.jobs g' ≡ cron.jobs g ++ added)
      × ((r : Resource) → observed checker r w' ≡ observed checker r w)

  validate-Adds :
      (sch : Schedule) (e : String × String) (says : Result (String × Bool)) (w : W) (g : G)
      (m : Metrics)
      → Adds (correction_of e says sch) w g (validate checker cron false sch e says (state w g m))
  unfolding validate correct corrected add_one_time_job new_job inc_validator_correction
  validate-Adds sch e (err x) w g m = (w, g, m, refl, sym (append-nil _), λ r. refl)
  validate-Adds sch e (ok (actual, true)) w g m = (w, g, m, refl, sym (append-nil _), λ r. refl)
  validate-Adds sch (want, action) (ok (actual, false)) w g m =
      elim (Bool-cases (str_eq action "")) [
        | inl idle ↦ rw idle (w, g, m, refl, sym (append-nil _), λ r. refl)
        | inr asks ↦ elim (Bool-cases (str_eq actual want)) [
          | inl there ↦ rw (asks, there) (w, g, m, refl, sym (append-nil _), λ r. refl)
          | inr away ↦
              rw (asks, away) (added (cron.new_job g (corrective_job false sch action)) refl)
        ]
      ]
    where
      answer_of : Result G → G × Option Error
      answer_of (ok g') = (g', none)
      answer_of (err e) = (g, some e)

      added :
          (r : Result G)
          → cron.new_job g (corrective_job false sch action) ≡ r
          → Adds (corrective_job false sch action ∷ []) w g (
              corrected checker cron sch action
                (some (answer_of r).0, (answer_of r).1)
                (state w g m))
      added (ok g') e = (w, g', _, refl, laws.jobs-new_job g g' _ e, λ r. refl)
      added (err x) e =
          let (g', fine) = accepts g (corrective_job false sch action) in
          let bad = sym e ∙ fine in absurd (cc)

  run_once-Adds :
      (parser : CronParser) (zones : TimeZones) (timezone : String) (now : Time)
      (says : Resource → Result (String × Bool)) (schedules : List Schedule) (w : W) (g : G)
      (m : Metrics)
      → ((r : Resource) → observed checker r w ≡ says r)
      → Adds
          (corrections (expectation parser zones timezone now) says schedules)
          w
          g
          (run_once checker cron parser zones timezone false now schedules (state w g m))
  unfolding run_once validate_schedule
  run_once-Adds parser zones timezone now says [] w g m same =
      (w, g, m, refl, sym (append-nil _), λ r. refl)
  run_once-Adds parser zones timezone now says (sch ∷ rest) w g m same =
      let e = determine_expected_state parser zones timezone sch now in
      let seen = (checker.get_state sch.resource w).1 in
      let (w1, g1, m1, is1, jobs1, look1) =
        validate-Adds sch e (observed checker sch.resource w) seen g m in
      let (w2, g2, m2, is2, jobs2, look2) =
        run_once-Adds parser zones timezone now says rest w1 g1 m1
          (λ r. look1 r ∙ cloud.looked sch.resource r w ∙ same r) in
      (
        w2,
        g2,
        m2,
        rw is1 is2,
        jobs2
            ∙ ap (λ l. l ++ later) jobs1
            ∙ append_assoc (cron.jobs g) (correction_of e (observed checker sch.resource w) sch)
                later
            ∙ ap (λ a. cron.jobs g ++ (correction_of e a sch ++ later)) (same sch.resource),
        λ r. look2 r ∙ look1 r ∙ cloud.looked sch.resource r w,
      )
    where
      later : List Job
      later = corrections (expectation parser zones timezone now) says rest

  -- A round, and then the jobs that it added, one after another, with no other job at work: the
  -- resources come to the states that the schedules asked for at the time of the round, and are not
  -- on their way to others. This is for a cloud and a gocron of the documented behaviour that accept
  -- every operation and job, with no dry run, for schedules that each ask for an action and are
  -- about different resources, whose states could be read and were not transitional ones.
  pub run_once-settles :
      (parser : CronParser) (zones : TimeZones) (timezone : String) (now : Time)
      (schedules : List Schedule) (w : W) (g : G) (m : Metrics)
      → let expected = expectation parser zones timezone now in
        AreApart schedules
        → All (IsCorrectable checker operator cloud expected (λ r. observed checker r w)) schedules
        → (w' : W) × (g' : G) × (m' : Metrics) × (added : List Job) × (run_once checker cron parser
              zones timezone false now schedules
              (state w g m)
            ≡ state w' g' m')
          × (cron.jobs g' ≡ cron.jobs g ++ added)
          × All
              (λ sch.
                IsSettled checker operator cloud expected
                  (expected sch).0
                  sch.resource
                  (run_jobs checker operator added
                    (record { locks = []; metrics = some m'; world = w' })).world)
              schedules
  run_once-settles parser zones timezone now schedules w g m apart known =
      let expected = expectation parser zones timezone now in
      let (w', g', m', is, jobs, look) =
        run_once-Adds parser zones timezone now (λ r. observed checker r w) schedules w g m
          (λ r. refl) in
      (
        w',
        g',
        m',
        corrections expected (λ r. observed checker r w) schedules,
        is,
        jobs,
        corrections_settle checker operator cloud expected
            (λ sch. determine_expected_state-IsExpectation parser zones timezone sch now)
            (λ r. observed checker r w) schedules
            (record { locks = []; metrics = some m'; world = w' }) apart refl known
            (All-of (λ sch. look sch.resource) schedules),
      )
