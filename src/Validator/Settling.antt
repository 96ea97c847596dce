-- ===== src/Validator/Settling.antt =====
-- The one-time jobs that the validator adds for schedules, and the states they bring about.
use yc_sheduler.Prelude.{
  ◌≡◌, refl, ap, ◌∙◌, String, str_eq, Bool, true, false, ◌||◌, if◌then◌else◌, List, [], ◌∷◌, ◌++◌,
  Result, ok, err, All, All-weaken, Bool-cases, inl, inr, arith, eq_iff,
}
use yc_sheduler.Config.{Resource, Schedule}
use yc_sheduler.Resource.{StateChecker, Operator}
use yc_sheduler.Executor
use yc_sheduler.Executor.{make}
use yc_sheduler.Executor.Effects.{
  same_resource, observed, CloudLaws, IsOperable, job-apart, start-settles, stop-settles,
}
use yc_sheduler.Executor.Behaviour.{locks-make}
use yc_sheduler.Scheduler.Jobs.{Job}
use yc_sheduler.Validator.Corrections.{corrective_job}
use yc_sheduler.Validator.Answers.{IsExpectation}

same_resource_sym : (r r' : Resource) → same_resource r' r ≡ same_resource r r'
same_resource_sym r r' =
    ground
      (arith, eq_iff r.type r'.type, eq_iff r'.type r.type, eq_iff r.id r'.id, eq_iff r'.id r.id)

-- No two schedules are about one resource.
abbrev pub AreApart : List Schedule → Type 0
AreApart [] = Unit
AreApart (sch ∷ rest) =
    All (λ other. same_resource sch.resource other.resource ≡ false) rest × AreApart rest

-- The jobs that a round adds for a schedule, by what is expected and what `GetState` says.
abbrev pub correction_of : String × String → Result (String × Bool) → Schedule → List Job
correction_of expected (err e) sch = []
correction_of expected (ok (actual, true)) sch = []
correction_of (want, action) (ok (actual, false)) sch =
    if str_eq action "" || str_eq actual want then [] else corrective_job false sch action ∷ []

abbrev pub corrections :
    (Schedule → String × String) → (Resource → Result (String × Bool)) → List Schedule → List Job
corrections expected says [] = []
corrections expected says (sch ∷ rest) =
    correction_of (expected sch) (says sch.resource) sch ++ corrections expected says rest

module _ {W : Type 0} (checker : StateChecker W) (operator : Operator W) where
  -- The jobs, run one after another, each from its start to its end.
  abbrev pub run_jobs : List Job → Executor.State W → Executor.State W
  run_jobs [] s = s
  run_jobs (j ∷ js) s =
      run_jobs js (make checker operator j.task.schedule j.task.action j.task.dry_run s)

  run_jobs-append :
      (js ks : List Job) (s : Executor.State W)
      → run_jobs (js ++ ks) s ≡ run_jobs ks (run_jobs js s)
  run_jobs-append [] ks s = refl
  run_jobs-append (j ∷ js) ks s = run_jobs-append js ks _

  locks-run_jobs : (js : List Job) (s : Executor.State W) → (run_jobs js s).locks ≡ s.locks
  locks-run_jobs [] s = refl
  locks-run_jobs (j ∷ js) s =
      locks-run_jobs js _
      ∙ locks-make checker operator j.task.schedule j.task.action j.task.dry_run s

module _ {W : Type 0} (checker : StateChecker W) (operator : Operator W)
    (cloud : CloudLaws checker operator) (expected : Schedule → String × String) where
  correction_apart :
      (e : String × String) (says : Result (String × Bool)) (sch : Schedule) (r : Resource)
      (s : Executor.State W)
      → same_resource sch.resource r ≡ false
      → observed checker r (run_jobs checker operator (correction_of e says sch) s).world
        ≡ observed checker r s.world
  correction_apart e (err x) sch r s apart = refl
  correction_apart e (ok (actual, true)) sch r s apart = refl
  correction_apart (want, action) (ok (actual, false)) sch r s apart =
      elim (Bool-cases (str_eq action "" || str_eq actual want)) [
        | inl nothing ↦ rw nothing
        | inr some_job ↦ rw some_job (job-apart checker operator cloud sch action false r s apart)
      ]

  corrections_apart :
      (says : Resource → Result (String × Bool)) (schedules : List Schedule) (r : Resource)
      (s : Executor.State W)
      → All (λ sch. same_resource sch.resource r ≡ false) schedules
      → observed checker r (run_jobs checker operator (corrections expected says schedules) s).world
        ≡ observed checker r s.world
  corrections_apart says [] r s apart = refl
  corrections_apart says (sch ∷ rest) r s (here, apart) =
      rw
        (run_jobs-append checker operator (correction_of (expected sch) (says sch.resource) sch)
          (corrections expected says rest) s)
        (corrections_apart says rest r _ apart
          ∙ correction_apart (expected sch) (says sch.resource) sch r s here)

  -- The resource is in the wanted state, and not on its way to another one.
  abbrev pub IsSettled : String → Resource → W → Type 0
  IsSettled want r w = observed checker r w ≡ ok (want, false)

  correction_settles :
      (e : String × String) (actual : String) (sch : Schedule) (s : Executor.State W)
      → IsExpectation e
      → str_eq e.1 "" ≡ false
      → s.locks ≡ []
      → IsOperable operator sch.resource
      → observed checker sch.resource s.world ≡ ok (actual, false)
      → IsSettled e.0 sch.resource
          (run_jobs checker operator (correction_of e (ok (actual, false)) sch) s).world
  correction_settles (want, action) actual sch s is asks free accepts says =
      elim (Bool-cases (str_eq actual want)) [
        | inl there ↦
            rw (asks, there) (says ∙ ap (λ x. ok (x, false)) ((eq_iff actual want).0 there))
        | inr away ↦
            rw (asks, away)
              (elim is [
                | inl e ↦
                    rw (ap (λ p. p.1) e, ap (λ p. p.0) e)
                      (start-settles checker operator cloud sch actual s free accepts says
                        (rw (ap (λ p. p.0) e) at away))
                | inr (inl e) ↦
                    rw (ap (λ p. p.1) e, ap (λ p. p.0) e)
                      (stop-settles checker operator cloud sch actual s free accepts says
                        (rw (ap (λ p. p.0) e) at away))
                | inr (inr e) ↦ let bad = rw (ap (λ p. p.1) e) at asks in absurd (cc)
              ])
      ]

  -- What is known of a schedule before the round: an action is asked for, the operations succeed,
  -- and the state can be read and is not a transitional one.
  abbrev pub IsCorrectable : (Resource → Result (String × Bool)) → Schedule → Type 0
  IsCorrectable says sch =
      (str_eq (expected sch).1 "" ≡ false)
      × IsOperable operator sch.resource
      × ((actual : String) × (says sch.resource ≡ ok (actual, false)))

  pub corrections_settle :
      ((sch : Schedule) → IsExpectation (expected sch))
      → (says : Resource → Result (String × Bool)) (schedules : List Schedule)
        (s : Executor.State W)
      → AreApart schedules
      → s.locks ≡ []
      → All (IsCorrectable says) schedules
      → All (λ sch. observed checker sch.resource s.world ≡ says sch.resource) schedules
      → All
          (λ sch.
            IsSettled
              (expected sch).0
              sch.resource
              (run_jobs checker operator (corrections expected says schedules) s).world)
          schedules
  corrections_settle is says [] s apart free known same = tt
  corrections_settle is says (sch ∷ rest) s (apart, aparts) free
        ((asks, accepts, (actual, now)), known) (here, same) =
      (
        rw joined_run (
            corrections_apart says rest sch.resource _ (
              All-weaken _ _ (λ other e. same_resource_sym sch.resource other.resource ∙ e) rest
                apart)
            ∙ rw now (
                correction_settles (expected sch) actual sch s (is sch) asks free accepts
                  (here ∙ now))),
        All-weaken _ _ (λ other e. rw joined_run e) rest
            (corrections_settle is says rest _ aparts
              (locks-run_jobs checker operator
                  (correction_of (expected sch) (says sch.resource) sch) s
                ∙ free)
              known (still rest apart same)),
      )
    where
      joined_run :
          run_jobs checker operator (corrections expected says (sch ∷ rest)) s
          ≡ run_jobs checker operator
              (corrections expected says rest)
              (run_jobs checker operator (correction_of (expected sch) (says sch.resource) sch) s)
      joined_run =
          run_jobs-append checker operator (correction_of (expected sch) (says sch.resource) sch)
            (corrections expected says rest) s

      still :
          (others : List Schedule)
          → All (λ other. same_resource sch.resource other.resource ≡ false) others
          → All (λ other. observed checker other.resource s.world ≡ says other.resource) others
          → All
              (λ other.
                observed checker other.resource
                  (run_jobs checker operator
                    (correction_of (expected sch) (says sch.resource) sch)
                    s).world
                ≡ says other.resource)
              others
      still [] apart same = tt
      still (other ∷ others) (apart, aparts) (same, sames) = (
        correction_apart (expected sch) (says sch.resource) sch other.resource s apart ∙ same,
        still others aparts sames,
      )
