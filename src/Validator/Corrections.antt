-- ===== src/Validator/Corrections.antt =====
-- What a round of the validator leaves behind.
use mathlib.Core.List.{append-nil, append_assoc, Memᴰ}
use yc_sheduler.Prelude.{
  ◌+◌, ◌≡◌, refl, sym, ap, ◌∙◌, String, str_eq, Bool, true, false, Option, none, some, List, [],
  ◌∷◌, ◌++◌, Result, ok, err, Error, length, length-append, All, All-append, All-weaken, arith,
  Bool-cases, inl, inr,
}
use yc_sheduler.Config.{Schedule}
use yc_sheduler.GoTime.Instant.{Time}
use yc_sheduler.Schedule.Last.{CronParser}
use yc_sheduler.Resource.{StateChecker}
use yc_sheduler.Metrics.{Metrics, inc_validator_correction}
use yc_sheduler.Scheduler.{new_job, add_one_time_job}
use yc_sheduler.Scheduler.Jobs.{Job, Gocron, GocronLaws, one_time_job}
use yc_sheduler.Validator.{
  TimeZones, State, corrective_name, corrective_task, correct, validate, validate_schedule,
  run_once, determine_expected_state, corrected,
}

-- The one-time job that does `action` for a schedule.
abbrev pub corrective_job : Bool → Schedule → String → Job
corrective_job dry_run sch action = record {
  definition = one_time_job;
  name = corrective_name sch action;
  tags = [];
  task = corrective_task dry_run sch action;
}

-- A schedule asks for an action, and the checker answers, at some time in the round, with a state that
-- is not on its way to another one and is not the one that is asked for.
abbrev pub Mismatches : {W : Type 0} → StateChecker W → Schedule → String × String → Type 0
Mismatches {W} checker sch expected =
    (str_eq expected.1 "" ≡ false)
    × ((w : W) × (actual : String) × ((checker.get_state sch.resource w).0 ≡ ok (actual, false))
        × (str_eq actual expected.0 ≡ false))

-- A job that corrects a mismatch.
abbrev pub Corrects :
    {W : Type 0} → StateChecker W → Bool → Schedule → String × String → Job → Type 0
Corrects checker dry sch expected j =
    (j ≡ corrective_job dry sch expected.1) × Mismatches checker sch expected

module _ {W G : Type 0} (checker : StateChecker W) (cron : Gocron G) (laws : GocronLaws cron) where
  abbrev state : W → G → Metrics → State W G
  state w g m = record { world = w; scheduler = some g; metrics = some m }

  -- The jobs of `g`, then jobs with the property, each of which the metric has counted.
  abbrev pub Grows : (Job → Type 0) → G → Metrics → State W G → Type 0
  Grows P g m s =
      (w' : W) × (g' : G) × (m' : Metrics) × (added : List Job) × (s ≡ state w' g' m')
      × (cron.jobs g' ≡ cron.jobs g ++ added)
      × All P added
      × (length m'.validator_corrections_total
          ≡ length added + length m.validator_corrections_total)

  same-Grows : (P : Job → Type 0) (w : W) (g : G) (m : Metrics) → Grows P g m (state w g m)
  same-Grows P w g m = (w, g, m, [], refl, sym (append-nil (cron.jobs g)), tt, omega arith)

  correct-Grows :
      (dry : Bool) (sch : Schedule) (expected : String × String) (actual : String) (w0 w : W)
      (g : G) (m : Metrics)
      → (checker.get_state sch.resource w0).0 ≡ ok (actual, false)
      → Grows
          (Corrects checker dry sch expected)
          g
          m
          (correct checker cron dry sch expected actual (state w g m))
  unfolding correct corrected add_one_time_job new_job inc_validator_correction
  correct-Grows dry sch (want, action) actual w0 w g m seen = elim (Bool-cases (str_eq action "")) [
    | inl idle ↦ rw idle (same-Grows _ w g m)
    | inr asks ↦ elim (Bool-cases (str_eq actual want)) [
      | inl agree ↦ rw (asks, agree) (same-Grows _ w g m)
      | inr differ ↦
          rw (asks, differ)
            (added asks differ (cron.new_job g (corrective_job dry sch action)) refl)
    ]
  ]
    where
      answer_of : Result G → G × Option Error
      answer_of (ok g') = (g', none)
      answer_of (err e) = (g, some e)

      added :
          str_eq action "" ≡ false
          → str_eq actual want ≡ false
          → (r : Result G) → cron.new_job g (corrective_job dry sch action) ≡ r
          → Grows (Corrects checker dry sch (want, action)) g m (
              corrected checker cron sch action
                (some (answer_of r).0, (answer_of r).1)
                (state w g m))
      added asks differ (ok g') e = (
        w,
        g',
        inc_validator_correction m sch.resource.type action,
        corrective_job dry sch action ∷ [],
        refl,
        laws.jobs-new_job g g' _ e,
        ((refl, (asks, (w0, actual, seen, differ))), tt),
        omega arith,
      )
      added asks differ (err x) e = same-Grows _ w g m

  validate_schedule-Grows :
      (parser : CronParser) (zones : TimeZones) (timezone : String) (dry : Bool) (now : Time)
      (sch : Schedule) (w : W) (g : G) (m : Metrics)
      → Grows
          (Corrects checker dry sch (determine_expected_state parser zones timezone sch now))
          g
          m
          (validate_schedule checker cron parser zones timezone dry now sch (state w g m))
  unfolding validate_schedule validate
  validate_schedule-Grows parser zones timezone dry now sch w g m =
      answered (checker.get_state sch.resource w).0 (checker.get_state sch.resource w).1 refl
    where
      answered :
          (r : Result (String × Bool)) (w' : W)
          → (checker.get_state sch.resource w).0 ≡ r
          → Grows
              (Corrects checker dry sch (determine_expected_state parser zones timezone sch now))
              g
              m
              (validate checker cron dry sch
                (determine_expected_state parser zones timezone sch now)
                r
                (state w' g m))
      answered (err e) w' seen = same-Grows _ w' g m
      answered (ok (actual, true)) w' seen = same-Grows _ w' g m
      answered (ok (actual, false)) w' seen = correct-Grows dry sch _ actual w w' g m seen

  -- A job for one of the schedules, doing what the schedule asks for at `now`.
  abbrev pub IsCorrection :
      CronParser → TimeZones → String → Bool → Time → List Schedule → Job → Type 0
  IsCorrection parser zones timezone dry now schedules j =
      (sch : Schedule) × Memᴰ sch schedules
      × Corrects checker dry sch (determine_expected_state parser zones timezone sch now) j

  -- With a scheduler, metrics and a gocron of the documented behaviour, a round only adds jobs:
  -- every job that was there stays in its place, each added job is a one-time job without the tag
  -- of the regular ones, for one of the schedules and for the action which that schedule asks for
  -- at the time of the round. Such a schedule does ask for an action, and the checker answered for
  -- its resource with a state that is not transitional and is not the one asked for. The metric of
  -- corrections grows by the number of the added jobs. The scheduler and the metrics stay in place.
  pub run_once-corrections :
      (parser : CronParser) (zones : TimeZones) (timezone : String) (dry : Bool) (now : Time)
      (schedules : List Schedule) (w : W) (g : G) (m : Metrics)
      → Grows
          (IsCorrection parser zones timezone dry now schedules)
          g
          m
          (run_once checker cron parser zones timezone dry now schedules (state w g m))
  unfolding run_once
  run_once-corrections parser zones timezone dry now [] w g m = same-Grows _ w g m
  run_once-corrections parser zones timezone dry now (sch ∷ rest) w g m =
      let (w1, g1, m1, first, is1, jobs1, all1, count1) =
        validate_schedule-Grows parser zones timezone dry now sch w g m in
      let (w2, g2, m2, more, is2, jobs2, all2, count2) =
        run_once-corrections parser zones timezone dry now rest w1 g1 m1 in
      (
        w2,
        g2,
        m2,
        first ++ more,
        rw is1 is2,
        jobs2 ∙ ap (λ l. l ++ more) jobs1 ∙ append_assoc (cron.jobs g) first more,
        All-append _ first more (All-weaken _ _ (λ j e. (sch, Memᴰ.head refl, e)) first all1)
            (All-weaken _ _ (λ j (s, here, e). (s, Memᴰ.tail here, e)) more all2),
        omega (arith, count1, count2, length-append first more),
      )
