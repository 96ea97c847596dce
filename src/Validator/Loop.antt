-- ===== src/Validator/Loop.antt =====
-- internal/validator/validator.go: `New`, `UpdateSchedules` and `Start`. A round works on a snapshot of
-- the schedules, so an update in its course is one after it.
use mathlib.Core.List.{append-nil, append_assoc}
use yc_sheduler.Prelude.{
  ◌≡◌, refl, sym, ap, ◌∙◌, String, Bool, List, [], ◌∷◌, ◌++◌, some, All-append, All-weaken,
  length-append, arith,
}
use yc_sheduler.Config.{Schedule}
use yc_sheduler.GoTime.Instant.{Time}
use yc_sheduler.Schedule.Last.{CronParser}
use yc_sheduler.Resource.{StateChecker}
use yc_sheduler.Metrics.{Metrics}
use yc_sheduler.Scheduler.Jobs.{Job, one_time_job, Gocron, GocronLaws}
use yc_sheduler.Validator.{TimeZones, State, run_once}
use yc_sheduler.Validator.Corrections.{Grows, run_once-corrections}

-- The schedules of the validation loop, and what it acts on.
pub record Validator (W G : Type 0) : Type 0 where
  pub schedules : List Schedule
  pub state : State W G

-- What happens to a validator: its ticker fires, its schedules are replaced, its context ends.
pub data LoopEvent : Type 0 where
  ticker_fired : Time → LoopEvent
  updated : List Schedule → LoopEvent
  done : LoopEvent

module _ {W G : Type 0} where
  unfoldable pub new_validator : List Schedule → State W G → Validator W G
  new_validator schedules s = record { schedules = schedules; state = s }

  unfoldable pub update_schedules : List Schedule → Validator W G → Validator W G
  update_schedules schedules v = record v { schedules = schedules }

module _ {W G : Type 0} (checker : StateChecker W) (cron : Gocron G) (parser : CronParser)
    (zones : TimeZones) (timezone : String) (dry_run : Bool) where
  -- `Start`, until its context ends.
  unfoldable pub start : List LoopEvent → Validator W G → Validator W G
  unfolding update_schedules
  start [] v = v
  start (done ∷ events) v = v
  start (updated schedules ∷ events) v = start events (update_schedules schedules v)
  start (ticker_fired now ∷ events) v = start events (record v {
    state = run_once checker cron parser zones timezone dry_run now v.schedules v.state;
  })

  module _ (laws : GocronLaws cron) where
    -- A job that runs once and is not a regular one.
    abbrev IsOneTime : Job → Type 0
    IsOneTime j = (j.definition ≡ one_time_job) × (j.tags ≡ [])

    -- Whatever happens to a validator: it only adds one-time jobs, and the metric counts each.
    pub start-Grows :
        (events : List LoopEvent) (schedules : List Schedule) (w : W) (g : G) (m : Metrics)
        → Grows checker cron laws IsOneTime g m
            (start events (record {
              schedules = schedules;
              state = record { world = w; scheduler = some g; metrics = some m };
            })).state
    unfolding start update_schedules
    start-Grows [] schedules w g m = (w, g, m, [], refl, sym (append-nil _), tt, omega arith)
    start-Grows (done ∷ events) schedules w g m =
        (w, g, m, [], refl, sym (append-nil _), tt, omega arith)
    start-Grows (updated others ∷ events) schedules w g m = start-Grows events others w g m
    start-Grows (ticker_fired now ∷ events) schedules w g m =
        let (w1, g1, m1, first, is1, jobs1, all1, count1) =
          run_once-corrections checker cron laws parser zones timezone dry_run now schedules w g
            m in
        let (w2, g2, m2, more, is2, jobs2, all2, count2) = start-Grows events schedules w1 g1 m1 in
        (
          w2,
          g2,
          m2,
          first ++ more,
          ap (λ s. (start events (record { schedules = schedules; state = s })).state) is1 ∙ is2,
          jobs2 ∙ ap (λ l. l ++ more) jobs1 ∙ append_assoc (cron.jobs g) first more,
          All-append _ first more
              (All-weaken _ _
                (λ j (sch, here, (e, _)).
                  (ap (λ (x : Job). x.definition) e, ap (λ (x : Job). x.tags) e))
                first all1)
              all2,
          omega (arith, count1, count2, length-append first more),
        )
