-- ===== src/Scheduler/Registration.antt =====
-- Which jobs gocron has after schedules were registered or replaced.
use mathlib.Core.List.{append-nil, append_assoc}
use yc_sheduler.Prelude.{
  String, Bool, true, not, Option, none, some, List, [], ◌∷◌, ◌++◌, Result, ok, err, Error, ◌≡◌,
  refl, sym, ap, ◌∙◌, ◌⊎◌, inl, inr, keep, Bool-cases, if◌then◌else◌,
}
use yc_sheduler.Config.{ActionConfig, Schedule}
use yc_sheduler.Scheduler.Jobs.{JobDefinition, Job, Gocron, GocronLaws, tagged}
use yc_sheduler.Scheduler.Definition.{schedule_to_job_definition}
use yc_sheduler.Scheduler.{
  managed_schedule_tag, managed_job, job_name, task_of, Outcome, new_job, add_job_unlocked,
  and_then, register_action, register_schedule_unlocked, register_all, replace_schedules,
}

abbrev definition_jobs : Bool → Schedule → String → Result JobDefinition → List Job
definition_jobs dry sch name (ok def) =
    managed_job def (job_name sch name) (task_of dry sch name) ∷ []
definition_jobs dry sch name (err e) = []

-- The jobs that a configuration asks for: one for each enabled action that has a definition.
abbrev pub action_jobs : Bool → Schedule → String → Option ActionConfig → List Job
action_jobs dry sch name none = []
action_jobs dry sch name (some a) =
    if a.enabled then definition_jobs dry sch name (schedule_to_job_definition sch a) else []

abbrev pub schedule_jobs : Bool → List Schedule → List Job
schedule_jobs dry [] = []
schedule_jobs dry (sch ∷ rest) =
    (action_jobs dry sch "start" sch.actions.start ++ action_jobs dry sch "stop" sch.actions.stop)
    ++ schedule_jobs dry rest

module _ {G : Type 0} (cron : Gocron G) (laws : GocronLaws cron) where
  -- The jobs of `g`, then the first of the wanted ones: all of them, if there was no error.
  abbrev pub Adds : List Job → Outcome cron → List Job → Type 0
  Adds old out wanted =
      (done : List Job) × (rest : List Job) × (cron.jobs out.0 ≡ old ++ done)
      × (wanted ≡ done ++ rest)
      × (((out.1 ≡ none) × (rest ≡ [])) ⊎ ((e : Error) × (out.1 ≡ some e)))

  and_then-Adds :
      (old : List Job) (out : Outcome cron) (k : G → Outcome cron) (first second : List Job)
      → Adds old out first
      → ((g : G) → Adds (cron.jobs g) (k g) second)
      → Adds old (and_then cron out k) (first ++ second)
  and_then-Adds old (g, none) k first second (done, rest, now, all, inl (_, end)) more =
      let (done', rest', now', all', ends) = more g in
      (
        done ++ done',
        rest',
        now' ∙ ap (λ l. l ++ done') now ∙ append_assoc old done done',
        rw (all, end, append-nil done, all') (sym (append_assoc done done' rest')),
        ends,
      )
  and_then-Adds old (g, none) k first second (done, rest, now, all, inr (e, bad)) more = absurd (cc)
  and_then-Adds old (g, some e) k first second (done, rest, now, all, _) more =
      (done, rest ++ second, now, rw all (append_assoc done rest second), inr (e, refl))

  new_job-Adds : (g : G) (j : Job) → Adds (cron.jobs g) (new_job cron g j) (j ∷ [])
  unfolding new_job
  new_job-Adds g j = go (cron.new_job g j) refl
    where
      go :
          (r : Result G)
          → cron.new_job g j ≡ r
          → Adds (cron.jobs g) (elim r [ ok g' ↦ (g', none) | err e ↦ (g, some e) ]) (j ∷ [])
      go (ok g') e = (j ∷ [], [], laws.jobs-new_job g g' j e, refl, inl (refl, refl))
      go (err x) e = ([], j ∷ [], sym (append-nil (cron.jobs g)), refl, inr (x, refl))

  register_action-Adds :
      (dry : Bool) (sch : Schedule) (name : String) (o : Option ActionConfig) (g : G)
      → Adds (cron.jobs g) (register_action cron dry sch name o g) (action_jobs dry sch name o)
  unfolding register_action
  register_action-Adds dry sch name none g =
      ([], [], sym (append-nil (cron.jobs g)), refl, inl (refl, refl))
  register_action-Adds dry sch name (some a) g = elim (Bool-cases a.enabled) [
    | inl on ↦ simp on (defined (schedule_to_job_definition sch a))
    | inr off ↦ simp off ([], [], sym (append-nil (cron.jobs g)), refl, inl (refl, refl))
  ]
    where
      defined :
          (r : Result JobDefinition)
          → Adds
              (cron.jobs g)
              (elim r [
                | ok def ↦ add_job_unlocked cron g def (job_name sch name) (task_of dry sch name)
                | err e ↦ (g, some e)
              ])
              (definition_jobs dry sch name r)
      defined (ok def) = new_job-Adds g (managed_job def (job_name sch name) (task_of dry sch name))
      defined (err e) = ([], [], sym (append-nil (cron.jobs g)), refl, inr (e, refl))

  register_all-Adds :
      (dry : Bool) (schedules : List Schedule) (g : G)
      → Adds (cron.jobs g) (register_all cron dry schedules g) (schedule_jobs dry schedules)
  unfolding register_all
  register_all-Adds dry [] g = ([], [], sym (append-nil (cron.jobs g)), refl, inl (refl, refl))
  register_all-Adds dry (sch ∷ rest) g =
      and_then-Adds (cron.jobs g) (register_schedule_unlocked cron dry sch g)
        (register_all cron dry rest) _ _
        (and_then-Adds (cron.jobs g) (register_action cron dry sch "start" sch.actions.start g)
          (register_action cron dry sch "stop" sch.actions.stop) _ _
          (register_action-Adds dry sch "start" sch.actions.start g)
          (register_action-Adds dry sch "stop" sch.actions.stop))
        (register_all-Adds dry rest)

  -- The jobs without the tag of the regular ones, such as the one-time jobs of the validator.
  abbrev pub unmanaged : G → List Job
  unmanaged g = keep (λ j. not (tagged managed_schedule_tag j.tags)) (cron.jobs g)

  -- With a gocron of the documented behaviour: replacing the schedules keeps the jobs that are not
  -- regular ones, drops every regular job there was, and adds the jobs of the new schedules in
  -- order: all of them if it succeeds, and otherwise the first so many of them.
  pub replace_schedules-jobs :
      (dry : Bool) (schedules : List Schedule) (g : G)
      → (g' : G) × (o : Option Error) × (replace_schedules cron dry schedules (some g)
          ≡ (some g', o))
        × Adds (unmanaged g) (g', o) (schedule_jobs dry schedules)
  unfolding replace_schedules
  replace_schedules-jobs dry schedules g =
      let h = cron.remove_by_tags g managed_schedule_tag in
      let out = register_all cron dry schedules h in
      (
        out.0,
        out.1,
        refl,
        rw (laws.jobs-remove_by_tags g managed_schedule_tag) at (register_all-Adds dry schedules h),
      )

  -- With a gocron of the documented behaviour: if the first of the new schedules has an enabled
  -- start action that makes no definition, the replacement fails with the error of that action, and
  -- only the jobs that are not regular ones are left.
  pub replace_schedules-lost :
      (dry : Bool) (sch : Schedule) (rest : List Schedule) (g : G) (a : ActionConfig) (e : Error)
      → sch.actions.start ≡ some a
      → a.enabled ≡ true
      → schedule_to_job_definition sch a ≡ err e
      → (g' : G) × (replace_schedules cron dry (sch ∷ rest) (some g) ≡ (some g', some e))
        × (cron.jobs g' ≡ unmanaged g)
  unfolding replace_schedules register_all
  replace_schedules-lost dry sch rest g a e starts on bad = (
    cron.remove_by_tags g managed_schedule_tag,
    simp (starts, on, bad),
    laws.jobs-remove_by_tags g managed_schedule_tag,
  )
