-- ===== src/App/Reload.antt =====
-- What a reload leaves behind.
use yc_sheduler.Prelude.{
  Bool, Option, none, some, List, ◌++◌, Result, ok, err, Error, ◌≡◌, refl, ◌⊎◌, inl, inr, ◌∙◌, ap,
  sym,
}
use mathlib.Core.List.{append-nil}
use yc_sheduler.Config.{Schedule}
use yc_sheduler.Scheduler.Jobs.{Gocron, GocronLaws}
use yc_sheduler.Scheduler.Registration.{schedule_jobs, unmanaged, Adds, replace_schedules-jobs}
use yc_sheduler.App.{App, update, replaced, reload_schedules}

module _ {G : Type 0} (cron : Gocron G) (laws : GocronLaws cron) where
  -- The validator and the page have the schedules of the configuration.
  abbrev pub IsConsistent : App G → Type 0
  IsConsistent a = (a.validator_schedules ≡ a.cfg_schedules) × (a.store.schedules ≡ a.cfg_schedules)

  -- Either the reload failed, and the schedules are what they were, or it succeeded: then they are
  -- the loaded ones, and the jobs are the unmanaged jobs followed by those of the loaded schedules.
  abbrev pub Reloaded : Bool → Result (List Schedule) → G → App G → App G × Option Error → Type 0
  Reloaded dry loaded g a (b, e) =
      ((e₀ : Error) × (e ≡ some e₀) × (b.cfg_schedules ≡ a.cfg_schedules))
      ⊎ ((schedules : List Schedule) × (g' : G) × (loaded ≡ ok schedules)
          × (e ≡ none)
          × (b.cfg_schedules ≡ schedules)
          × (b.scheduler ≡ some g')
          × (cron.jobs g' ≡ unmanaged cron laws g ++ schedule_jobs dry schedules))

  replaced-Reloaded :
      (dry : Bool) (schedules : List Schedule) (g g' : G) (o : Option Error) (a : App G)
      → Adds cron laws (unmanaged cron laws g) (g', o) (schedule_jobs dry schedules)
      → IsConsistent a
      → IsConsistent (replaced cron schedules (some g', o) a).0
        × Reloaded dry (ok schedules) g a (replaced cron schedules (some g', o) a)
  unfolding update
  replaced-Reloaded dry schedules g g' (some e) a adds fine = (fine, inl (e, refl, refl))
  replaced-Reloaded dry schedules g g' none a (done, rest, now, all, inr (e, bad)) fine =
      absurd (cc)
  replaced-Reloaded dry schedules g g' none a (done, rest, now, all, inl (_, end)) fine = (
    (refl, refl),
    inr (schedules, g', refl, refl, refl, refl, now ∙ ap (λ l. unmanaged cron laws g ++ l) every),
  )
    where
      every : done ≡ schedule_jobs dry schedules
      every = sym (all ∙ ap (λ l. done ++ l) end ∙ append-nil done)

  -- With a scheduler and a gocron of the documented behaviour, a reload keeps the schedules of the
  -- validator and of the page equal to those of the configuration. It either fails, which leaves
  -- the schedules of the configuration as they were, or it makes them the loaded ones and leaves
  -- exactly the unmanaged jobs, followed by those of the loaded schedules.
  pub reload_schedules-IsConsistent :
      (dry : Bool) (loaded : Result (List Schedule)) (g : G) (a : App G)
      → a.scheduler ≡ some g
      → IsConsistent a
      → IsConsistent (reload_schedules cron dry loaded a).0
        × Reloaded dry loaded g a (reload_schedules cron dry loaded a)
  unfolding reload_schedules
  reload_schedules-IsConsistent dry (err e) g a there fine = (fine, inl (e, refl, refl))
  reload_schedules-IsConsistent dry (ok schedules) g a there fine =
      let (g', o, is, adds) = replace_schedules-jobs cron laws dry schedules g in
      let all = replaced-Reloaded dry schedules g g' o a adds fine in simp (there, is) all
