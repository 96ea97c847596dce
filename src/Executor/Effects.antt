-- ===== src/Executor/Effects.antt =====
-- What a job does to what `GetState` says of the resources.
use yc_sheduler.Prelude.{
  ◌≡◌, refl, ap, ◌∙◌, String, str_eq, Bool, true, false, ◌&&◌, if◌then◌else◌, [], Result, ok,
}
use yc_sheduler.Config.{Resource, Schedule}
use yc_sheduler.Resource.{StateChecker, Operator}
use yc_sheduler.Executor.{State, make}
use yc_sheduler.Executor.Behaviour.{world-make}

-- Two names of one machine or cluster.
abbrev pub same_resource : Resource → Resource → Bool
same_resource r r' = str_eq r.type r'.type && str_eq r.id r'.id

-- What `GetState` says of a resource.
abbrev pub observed : {W : Type 0} → StateChecker W → Resource → W → Result (String × Bool)
observed checker r w = (checker.get_state r w).0

-- The cloud as the program relies on it, while nothing else changes it: looking at a resource
-- changes no state, an operation that succeeds brings its resource to its state, and none changes
-- another resource.
pub record CloudLaws {W : Type 0} (checker : StateChecker W) (operator : Operator W) : Type 0 where
  pub looked :
      (r r' : Resource) (w : W)
      → observed checker r' (checker.get_state r w).1 ≡ observed checker r' w
  pub starts :
      (r : Resource) (w : W)
      → (operator.start r w).0 ≡ ok tt
      → observed checker r (operator.start r w).1 ≡ ok ("running", false)
  pub stops :
      (r : Resource) (w : W)
      → (operator.stop r w).0 ≡ ok tt
      → observed checker r (operator.stop r w).1 ≡ ok ("stopped", false)
  pub apart_start :
      (r r' : Resource) (w : W)
      → same_resource r r' ≡ false
      → observed checker r' (operator.start r w).1 ≡ observed checker r' w
  pub apart_stop :
      (r r' : Resource) (w : W)
      → same_resource r r' ≡ false
      → observed checker r' (operator.stop r w).1 ≡ observed checker r' w

-- The operations of a resource succeed, whatever the state.
abbrev pub IsOperable : {W : Type 0} → Operator W → Resource → Type 0
IsOperable {W} operator r =
    ((w : W) → (operator.start r w).0 ≡ ok tt) × ((w : W) → (operator.stop r w).0 ≡ ok tt)

module _ {W : Type 0} (checker : StateChecker W) (operator : Operator W)
    (cloud : CloudLaws checker operator) where
  picked_apart :
      (unlocked settled starting : Bool) (r r' : Resource) (w : W)
      → same_resource r r' ≡ false
      → observed checker r' (
          if unlocked
          then w
          else if settled
          then (checker.get_state r w).1
          else if starting
          then (operator.start r (checker.get_state r w).1).1
          else (operator.stop r (checker.get_state r w).1).1)
        ≡ observed checker r' w
  picked_apart true settled starting r r' w apart = refl
  picked_apart false true starting r r' w apart = cloud.looked r r' w
  picked_apart false false true r r' w apart =
      cloud.apart_start r r' (checker.get_state r w).1 apart ∙ cloud.looked r r' w
  picked_apart false false false r r' w apart =
      cloud.apart_stop r r' (checker.get_state r w).1 apart ∙ cloud.looked r r' w

  -- A job leaves the other resources alone.
  pub job-apart :
      (sch : Schedule) (action : String) (dry : Bool) (r : Resource) (s : State W)
      → same_resource sch.resource r ≡ false
      → observed checker r (make checker operator sch action dry s).world
        ≡ observed checker r s.world
  job-apart sch action dry r s apart =
      ap (observed checker r) (world-make checker operator sch action dry s)
      ∙ picked_apart _ _ _ sch.resource r s.world apart

  pub start-settles :
      (sch : Schedule) (actual : String) (s : State W)
      → s.locks ≡ []
      → IsOperable operator sch.resource
      → observed checker sch.resource s.world ≡ ok (actual, false)
      → str_eq actual "running" ≡ false
      → observed checker sch.resource (make checker operator sch "start" false s).world
        ≡ ok ("running", false)
  start-settles sch actual s free accepts says away =
      ap (observed checker sch.resource) (world-make checker operator sch "start" false s)
      ∙ rw (free, says, away) (cloud.starts sch.resource _ (accepts.0 _))

  pub stop-settles :
      (sch : Schedule) (actual : String) (s : State W)
      → s.locks ≡ []
      → IsOperable operator sch.resource
      → observed checker sch.resource s.world ≡ ok (actual, false)
      → str_eq actual "stopped" ≡ false
      → observed checker sch.resource (make checker operator sch "stop" false s).world
        ≡ ok ("stopped", false)
  stop-settles sch actual s free accepts says away =
      ap (observed checker sch.resource) (world-make checker operator sch "stop" false s)
      ∙ rw (free, says, away) (cloud.stops sch.resource _ (accepts.1 _))
