-- ===== src/Executor/Behaviour.antt =====
-- What one run of a job does to the locks, the metrics and the world.
use yc_sheduler.Prelude.{
  List, ap, none, joined, String, str_eq, str_eq_refl, not, Bool, true, false, ◌&&◌, ◌||◌,
  if◌then◌else◌, [], ◌∷◌, Option, some, Result, ok, err, ◌≡◌, refl, arith, Bool-cases, inl, inr,
}
use yc_sheduler.Config.{Resource, Schedule}
use yc_sheduler.Resource.{StateChecker, Operator}
use yc_sheduler.Metrics.{Metrics, if_recorded}
use yc_sheduler.Executor.{
  InFlightLocks, held, unlock, State, lock_key, record_operation, record_skip, finished, is_desired,
  operation, execute, check_state, locked_job, make,
}

-- Releasing a key that is not held changes nothing.
unlock-absent : (ks : InFlightLocks) (key : String) → held key ks ≡ false → unlock ks key ≡ ks
unfolding unlock
unlock-absent [] key h = refl
unlock-absent (k ∷ ks) key h = ground (arith, unlock-absent ks key)

unlock-taken :
    (ks : InFlightLocks) (key : String) → held key ks ≡ false → unlock (key ∷ ks) key ≡ ks
unfolding unlock
unlock-taken ks key h = rw (str_eq_refl key) (unlock-absent ks key h)

module _ {W : Type 0} (checker : StateChecker W) (operator : Operator W) where
  locks-locked_job :
      (r : Resource) (action : String) (dry : Bool) (s : State W)
      → (locked_job checker operator r action dry s).locks ≡ s.locks
  unfolding locked_job
  locks-locked_job r action dry s = ground arith

  -- When a job ends, the locks are as they were when it began, whatever it did.
  pub locks-make :
      (sch : Schedule) (action : String) (dry : Bool) (s : State W)
      → (make checker operator sch action dry s).locks ≡ s.locks
  unfolding make
  locks-make sch action dry s = elim (Bool-cases (held (lock_key sch.resource action) s.locks)) [
    | inl busy ↦ rw busy
    | inr idle ↦
        rw (idle, locks-locked_job) (unlock-taken s.locks (lock_key sch.resource action) idle)
  ]

-- Whether a job has nothing to do, by the answer of `GetState`: the resource is in transition, or it
-- already runs and is to start, or it has stopped and is to stop.
abbrev pub is_settled : String → Result (String × Bool) → Bool
is_settled action (err e) = false
is_settled action (ok (name, is_transitional)) =
    is_transitional
    || (str_eq action "start" && str_eq name "running"
        || str_eq action "stop" && str_eq name "stopped")

-- Whether another job of this resource and action is at work.
abbrev pub is_busy : Resource → String → InFlightLocks → Bool
is_busy r action locks = held (joined (r.type ∷ ":" ∷ r.id ∷ ":" ∷ action ∷ [])) locks

-- The world after the calls of a job, told from the conditions alone.
abbrev pub called :
    {W : Type 0} → StateChecker W → Operator W → Resource → String → Bool → InFlightLocks → W → W
called checker operator r action dry locks w =
    let looked = (checker.get_state r w).1 in
    if is_busy r action locks || dry || not (str_eq action "start" || str_eq action "stop")
    then w
    else if is_settled action (checker.get_state r w).0
    then looked
    else if str_eq action "start"
    then (operator.start r looked).1
    else (operator.stop r looked).1

abbrev pub label_of : Result (Unit {0}) → String
label_of (ok _) = "success"
label_of (err e) = "error"

-- The status under which a job is counted, once it holds its lock.
abbrev pub status :
    {W : Type 0} → StateChecker W → Operator W → Resource → String → Bool → W → String
status checker operator r action dry w =
    let looked = (checker.get_state r w).1 in
    if dry
    then "dry_run"
    else if not (str_eq action "start" || str_eq action "stop")
    then "error"
    else if is_settled action (checker.get_state r w).0
    then "skipped"
    else if str_eq action "start"
    then label_of (operator.start r looked).0
    else label_of (operator.stop r looked).0

-- The operations that were counted, the latest first.
abbrev pub counted : Option Metrics → Option (List (String × String × String))
counted none = none
counted (some m) = some m.operations_total

-- One more, if there are metrics.
abbrev pub one_more :
    Resource → String → String → Option Metrics → Option (List (String × String × String))
one_more r action label none = none
one_more r action label (some m) = some ((r.type, action, label) ∷ m.operations_total)

module _ (r : Resource) (action : String) where
  counted-if_recorded :
      (label : String) (f : Metrics → Metrics)
      → ((m : Metrics) → (f m).operations_total ≡ (r.type, action, label) ∷ m.operations_total)
      → (x : Option Metrics) → counted (if_recorded x f) ≡ one_more r action label x
  counted-if_recorded label f adds none = refl
  counted-if_recorded label f adds (some m) = ap some (adds m)

module _ {W : Type 0} (r : Resource) (action : String) where
  counted-record_operation :
      (label : String) (s : State W)
      → counted (record_operation r action label s).metrics ≡ one_more r action label s.metrics
  unfolding record_operation
  counted-record_operation label s = counted-if_recorded r action label _ (λ m. refl) s.metrics

  counted-record_skip :
      (reason : String) (s : State W)
      → counted (record_skip r action reason s).metrics ≡ one_more r action "skipped" s.metrics
  unfolding record_skip
  counted-record_skip reason s = counted-if_recorded r action "skipped" _ (λ m. refl) s.metrics

  counted-finished :
      (result : Result (Unit {0})) (s : State W)
      → counted (finished r action result s).metrics ≡ one_more r action (label_of result) s.metrics
  unfolding finished
  counted-finished (ok _) s = counted-record_operation "success" s
  counted-finished (err x) s = counted-record_operation "error" s

module _ {W : Type 0} (checker : StateChecker W) (operator : Operator W) (r : Resource)
    (action : String) where
  world-finished :
      (result : Result (Unit {0})) (s : State W) → (finished r action result s).world ≡ s.world
  unfolding finished
  world-finished (ok _) s = refl
  world-finished (err e) s = refl

  world-execute :
      (s : State W)
      → (str_eq action "start" || str_eq action "stop") ≡ true
      → (execute checker operator r action s).world ≡ (
          if str_eq action "start"
          then (operator.start r s.world).1
          else (operator.stop r s.world).1)
  unfolding execute operation
  world-execute s known = rw world-finished (ground arith)

  counted-execute :
      (s : State W)
      → (str_eq action "start" || str_eq action "stop") ≡ true
      → counted (execute checker operator r action s).metrics
        ≡ one_more r action
            (if str_eq action "start"
              then label_of (operator.start r s.world).0
              else label_of (operator.stop r s.world).0)
            s.metrics
  unfolding execute operation
  counted-execute s known = rw counted-finished (ground arith)

  world-check_state :
      (state : Result (String × Bool)) (s : State W)
      → (str_eq action "start" || str_eq action "stop") ≡ true
      → (check_state checker operator r action state s).world ≡ (
          if is_settled action state
          then s.world
          else if str_eq action "start"
          then (operator.start r s.world).1
          else (operator.stop r s.world).1)
  unfolding check_state
  world-check_state (err e) s known = world-execute s known
  world-check_state (ok (name, true)) s known = refl
  world-check_state (ok (name, false)) s known = elim (Bool-cases (is_desired action name)) [
    | inl there ↦ rw there
    | inr away ↦ rw away (world-execute s known)
  ]

  counted-check_state :
      (state : Result (String × Bool)) (s : State W)
      → (str_eq action "start" || str_eq action "stop") ≡ true
      → counted (check_state checker operator r action state s).metrics
        ≡ one_more r action
            (if is_settled action state
              then "skipped"
              else if str_eq action "start"
              then label_of (operator.start r s.world).0
              else label_of (operator.stop r s.world).0)
            s.metrics
  unfolding check_state
  counted-check_state (err e) s known = counted-execute s known
  counted-check_state (ok (name, true)) s known =
      counted-record_skip r action "transitional_state" s
  counted-check_state (ok (name, false)) s known = elim (Bool-cases (is_desired action name)) [
    | inl there ↦ rw there (counted-record_skip r action "already_in_state" s)
    | inr away ↦ rw away (counted-execute s known)
  ]

  not-or : (a b : Bool) → (not a && not b) ≡ not (a || b)
  not-or true b = refl
  not-or false b = refl

  world-locked_job :
      (dry : Bool) (s : State W)
      → (locked_job checker operator r action dry s).world ≡ (
          if dry || not (str_eq action "start" || str_eq action "stop")
          then s.world
          else if is_settled action (checker.get_state r s.world).0
          then (checker.get_state r s.world).1
          else if str_eq action "start"
          then (operator.start r (checker.get_state r s.world).1).1
          else (operator.stop r (checker.get_state r s.world).1).1)
  unfolding locked_job record_operation
  world-locked_job true s = refl
  world-locked_job false s = elim (Bool-cases (str_eq action "start" || str_eq action "stop")) [
    | inl known ↦ rw (not-or, known) (world-check_state (checker.get_state r s.world).0 _ known)
    | inr unknown ↦ rw (not-or, unknown)
  ]

  counted-locked_job :
      (dry : Bool) (s : State W)
      → counted (locked_job checker operator r action dry s).metrics
        ≡ one_more r action (status checker operator r action dry s.world) s.metrics
  unfolding locked_job
  counted-locked_job true s = counted-record_operation r action "dry_run" s
  counted-locked_job false s = elim (Bool-cases (str_eq action "start" || str_eq action "stop")) [
    | inl known ↦ rw (not-or, known) (counted-check_state (checker.get_state r s.world).0 _ known)
    | inr unknown ↦ rw (not-or, unknown) (counted-record_operation r action "error" s)
  ]

module _ {W : Type 0} (checker : StateChecker W) (operator : Operator W) (sch : Schedule)
    (action : String) (dry : Bool) where
  -- Which calls a job makes.
  pub world-make :
      (s : State W)
      → (make checker operator sch action dry s).world
        ≡ called checker operator sch.resource action dry s.locks s.world
  unfolding make lock_key record_skip
  world-make s = elim (Bool-cases (is_busy sch.resource action s.locks)) [
    | inl busy ↦ rw busy
    | inr idle ↦ rw idle (world-locked_job checker operator sch.resource action dry _)
  ]

  counted-make :
      (s : State W)
      → counted (make checker operator sch action dry s).metrics
        ≡ one_more sch.resource action
            (if is_busy sch.resource action s.locks
              then "skipped"
              else status checker operator sch.resource action dry s.world)
            s.metrics
  unfolding make lock_key
  counted-make s = elim (Bool-cases (is_busy sch.resource action s.locks)) [
    | inl busy ↦ rw busy (counted-record_skip sch.resource action "in_flight" s)
    | inr idle ↦ rw idle (counted-locked_job checker operator sch.resource action dry _)
  ]

-- What a run of a job does. It makes no call if its lock is held, in a dry run or for an unknown
-- action, only `GetState` if the resource is in transition or already there, and otherwise the
-- operation of its action as well, also when the state cannot be read. With metrics, it is counted
-- exactly once, under its resource type and action: as skipped where the lock is held, the resource in
-- transition or already there, as a dry run, as an error for an unknown action, and otherwise by the
-- outcome of the operation. It leaves the locks as they were.
pub make-called :
    {W : Type 0} (checker : StateChecker W) (operator : Operator W) (sch : Schedule)
    (action : String) (dry : Bool) (s : State W)
    → ((make checker operator sch action dry s).world
        ≡ called checker operator sch.resource action dry s.locks s.world)
      × (counted (make checker operator sch action dry s).metrics
          ≡ one_more sch.resource action
              (if is_busy sch.resource action s.locks
                then "skipped"
                else status checker operator sch.resource action dry s.world)
              s.metrics)
      × ((make checker operator sch action dry s).locks ≡ s.locks)
make-called checker operator sch action dry s = (
  world-make checker operator sch action dry s,
  counted-make checker operator sch action dry s,
  locks-make checker operator sch action dry s,
)
