-- ===== src/Executor.antt =====
-- internal/executor/executor.go: the job that starts or stops a resource. A job runs here from its
-- start to its end; how jobs interleave is the subject of `Interleaving`.
pub mod Behaviour
pub mod Interleaving
pub mod Progress
pub mod Effects
use yc_sheduler.Prelude.{
  String, joined, str_eq, not, Bool, true, false, ◌&&◌, ◌||◌, if◌then◌else◌, List, [], ◌∷◌, Option,
  none, some, Result, ok, err, unsupported_action,
}
use yc_sheduler.Config.{Resource, Schedule}
use yc_sheduler.Resource.{StateChecker, Operator, Call}
use yc_sheduler.Metrics.{Metrics, inc_operation, inc_scheduler_skip, if_recorded}

-- The keys of the operations in flight.
abbrev pub InFlightLocks : Type 0
InFlightLocks = List String

abbrev pub held : String → InFlightLocks → Bool
held key [] = false
held key (k ∷ ks) = str_eq k key || held key ks

unfoldable pub try_lock : InFlightLocks → String → InFlightLocks × Bool
try_lock locks key = if held key locks then (locks, false) else (key ∷ locks, true)

unfoldable pub unlock : InFlightLocks → String → InFlightLocks
unlock [] key = []
unlock (k ∷ ks) key = let rest = unlock ks key in if str_eq k key then rest else k ∷ rest

-- What a job acts on: the process-wide locks, the metrics, if any, and the world.
pub record State (W : Type 0) : Type 0 where
  pub locks : InFlightLocks
  pub metrics : Option Metrics
  pub world : W

unfoldable pub lock_key : Resource → String → String
lock_key r action = joined (r.type ∷ ":" ∷ r.id ∷ ":" ∷ action ∷ [])

module _ {W : Type 0} where
  -- `m.IncOperation(resourceType, action, status)`
  unfoldable pub record_operation : Resource → String → String → State W → State W
  unfolding inc_operation
  record_operation r action status s = record s {
    metrics = if_recorded s.metrics λ m. inc_operation m r.type action status;
  }

  -- A skipped job counts as an operation, and as a skip with its reason.
  unfoldable pub record_skip : Resource → String → String → State W → State W
  unfolding inc_operation inc_scheduler_skip
  record_skip r action reason s = record s {
    metrics =
        if_recorded s.metrics
          λ m. inc_scheduler_skip (inc_operation m r.type action "skipped") r.type action reason;
  }

  finished : Resource → String → Result (Unit {0}) → State W → State W
  unfolding record_operation
  finished r action (ok _) s = record_operation r action "success" s
  finished r action (err e) s = record_operation r action "error" s

-- The state that an action is to bring about.
abbrev is_desired : String → String → Bool
is_desired action state =
    str_eq action "start" && str_eq state "running"
    || str_eq action "stop" && str_eq state "stopped"

module _ {W : Type 0} (checker : StateChecker W) (operator : Operator W) where
  operation : Resource → String → Call W (Unit {0})
  operation r action w =
      if str_eq action "start"
      then operator.start r w
      else if str_eq action "stop"
      then operator.stop r w
      else (err unsupported_action, w)

  execute : Resource → String → State W → State W
  unfolding operation finished
  execute r action s =
      let (result, w) = operation r action s.world in
      finished r action result (record s { world = w })

  check_state : Resource → String → Result (String × Bool) → State W → State W
  unfolding execute record_skip
  check_state r action (err e) s = execute r action s
  check_state r action (ok (current, is_transitional)) s =
      if is_transitional
      then record_skip r action "transitional_state" s
      else if is_desired action current
      then record_skip r action "already_in_state" s
      else execute r action s

  -- What a job does once it holds its lock.
  pub locked_job : Resource → String → Bool → State W → State W
  unfolding check_state record_operation
  locked_job r action dry_run s =
      if dry_run
      then record_operation r action "dry_run" s
      else if not (str_eq action "start") && not (str_eq action "stop")
      then record_operation r action "error" s
      else let (state, w) = checker.get_state r s.world in
        check_state r action state (record s { world = w })

  -- The function that `Make` returns. The deferred unlock runs on every path below the lock.
  unfoldable pub make : Schedule → String → Bool → State W → State W
  unfolding try_lock record_skip
  make sch action dry_run s =
      let key = lock_key sch.resource action in
      let (locks, acquired) = try_lock s.locks key in
      let done = locked_job sch.resource action dry_run (record s { locks = locks }) in
      if not acquired
      then record_skip sch.resource action "in_flight" s
      else record done { locks = unlock done.locks key }
