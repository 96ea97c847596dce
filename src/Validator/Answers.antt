-- ===== src/Validator/Answers.antt =====
-- The answers that `determineExpectedState` can give.
use yc_sheduler.Prelude.{
  ◌≡◌, refl, String, Bool, true, false, not, ◌&&◌, if◌then◌else◌, Option, none, some, Result, ok,
  err, Bool-cases, inl, inr, ◌⊎◌,
}
use yc_sheduler.Config.{ActionConfig, Schedule, is_enabled}
use yc_sheduler.GoTime.Instant.{Time, after}
use yc_sheduler.Schedule.Last.{CronParser}
use yc_sheduler.Validator.{
  TimeZones, determine_expected_state, running, location_of, get_last_execution_time, stopped,
  later_action, both,
}

-- One of the answers of `determineExpectedState`.
abbrev pub IsExpectation : String × String → Type 0
IsExpectation e = (e ≡ running) ⊎ ((e ≡ stopped) ⊎ (e ≡ ("", "")))

later_action-IsExpectation : (a b : Result Time) → IsExpectation (later_action a b)
later_action-IsExpectation (err e) b = inl refl
later_action-IsExpectation (ok t) (err e) = inr (inl refl)
later_action-IsExpectation (ok t) (ok u) = elim (Bool-cases (after t u)) [
  | inl e ↦ rw e (inl refl)
  | inr e ↦ rw e (inr (inl refl))
]

both-IsExpectation :
    (a b : Option ActionConfig) (f : ActionConfig → ActionConfig → String × String)
    → ((x y : ActionConfig) → IsExpectation (f x y))
    → IsExpectation (both a b f)
both-IsExpectation none b f h = inr (inr refl)
both-IsExpectation (some x) none f h = inr (inr refl)
both-IsExpectation (some x) (some y) f h = h x y

choice-IsExpectation :
    (a b : Bool) (e : String × String)
    → IsExpectation e
    → IsExpectation (
        if a && not b
        then running
        else if b && not a
        then stopped
        else if a && b
        then e
        else ("", ""))
choice-IsExpectation true true e h = h
choice-IsExpectation true false e h = inl refl
choice-IsExpectation false true e h = inr (inl refl)
choice-IsExpectation false false e h = inr (inr refl)

pub determine_expected_state-IsExpectation :
    (parser : CronParser) (zones : TimeZones) (timezone : String) (sch : Schedule) (now : Time)
    → IsExpectation (determine_expected_state parser zones timezone sch now)
unfolding determine_expected_state
determine_expected_state-IsExpectation parser zones timezone sch now =
    choice-IsExpectation (is_enabled sch.actions.start) (is_enabled sch.actions.stop) _ (
      both-IsExpectation sch.actions.start sch.actions.stop _ (λ start stop.
        later_action-IsExpectation
          (get_last_execution_time parser sch start _ (location_of zones timezone))
          (get_last_execution_time parser sch stop _ (location_of zones timezone))))
