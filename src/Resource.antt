-- ===== src/Resource.antt =====
-- internal/resource: the interfaces through which the program reads and changes the state of a
-- resource. What they act on is a state `W` of the world, which every call may change.
pub mod Yandex
use yc_sheduler.Prelude.{String, Bool, Result}
use yc_sheduler.Config.{Resource}

-- A call that acts on the world and may fail.
abbrev pub Call {ℓ} : Type ℓ → Type ℓ → Type ℓ
Call W A = W → Result A × W

-- `GetState` returns a state name, and whether the state is a transitional one.
pub record StateChecker (W : Type 0) : Type 0 where
  pub get_state : Resource → Call W (String × Bool)

pub record Operator (W : Type 0) : Type 0 where
  pub start : Resource → Call W (Unit {0})
  pub stop : Resource → Call W (Unit {0})
