-- ===== src/Resource/Yandex.antt =====
-- `YCOperator` and `YCStateChecker` of internal/resource, over the methods of the cloud client.
use mathlib.Core.Bool.{true≢false}
use yc_sheduler.Prelude.{
  String, str_eq, Bool, true, false, if◌then◌else◌, Result, ok, err, unsupported_resource, ◌≡◌, ◌⊎◌,
  inl, inr, Bool-cases, sym,
}
use yc_sheduler.Config.{Resource}
use yc_sheduler.Resource.{Call, StateChecker, Operator}

-- The status of an instance or of a cluster; the others by their text.
pub data Status : Type 0 where
  running stopped : Status
  other : String → Status

-- `yc.ClientInterface`, without `ValidateCredentials` and `Shutdown`. The first text is the folder.
pub record ClientInterface (W : Type 0) : Type 0 where
  pub start_instance : String → String → Call W (Unit {0})
  pub stop_instance : String → String → Call W (Unit {0})
  pub get_instance : String → String → Call W Status
  pub start_cluster : String → String → Call W (Unit {0})
  pub stop_cluster : String → String → Call W (Unit {0})
  pub get_cluster : String → String → Call W Status

-- The state that `GetState` makes of a status.
unfoldable pub state_of : Status → String × Bool
state_of running = ("running", false)
state_of stopped = ("stopped", false)
state_of (other text) = (text, true)

module _ {W : Type 0} (client : ClientInterface W) where
  abbrev unsupported : {A : Type 0} → Call W A
  unsupported w = (err unsupported_resource, w)

  abbrev on_type :
      {A : Type 0}
      → Resource
      → (String → String → Call W A)
      → (String → String → Call W A)
      → Call W A
      → Call W A
  on_type r vm cluster otherwise w =
      if str_eq r.type "vm"
      then vm r.folder_id r.id w
      else if str_eq r.type "k8s_cluster"
      then cluster r.folder_id r.id w
      else otherwise w

  unfoldable pub yc_operator : Operator W
  yc_operator = record {
    start = λ r. on_type r client.start_instance client.start_cluster unsupported;
    stop = λ r. on_type r client.stop_instance client.stop_cluster unsupported;
  }

  -- `getVMState` and `getClusterState`, which differ in the call.
  abbrev pub get_status_state : Result Status × W → Result (String × Bool) × W
  get_status_state (ok status, w) = (ok (state_of status), w)
  get_status_state (err e, w) = (err e, w)

  unfoldable pub yc_state_checker : StateChecker W
  yc_state_checker = record {
    get_state = λ r.
        on_type r (λ folder id w. get_status_state (client.get_instance folder id w))
          (λ folder id w. get_status_state (client.get_cluster folder id w))
          (λ w. (ok ("", false), w));
  }

  -- Whether a resource is of a type that the program supports.
  abbrev pub is_supported : Resource → Bool
  is_supported r = if str_eq r.type "vm" then true else str_eq r.type "k8s_cluster"

  stable_status :
      (answer : Result Status × W) (name : String) (w : W)
      → get_status_state answer ≡ (ok (name, false), w)
      → (name ≡ "running") ⊎ (name ≡ "stopped")
  unfolding state_of
  stable_status (ok running, v) name w e = inl (cc)
  stable_status (ok stopped, v) name w e = inr (cc)
  stable_status (ok (other text), v) name w e = absurd (cc)
  stable_status (err x, v) name w e = absurd (cc)

  -- A state that is not a transitional one is "running" or "stopped" for a resource of a supported
  -- type.
  get_state-stable :
      (r : Resource) (name : String) (w w' : W)
      → is_supported r ≡ true
      → yc_state_checker.get_state r w ≡ (ok (name, false), w')
      → (name ≡ "running") ⊎ (name ≡ "stopped")
  unfolding yc_state_checker
  get_state-stable r name w w' supported e = elim (Bool-cases (str_eq r.type "vm")) [
    | inl vm ↦ stable_status (client.get_instance r.folder_id r.id w) name w' (simp vm at e)
    | inr other_type ↦ elim (Bool-cases (str_eq r.type "k8s_cluster")) [
      | inl cluster ↦
          stable_status (client.get_cluster r.folder_id r.id w) name w'
            (simp (other_type, cluster) at e)
      | inr neither ↦ absurd (true≢false (sym (simp (other_type, neither) at supported)))
    ]
  ]
