-- ===== src/Yc.antt =====
-- internal/yc: the calls of the cloud. The SDK, its connections and its requests are a parameter; what
-- happens while an operation is awaited is a list of signals.
pub mod Awaited
pub mod Methods
pub mod Operated
use yc_sheduler.Prelude.{
  String, str_eq, Bool, if◌then◌else◌, Option, none, some, List, [], ◌∷◌, Result, ok, err, Error,
  cancelled, operation_failed, client_not_initialized, missing_credentials, external, not,
}
use yc_sheduler.Resource.{Call}

-- `operationpb.Operation`: whether it is done, and its error.
pub record Operation : Type 0 where
  pub done : Bool
  pub error : Option String

-- The SDK: a connection for an endpoint, and the state of an operation.
pub record Sdk (W C : Type 0) : Type 0 where
  pub get_connection : String → Call W C
  pub get_operation : C → String → Call W Operation
  pub shutdown : Call W (Unit {0})

-- What `select` finds next: the context is done, or a second has passed.
pub data Signal : Type 0 where
  done ticked : Signal

-- A call that may still be waiting when the signals run out.
abbrev pub Wait : Type 0 → Type 0 → Type 0
Wait W A = Option (Result A) × W

pub record AuthConfig : Type 0 where
  pub service_account_key_file : String
  pub token : String

module _ {W : Type 0} where
  abbrev pub call_bind : {A B : Type 0} → Result A × W → (A → W → Wait W B) → Wait W B
  call_bind (ok a, w) k = k a w
  call_bind (err e, w) k = (some (err e), w)

  -- What an operation that is done comes to.
  abbrev pub decided : Option String → W → Wait W (Unit {0})
  decided (some message) w = (some (err operation_failed), w)
  decided none w = (some (ok tt), w)

  -- What a poll decides, or the rest of the loop.
  abbrev pub polled : Operation → Wait W (Unit {0}) → W → Wait W (Unit {0})
  polled op rest w = if not op.done then rest else decided op.error w

-- The client, or an SDK that is nil.
abbrev pub Client : Type 0 → Type 0 → Type 0
Client W C = Option (Sdk W C)

module _ {W C : Type 0} where
  -- The loop of `waitOperation`.
  unfoldable pub wait_loop : Sdk W C → C → String → List Signal → W → Wait W (Unit {0})
  wait_loop sdk conn id [] w = (none, w)
  wait_loop sdk conn id (done ∷ rest) w = (some (err cancelled), w)
  wait_loop sdk conn id (ticked ∷ rest) w =
      call_bind (sdk.get_operation conn id w)
        (λ op w'. polled op (wait_loop sdk conn id rest w') w')

  unfoldable pub wait_operation : Sdk W C → List Signal → String → W → Wait W (Unit {0})
  wait_operation sdk signals id w =
      if str_eq id ""
      then (some (err operation_failed), w)
      else call_bind (sdk.get_connection "yandex.cloud.operation.OperationService.Get" w)
          (λ conn w'. wait_loop sdk conn id signals w')

  unfoldable pub ensure_initialized : Client W C → Result (Sdk W C)
  ensure_initialized none = err client_not_initialized
  ensure_initialized (some sdk) = ok sdk

  unfoldable pub get_resource : {T : Type 0} → Client W C → String → (C → Call W T) → W → Wait W T
  get_resource c endpoint get_func w =
      call_bind (ensure_initialized c, w)
        (λ sdk w.
          call_bind (sdk.get_connection endpoint w)
            (λ conn w. call_bind (get_func conn w) (λ result w. (some (ok result), w))))

  unfoldable pub execute_operation :
      Client W C → List Signal → String → (C → Call W String) → W → Wait W (Unit {0})
  execute_operation c signals endpoint op_func w =
      call_bind (ensure_initialized c, w)
        (λ sdk w.
          call_bind (sdk.get_connection endpoint w)
            (λ conn w. call_bind (op_func conn w) (λ id w. wait_operation sdk signals id w)))

  unfoldable pub shutdown_client : Client W C → Call W (Unit {0})
  shutdown_client none w = (ok tt, w)
  shutdown_client (some sdk) w = sdk.shutdown w

  -- The credentials that are tried: the key file first, then the token.
  unfoldable pub new_client :
      {K : Type 0}
      → (String → Result K)
      → (String → K)
      → (K → Result (Sdk W C))
      → AuthConfig
      → Result (Sdk W C)
  new_client key_file oauth_token build auth =
      if not (str_eq auth.service_account_key_file "")
      then elim (key_file auth.service_account_key_file) [ err e ↦ err e | ok creds ↦ build creds ]
      else if not (str_eq auth.token "")
      then build (oauth_token auth.token)
      else err missing_credentials
