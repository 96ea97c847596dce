-- ===== src/Yc/Methods.antt =====
-- internal/yc/compute.go, k8s_cluster.go and client.go: the methods of the client. The generated
-- clients of the services are a parameter; the folder of a resource is not part of any request.
use yc_sheduler.Prelude.{
  ℕ, zero, suc, String, Bool, true, false, ◌&&◌, ◌||◌, ◌==◌, if◌then◌else◌, none, some, List, [],
  ◌∷◌, Result, ok, err, Error, cancelled, invalid_credentials,
}
use yc_sheduler.Config.{Bytes}
use yc_sheduler.Config.Files.{to_lower}
use yc_sheduler.Resource.{Call}
use yc_sheduler.Resource.Yandex.{Status, ClientInterface}
use yc_sheduler.Yc.{
  Signal, done, ticked, Wait, Client, Sdk, execute_operation, get_resource, ensure_initialized,
}

-- The requests, over a connection and the id of a resource. An operation is known by its id.
pub record Services (W C : Type 0) : Type 0 where
  pub instance_start : C → String → Call W String
  pub instance_stop : C → String → Call W String
  pub instance_get : C → String → Call W Status
  pub instance_list : C → String → ℕ → Call W (Unit {0})
  pub cluster_start : C → String → Call W String
  pub cluster_stop : C → String → Call W String
  pub cluster_get : C → String → Call W Status

module _ {W C : Type 0} (services : Services W C) (c : Client W C) (signals : List Signal) where
  unfoldable pub start_instance : String → String → W → Wait W (Unit {0})
  start_instance folder id =
      execute_operation c signals "yandex.cloud.compute.v1.InstanceService.Start"
        (λ conn. services.instance_start conn id)

  unfoldable pub stop_instance : String → String → W → Wait W (Unit {0})
  stop_instance folder id =
      execute_operation c signals "yandex.cloud.compute.v1.InstanceService.Stop"
        (λ conn. services.instance_stop conn id)

  unfoldable pub get_instance : String → String → W → Wait W Status
  get_instance folder id =
      get_resource c "yandex.cloud.compute.v1.InstanceService.Get"
        (λ conn. services.instance_get conn id)

  unfoldable pub start_cluster : String → String → W → Wait W (Unit {0})
  start_cluster folder id =
      execute_operation c signals "yandex.cloud.k8s.v1.ClusterService.Start"
        (λ conn. services.cluster_start conn id)

  unfoldable pub stop_cluster : String → String → W → Wait W (Unit {0})
  stop_cluster folder id =
      execute_operation c signals "yandex.cloud.k8s.v1.ClusterService.Stop"
        (λ conn. services.cluster_stop conn id)

  unfoldable pub get_cluster : String → String → W → Wait W Status
  get_cluster folder id =
      get_resource c "yandex.cloud.k8s.v1.ClusterService.Get" (λ conn. services.cluster_get conn id)

-- The signals of a context that ends after `n` seconds.
abbrev pub ends_after : ℕ → List Signal
ends_after zero = done ∷ []
ends_after (suc n) = ticked ∷ ends_after n

-- What a method returns once its context has ended at the latest.
abbrev pub returned : {W A : Type 0} → Wait W A → Result A × W
returned (some r, w) = (r, w)
returned (none, w) = (err cancelled, w)

-- The methods as the interface that internal/resource calls, each with a context of `n` seconds.
unfoldable pub client_interface : {W C : Type 0} → Services W C → Client W C → ℕ → ClientInterface W
client_interface services c n = record {
  start_instance = λ folder id w. returned (start_instance services c (ends_after n) folder id w);
  stop_instance = λ folder id w. returned (stop_instance services c (ends_after n) folder id w);
  get_instance = λ folder id w. returned (get_instance services c (ends_after n) folder id w);
  start_cluster = λ folder id w. returned (start_cluster services c (ends_after n) folder id w);
  stop_cluster = λ folder id w. returned (stop_cluster services c (ends_after n) folder id w);
  get_cluster = λ folder id w. returned (get_cluster services c (ends_after n) folder id w);
}

-- `strings.Contains`
abbrev starts_with : Bytes → Bytes → Bool
starts_with [] s = true
starts_with (x ∷ xs) [] = false
starts_with (x ∷ xs) (y ∷ ys) = (x == y) && starts_with xs ys

unfoldable pub contains : Bytes → Bytes → Bool
contains [] part = starts_with part []
contains (c ∷ s) part = let rest = contains s part in starts_with part (c ∷ s) || rest

abbrev contains_any : Bytes → List Bytes → Bool
contains_any s [] = false
contains_any s (part ∷ parts) = contains s part || contains_any s parts

-- The words of a message about credentials.
abbrev pub auth_words : List Bytes
auth_words =
    (b'a' ∷ b'u' ∷ b't' ∷ b'h' ∷ b'e' ∷ b'n' ∷ b't' ∷ b'i' ∷ b'c' ∷ b'a' ∷ b't' ∷ b'i' ∷ b'o' ∷ b'n'
      ∷ [])
    ∷ (b'a' ∷ b'u' ∷ b't' ∷ b'h' ∷ b'o' ∷ b'r' ∷ b'i' ∷ b'z' ∷ b'a' ∷ b't' ∷ b'i' ∷ b'o' ∷ b'n'
        ∷ [])
    ∷ (b'u' ∷ b'n' ∷ b'a' ∷ b'u' ∷ b't' ∷ b'h' ∷ b'o' ∷ b'r' ∷ b'i' ∷ b'z' ∷ b'e' ∷ b'd' ∷ [])
    ∷ (b'i' ∷ b'n' ∷ b'v' ∷ b'a' ∷ b'l' ∷ b'i' ∷ b'd' ∷ 32 ∷ b't' ∷ b'o' ∷ b'k' ∷ b'e' ∷ b'n' ∷ [])
    ∷ (b'e' ∷ b'x' ∷ b'p' ∷ b'i' ∷ b'r' ∷ b'e' ∷ b'd' ∷ [])
    ∷ (b't' ∷ b'o' ∷ b'k' ∷ b'e' ∷ b'n' ∷ [])
    ∷ []

-- `ValidateCredentials`; `text` is `Error()`.
module _ {W C : Type 0} (services : Services W C) (text : Error → Bytes) where
  -- The error of the listing counts only if it is about credentials.
  abbrev listed : Result (Unit {0}) × W → Result (Unit {0}) × W
  listed (ok _, w) = (ok tt, w)
  listed (err e, w) =
      if contains_any (to_lower (text e)) auth_words
      then (err invalid_credentials, w)
      else (ok tt, w)

  abbrev connected : Result C × W → Result (Unit {0}) × W
  connected (err e, w) = (err invalid_credentials, w)
  connected (ok conn, w) = listed (services.instance_list conn "validation-check-folder-id" 1 w)

  abbrev checked : Result (Sdk W C) → W → Result (Unit {0}) × W
  checked (err e) w = (err e, w)
  checked (ok sdk) w =
      connected (sdk.get_connection "yandex.cloud.compute.v1.InstanceService.List" w)

  unfoldable pub validate_credentials : Client W C → W → Result (Unit {0}) × W
  validate_credentials c w = checked (ensure_initialized c) w
