-- ===== src/Yc/Operated.antt =====
-- What is known when `YCOperator` reports that it has started or stopped a resource.
use yc_sheduler.Prelude.{
  ℕ, zero, suc, ◌≡◌, refl, String, str_eq, Bool, true, false, ◌||◌, if◌then◌else◌, Option, none,
  some, Result, ok, err, Error, Bool-cases, inl, inr,
}
use yc_sheduler.Config.{Resource}
use yc_sheduler.Resource.{Call, Operator}
use yc_sheduler.Resource.Yandex.{yc_operator}
use yc_sheduler.Yc.{
  Sdk, Wait, Operation, Client, call_bind, polled, decided, wait_loop, wait_operation,
  execute_operation, ensure_initialized,
}
use yc_sheduler.Yc.Awaited.{Succeeded, execute_operation-Succeeded}
use yc_sheduler.Yc.Methods.{
  Services, start_instance, stop_instance, start_cluster, stop_cluster, ends_after, returned,
  client_interface,
}

-- A call that has come back.
abbrev HasReturned : {W A : Type 0} → Wait W A → Type 0
HasReturned {W} {A} wait = (r : Result A) × (w : W) × (wait ≡ (some r, w))

call_bind-HasReturned :
    {W A B : Type 0} (call : Result A × W) (k : A → W → Wait W B)
    → ((a : A) (w : W) → HasReturned (k a w))
    → HasReturned (call_bind call k)
call_bind-HasReturned (ok a, w) k h = h a w
call_bind-HasReturned (err e, w) k h = (err e, w, refl)

polled-HasReturned :
    {W : Type 0} (op : Operation) (rest : Wait W (Unit {0})) (w : W)
    → HasReturned rest
    → HasReturned (polled op rest w)
polled-HasReturned op rest w h = elim (Bool-cases op.done) [
  | inl over ↦ rw over (ended op.error)
  | inr pending ↦ rw pending h
]
  where
    ended : (o : Option String) → HasReturned (decided o w)
    ended none = (ok tt, w, refl)
    ended (some message) = (err Error.operation_failed, w, refl)

wait_loop-HasReturned :
    {W C : Type 0} (sdk : Sdk W C) (conn : C) (id : String) (n : ℕ) (w : W)
    → HasReturned (wait_loop sdk conn id (ends_after n) w)
unfolding wait_loop
wait_loop-HasReturned sdk conn id zero w = (err Error.cancelled, w, refl)
wait_loop-HasReturned sdk conn id (suc n) w =
    call_bind-HasReturned (sdk.get_operation conn id w) _
      (λ op v. polled-HasReturned op _ v (wait_loop-HasReturned sdk conn id n v))

wait_operation-HasReturned :
    {W C : Type 0} (sdk : Sdk W C) (n : ℕ) (id : String) (w : W)
    → HasReturned (wait_operation sdk (ends_after n) id w)
unfolding wait_operation
wait_operation-HasReturned sdk n id w = elim (Bool-cases (str_eq id "")) [
  | inl nameless ↦ rw nameless (err Error.operation_failed, w, refl)
  | inr named ↦ rw named (
      call_bind-HasReturned (sdk.get_connection "yandex.cloud.operation.OperationService.Get" w) _
        (λ conn v. wait_loop-HasReturned sdk conn id n v))
]

-- Once its context has ended at the latest, an operation has returned.
pub execute_operation-HasReturned :
    {W C : Type 0} (c : Client W C) (n : ℕ) (endpoint : String) (op_func : C → Call W String)
    (w : W)
    → HasReturned (execute_operation c (ends_after n) endpoint op_func w)
unfolding execute_operation
execute_operation-HasReturned c n endpoint op_func w =
    call_bind-HasReturned (ensure_initialized c, w) _
      (λ sdk v1. call_bind-HasReturned (sdk.get_connection endpoint v1) _ (λ conn v2.
        call_bind-HasReturned (op_func conn v2) _
          (λ id v3. wait_operation-HasReturned sdk n id v3)))

returned-ok :
    {W A : Type 0} (wait : Wait W A) (a : A) (w : W)
    → returned wait ≡ (ok a, w)
    → wait ≡ (some (ok a), w)
returned-ok (some r, v) a w e = cc
returned-ok (none, v) a w e = absurd (cc)

-- The request that brings a resource to the wanted state, by its type.
abbrev pub request : {W C : Type 0} → Services W C → Bool → Resource → C → Call W String
request services starting r conn =
    if str_eq r.type "vm"
    then (if starting then services.instance_start conn r.id else services.instance_stop conn r.id)
    else if starting
    then services.cluster_start conn r.id
    else services.cluster_stop conn r.id

-- `Start` or `Stop` of the operator.
abbrev pub operate : {W : Type 0} → Operator W → Bool → Resource → Call W (Unit {0})
operate operator starting r = if starting then operator.start r else operator.stop r

module _ {W C : Type 0} (services : Services W C) (sdk : Sdk W C) (n : ℕ) where
  -- A request for the resource was accepted, and its operation is done without an error.
  abbrev pub Operated : Bool → Resource → W → Type 0
  Operated starting r w' =
      (conn polls : C) × (id : String) × (w1 w2 : W) × (request services starting r conn w1
        ≡ (ok id, w2))
      × (str_eq id "" ≡ false)
      × Succeeded sdk polls id w'

  vm-Operated :
      (starting : Bool) (r : Resource) (w w' : W)
      → str_eq r.type "vm" ≡ true
      → operate (yc_operator (client_interface services (some sdk) n)) starting r w ≡ (ok tt, w')
      → Operated starting r w'
  unfolding yc_operator client_interface start_instance stop_instance
  vm-Operated true r w w' vm e =
      rw vm (
        execute_operation-Succeeded sdk (ends_after n) _ _ w w'
          (returned-ok _ tt w' (simp vm at e)))
  vm-Operated false r w w' vm e =
      rw vm (
        execute_operation-Succeeded sdk (ends_after n) _ _ w w'
          (returned-ok _ tt w' (simp vm at e)))

  cluster-Operated :
      (starting : Bool) (r : Resource) (w w' : W)
      → str_eq r.type "vm" ≡ false
      → operate (yc_operator (client_interface services (some sdk) n)) starting r w ≡ (ok tt, w')
      → Operated starting r w' × (str_eq r.type "k8s_cluster" ≡ true)
  unfolding yc_operator client_interface start_cluster stop_cluster
  cluster-Operated true r w w' no_vm e = elim (Bool-cases (str_eq r.type "k8s_cluster")) [
    | inr unknown ↦ let bad = simp (no_vm, unknown) at e in absurd (cc)
    | inl cluster ↦ (
      rw no_vm (
          execute_operation-Succeeded sdk (ends_after n) _ _ w w'
            (returned-ok _ tt w' (simp (no_vm, cluster) at e))),
      cluster,
    )
  ]
  cluster-Operated false r w w' no_vm e = elim (Bool-cases (str_eq r.type "k8s_cluster")) [
    | inr unknown ↦ let bad = simp (no_vm, unknown) at e in absurd (cc)
    | inl cluster ↦ (
      rw no_vm (
          execute_operation-Succeeded sdk (ends_after n) _ _ w w'
            (returned-ok _ tt w' (simp (no_vm, cluster) at e))),
      cluster,
    )
  ]

  -- For an initialized client: if the operator reports that it has started or stopped a resource, then
  -- the resource is a machine or a cluster, the service of its type accepted the request for this
  -- very resource with an operation that has an id, and the world is as the poll of that operation
  -- left it which said that it is done and has no error.
  pub yc_operator-Operated :
      (starting : Bool) (r : Resource) (w w' : W)
      → operate (yc_operator (client_interface services (some sdk) n)) starting r w ≡ (ok tt, w')
      → Operated starting r w' × ((str_eq r.type "vm" || str_eq r.type "k8s_cluster") ≡ true)
  yc_operator-Operated starting r w w' e = elim (Bool-cases (str_eq r.type "vm")) [
    | inl vm ↦ (vm-Operated starting r w w' vm e, rw vm refl)
    | inr no_vm ↦
        let (operated, cluster) = cluster-Operated starting r w w' no_vm e in
        (operated, rw (no_vm, cluster) refl)
  ]
