-- ===== src/Yc/Awaited.antt =====
-- What is known when an operation has been awaited.
use yc_sheduler.Prelude.{
  String, str_eq, true, false, Option, none, some, List, [], ◌∷◌, Result, ok, err, ◌≡◌, ◌⊎◌, refl,
  Bool-cases, inl, inr, ◌∙◌,
}
use yc_sheduler.Resource.{Call}
use yc_sheduler.Yc.{
  Operation, Sdk, Signal, Wait, call_bind, polled, wait_loop, wait_operation, execute_operation,
  ensure_initialized, done, ticked, decided,
}

module _ {W C : Type 0} (sdk : Sdk W C) where
  -- The last call was a poll of the operation, which said that it is done, without an error.
  abbrev pub Succeeded : C → String → W → Type 0
  Succeeded conn id w' =
      (w : W) × (op : Operation) × (sdk.get_operation conn id w ≡ (ok op, w'))
      × (op.done ≡ true)
      × (op.error ≡ none)

  -- What a poll decides, by the answer.
  polled-Succeeded :
      (conn : C) (id : String) (w v w' : W) (op : Operation) (rest : Wait W (Unit {0}))
      → sdk.get_operation conn id w ≡ (ok op, v)
      → polled op rest v ≡ (some (ok tt), w')
      → (rest ≡ (some (ok tt), w')) ⊎ Succeeded conn id w'
  polled-Succeeded conn id w v w' op rest a h = elim (Bool-cases op.done) [
    | inr pending ↦ inl (simp pending at h)
    | inl over ↦ ended op.error refl (simp over at h) over
  ]
    where
      ended :
          (o : Option String)
          → op.error ≡ o
          → decided o v ≡ (some (ok tt), w')
          → op.done ≡ true
          → (rest ≡ (some (ok tt), w')) ⊎ Succeeded conn id w'
      ended none fine k over = inr (w, op, a ∙ cc, over, fine)
      ended (some message) bad k over = absurd (cc)

  wait_loop-Succeeded :
      (conn : C) (id : String) (signals : List Signal) (w w' : W)
      → wait_loop sdk conn id signals w ≡ (some (ok tt), w')
      → Succeeded conn id w'
  unfolding wait_loop
  wait_loop-Succeeded conn id [] w w' e = absurd (cc)
  wait_loop-Succeeded conn id (done ∷ rest) w w' e = absurd (cc)
  wait_loop-Succeeded conn id (ticked ∷ rest) w w' e =
      go (sdk.get_operation conn id w) refl e (λ v. wait_loop-Succeeded conn id rest v w')
    where
      go :
          (answer : Result Operation × W)
          → sdk.get_operation conn id w ≡ answer
          → call_bind answer (λ op v. polled op (wait_loop sdk conn id rest v) v)
            ≡ (some (ok tt), w')
          → ((v : W) → wait_loop sdk conn id rest v ≡ (some (ok tt), w') → Succeeded conn id w')
          → Succeeded conn id w'
      go (err x, v) a h again = absurd (cc)
      go (ok op, v) a h again =
          elim (polled-Succeeded conn id w v w' op (wait_loop sdk conn id rest v) a h) [
            | inl later ↦ again v later
            | inr now ↦ now
          ]

-- A chain of calls that succeeded: its first call did, and so did the rest.
call_before :
    {W A B : Type 0} (call : Result A × W) (k : A → W → Wait W B) (b : B) (w' : W)
    → call_bind call k ≡ (some (ok b), w')
    → (a : A) × (w : W) × (call ≡ (ok a, w)) × (k a w ≡ (some (ok b), w'))
call_before (ok a, w) k b w' e = (a, w, refl, e)
call_before (err x, w) k b w' e = absurd (cc)

-- For an initialized client, and however the signals come: if the start or stop of a resource
-- reports success, then the operation was issued and has an id that is not empty, and the world is
-- as the poll of that operation left it which said that it is done and has no error.
pub execute_operation-Succeeded :
    {W C : Type 0} (sdk : Sdk W C) (signals : List Signal) (endpoint : String)
    (op_func : C → Call W String) (w w' : W)
    → execute_operation (some sdk) signals endpoint op_func w ≡ (some (ok tt), w')
    → (conn polls : C) × (id : String) × (w1 w2 : W) × (op_func conn w1 ≡ (ok id, w2))
      × (str_eq id "" ≡ false)
      × Succeeded sdk polls id w'
unfolding execute_operation ensure_initialized wait_operation
execute_operation-Succeeded sdk signals endpoint op_func w w' e =
    let (conn, w1, _, e1) = call_before (sdk.get_connection endpoint w) _ tt w' e in
    let (id, w2, issued, e2) = call_before (op_func conn w1) _ tt w' e1 in
    elim (Bool-cases (str_eq id "")) [
      | inl nameless ↦ let bad = rw nameless at e2 in absurd (cc)
      | inr named ↦
          let e3 = rw named at e2 in
          let (polls, w3, _, e4) =
            call_before (sdk.get_connection "yandex.cloud.operation.OperationService.Get" w2) _ tt
              w' e3 in
          (
            conn,
            polls,
            id,
            w1,
            w2,
            issued,
            named,
            wait_loop-Succeeded sdk polls id signals w3 w' e4,
          )
    ]
