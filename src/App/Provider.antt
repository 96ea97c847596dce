-- ===== src/App/Provider.antt =====
-- internal/app/ui_provider.go: the states of the resources, kept for 30 seconds.
use yc_sheduler.Calendar.Keys.{is_about}
use yc_sheduler.Prelude.{
  ℕ, ◌+◌, ◌*◌, ◌≡◌, ◌≤◌, ◌<◌, ltb, refl, String, str_eq, str_eq_refl, Bool, true, false, ◌||◌,
  if◌then◌else◌, Option, none, some, List, [], ◌∷◌, Result, ok, err, Bool-cases, inl, inr, arith,
  ap, ◌∙◌, sym, eq_iff, Option-cases,
}
use yc_sheduler.Config.{Resource, Schedule}
use yc_sheduler.GoTime.Instant.{Time, second_ns, before}
use yc_sheduler.Resource.{StateChecker}
use yc_sheduler.Calendar.{resource_key}

-- `web.ResourceStatus`
pub record ResourceStatus : Type 0 where
  pub state : String
  pub error : String
  pub is_transitional : Bool

pub record CachedResourceStatus : Type 0 where
  pub expires_at : Time
  pub status : ResourceStatus

-- A map, its newest entries first.
abbrev pub Map : Type 0 → Type 0
Map A = List (String × A)

abbrev pub find : {A : Type 0} → String → Map A → Option A
find key [] = none
find key (p ∷ ps) = let rest = find key ps in if str_eq p.0 key then some p.1 else rest

abbrev pub status_cache_ttl : ℕ
status_cache_ttl = 30 * second_ns

-- What the provider changes: its cache, and the world through the calls of the checker.
pub record State (W : Type 0) : Type 0 where
  pub cache : Map CachedResourceStatus
  pub world : W

abbrev pub expiry : Time → Time
expiry now = record { ns = now.ns + status_cache_ttl; loc = now.loc }

abbrev pub status_of : Result (String × Bool) → ResourceStatus
status_of (err e) = record {
  state = "unknown";
  error = "failed to fetch state";
  is_transitional = false;
}
status_of (ok (state, is_transitional)) = record {
  state = state;
  error = "";
  is_transitional = is_transitional;
}

-- A status that is still to be used, if there is one.
abbrev pub usable : Time → Option CachedResourceStatus → Option ResourceStatus
usable now none = none
usable now (some c) = if before now c.expires_at then some c.status else none

abbrev pub is_some : {A : Type 0} → Option A → Bool
is_some none = false
is_some (some a) = true

-- What is kept, if anything, has expired.
abbrev pub IsStale : Time → Option CachedResourceStatus → Type 0
IsStale now none = Unit
IsStale now (some c) = c.expires_at.ns ≤ now.ns

IsStale-usable :
    (now : Time) (o : Option CachedResourceStatus) → IsStale now o → usable now o ≡ none
IsStale-usable now none stale = refl
IsStale-usable now (some c) stale = ground arith

module _ {W : Type 0} (checker : StateChecker W) where
  -- Asks the checker, and keeps the answer.
  unfoldable pub fetch : Time → String → Resource → State W → ResourceStatus × State W
  fetch now key r s =
      let (answer, w) = checker.get_state r s.world in
      let status = status_of answer in
      (
        status,
        record {
          cache = (key, record { expires_at = expiry now; status = status }) ∷ s.cache;
          world = w;
        },
      )

  abbrev pub given :
      Option ResourceStatus → ResourceStatus × State W → State W → ResourceStatus × State W
  given (some status) fetched s = (status, s)
  given none fetched s = fetched

  unfoldable pub get_resource_status : Time → String → Resource → State W → ResourceStatus × State W
  get_resource_status now key r s = given (usable now (find key s.cache)) (fetch now key r s) s

  -- If nothing is kept for a key, or what is kept has expired: the checker is asked once for the
  -- resource; at any time less than 30 seconds later the same status is returned without a call and
  -- without a change; and at any time from 30 seconds on the checker is asked again.
  pub get_resource_status-ttl :
      (now later : Time) (key : String) (r : Resource) (s : State W)
      → IsStale now (find key s.cache)
      → let (status, s') = get_resource_status now key r s in
        (s'.world ≡ (checker.get_state r s.world).1)
        × (later.ns < now.ns + 30 * 1000000000 → get_resource_status later key r s' ≡ (status, s'))
        × (now.ns + 30 * 1000000000 ≤ later.ns
            → (get_resource_status later key r s').1.world ≡ (checker.get_state r s'.world).1)
  unfolding get_resource_status fetch
  get_resource_status-ttl now later key r s stale =
      let none_usable = IsStale-usable now (find key s.cache) stale in
      rw (none_usable, str_eq_refl key)
        (
          refl,
          (λ young.
              let e : ltb later.ns (now.ns + 30 * 1000000000) ≡ true = ground arith in rw e refl),
          (λ old.
              let e : ltb later.ns (now.ns + 30 * 1000000000) ≡ false = ground arith in rw e refl),
        )

  -- The loop over the schedules: one status for each key, found or fetched when the key comes first.
  unfoldable pub collect_statuses :
      Time → List Schedule → Map ResourceStatus → State W → Map ResourceStatus × State W
  collect_statuses now [] statuses s = (statuses, s)
  collect_statuses now (sch ∷ rest) statuses s =
      let key = resource_key sch.resource in
      elim (find key statuses) [
        | some seen ↦ collect_statuses now rest statuses s
        | none ↦
            let (status, s') = get_resource_status now key sch.resource s in
            collect_statuses now rest ((key, status) ∷ statuses) s'
      ]

  unfoldable pub resource_statuses : Time → List Schedule → State W → Map ResourceStatus × State W
  resource_statuses now schedules s = collect_statuses now schedules [] s

  found_or_later :
      (key k : String) (status : ResourceStatus) (statuses : Map ResourceStatus) (later : Bool)
      → (is_some (find key ((k, status) ∷ statuses)) || later)
        ≡ (is_some (find key statuses) || (str_eq k key || later))
  found_or_later key k status statuses later = ground arith

  -- A key that was seen before adds nothing.
  seen_before :
      (key k : String) (seen : ResourceStatus) (statuses : Map ResourceStatus) (later : Bool)
      → find k statuses ≡ some seen
      → (is_some (find key statuses) || later)
        ≡ (is_some (find key statuses) || (str_eq k key || later))
  seen_before key k seen statuses later e = elim (Bool-cases (str_eq k key)) [
    | inl same ↦
        let found : find key statuses ≡ some seen =
          ap (λ x. find x statuses) (sym ((eq_iff k key).0 same)) ∙ e in
        rw found refl
    | inr differ ↦ rw differ refl
  ]

  collect_statuses-keys :
      (now : Time) (schedules : List Schedule) (statuses : Map ResourceStatus) (s : State W)
      (key : String)
      → is_some (find key (collect_statuses now schedules statuses s).0)
        ≡ (is_some (find key statuses) || is_about schedules key)
  unfolding collect_statuses
  collect_statuses-keys now [] statuses s key = ground arith
  collect_statuses-keys now (sch ∷ rest) statuses s key =
      elim (Option-cases (find (resource_key sch.resource) statuses)) [
        | inl fresh ↦
            rw (fresh, collect_statuses)
              (collect_statuses-keys now rest _ _ key
                ∙ found_or_later key (resource_key sch.resource) _ statuses (is_about rest key))
        | inr (seen, e) ↦
            rw (e, collect_statuses)
              (collect_statuses-keys now rest statuses s key
                ∙ seen_before key (resource_key sch.resource) seen statuses (is_about rest key) e)
      ]

  -- The page gets a status for exactly the keys of the resources that the schedules name.
  pub resource_statuses-keys :
      (now : Time) (schedules : List Schedule) (s : State W) (key : String)
      → is_some (find key (resource_statuses now schedules s).0) ≡ is_about schedules key
  unfolding resource_statuses
  resource_statuses-keys now schedules s key = collect_statuses-keys now schedules [] s key
