-- ===== src/Executor/Interleaving.antt =====
-- Jobs run in goroutines of their own: any number of them, in any order, meet only at the mutex
-- that `tryLock` and `unlock` hold while they look at the in-flight keys.
use yc_sheduler.Prelude.{
  ℕ, ◌+◌, ◌≤◌, String, str_eq, Bool, true, false, if◌then◌else◌, List, [], ◌∷◌, ◌++◌, ◌≡◌, refl,
  arith, eq_iff, ap, sym,
}
use yc_sheduler.Executor.{InFlightLocks, held, try_lock, unlock}

pub data Stage : Type 0 where
  waiting working finished : Stage

-- A job that has still to ask for its lock, that holds it, or that has ended.
pub record Job : Type 0 where
  pub key : String
  pub stage : Stage

pub record System : Type 0 where
  pub locks : InFlightLocks
  pub jobs : List Job

abbrev pub job : String → Stage → Job
job key stage = record { key = key; stage = stage }

-- The scheduler starts a job; a waiting job gets its lock, or is refused and ends; a working job
-- releases its lock and ends.
pub data Step (s t : System) : Type 0 where
  spawn : (key : String) → t ≡ record s { jobs = job key waiting ∷ s.jobs } → Step s t
  acquire :
      (key : String) (before after : List Job)
      → s.jobs ≡ before ++ job key waiting ∷ after
      → try_lock s.locks key ≡ (t.locks, true)
      → t.jobs ≡ before ++ job key working ∷ after
      → Step s t
  refuse :
      (key : String) (before after : List Job)
      → s.jobs ≡ before ++ job key waiting ∷ after
      → try_lock s.locks key ≡ (t.locks, false)
      → t.jobs ≡ before ++ job key finished ∷ after
      → Step s t
  release :
      (key : String) (before after : List Job)
      → s.jobs ≡ before ++ job key working ∷ after
      → t.locks ≡ unlock s.locks key
      → t.jobs ≡ before ++ job key finished ∷ after
      → Step s t

pub data Reach : System → Type 0 where
  begin : Reach (record { locks = []; jobs = [] })
  next : {s t : System} → Reach s → Step s t → Reach t

abbrev is_working : String → Job → ℕ
is_working key j = elim j.stage [ working ↦ (if str_eq j.key key then 1 else 0) | _ ↦ 0 ]

-- The jobs that hold a key.
abbrev pub working_on : String → List Job → ℕ
working_on key [] = 0
working_on key (j ∷ js) = is_working key j + working_on key js

working_on-append :
    (key : String) (xs ys : List Job)
    → working_on key (xs ++ ys) ≡ working_on key xs + working_on key ys
working_on-append key [] ys = omega arith
working_on-append key (x ∷ xs) ys = omega (arith, working_on-append key xs ys)

abbrev one_if : Bool → ℕ
one_if b = if b then 1 else 0

-- A key is in flight exactly while one job works on it.
abbrev pub IsExclusive : System → Type 0
IsExclusive s = (key : String) → working_on key s.jobs ≡ one_if (held key s.locks)

held-unlock :
    (locks : InFlightLocks) (key k : String)
    → held k (unlock locks key) ≡ (if str_eq key k then false else held k locks)
unfolding unlock
held-unlock [] key k = ground arith
held-unlock (x ∷ locks) key k =
    ground (arith, held-unlock locks key k, eq_iff x key, eq_iff key k, eq_iff x k)

try_lock-got :
    (locks l : InFlightLocks) (key : String)
    → try_lock locks key ≡ (l, true)
    → (held key locks ≡ false) × (l ≡ key ∷ locks)
unfolding try_lock
try_lock-got locks l key e = ground arith

try_lock-refused :
    (locks l : InFlightLocks) (key : String) → try_lock locks key ≡ (l, false) → l ≡ locks
unfolding try_lock
try_lock-refused locks l key e = ground arith

-- Replacing one job in the list changes the count by what the two contribute.
working_on-replace :
    (k : String) (before after : List Job) (i j : Job)
    → working_on k (before ++ j ∷ after) + is_working k i
      ≡ working_on k (before ++ i ∷ after) + is_working k j
working_on-replace k before after i j =
    omega (arith, working_on-append k before (i ∷ after), working_on-append k before (j ∷ after))

held-same :
    (key k : String) (locks : InFlightLocks) → str_eq key k ≡ true → held k locks ≡ held key locks
held-same key k locks e = ap (λ x. held x locks) (sym ((eq_iff key k).0 e))

acquire-IsExclusive :
    (k key : String) (locks : InFlightLocks) (before after : ℕ)
    → held key locks ≡ false
    → before ≡ one_if (held k locks)
    → after + 0 ≡ before + (if str_eq key k then 1 else 0)
    → after ≡ one_if (held k (key ∷ locks))
acquire-IsExclusive k key locks before after free h e = ground (arith, held-same key k locks)

release-IsExclusive :
    (k key : String) (locks : InFlightLocks) (before after : ℕ)
    → before ≡ one_if (held k locks)
    → after + (if str_eq key k then 1 else 0) ≡ before + 0
    → after ≡ one_if (held k (unlock locks key))
release-IsExclusive k key locks before after h e = rw held-unlock (ground arith)

Step-IsExclusive : {s t : System} → Step s t → IsExclusive s → IsExclusive t
Step-IsExclusive (spawn key e) h k = rw e (omega (arith, h k))
Step-IsExclusive {s} {t} (acquire key before after from got to) h k =
    let (free, locks) = try_lock-got s.locks t.locks key got in
    rw (to, locks)
      (acquire-IsExclusive k key s.locks (working_on k (before ++ job key waiting ∷ after)) _ free
        (rw (← from) (h k)) (working_on-replace k before after (job key waiting) (job key working)))
Step-IsExclusive {s} {t} (refuse key before after from got to) h k =
    rw (to, try_lock-refused s.locks t.locks key got)
      (omega (
        arith,
        working_on-replace k before after (job key waiting) (job key finished),
        rw from at (h k),
      ))
Step-IsExclusive {s} {t} (release key before after from free to) h k =
    rw (to, free)
      (release-IsExclusive k key s.locks (working_on k (before ++ job key working ∷ after)) _
        (rw (← from) (h k))
        (working_on-replace k before after (job key working) (job key finished)))

reached : {s : System} → Reach s → IsExclusive s
reached begin = λ k. refl
reached (next r step) = Step-IsExclusive step (reached r)

-- However jobs are spawned and interleaved: a key is in flight exactly while a job works on it, and
-- no two jobs ever work on one key.
pub Reach-IsExclusive :
    {s : System}
    → Reach s
    → (key : String)
    → (working_on key s.jobs ≡ one_if (held key s.locks)) × (working_on key s.jobs ≤ 1)
Reach-IsExclusive {s} r key = let e = reached r key in (e, ground (arith, e))
