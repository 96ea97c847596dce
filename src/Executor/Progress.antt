-- ===== src/Executor/Progress.antt =====
-- What the in-flight keys cannot do to the jobs that wait for them: `tryLock` gives an answer at
-- once, and no job waits for another one.
use mathlib.Core.List.{append-nil, append_assoc}
use yc_sheduler.Prelude.{
  ℕ, suc, ◌+◌, ◌≤◌, String, str_eq_refl, false, List, [], ◌∷◌, ◌++◌, ◌≡◌, refl, sym, ap, ◌∙◌, ◌⊎◌,
  inl, inr, arith, length, length-append, All, All-append, Bool-cases,
}
use yc_sheduler.Executor.{InFlightLocks, held, try_lock, unlock}
use yc_sheduler.Executor.Interleaving.{
  Stage, waiting, working, finished, Job, System, job, Step, spawn, acquire, refuse, release, Reach,
  next, working_on, Reach-IsExclusive,
}

-- How many steps a job has before it.
abbrev steps_of : Stage → ℕ
steps_of waiting = 2
steps_of working = 1
steps_of finished = 0

abbrev pub remaining : List Job → ℕ
remaining [] = 0
remaining (j ∷ js) = steps_of j.stage + remaining js

-- Steps of the jobs that there are, `n` of them, in any order: none starts a further job.
pub data Runs : ℕ → System → System → Type 0 where
  rest : {s : System} → Runs 0 s s
  more :
      {n : ℕ} {s t u : System}
      → Step s t
      → length t.jobs ≡ length s.jobs
      → Runs n t u
      → Runs (suc n) s u

-- Every job has ended, and no key is in flight.
abbrev pub IsIdle : System → Type 0
IsIdle s = All (λ j. j.stage ≡ finished) s.jobs × (s.locks ≡ [])

remaining-append : (xs ys : List Job) → remaining (xs ++ ys) ≡ remaining xs + remaining ys
remaining-append [] ys = omega arith
remaining-append (x ∷ xs) ys = omega (arith, remaining-append xs ys)

-- One job that moves on to its next stage.
remaining-replace :
    (before after : List Job) (i j : Job)
    → suc (steps_of j.stage) ≤ steps_of i.stage
    → suc (remaining (before ++ j ∷ after)) ≤ remaining (before ++ i ∷ after)
remaining-replace before after i j h =
    omega (arith, remaining-append before (i ∷ after), remaining-append before (j ∷ after))

Step-remaining :
    {s t : System}
    → Step s t
    → length t.jobs ≡ length s.jobs
    → suc (remaining t.jobs) ≤ remaining s.jobs
Step-remaining {s} (spawn key e) same = absurd (omega (arith, ap (λ x. length x.jobs) e, same))
Step-remaining (acquire key before after from got to) same =
    rw (from, to) (remaining-replace before after (job key waiting) (job key working) (omega arith))
Step-remaining (refuse key before after from got to) same =
    rw (from, to)
      (remaining-replace before after (job key waiting) (job key finished) (omega arith))
Step-remaining (release key before after from free to) same =
    rw (from, to)
      (remaining-replace before after (job key working) (job key finished) (omega arith))

Runs-remaining : {n : ℕ} {s t : System} → Runs n s t → n + remaining t.jobs ≤ remaining s.jobs
Runs-remaining rest = omega arith
Runs-remaining (more step same later) =
    omega (arith, Step-remaining step same, Runs-remaining later)

Runs-Reach : {n : ℕ} {s t : System} → Reach s → Runs n s t → Reach t
Runs-Reach r rest = r
Runs-Reach r (more step same later) = Runs-Reach (next r step) later

-- A step of one of the jobs.
abbrev pub Advances : System → Type 0
Advances s = (t : System) × Step s t × (length t.jobs ≡ length s.jobs)

length-replace :
    (before after : List Job) (i j : Job)
    → length (before ++ j ∷ after) ≡ length (before ++ i ∷ after)
length-replace before after i j =
    omega (arith, length-append before (i ∷ after), length-append before (j ∷ after))

-- A job that waits gets its lock or is refused, and a job that works can release its lock.
advance :
    (s : System) (before after : List Job) (key : String) (stage : Stage)
    → s.jobs ≡ before ++ job key stage ∷ after
    → (stage ≡ finished) ⊎ Advances s
advance s before after key finished from = inl refl
advance s before after key working from = inr (
  record { locks = unlock s.locks key; jobs = before ++ job key finished ∷ after },
  release key before after from refl refl,
  length-replace before after (job key working) (job key finished) ∙ sym (ap length from),
)
advance s before after key waiting from = elim (Bool-cases (try_lock s.locks key).1) [
  | inl got ↦ inr (
    record { locks = (try_lock s.locks key).0; jobs = before ++ job key working ∷ after },
    acquire key before after from (ap (λ b. ((try_lock s.locks key).0, b)) got) refl,
    length-replace before after (job key waiting) (job key working) ∙ sym (ap length from),
  )
  | inr taken ↦ inr (
    record { locks = (try_lock s.locks key).0; jobs = before ++ job key finished ∷ after },
    refuse key before after from (ap (λ b. ((try_lock s.locks key).0, b)) taken) refl,
    length-replace before after (job key waiting) (job key finished) ∙ sym (ap length from),
  )
]

All-finished_or_advance :
    (s : System) (before after : List Job)
    → s.jobs ≡ before ++ after
    → All (λ j. j.stage ≡ finished) before
    → All (λ j. j.stage ≡ finished) s.jobs ⊎ Advances s
All-finished_or_advance s before [] from done = inl (rw (from, append-nil before) done)
All-finished_or_advance s before (j ∷ after) from done =
    elim (advance s before after j.key j.stage from) [
      | inr moves ↦ inr moves
      | inl ended ↦
          All-finished_or_advance s (before ++ j ∷ []) after
            (from ∙ sym (append_assoc before (j ∷ []) after))
            (All-append _ before (j ∷ []) done (ended, tt))
    ]

working_on-finished :
    (key : String) (js : List Job) → All (λ j. j.stage ≡ finished) js → working_on key js ≡ 0
working_on-finished key [] h = refl
working_on-finished key (j ∷ js) (h, hs) = rw h (omega (arith, working_on-finished key js hs))

none_held : (locks : InFlightLocks) → ((key : String) → held key locks ≡ false) → locks ≡ []
none_held [] h = refl
none_held (k ∷ ks) h = let bad = rw (str_eq_refl k) at (h k) in absurd (cc)

-- From a system that jobs can get to, however they were spawned and interleaved: after `n` steps of
-- the jobs that are there, in any order, at least `n` fewer steps remain, of which a job has two at
-- most; and either every job has ended and no key is in flight, or one of the jobs can make a step.
pub Runs-Idle :
    {n : ℕ} {s t : System}
    → Reach s
    → Runs n s t
    → (n + remaining t.jobs ≤ remaining s.jobs) × (IsIdle t ⊎ Advances t)
Runs-Idle {t = t} r run = (
  Runs-remaining run,
  elim (All-finished_or_advance t [] t.jobs refl tt) [
    | inr moves ↦ inr moves
    | inl ended ↦ inl (
      ended,
      none_held t.locks (λ key. ground (
        arith,
        (Reach-IsExclusive (Runs-Reach r run) key).0,
        working_on-finished key t.jobs ended,
      )),
    )
  ],
)
