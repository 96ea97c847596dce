-- ===== src/Web/Server/Running.antt =====
-- `Server.Start` and `Server.Shutdown` of internal/web/server.go: the two goroutines of a server and
-- the calls of `Shutdown`, as interleaved steps.
use yc_sheduler.Prelude.{
  ℕ, zero, suc, ◌+◌, ◌*◌, ◌≤◌, ◌<◌, ◌≡◌, ◌⊎◌, inl, inr, refl, Bool, true, false, if◌then◌else◌,
  arith, Bool-cases,
}

-- Whether the server's context is done, whether `http.Server.Shutdown` was called, whether the
-- goroutine of `Serve` and the one that waits for the context still run, the calls of `Shutdown` that
-- have cancelled the context and not yet reached the server, the ones that wait in it, the requests
-- that are being answered, and the warnings of `Serve`.
pub record Server : Type 0 where
  pub ctx_done : Bool
  pub closed : Bool
  pub serving : Bool
  pub watching : Bool
  pub pending : ℕ
  pub waiting : ℕ
  pub active : ℕ
  pub warnings : ℕ

-- After `Start`.
abbrev pub started : Server
started = record {
  ctx_done = false;
  closed = false;
  serving = true;
  watching = true;
  pending = 0;
  waiting = 0;
  active = 0;
  warnings = 0;
}

-- The first half of `Shutdown`: `s.cancel()`.
abbrev pub cancelled : Server → Server
cancelled s = record s { ctx_done = true; pending = suc s.pending }

-- What others do: the parent's context ends, `Shutdown` is called, and requests come, also late ones on
-- connections that were made before the server was closed, and are answered in their own time, if at
-- all. A call of `Shutdown` gives up when its context ends; that of the goroutine's own call is
-- `context.Background()`, which never does, but the calls are not told apart here.
pub data Outside : Server → Server → Type 0 where
  parent_ends : {s : Server} → Outside s (record s { ctx_done = true })
  call : {s : Server} → Outside s (cancelled s)
  request : {s : Server} → Outside s (record s { active = suc s.active })
  gives_up : {s : Server} (n : ℕ) → s.waiting ≡ suc n → Outside s (record s { waiting = n })
  answered : {s : Server} (n : ℕ) → s.active ≡ suc n → Outside s (record s { active = n })

-- What the goroutines and the calls do. `http.Server.Shutdown` closes the listener and then waits until
-- no request is being answered, for as long as its context allows.
-- `Serve` returns `http.ErrServerClosed` once the server is shut down, and another error only before.
pub data Inside : Server → Server → Type 0 where
  wake :
      {s t : Server}
      → s.watching ≡ true
      → s.ctx_done ≡ true
      → t ≡ record (cancelled s) { watching = false }
      → Inside s t
  close :
      {s t : Server} (n : ℕ)
      → s.pending ≡ suc n
      → t ≡ record s { closed = true; pending = n; waiting = suc s.waiting }
      → Inside s t
  return :
      {s t : Server} (n : ℕ)
      → s.waiting ≡ suc n
      → s.active ≡ 0
      → t ≡ record s { waiting = n }
      → Inside s t
  serve_ends :
      {s t : Server}
      → s.serving ≡ true
      → s.closed ≡ true
      → t ≡ record s { serving = false }
      → Inside s t
  serve_fails :
      {s t : Server}
      → s.serving ≡ true
      → s.closed ≡ false
      → t ≡ record s { serving = false; warnings = suc s.warnings }
      → Inside s t

pub data Reach : Server → Type 0 where
  start : Reach started
  outside : {s t : Server} → Reach s → Outside s t → Reach t
  inside : {s t : Server} → Reach s → Inside s t → Reach t

-- `n` steps of the goroutines and the calls.
pub data Runs : ℕ → Server → Server → Type 0 where
  rest : {s : Server} → Runs 0 s s
  more : {n : ℕ} {s t u : Server} → Inside s t → Runs n t u → Runs (suc n) s u

-- The steps that are left.
abbrev pub remaining : Server → ℕ
remaining s =
    2 * s.pending + s.waiting + (if s.watching then 3 else 0) + (if s.serving then 1 else 0)

-- No goroutine and no call runs any more, and the server is shut down.
abbrev pub IsStopped : Server → Type 0
IsStopped s =
    (s.closed ≡ true)
    × (s.serving ≡ false)
    × (s.watching ≡ false)
    × (s.pending ≡ 0)
    × (s.waiting ≡ 0)

-- All that is left are calls of `Shutdown` that wait for requests which are still being answered.
abbrev pub IsWaiting : Server → Type 0
IsWaiting s =
    (s.closed ≡ true)
    × (s.serving ≡ false)
    × (s.watching ≡ false)
    × (s.pending ≡ 0)
    × (0 < s.waiting)
    × (0 < s.active)

record Inv (s : Server) : Type 0 where
  woken : s.watching ≡ false → (0 < s.pending) ⊎ (s.closed ≡ true)
  warned : s.warnings + (if s.serving then 1 else 0) ≤ 1

Outside-Inv : {s t : Server} → Outside s t → Inv s → Inv t
Outside-Inv parent_ends i = record { woken = i.woken; warned = i.warned }
Outside-Inv call i = record { woken = λ h. inl (omega arith); warned = i.warned }
Outside-Inv request i = record { woken = i.woken; warned = i.warned }
Outside-Inv (gives_up n some) i = record { woken = i.woken; warned = i.warned }
Outside-Inv (answered n some) i = record { woken = i.woken; warned = i.warned }

Inside-Inv : {s t : Server} → Inside s t → Inv s → Inv t
Inside-Inv {s} (wake here done e) i =
    rw e (record { woken = λ h. inl (omega arith); warned = i.warned })
Inside-Inv {s} (close n some e) i = rw e (record { woken = λ h. inr refl; warned = i.warned })
Inside-Inv {s} (return n some idle e) i = rw e (record { woken = i.woken; warned = i.warned })
Inside-Inv {s} (serve_ends here closed e) i =
    rw e (record { woken = i.woken; warned = ground (arith, i.warned, here) })
Inside-Inv {s} (serve_fails here up e) i =
    rw e (record { woken = i.woken; warned = ground (arith, i.warned, here) })

Reach-Inv : {s : Server} → Reach s → Inv s
Reach-Inv start = record { woken = λ h. cc; warned = omega arith }
Reach-Inv (outside r step) = Outside-Inv step (Reach-Inv r)
Reach-Inv (inside r step) = Inside-Inv step (Reach-Inv r)

Inside-remaining : {s t : Server} → Inside s t → suc (remaining t) ≤ remaining s
Inside-remaining {s} (wake here done e) = rw (e, here) (omega arith)
Inside-remaining {s} (close n some e) = rw (e, some) (omega arith)
Inside-remaining {s} (return n some idle e) = rw (e, some) (omega arith)
Inside-remaining {s} (serve_ends here closed e) = rw (e, here) (omega arith)
Inside-remaining {s} (serve_fails here up e) = rw (e, here) (omega arith)

Inside-done : {s t : Server} → Inside s t → s.ctx_done ≡ true → t.ctx_done ≡ true
Inside-done (wake here done e) h = rw e refl
Inside-done (close n some e) h = rw e h
Inside-done (return n some idle e) h = rw e h
Inside-done (serve_ends here closed e) h = rw e h
Inside-done (serve_fails here up e) h = rw e h

Runs-remaining : {n : ℕ} {s t : Server} → Runs n s t → n + remaining t ≤ remaining s
Runs-remaining rest = omega arith
Runs-remaining (more step later) = omega (arith, Inside-remaining step, Runs-remaining later)

Runs-Reach : {n : ℕ} {s t : Server} → Reach s → Runs n s t → Reach t
Runs-Reach r rest = r
Runs-Reach r (more step later) = Runs-Reach (inside r step) later

Runs-done : {n : ℕ} {s t : Server} → Runs n s t → s.ctx_done ≡ true → t.ctx_done ≡ true
Runs-done rest h = h
Runs-done (more step later) h = Runs-done later (Inside-done step h)

-- A step of a goroutine or of a call.
abbrev pub Moves : Server → Type 0
Moves s = (t : Server) × Inside s t

closes : (s : Server) (n : ℕ) → s.pending ≡ n → (n ≡ 0) ⊎ Moves s
closes s zero e = inl refl
closes s (suc n) e = inr (_, close n e refl)

serves : (s : Server) → s.serving ≡ true → Moves s
serves s here = elim (Bool-cases s.closed) [
  | inl closed ↦ (_, serve_ends here closed refl)
  | inr up ↦ (_, serve_fails here up refl)
]

-- The calls that wait: there are none, or one returns, or a request is still being answered.
returns :
    (s : Server) (n m : ℕ)
    → s.waiting ≡ n
    → s.active ≡ m
    → (n ≡ 0) ⊎ Moves s ⊎ ((0 < s.waiting) × (0 < s.active))
returns s zero m e f = inl refl
returns s (suc n) zero e f = inr (inl (_, return n e f refl))
returns s (suc n) (suc m) e f = inr (inr (omega (arith, e), omega (arith, f)))

-- After the goroutines and the calls that have not reached the server yet.
winds_down :
    (s : Server)
    → s.closed ≡ true
    → s.serving ≡ false
    → s.watching ≡ false
    → s.pending ≡ 0
    → IsStopped s ⊎ IsWaiting s ⊎ Moves s
winds_down s closed over woken none = elim (returns s s.waiting s.active refl refl) [
  | inl idle ↦ inl (closed, over, woken, none, idle)
  | inr (inl moves) ↦ inr (inr moves)
  | inr (inr (waits, busy)) ↦ inr (inl (closed, over, woken, none, waits, busy))
]

IsStopped-or_moves : (s : Server) → Inv s → s.ctx_done ≡ true → IsStopped s ⊎ IsWaiting s ⊎ Moves s
IsStopped-or_moves s i done = elim (Bool-cases s.watching) [
  | inl here ↦ inr (inr (_, wake here done refl))
  | inr woken ↦ elim (closes s s.pending refl) [
    | inr moves ↦ inr (inr moves)
    | inl none ↦ elim (Bool-cases s.serving) [
      | inl here ↦ inr (inr (serves s here))
      | inr over ↦ elim (i.woken woken) [
        | inl some ↦ absurd (omega (arith, some, none))
        | inr closed ↦ winds_down s closed over woken none
      ]
    ]
  ]
]

-- From a server that can be got to, however its context was ended, `Shutdown` called and requests
-- answered, or waiting for them given up: if the context is done, then after `n` steps of the goroutines and the calls, in any order,
-- at least `n` fewer steps remain, of which a call has two and the goroutines have four; `Serve` has
-- warned at most once; and either no goroutine and no call runs any more and the server is shut
-- down, or the server listens no more and all that is left are calls of `Shutdown`, of which one may be
-- the goroutine's own, that wait for requests which are still being answered, or a step can be made.
pub Runs-IsStopped :
    {n : ℕ} {s t : Server}
    → Reach s
    → s.ctx_done ≡ true
    → Runs n s t
    → (n + remaining t ≤ remaining s) × (t.warnings ≤ 1) × (IsStopped t ⊎ IsWaiting t ⊎ Moves t)
Runs-IsStopped {t = t} r done run =
    let i = Reach-Inv (Runs-Reach r run) in
    (Runs-remaining run, omega (arith, i.warned), IsStopped-or_moves t i (Runs-done run done))
