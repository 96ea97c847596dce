-- ===== src/Reloader/Ticks.antt =====
-- How often the schedules are loaded again.
use yc_sheduler.Prelude.{
  ℕ, zero, suc, ◌≡◌, ◌≢◌, ◌↔◌, refl, true, false, Option, none, some, List, [], ◌∷◌, Result, ok,
  err, Error, Bool, if◌then◌else◌,
}
use yc_sheduler.Resource.{Call}
use yc_sheduler.Reloader.{Sha256, Reloader, tick, run}

-- The callback, so many times, whatever it returns.
abbrev pub repeated : {W : Type 0} → Call W (Unit {0}) → ℕ → W → W
repeated on_change zero w = w
repeated on_change (suc n) w = repeated on_change n (on_change w).1

-- The number of changes in what was read of a directory, after a signature, if there is one: the first
-- signature at all, and every one that is not equal to the one that was read before it. Reads that
-- failed are left out.
pub data Changes {H : Type 0} : Option H → List (Result H) → ℕ → Type 0 where
  over : {last : Option H} → Changes last [] 0
  unread :
      {last : Option H} {e : Error} {rest : List (Result H)} {n : ℕ}
      → Changes last rest n
      → Changes last (err e ∷ rest) n
  first :
      {sig : H} {rest : List (Result H)} {n : ℕ}
      → Changes (some sig) rest n
      → Changes none (ok sig ∷ rest) (suc n)
  same :
      {last sig : H} {rest : List (Result H)} {n : ℕ}
      → sig ≡ last
      → Changes (some last) rest n
      → Changes (some last) (ok sig ∷ rest) n
  changed :
      {last sig : H} {rest : List (Result H)} {n : ℕ}
      → sig ≢ last
      → Changes (some sig) rest n
      → Changes (some last) (ok sig ∷ rest) (suc n)

module _ {H W : Type 0} (sha : Sha256 H) (on_change : Call W (Unit {0})) where
  -- The callback ran once for each change.
  abbrev Counted : Option H → List (Result H) → W → W → Type 0
  Counted last sigs w w' = (n : ℕ) × Changes last sigs n × (w' ≡ repeated on_change n w)

  Counted-changed :
      (last : Option H) (sig : H) (rest : List (Result H)) (w w' : W)
      → ((n : ℕ) → Changes (some sig) rest n → Changes last (ok sig ∷ rest) (suc n))
      → Counted (some sig) rest (on_change w).1 w'
      → Counted last (ok sig ∷ rest) w w'
  Counted-changed last sig rest w w' step (n, changes, e) = (suc n, step n changes, e)

  Counted-same :
      (last sig : H) (rest : List (Result H)) (w w' : W)
      → sig ≡ last
      → Counted (some last) rest w w'
      → Counted (some last) (ok sig ∷ rest) w w'
  Counted-same last sig rest w w' is_same (n, changes, e) = (n, same is_same changes, e)

  Counted-unread :
      (last : Option H) (x : Error) (rest : List (Result H)) (w w' : W)
      → Counted last rest w w'
      → Counted last (err x ∷ rest) w w'
  Counted-unread last x rest w w' (n, changes, e) = (n, unread changes, e)

  run-Counted :
      ((a b : H) → (sha.equal a b ≡ true) ↔ (a ≡ b))
      → (sigs : List (Result H)) (last : Option H) (w : W)
      → Counted last sigs w (run sha on_change sigs (record { last_sig = last; world = w })).world
  unfolding run tick
  run-Counted exact [] last w = (0, over, refl)
  run-Counted exact (err x ∷ rest) last w =
      Counted-unread last x rest w _ (run-Counted exact rest last w)
  run-Counted exact (ok sig ∷ rest) none w =
      Counted-changed none sig rest w _ (λ n c. first c)
        (run-Counted exact rest (some sig) (on_change w).1)
  run-Counted exact (ok sig ∷ rest) (some last) w =
      go (λ l v. run-Counted exact rest l v) (sha.equal sig last) refl
    where
      go :
          ((l : Option H) (v : W)
            → Counted l rest v (run sha on_change rest (record { last_sig = l; world = v })).world)
          → (b : Bool) → sha.equal sig last ≡ b
          → Counted
              (some last)
              (ok sig ∷ rest)
              w
              (run sha on_change rest (
                if b
                then record { last_sig = some last; world = w }
                else record { last_sig = some sig; world = (on_change w).1 })).world
      go later true is_same =
          Counted-same last sig rest w _ ((exact sig last).0 is_same) (later (some last) w)
      go later false differs =
          Counted-changed (some last) sig rest w _
            (λ n c. changed (λ e. let eq = (exact sig last).1 e in absurd (cc)) c)
            (later (some sig) (on_change w).1)

  -- If digests are compared exactly: over any sequence of ticks, the callback runs exactly once for
  -- every change of the signature, whether it succeeds or fails, and not at all for a tick at which the
  -- directory cannot be read or its signature is the one that was read before.
  pub run-Changes :
      ((a b : H) → (sha.equal a b ≡ true) ↔ (a ≡ b))
      → (sigs : List (Result H)) (r : Reloader H W)
      → (n : ℕ) × Changes r.last_sig sigs n
        × ((run sha on_change sigs r).world ≡ repeated on_change n r.world)
  run-Changes exact sigs r = run-Counted exact sigs r.last_sig r.world
