-- ===== src/Reloader.antt =====
-- internal/reloader/reloader.go: when the schedules are loaded again. SHA-256 is a parameter, and so
-- is the callback, which acts on a state `W`.
pub mod Hashed
pub mod Ticks
use yc_sheduler.Prelude.{
  ℕ, String, str_eq, Bool, true, false, if◌then◌else◌, Option, none, some, List, [], ◌∷◌, ◌++◌,
  Result, ok, err, ◌>>=◌,
}
use yc_sheduler.Config.{Bytes}
use yc_sheduler.Config.Files.{Files, sort_names, yaml_names}
use yc_sheduler.Resource.{Call}

-- The digest of the bytes that were written to the hash, and the comparison of two digests.
pub record Sha256 (H : Type 0) : Type 0 where
  pub sum : Bytes → H
  pub equal : H → H → Bool

-- The bytes that a file adds: its name and its content, each with a zero behind it.
abbrev pub file_bytes : Bytes → Bytes → Bytes
file_bytes name content = name ++ 0 ∷ (content ++ 0 ∷ [])

module _ (files : Files) where
  -- The loop over the files.
  unfoldable pub hashed_bytes : String → List Bytes → Result Bytes
  hashed_bytes path [] = ok []
  hashed_bytes path (name ∷ rest) = do
    content ← files.read_file path name
    more ← hashed_bytes path rest
    ok (file_bytes name content ++ more)

  unfoldable pub calc_dir_signature : {H : Type 0} → Sha256 H → String → Result H
  calc_dir_signature sha path = do
    entries ← files.read_dir path
    bytes ← hashed_bytes path (sort_names (yaml_names entries))
    ok (sha.sum bytes)

-- `lastSig`, if there is one, and what the callback acts on.
pub record Reloader (H W : Type 0) : Type 0 where
  pub last_sig : Option H
  pub world : W

module _ {H W : Type 0} (sha : Sha256 H) (on_change : Call W (Unit {0})) where
  -- `r.hasLastSig && sig == r.lastSig`
  abbrev pub unchanged : Option H → H → Bool
  unchanged none sig = false
  unchanged (some last) sig = sha.equal sig last

  -- A tick, with the signature of the directory at that time. A failed reload is not tried again
  -- before the next change.
  unfoldable pub tick : Result H → Reloader H W → Reloader H W
  tick (err e) r = r
  tick (ok sig) r =
      if unchanged r.last_sig sig
      then r
      else record { last_sig = some sig; world = (on_change r.world).1 }

  -- The signature when the watch begins.
  unfoldable pub start : Result H → W → Reloader H W
  start (err e) w = record { last_sig = none; world = w }
  start (ok sig) w = record { last_sig = some sig; world = w }

  -- The loop over the ticks, given what the directory was at each.
  unfoldable pub run : List (Result H) → Reloader H W → Reloader H W
  run [] r = r
  run (sig ∷ rest) r = run rest (tick sig r)
