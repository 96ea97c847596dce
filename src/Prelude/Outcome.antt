-- ===== src/Prelude/Outcome.antt =====
-- Go's `(value, error)`: the errors that the program's own code makes, and those that it passes on.
use mathlib.Core.Path.{◌≡◌, refl}
use Prim.Native.String.{String}

-- Each constructor is one message of the source; what is only put in front of a message on its way
-- up (`fmt.Errorf("…: %w", err)`) is left out.
pub data Error : Type 0 where
  empty_time invalid_time time_out_of_range invalid_weekday invalid_month_day : Error
  missing_time missing_crontab unknown_type invalid_cron no_cron_before no_cron_found : Error
  not_initialized unsupported_resource unsupported_action invalid_range : Error
  config_not_found invalid_config duplicate_name : Error
  invalid_duration schema_load schema_violation : Error
  empty_schedules_dir invalid_interval missing_config : Error
  client_not_initialized operation_failed missing_credentials invalid_credentials cancelled : Error
  -- what code outside the repository reports
  external : String → Error

-- What a call returns.
pub data Result {ℓ} (A : Type ℓ) : Type ℓ where
  err : Error → Result A
  ok : A → Result A

-- `if err != nil { return err }`, before the rest.
infixl 5 ◌>>=◌
abbrev pub ◌>>=◌ {ℓ κ} : {A : Type ℓ} {B : Type κ} → Result A → (A → Result B) → Result B
call >>= rest = elim call [ err e ↦ err e | ok value ↦ rest value ]

module _ {ℓ} {A : Type ℓ} where
  pub ok_injective : (a b : A) → ok a ≡ ok b → a ≡ b
  ok_injective a b e = cc

  -- The call before a rest that succeeded.
  pub ok_before {κ} :
      {B : Type κ} (call : Result A) (rest : A → Result B) (b : B)
      → (call >>= rest) ≡ ok b
      → (a : A) × (call ≡ ok a) × (rest a ≡ ok b)
  ok_before (ok a) rest b e = (a, refl, e)
  ok_before (err x) rest b e = absurd (cc)
