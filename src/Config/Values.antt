-- ===== src/Config/Values.antt =====
-- The values of the configuration that are written as texts: crontab.go, duration.go, rfc3339.go,
-- time.go and timezone.go of internal/config, with their methods for YAML and JSON.
pub mod RoundTrip
use yc_sheduler.Prelude.{ℕ, ℤ, Bool, Option, some, Result, ok}
use yc_sheduler.Config.{Bytes}
use yc_sheduler.Config.Duration.{format_compact, unmarshal_duration}
use yc_sheduler.Config.Rfc3339.{unmarshal_rfc3339}
use yc_sheduler.GoTime.Instant.{Location}

-- `encoding/json` at strings.
pub record Json : Type 0 where
  pub marshal : Bytes → Result Bytes
  pub unmarshal : Bytes → Result Bytes
  pub is_utf8 : Bytes → Bool

-- A type of values: what its Unmarshal methods make of the string that the decoder found, or of its
-- error (nothing if a loop has not enough fuel), and its text.
pub record Adapter (V : Type 0) : Type 0 where
  pub from_text : Result Bytes → Option (Result V)
  pub to_text : V → Bytes

module _ {V : Type 0} (a : Adapter V) where
  -- `UnmarshalYAML`, given what the decoder's function gives.
  abbrev pub unmarshal_yaml : Result Bytes → Option (Result V)
  unmarshal_yaml found = a.from_text found

  -- `MarshalYAML`, whose result the encoder writes as a string.
  abbrev pub marshal_yaml : V → Bytes
  marshal_yaml v = a.to_text v

  -- `UnmarshalJSON`
  abbrev pub unmarshal_json : Json → Bytes → Option (Result V)
  unmarshal_json json bytes = a.from_text (json.unmarshal bytes)

  -- `MarshalJSON`
  abbrev pub marshal_json : Json → V → Result Bytes
  marshal_json json v = json.marshal (a.to_text v)

-- `Crontab`, any text.
abbrev pub crontab : Adapter Bytes
crontab = record { from_text = λ found. some found; to_text = λ s. s }

-- `Timezone`, any text.
abbrev pub timezone : Adapter Bytes
timezone = record { from_text = λ found. some found; to_text = λ s. s }

-- `Time`, any text.
abbrev pub time_of_day : Adapter Bytes
time_of_day = record { from_text = λ found. some found; to_text = λ s. s }

-- `RFC3339Time`, a text that is a time.
abbrev pub rfc3339_time : Location → Adapter Bytes
rfc3339_time local = record {
  from_text = λ found. some (unmarshal_rfc3339 local found);
  to_text = λ s. s;
}

-- `Duration`, in nanoseconds; the product for a fraction is a parameter.
abbrev pub duration : (ℕ → ℕ → ℕ → ℕ) → Adapter ℤ
duration scaled = record {
  from_text = λ found. unmarshal_duration scaled found;
  to_text = format_compact;
}
