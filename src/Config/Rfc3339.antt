-- ===== src/Config/Rfc3339.antt =====
-- internal/config/rfc3339.go: a time in RFC 3339 as a text.
pub mod Written
use yc_sheduler.Prelude.{
  ℕ, ◌==◌, Bool, false, ◌&&◌, ◌||◌, leb, List, [], ◌∷◌, length, Result, ok, err,
}
use yc_sheduler.Config.{Bytes}
use yc_sheduler.GoTime.Instant.{Location, Time}
use yc_sheduler.GoTime.Rfc3339.{parse_rfc3339}
use yc_sheduler.Schedule.Clock.{is_digit}

-- `UnmarshalYAML` and `UnmarshalJSON`, given the text that the decoder found, if any; the location is
-- `time.Local`.
unfoldable pub unmarshal_rfc3339 : Location → Result Bytes → Result Bytes
unmarshal_rfc3339 local (err e) = err e
unmarshal_rfc3339 local (ok s) = elim (parse_rfc3339 local s) [ err e ↦ err e | ok t ↦ ok s ]

-- `RFC3339Time.Time`
abbrev pub time_of : Location → Bytes → Result Time
time_of = parse_rfc3339

-- `(Z|[+-]\d{2}:\d{2})$`
unfoldable pub matches_zone : Bytes → Bool
matches_zone (c ∷ []) = c == b'Z'
matches_zone (c ∷ h ∷ i ∷ k ∷ m ∷ n ∷ []) =
    (c == b'+' || c == b'-') && is_digit h && is_digit i && k == b':' && is_digit m && is_digit n
matches_zone _ = false

-- A digit or a literal byte.
pub data Part : Type 0 where
  digit : Part
  byte : ℕ → Part

abbrev pub fits : Part → ℕ → Bool
fits digit c = is_digit c
fits (byte x) c = c == x

-- `\d{4}-\d{2}-\d{2}T\d{2}:\d{2}:\d{2}`
abbrev pub parts : List Part
parts =
    digit
    ∷ digit
    ∷ digit
    ∷ digit
    ∷ byte b'-'
    ∷ digit
    ∷ digit
    ∷ byte b'-'
    ∷ digit
    ∷ digit
    ∷ byte b'T'
    ∷ digit
    ∷ digit
    ∷ byte b':'
    ∷ digit
    ∷ digit
    ∷ byte b':'
    ∷ digit
    ∷ digit
    ∷ []

-- The parts, and then a zone.
unfoldable pub matches_parts : List Part → Bytes → Bool
unfolding matches_zone
matches_parts [] s = matches_zone s
matches_parts (p ∷ ps) [] = false
matches_parts (p ∷ ps) (c ∷ s) = fits p c && matches_parts ps s

-- The pattern and the least length, which counts bytes here: the pattern has only texts of ASCII.
unfoldable pub accepts_rfc3339 : Bytes → Bool
unfolding matches_parts
accepts_rfc3339 s = leb 20 (length s) && matches_parts parts s
