-- ===== src/Config/Values/RoundTrip.antt =====
-- The values of the configuration, written and read again.
use yc_sheduler.Prelude.{ℕ, ℤ, pos, ◌*◌, ◌-◌, ◌%◌, ◌<◌, ◌≡◌, ◌∙◌, ap, true, some, ok}
use yc_sheduler.Config.{Bytes}
use yc_sheduler.Config.Duration.{second, top}
use yc_sheduler.Config.Duration.Print.{format_compact-read}
use yc_sheduler.Config.Rfc3339.Written.{format_rfc3339-read}
use yc_sheduler.Calendar.{format_rfc3339}
use yc_sheduler.Calendar.Chronology.{IsShown}
use yc_sheduler.GoTime.Fixed.{IsFixed}
use yc_sheduler.Config.Values.{
  Json, Adapter, unmarshal_yaml, marshal_yaml, unmarshal_json, marshal_json, rfc3339_time, duration,
}
use yc_sheduler.GoTime.Instant.{Location}

-- A string of UTF-8 is read back from its JSON.
abbrev pub ReadsBack : Json → Type 0
ReadsBack json =
    (s bytes : Bytes)
    → json.is_utf8 s ≡ true
    → json.marshal s ≡ ok bytes
    → json.unmarshal bytes ≡ ok s

-- The values that are read back from their texts.
pub record IsAdapter {V : Type 0} (a : Adapter V) (IsValid : V → Type 0) : Type 0 where
  pub back : (v : V) → IsValid v → a.from_text (ok (a.to_text v)) ≡ some (ok v)

-- From YAML a value comes back as it was, and from JSON if its text is UTF-8.
abbrev pub ComesBack : {V : Type 0} → Json → Adapter V → (V → Type 0) → Type 0
ComesBack {V} json a IsValid =
    (v : V)
    → IsValid v
    → (unmarshal_yaml a (ok (marshal_yaml a v)) ≡ some (ok v))
      × ((bytes : Bytes)
          → json.is_utf8 (a.to_text v) ≡ true
          → marshal_json a json v ≡ ok bytes
          → unmarshal_json a json bytes ≡ some (ok v))

IsAdapter-ComesBack :
    {V : Type 0} {a : Adapter V} {IsValid : V → Type 0} (json : Json)
    → ReadsBack json
    → IsAdapter a IsValid
    → ComesBack json a IsValid
IsAdapter-ComesBack {a = a} json reads law v valid = (
  law.back v valid,
  λ bytes utf8 made. ap a.from_text (reads (a.to_text v) bytes utf8 made) ∙ law.back v valid,
)

-- The text that the calendar writes for a time: an instant of whole seconds from day 1 of the calendar
-- on, in a year of four digits, in a location with a fixed offset of whole minutes.
abbrev pub IsCalendarText : Bytes → Type 0
IsCalendarText s =
    (l : Location) × (f : IsFixed l) × (k : ℕ) × IsShown f k
    × ((f.east - f.west) % 60 ≡ 0)
    × ((f.west - f.east) % 60 ≡ 0)
    × (s ≡ format_rfc3339 (record { ns = k; loc = l }))

-- A duration of whole seconds, not negative and within its 63 bits.
abbrev pub IsWholeSeconds : ℤ → Type 0
IsWholeSeconds d = (t : ℕ) × (t * second < top) × (d ≡ pos (t * second))

rfc3339_time-IsAdapter : (local : Location) → IsAdapter (rfc3339_time local) IsCalendarText
rfc3339_time-IsAdapter local = record {
  back =
      λ s (l, f, k, shown, we, ww, e). rw e (ap some (format_rfc3339-read f local k shown we ww).1);
}

duration-IsAdapter : (scaled : ℕ → ℕ → ℕ → ℕ) → IsAdapter (duration scaled) IsWholeSeconds
duration-IsAdapter scaled = record {
  back = λ d (t, fits, e). rw e (format_compact-read scaled t fits);
}

-- If JSON gives back every string of UTF-8: a duration of whole seconds that is not negative and within
-- the 63 bits of a duration is read back as it was from the text that is written into YAML, and from
-- its JSON, if its text is UTF-8; and so is, for an RFC3339Time, the text that the calendar writes for an instant of whole
-- seconds from day 1 of the calendar on, in a year of four digits, in a location with a fixed offset of
-- whole minutes.
pub unmarshal_json-marshal_json :
    (json : Json) (local : Location) (scaled : ℕ → ℕ → ℕ → ℕ)
    → ReadsBack json
    → ComesBack json (duration scaled) IsWholeSeconds
      × ComesBack json (rfc3339_time local) IsCalendarText
unmarshal_json-marshal_json json local scaled reads = (
  IsAdapter-ComesBack json reads (duration-IsAdapter scaled),
  IsAdapter-ComesBack json reads (rfc3339_time-IsAdapter local),
)
