-- ===== src/Config/Rfc3339/Written.antt =====
-- The times that the calendar writes are texts of RFC3339Time.
use yc_sheduler.Prelude.{
  ℕ, ◌-◌, ◌/◌, ◌%◌, ◌≤◌, ◌<◌, ◌≡◌, ◌∙◌, refl, ap, true, [], ◌∷◌, arith, ltb, ◌==◌, ok, Bool-cases,
  inl, inr, length, leb, leb_of_le, List,
}
use yc_sheduler.Config.{Bytes}
use yc_sheduler.GoTime.Instant.{Location, Time, day_seconds, year, month, day, hour, minute, second}
use yc_sheduler.GoTime.Fixed.{IsFixed}
use yc_sheduler.GoTime.Rfc3339.{parse_rfc3339}
use yc_sheduler.GoTime.Rfc3339.RoundTrip.{
  parse_rfc3339-format, at_offset-ns, fields_text, shown_fields, format_rfc3339-fields,
}
use yc_sheduler.Schedule.Clock.Formats.{two, is_digit_lem}
use yc_sheduler.Calendar.{format_rfc3339, zone_text, offset}
use yc_sheduler.Calendar.Chronology.{IsShown}
use yc_sheduler.Config.Rfc3339.{
  unmarshal_rfc3339, time_of, matches_zone, matches_parts, accepts_rfc3339, digit, byte, Part,
}

matches_zone-offset :
    (n : ℕ)
    → n < 1440
    → (matches_zone (offset b'-' n) ≡ true) × (matches_zone (offset b'+' n) ≡ true)
unfolding matches_zone
matches_zone-offset n small =
    let a = is_digit_lem (n / 60 / 10) (omega arith) in
    let b = is_digit_lem (n / 60 % 10) (omega arith) in
    let c = is_digit_lem (n % 60 / 10) (omega arith) in
    let d = is_digit_lem (n % 60 % 10) (omega arith) in (rw (a, b, c, d) refl, rw (a, b, c, d) refl)

-- A zone, and that it has at least one byte.
zone_lem :
    (east west : ℕ)
    → east < day_seconds
    → west < day_seconds
    → (matches_zone (zone_text east west) ≡ true) × (1 ≤ length (zone_text east west))
zone_lem east west he hw = elim (Bool-cases (east == west)) [
  | inl same ↦ rw same (unfold matches_zone in refl, omega arith)
  | inr other ↦ elim (Bool-cases (ltb 59 (west - east))) [
    | inl behind ↦
        rw (other, behind) ((matches_zone-offset ((west - east) / 60) (omega arith)).0, omega arith)
    | inr ahead ↦
        rw (other, ahead) ((matches_zone-offset ((east - west) / 60) (omega arith)).1, omega arith)
  ]
]

matches_parts-two :
    (n : ℕ) (ps : List Part) (s : Bytes)
    → n < 100
    → matches_parts (digit ∷ digit ∷ ps) (two n s) ≡ matches_parts ps s
unfolding matches_parts
matches_parts-two n ps s small =
    let tens = is_digit_lem (n / 10) (omega arith) in
    let ones = is_digit_lem (n % 10) (omega arith) in rw (tens, ones) refl

matches_parts-byte :
    (x : ℕ) (ps : List Part) (s : Bytes) → matches_parts (byte x ∷ ps) (x ∷ s) ≡ matches_parts ps s
unfolding matches_parts
matches_parts-byte x ps s = let same : (x == x) ≡ true = ground arith in rw same refl

matches_parts-end : (s : Bytes) → matches_parts [] s ≡ matches_zone s
unfolding matches_parts
matches_parts-end s = refl

accepts_rfc3339-fields :
    (y m d h mi s : ℕ) (zone : Bytes)
    → y < 10000
    → m < 100
    → d < 100
    → h < 100
    → mi < 100
    → s < 100
    → matches_zone zone ≡ true
    → 1 ≤ length zone
    → accepts_rfc3339 (fields_text y m d h mi s zone) ≡ true
unfolding accepts_rfc3339
accepts_rfc3339-fields y m d h mi s zone hy hm hd hh hmi hs hz some_zone =
    let long : leb 20 (length (fields_text y m d h mi s zone)) ≡ true =
      leb_of_le 20 (length (fields_text y m d h mi s zone)) (omega (arith, some_zone)) in
    rw
      (
        long,
        matches_parts-two (y / 100) _ _ (omega arith),
        matches_parts-two (y % 100) _ _ (omega arith),
        matches_parts-byte b'-',
        matches_parts-two m _ _ hm,
        matches_parts-byte b'-',
        matches_parts-two d _ _ hd,
        matches_parts-byte b'T',
        matches_parts-two h _ _ hh,
        matches_parts-byte b':',
        matches_parts-two mi _ _ hmi,
        matches_parts-byte b':',
        matches_parts-two s _ _ hs,
        matches_parts-end zone,
        hz,
      )
      refl

unmarshal_rfc3339-ok :
    (local : Location) (s : Bytes) (t : Time)
    → parse_rfc3339 local s ≡ ok t
    → unmarshal_rfc3339 local (ok s) ≡ ok s
unfolding unmarshal_rfc3339
unmarshal_rfc3339-ok local s t e = rw (unmarshal_rfc3339, e) refl

-- In a location with a fixed offset of whole minutes, for an instant of whole seconds from day 1 of the
-- calendar on, in a year of four digits: the text that the calendar writes is accepted by the schema and
-- by the decoder, and its time is that instant.
pub format_rfc3339-read :
    {l : Location} (f : IsFixed l) (local : Location) (k : ℕ)
    → IsShown f k
    → (f.east - f.west) % 60 ≡ 0
    → (f.west - f.east) % 60 ≡ 0
    → let s = format_rfc3339 (record { ns = k; loc = l }) in
      (accepts_rfc3339 s ≡ true)
      × (unmarshal_rfc3339 local (ok s) ≡ ok s)
      × ((t : Time) × (time_of local s ≡ ok t) × (t.ns ≡ k))
format_rfc3339-read {l} f local k shown we ww =
    let t : Time = record { ns = k; loc = l } in
    let (m12, m1, d_lt, d1, h_lt, mi_lt, s_lt, _, _, _) = shown_fields t in
    let zone = zone_lem f.east f.west f.east_lt f.west_lt in
    (
      ap accepts_rfc3339 (format_rfc3339-fields f k)
          ∙ accepts_rfc3339-fields (year t) (month t) (day t) (hour t) (minute t) (second t)
              (zone_text f.east f.west) shown.2 (omega (arith, m12)) d_lt (omega (arith, h_lt))
              (omega (arith, mi_lt)) (omega (arith, s_lt)) zone.0 zone.1,
      unmarshal_rfc3339-ok local (format_rfc3339 t) _ (parse_rfc3339-format f local k shown we ww),
      (_, parse_rfc3339-format f local k shown we ww, at_offset-ns f local k shown),
    )
