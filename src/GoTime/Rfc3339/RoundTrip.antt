-- ===== src/GoTime/Rfc3339/RoundTrip.antt =====
-- What `time.Parse` makes of the texts that the calendar writes.
use yc_sheduler.Prelude.{
  ℕ, ◌+◌, ◌-◌, ◌*◌, ◌/◌, ◌%◌, ◌≤◌, ◌<◌, ◌≡◌, ◌∙◌, refl, ap, true, false, [], ◌∷◌, arith, ltb, ◌==◌,
  if◌then◌else◌, ok, ◌>>=◌, Bool-cases, inl, inr, ltb_of_ge, ==_iff, ltb→lt, ltb→ge,
}
use yc_sheduler.Config.{Bytes}
use yc_sheduler.GoTime.Civil.{month_start, month_of_day}
use yc_sheduler.GoTime.CivilLaws.{
  mday_of_day_lem, month_of_day_bounds, month_of_day-ge, month_start-step,
}
use yc_sheduler.GoTime.Instant.{
  Location, Time, second_ns, day_seconds, day_number, clock, year, month, day, hour, minute, second,
}
use yc_sheduler.GoTime.Fixed.{IsFixed, ns_lem}
use yc_sheduler.GoTime.Rfc3339.{
  year_number, past, Offset, utc, fixed, numeric_offset, signed_offset, zone_offset, at_offset,
  parse_rfc3339, fraction_ns, dated, days_in_month,
}
use yc_sheduler.Schedule.Clock.Formats.{two, is_digit_lem}
use yc_sheduler.Calendar.Parse.{getnum, colon, skip_fraction}
use yc_sheduler.Schedule.Clock.{past_colon}
use yc_sheduler.Calendar.Texts.{field_number}
use yc_sheduler.Calendar.{format_date, format_clock, format_rfc3339, zone_text, offset}
use yc_sheduler.Calendar.Chronology.{IsShown}

getnum_number : (n : ℕ) (rest : Bytes) → n < 100 → getnum true (two n rest) ≡ ok (n, rest)
unfolding getnum
getnum_number n rest small =
    let tens = is_digit_lem (n / 10) (omega arith) in
    let ones = is_digit_lem (n % 10) (omega arith) in
    let value : (b'0' + n / 10 - b'0') * 10 + (b'0' + n % 10 - b'0') ≡ n = omega arith in
    rw (tens, ones, value) refl

year_number_lem :
    (y : ℕ) (rest : Bytes)
    → y < 10000
    → year_number (two (y / 100) (two (y % 100) rest)) ≡ ok (y, rest)
unfolding year_number
year_number_lem y rest small =
    let a = is_digit_lem (y / 100 / 10) (omega arith) in
    let b = is_digit_lem (y / 100 % 10) (omega arith) in
    let c = is_digit_lem (y % 100 / 10) (omega arith) in
    let d = is_digit_lem (y % 100 % 10) (omega arith) in
    let value : ((b'0' + y / 100 / 10 - b'0') * 10 + (b'0' + y / 100 % 10 - b'0')) * 100
          + ((b'0' + y % 100 / 10 - b'0') * 10 + (b'0' + y % 100 % 10 - b'0'))
        ≡ y =
      omega arith in
    rw (a, b, c, d, value) refl

-- A fixed offset of whole minutes, as `zone_text` shows it.
abbrev pub offset_of : ℕ → ℕ → Offset
offset_of east west =
    if east == west
    then utc
    else if ltb east west
    then fixed 0 (west - east)
    else fixed (east - west) 0

numeric_offset_lem :
    (sign n : ℕ)
    → n < 1440
    → numeric_offset sign (two (n / 60) (b':' ∷ two (n % 60) []))
      ≡ signed_offset sign (n / 60) (n % 60) []
unfolding past
numeric_offset_lem sign n small =
    rw
      (
        getnum_number (n / 60) (b':' ∷ two (n % 60) []) (omega arith),
        getnum_number (n % 60) [] (omega arith),
      )
      refl

zone_offset-offset :
    (n : ℕ)
    → n < 1440
    → (zone_offset (offset b'-' n) ≡ ok (fixed 0 (n * 60), []))
      × (zone_offset (offset b'+' n) ≡ ok (fixed (n * 60) 0, []))
unfolding zone_offset
zone_offset-offset n small =
    let hours : ltb 24 (n / 60) ≡ false = ltb_of_ge 24 (n / 60) (omega arith) in
    let minutes : ltb 60 (n % 60) ≡ false = ltb_of_ge 60 (n % 60) (omega arith) in
    let value : n / 60 * 3600 + n % 60 * 60 ≡ n * 60 = omega arith in
    (
      rw (numeric_offset_lem b'-' n small, hours, minutes, value) refl,
      rw (numeric_offset_lem b'+' n small, hours, minutes, value) refl,
    )

zone_offset-zone_text :
    (east west : ℕ)
    → east < day_seconds
    → west < day_seconds
    → (east - west) % 60 ≡ 0
    → (west - east) % 60 ≡ 0
    → zone_offset (zone_text east west) ≡ ok (offset_of east west, [])
zone_offset-zone_text east west he hw we ww = elim (Bool-cases (east == west)) [
  | inl same ↦ rw same (unfold zone_offset in refl)
  | inr other ↦ elim (Bool-cases (ltb east west)) [
    | inl behind ↦
        let value : (west - east) / 60 * 60 ≡ west - east = omega arith in
        let minutes : ltb 59 (west - east) ≡ true = ground (arith, behind, ww) in
        rw
          (other, minutes, behind, (zone_offset-offset ((west - east) / 60) (omega arith)).0, value)
          refl
    | inr ahead ↦
        let value : (east - west) / 60 * 60 ≡ east - west = omega arith in
        let none : ltb 59 (west - east) ≡ false = ground (arith, ahead) in
        rw (other, none, ahead, (zone_offset-offset ((east - west) / 60) (omega arith)).1, value)
          refl
  ]
]

-- No fraction stands in front of an offset.
skip_fraction-zone_text :
    (east west : ℕ)
    → (skip_fraction (zone_text east west) ≡ zone_text east west)
      × (fraction_ns (zone_text east west) ≡ 0)
unfolding skip_fraction fraction_ns
skip_fraction-zone_text east west = elim (Bool-cases (east == west)) [
  | inl same ↦ rw same (refl, refl)
  | inr other ↦ elim (Bool-cases (ltb 59 (west - east))) [
    | inl behind ↦ rw (other, behind) (refl, refl)
    | inr ahead ↦ rw (other, ahead) (refl, refl)
  ]
]

-- The fields of a text, before what follows the seconds.
abbrev pub fields_text : ℕ → ℕ → ℕ → ℕ → ℕ → ℕ → Bytes → Bytes
fields_text y m d h mi s zone =
    two (y / 100) (
      two (y % 100)
        (b'-' ∷ two m (b'-' ∷ two d (b'T' ∷ two h (b':' ∷ two mi (b':' ∷ two s zone))))))

parse_rfc3339-fields :
    (local : Location) (y m d h mi s : ℕ) (zone : Bytes)
    → y < 10000
    → m < 100
    → d < 100
    → h < 24
    → mi < 60
    → s < 60
    → parse_rfc3339 local (fields_text y m d h mi s zone) ≡ (
        zone_offset (skip_fraction zone) >>= λ z.
        dated local y m d (h * 3600 + mi * 60 + s) (fraction_ns zone) z.0 z.1)
unfolding parse_rfc3339 past colon past_colon
parse_rfc3339-fields local y m d h mi s zone hy hm hd hh hmi hs =
    rw
      (
        year_number_lem y
            (b'-' ∷ two m (b'-' ∷ two d (b'T' ∷ two h (b':' ∷ two mi (b':' ∷ two s zone))))) hy,
        past,
        getnum_number m (b'-' ∷ two d (b'T' ∷ two h (b':' ∷ two mi (b':' ∷ two s zone)))) hm,
        past,
        getnum_number d (b'T' ∷ two h (b':' ∷ two mi (b':' ∷ two s zone))) hd,
        past,
        field_number false 24 h (b':' ∷ two mi (b':' ∷ two s zone)) hh (omega arith),
        colon,
        field_number true 60 mi (b':' ∷ two s zone) hmi (omega arith),
        colon,
        field_number true 60 s zone hs (omega arith),
      )
      refl

pub shown_fields :
    (t : Time)
    → (month t ≤ 12)
      × (1 ≤ month t)
      × (day t < 100)
      × (1 ≤ day t)
      × (hour t < 24)
      × (minute t < 60)
      × (second t < 60)
      × (hour t * 3600 + minute t * 60 + second t ≡ clock t)
      × (month_start (12 * year t + month t - 1) + day t - 1 ≡ day_number t)
      × (day t ≤ days_in_month (year t) (month t))
unfolding year month day hour minute second clock
shown_fields t =
    let z = day_number t in
    let index : 12 * (month_of_day z / 12) + (month_of_day z % 12 + 1) - 1 ≡ month_of_day z =
      omega arith in
    let next : 12 * (month_of_day z / 12) + (month_of_day z % 12 + 1) ≡ month_of_day z + 1 =
      omega arith in
    let first = mday_of_day_lem z in
    let bounds = month_of_day_bounds z in
    let step = month_start-step (month_of_day z) (month_of_day-ge z) in
    (
      omega arith,
      omega arith,
      omega (arith, first, bounds, step),
      omega (arith, first, bounds),
      omega arith,
      omega arith,
      omega arith,
      omega arith,
      rw index (omega (arith, first)),
      rw (index, next) (omega (arith, first, bounds)),
    )

dated_lem :
    (local : Location) (t : Time) (offset : Offset)
    → dated local (year t) (month t) (day t) (hour t * 3600 + minute t * 60 + second t) 0 offset []
      ≡ ok (at_offset local offset (day_number t * day_seconds + clock t) 0)
dated_lem local t offset =
    let (m12, m1, _, d1, _, _, _, seconds, days, fits) = shown_fields t in
    let month_there : (month t == 0) ≡ false = ground (arith, m1) in
    let day_there : (day t == 0) ≡ false = ground (arith, d1) in
    let total : (month_start (12 * year t + month t - 1) + day t - 1) * day_seconds
          + (hour t * 3600 + minute t * 60 + second t)
        ≡ day_number t * day_seconds + clock t =
      omega (arith, seconds, days) in
    rw
      (
        month_there,
        ltb_of_ge 12 (month t) m12,
        day_there,
        ltb_of_ge (days_in_month (year t) (month t)) (day t) fits,
        total,
      )
      refl

module _ {l : Location} (f : IsFixed l) where
  pub format_rfc3339-fields :
      (k : ℕ)
      → let t : Time = record { ns = k; loc = l } in
        format_rfc3339 t
        ≡ fields_text
            (year t)
            (month t)
            (day t)
            (hour t)
            (minute t)
            (second t)
            (zone_text f.east f.west)
  unfolding format_rfc3339 format_date format_clock
  format_rfc3339-fields k = rw (f.ahead_is (k / second_ns), f.behind_is (k / second_ns)) refl

module _ {l : Location} (f : IsFixed l) (local : Location) where
  -- The text of a time, read again.
  pub parse_rfc3339-format :
      (k : ℕ)
      → IsShown f k
      → (f.east - f.west) % 60 ≡ 0
      → (f.west - f.east) % 60 ≡ 0
      → parse_rfc3339 local (format_rfc3339 (record { ns = k; loc = l }))
        ≡ ok (
            at_offset local
              (offset_of f.east f.west)
              (day_number (record { ns = k; loc = l }) * day_seconds
                + clock (record { ns = k; loc = l }))
              0)
  parse_rfc3339-format k (whole, _, small) we ww =
      let t : Time = record { ns = k; loc = l } in
      let (m12, m1, d_lt, d1, h_lt, mi_lt, s_lt, _, _, _) = shown_fields t in
      ap (parse_rfc3339 local) (format_rfc3339-fields f k)
      ∙ parse_rfc3339-fields local (year t) (month t) (day t) (hour t) (minute t) (second t)
          (zone_text f.east f.west) small (omega (arith, m12)) d_lt h_lt mi_lt s_lt
      ∙ rw
          (
            (skip_fraction-zone_text f.east f.west).0,
            (skip_fraction-zone_text f.east f.west).1,
            zone_offset-zone_text f.east f.west f.east_lt f.west_lt we ww,
          )
          (dated_lem local t (offset_of f.east f.west))

  -- The instant that is read is the one that was written.
  pub at_offset-ns :
      (k : ℕ)
      → IsShown f k
      → (at_offset local
          (offset_of f.east f.west)
          (day_number (record { ns = k; loc = l }) * day_seconds
            + clock (record { ns = k; loc = l }))
          0).ns
        ≡ k
  unfolding at_offset
  at_offset-ns k (whole, late, small) = elim (Bool-cases (f.east == f.west)) [
    | inl same ↦ rw same (omega (arith, ns_lem f k late, whole, (==_iff _ _).0 same))
    | inr other ↦ elim (Bool-cases (ltb f.east f.west)) [
      | inl behind ↦ rw (other, behind) (omega (arith, ns_lem f k late, whole, ltb→lt _ _ behind))
      | inr ahead ↦
          rw (other, ahead)
            (omega (arith, ns_lem f k late, whole, ltb→ge _ _ ahead, f.west_lt, f.east_lt))
    ]
  ]
