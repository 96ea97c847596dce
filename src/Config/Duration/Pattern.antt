-- ===== src/Config/Duration/Pattern.antt =====
-- The pattern of the JSON schema of a duration, and the texts that `formatCompact` writes.
use yc_sheduler.Prelude.{
  ℕ, zero, suc, ◌+◌, ◌*◌, ◌/◌, ◌%◌, ◌==◌, ltb, if◌then◌else◌, ◌≡◌, refl, ap, ◌∙◌, pos, negsuc, Bool,
  true, false, ◌||◌, [], ◌∷◌, arith, Bool-cases, inl, inr,
}
use yc_sheduler.Config.{Bytes}
use yc_sheduler.Schedule.Clock.{is_digit}
use yc_sheduler.Schedule.Clock.Formats.{is_digit_lem}
use yc_sheduler.Config.Duration.{second, minute, hour, decimal, part, format_parts, format_compact}
use yc_sheduler.Config.Duration.Print.{format_compact-parts}

-- Where in `^(?:\d+(?:\.\d+)?(?:s|m|h|d|w))+$` a text has got to; `nowhere` if it does not match.
pub data Place : Type 0 where
  begin in_number after_dot in_fraction after_unit nowhere : Place

abbrev is_unit : ℕ → Bool
is_unit c = c == b's' || c == b'm' || c == b'h' || c == b'd' || c == b'w'

abbrev step : Place → ℕ → Place
step begin c = if is_digit c then in_number else nowhere
step in_number c =
    if is_digit c
    then in_number
    else if c == b'.'
    then after_dot
    else if is_unit c
    then after_unit
    else nowhere
step after_dot c = if is_digit c then in_fraction else nowhere
step in_fraction c = if is_digit c then in_fraction else if is_unit c then after_unit else nowhere
step after_unit c = if is_digit c then in_number else nowhere
step nowhere c = nowhere

unfoldable pub matches_from : Place → Bytes → Bool
matches_from place [] = elim place [ after_unit ↦ true | _ ↦ false ]
matches_from place (c ∷ s) = matches_from (step place c) s

unfoldable pub matches_pattern : Bytes → Bool
unfolding matches_from
matches_pattern s = matches_from begin s

-- From here a number can begin or go on.
abbrev TakesNumbers : Place → Type 0
TakesNumbers place = (c : ℕ) → is_digit c ≡ true → step place c ≡ in_number

begin-TakesNumbers : TakesNumbers begin
begin-TakesNumbers c h = rw h

in_number-TakesNumbers : TakesNumbers in_number
in_number-TakesNumbers c h = rw h

after_unit-TakesNumbers : TakesNumbers after_unit
after_unit-TakesNumbers c h = rw h

matches_from-decimal :
    (place : Place) (f n : ℕ) (rest : Bytes)
    → TakesNumbers place
    → matches_from place (decimal f n rest) ≡ matches_from in_number rest
unfolding decimal matches_from
matches_from-decimal place zero n rest takes =
    rw (matches_from, takes (b'0' + n % 10) (is_digit_lem (n % 10) (omega arith)))
matches_from-decimal place (suc f) n rest takes = elim (Bool-cases (ltb n 10)) [
  | inl small ↦ rw (small, matches_from, takes (b'0' + n) (is_digit_lem n (ground arith)))
  | inr large ↦ rw large (
      matches_from-decimal place f (n / 10) _ takes
      ∙ rw (in_number-TakesNumbers (b'0' + n % 10) (is_digit_lem (n % 10) (omega arith))))
]

-- A part can stand at the begin or behind a unit.
matches_from-part :
    (place : Place) (v u : ℕ) (rest : Bytes)
    → TakesNumbers place
    → step in_number u ≡ after_unit
    → matches_from place (part v u rest) ≡ matches_from after_unit rest
unfolding matches_from
matches_from-part place v u rest takes unit =
    matches_from-decimal place v v (u ∷ rest) takes ∙ rw unit

matches_from-optional :
    (shown : Bool) (v u : ℕ) (rest : Bytes)
    → step in_number u ≡ after_unit
    → matches_from after_unit rest ≡ true
    → matches_from after_unit (if shown then part v u rest else rest) ≡ true
matches_from-optional true v u rest unit h =
    matches_from-part after_unit v u rest after_unit-TakesNumbers unit ∙ h
matches_from-optional false v u rest unit h = h

begin_part :
    (v u : ℕ) (rest : Bytes)
    → step in_number u ≡ after_unit
    → matches_from after_unit rest ≡ true
    → matches_from begin (part v u rest) ≡ true
begin_part v u rest unit h = matches_from-part begin v u rest begin-TakesNumbers unit ∙ h

format_parts-matches : (h m s : ℕ) → matches_pattern (format_parts h m s) ≡ true
unfolding matches_pattern matches_from format_parts
format_parts-matches h m s = elim (Bool-cases (ltb 0 h)) [
  | inl some_h ↦ rw some_h (
      begin_part h b'h' _ refl (
        matches_from-optional (ltb 0 m) m b'm' _ refl
          (matches_from-optional (ltb 0 s || false) s b's' [] refl refl)))
  | inr no_h ↦ elim (Bool-cases (ltb 0 m)) [
    | inl some_m ↦
        rw (no_h, some_m)
          (begin_part m b'm' _ refl (matches_from-optional (ltb 0 s || false) s b's' [] refl refl))
    | inr no_m ↦ elim (Bool-cases (ltb 0 s)) [
      | inl some_s ↦ rw (no_h, no_m, some_s) (begin_part s b's' [] refl refl)
      | inr no_s ↦ rw (no_h, no_m, no_s) (begin_part s b's' [] refl refl)
    ]
  ]
]

-- The text of a duration that is not negative always matches the pattern of the schema. So does the
-- text of a negative duration of whole minutes, which is the same as that of a zero duration.
pub format_compact-matches :
    (n k j : ℕ)
    → suc j ≡ k * minute
    → (matches_pattern (format_compact (pos n)) ≡ true)
      × (matches_pattern (format_compact (negsuc j)) ≡ true)
      × (format_compact (negsuc j) ≡ format_compact (pos 0))
unfolding format_compact decimal
format_compact-matches n k j whole =
    let none_left : suc j / second % 60 ≡ 0 = omega arith in
    let same : format_compact (negsuc j) ≡ format_compact (pos 0) = rw none_left in
    (
      ap matches_pattern (format_compact-parts n)
          ∙ format_parts-matches (n / hour) (n / minute % 60) (n / second % 60),
      ap matches_pattern (same ∙ format_compact-parts 0)
          ∙ format_parts-matches (0 / hour) (0 / minute % 60) (0 / second % 60),
      same,
    )
