-- ===== src/Config/Duration.antt =====
-- internal/config/duration.go: the text of a duration, and Go's `time.ParseDuration` that reads it.
-- A duration counts nanoseconds. `Hours`, `Minutes` and `Seconds` go through `float64` and are cut to
-- integers; here they are exact, as they are for every whole number of seconds.
pub mod Print
pub mod Pattern
pub mod Fuel
use yc_sheduler.Prelude.{
  ℕ, zero, suc, ◌+◌, ◌-◌, ◌*◌, ◌/◌, ◌%◌, ◌^◌, ◌==◌, ltb, if◌then◌else◌, ℤ, pos, negsuc, Bool, true,
  false, not, ◌&&◌, ◌||◌, Option, none, some, List, [], ◌∷◌, ◌++◌, Result, ok, err, ◌>>=◌, length,
  invalid_duration,
}
use yc_sheduler.Config.{Bytes}
use yc_sheduler.Config.Files.{bytes_eq}
use yc_sheduler.Schedule.Clock.{is_digit}

abbrev pub second : ℕ
second = 1000000000

abbrev pub minute : ℕ
minute = 60000000000

abbrev pub hour : ℕ
hour = 3600000000000

-- `%d` of a number that is not negative, before a text. The first argument is fuel: the number
-- itself is enough.
unfoldable pub decimal : ℕ → ℕ → Bytes → Bytes
decimal zero n rest = (b'0' + n % 10) ∷ rest
decimal (suc fuel) n rest =
    let more = decimal fuel (n / 10) ((b'0' + n % 10) ∷ rest) in
    if ltb n 10 then (b'0' + n) ∷ rest else more

-- `fmt.Sprintf("%dh", n)`, and so on, before a text.
abbrev pub part : ℕ → ℕ → Bytes → Bytes
part n unit rest = decimal n n (unit ∷ rest)

-- The parts that are joined.
unfoldable pub format_parts : ℕ → ℕ → ℕ → Bytes
format_parts hours minutes seconds =
    let empty = not (ltb 0 hours) && not (ltb 0 minutes) in
    let last = if ltb 0 seconds || empty then part seconds b's' [] else [] in
    let tail = if ltb 0 minutes then part minutes b'm' last else last in
    if ltb 0 hours then part hours b'h' tail else tail

-- Below zero no part is positive: only the seconds are left, with a sign unless they are zero.
unfoldable pub format_compact : ℤ → Bytes
unfolding format_parts decimal
format_compact (pos n) =
    if n == 0 then b'0' ∷ b's' ∷ [] else format_parts (n / hour) (n / minute % 60) (n / second % 60)
format_compact (negsuc k) =
    let seconds = suc k / second % 60 in
    if seconds == 0 then part 0 b's' [] else b'-' ∷ part seconds b's' []

-- `1 << 63`
abbrev pub top : ℕ
top = 2 ^ 63

-- The number in front and what follows it, unless the number is too large.
unfoldable pub leading_int : ℕ → Bytes → Option (ℕ × Bytes)
leading_int x [] = some (x, [])
leading_int x (c ∷ s) =
    let y = x * 10 + (c - b'0') in
    let more = leading_int y s in
    if not (is_digit c)
    then some (x, c ∷ s)
    else if ltb (top / 10) x
    then none
    else if ltb top y
    then none
    else more

-- What of the fraction fits, its power of ten, and what follows the digits.
unfoldable pub leading_fraction : Bool → ℕ → ℕ → Bytes → ℕ × ℕ × Bytes
leading_fraction overflow x scale [] = (x, scale, [])
leading_fraction overflow x scale (c ∷ s) =
    let y = x * 10 + (c - b'0') in
    let skip = overflow || ltb ((top - 1) / 10) x || ltb top y in
    let more =
      leading_fraction skip (if skip then x else y) (if skip then scale else scale * 10) s in
    if not (is_digit c) then (x, scale, c ∷ s) else more

abbrev is_number : ℕ → Bool
is_number c = c == b'.' || is_digit c

-- The unit goes on until a dot or a digit.
unfoldable pub split_unit : Bytes → Bytes × Bytes
split_unit [] = ([], [])
split_unit (c ∷ s) =
    let rest = split_unit s in if is_number c then ([], c ∷ s) else (c ∷ rest.0, rest.1)

-- `unitMap`
unfoldable pub unit_of : Bytes → Option ℕ
unit_of u =
    if bytes_eq u (b'n' ∷ b's' ∷ [])
    then some 1
    else if bytes_eq u (b'u' ∷ b's' ∷ [])
        || bytes_eq u (194 ∷ 181 ∷ b's' ∷ [])
        || bytes_eq u (206 ∷ 188 ∷ b's' ∷ [])
    then some 1000
    else if bytes_eq u (b'm' ∷ b's' ∷ [])
    then some 1000000
    else if bytes_eq u (b's' ∷ [])
    then some second
    else if bytes_eq u (b'm' ∷ [])
    then some minute
    else if bytes_eq u (b'h' ∷ [])
    then some hour
    else none

-- The fraction, its scale, what follows, and whether there were digits after a dot.
abbrev pub fraction : Bytes → ℕ × ℕ × Bytes × Bool
fraction [] = (0, 1, [], false)
fraction (c ∷ s) =
    let (f, scale, rest) = leading_fraction false 0 1 s in
    if c == b'.' then (f, scale, rest, not (length rest == length s)) else (0, 1, c ∷ s, false)

-- `scaled f unit scale` is `uint64(float64(f) * (float64(unit) / scale))`.
module _ (scaled : ℕ → ℕ → ℕ → ℕ) where
  -- The value of a token, from its number, its fraction and its unit.
  abbrev pub token_value : ℕ → ℕ → ℕ → Option ℕ → Bytes → Result (ℕ × Bytes)
  token_value v f scale none rest = err invalid_duration
  token_value v f scale (some unit) rest =
      let w = (v * unit + scaled f unit scale) % 2 ^ 64 in
      if ltb (top / unit) v
      then err invalid_duration
      else if not (ltb 0 f)
      then ok (v * unit, rest)
      else if ltb top w
      then err invalid_duration
      else ok (w, rest)

  -- The rest of a token behind its whole number; `n` is the length of the text before the number.
  abbrev pub after_number : ℕ → Option (ℕ × Bytes) → Result (ℕ × Bytes)
  after_number n none = err invalid_duration
  after_number n (some (v, s)) =
      let (f, scale, rest, post) = fraction s in
      let (u, rest') = split_unit rest in
      if (length s == n) && not post
      then err invalid_duration
      else token_value v f scale (unit_of u) rest'

  unfoldable pub token : Bytes → Result (ℕ × Bytes)
  token [] = err invalid_duration
  token (c ∷ s) =
      if is_number c
      then after_number (suc (length s)) (leading_int 0 (c ∷ s))
      else err invalid_duration

  -- The loop over the tokens, on fuel.
  unfoldable pub parse_tokens : ℕ → ℕ → Bytes → Option (Result ℕ)
  parse_tokens fuel d [] = some (ok d)
  parse_tokens zero d (c ∷ s) = none
  parse_tokens (suc fuel) d (c ∷ s) = elim (token (c ∷ s)) [
    | err e ↦ some (err e)
    | ok p ↦
        let sum = (d + p.0) % 2 ^ 64 in
        let more = parse_tokens fuel sum p.1 in
        if ltb top sum then some (err invalid_duration) else more
  ]

  -- A magnitude with its sign.
  abbrev pub with_sign : Bool → Result ℕ → Result ℤ
  with_sign neg (err e) = err e
  with_sign true (ok zero) = ok (pos 0)
  with_sign true (ok (suc k)) = ok (negsuc k)
  with_sign false (ok d) = if ltb (top - 1) d then err invalid_duration else ok (pos d)

  unfoldable pub parse_unsigned : Bool → Bytes → Option (Result ℤ)
  unfolding parse_tokens
  parse_unsigned neg [] = some (err invalid_duration)
  parse_unsigned neg (c ∷ s) =
      if bytes_eq (c ∷ s) (b'0' ∷ [])
      then some (ok (pos 0))
      else elim (parse_tokens (suc (length s)) 0 (c ∷ s)) [
        | none ↦ none
        | some r ↦ some (with_sign neg r)
      ]

  -- `time.ParseDuration`; nothing if the fuel, the length of the text, is not enough.
  unfoldable pub parse_duration : Bytes → Option (Result ℤ)
  unfolding parse_unsigned
  parse_duration [] = some (err invalid_duration)
  parse_duration (c ∷ s) =
      if c == b'-' || c == b'+' then parse_unsigned (c == b'-') s else parse_unsigned false (c ∷ s)

  -- `UnmarshalYAML` and `UnmarshalJSON`, given the text that the decoder found, if any.
  unfoldable pub unmarshal_duration : Result Bytes → Option (Result ℤ)
  unfolding parse_duration
  unmarshal_duration (err e) = some (err e)
  unmarshal_duration (ok s) = parse_duration s
