-- ===== src/Config/Duration/Print.antt =====
-- What `time.ParseDuration` makes of the texts that `formatCompact` writes.
use yc_sheduler.Prelude.{
  ℕ, zero, suc, ◌+◌, ◌-◌, ◌*◌, ◌/◌, ◌%◌, ◌^◌, ◌≤◌, ◌<◌, ◌==◌, ltb, if◌then◌else◌, ◌≡◌, refl, ap,
  ◌∙◌, pos, Bool, true, false, not, ◌&&◌, ◌||◌, some, [], ◌∷◌, ok, length, arith, Bool-cases, inl,
  inr,
}
use yc_sheduler.Config.{Bytes}
use yc_sheduler.Config.Files.{bytes_eq}
use yc_sheduler.Schedule.Clock.{is_digit}
use yc_sheduler.Schedule.Clock.Formats.{is_digit_lem}
use yc_sheduler.Config.Duration.{
  second, minute, hour, decimal, part, format_parts, format_compact, top, leading_int, split_unit,
  unit_of, token, parse_tokens, parse_unsigned, parse_duration, is_number, unmarshal_duration,
}

leading_int-digit :
    (x d : ℕ) (rest : Bytes)
    → d < 10
    → x * 10 + d ≤ top
    → leading_int x ((b'0' + d) ∷ rest) ≡ leading_int (x * 10 + d) rest
unfolding leading_int
leading_int-digit x d rest small fits =
    let e : b'0' + d - b'0' ≡ d = omega arith in
    let low : ltb (top / 10) x ≡ false = ground arith in
    let high : ltb top (x * 10 + d) ≡ false = ground arith in
    rw (is_digit_lem d small, low, e, high)

leading_int-decimal :
    (f n : ℕ) (rest : Bytes)
    → n ≤ f
    → n ≤ top
    → leading_int 0 (decimal f n rest) ≡ leading_int n rest
unfolding decimal
leading_int-decimal zero n rest le fits =
    leading_int-digit 0 (n % 10) rest (omega arith) (omega arith)
    ∙ ap (λ k. leading_int k rest) (omega arith)
leading_int-decimal (suc f) n rest le fits = elim (Bool-cases (ltb n 10)) [
  | inl small ↦ rw small (
      leading_int-digit 0 n rest (ground arith) (omega arith)
      ∙ ap (λ k. leading_int k rest) (omega arith))
  | inr large ↦
      let big : 10 ≤ n = ground arith in
      rw large (
        leading_int-decimal f (n / 10) _ (omega arith) (omega arith)
        ∙ leading_int-digit (n / 10) (n % 10) rest (omega arith) (omega arith)
        ∙ ap (λ k. leading_int k rest) (omega arith))
]

-- A text that begins with a digit.
abbrev Starts : Bytes → Type 0
Starts [] = ⊥
Starts (c ∷ s) = is_digit c ≡ true

decimal-Starts : (f n : ℕ) (rest : Bytes) → Starts (decimal f n rest)
unfolding decimal
decimal-Starts zero n rest = is_digit_lem (n % 10) (omega arith)
decimal-Starts (suc f) n rest = elim (Bool-cases (ltb n 10)) [
  | inl small ↦ rw small (is_digit_lem n (ground arith))
  | inr large ↦ rw large (decimal-Starts f (n / 10) _)
]

length-decimal : (f n : ℕ) (rest : Bytes) → length rest < length (decimal f n rest)
unfolding decimal
length-decimal zero n rest = omega arith
length-decimal (suc f) n rest = elim (Bool-cases (ltb n 10)) [
  | inl small ↦ rw small (omega arith)
  | inr large ↦ rw large (omega (arith, length-decimal f (n / 10) ((b'0' + n % 10) ∷ rest)))
]

-- A text at which a unit ends.
abbrev Ends : Bytes → Type 0
Ends s = split_unit s ≡ ([], s)

Starts-Ends : (s : Bytes) → Starts s → Ends s
unfolding split_unit
Starts-Ends [] h = absurd h
Starts-Ends (c ∷ s) h = ground arith

module _ (scaled : ℕ → ℕ → ℕ → ℕ) where
  token_lem :
      (s : Bytes) (v u unit : ℕ) (rest : Bytes)
      → Starts s
      → leading_int 0 s ≡ some (v, u ∷ rest)
      → length (u ∷ rest) < length s
      → is_number u ≡ false
      → Ends rest
      → unit_of (u ∷ []) ≡ some unit
      → v ≤ top / unit
      → token scaled s ≡ ok (v * unit, rest)
  unfolding token split_unit
  token_lem [] v u unit rest h read less no_number ends is fits = absurd h
  token_lem (c ∷ s) v u unit rest h read less no_number ends is fits =
      let dot : (u == b'.') ≡ false = ground arith in
      let fewer : (length (u ∷ rest) == suc (length s)) ≡ false = ground arith in
      let low : ltb (top / unit) v ≡ false = ground arith in
      let number : is_number c ≡ true = ground arith in
      rw (number, read, dot, fewer, no_number, ends, is, low)

  -- The tokens of a text are worth `w`.
  abbrev Reads : Bytes → ℕ → Type 0
  Reads s w = (f d : ℕ) → length s ≤ f → d + w ≤ top → parse_tokens scaled f d s ≡ some (ok (d + w))

  nothing-Reads : Reads [] 0
  unfolding parse_tokens
  nothing-Reads f d enough fits = ap (λ k. some (ok k)) (omega arith)

  token-Reads :
      (s : Bytes) (v w : ℕ) (rest : Bytes)
      → token scaled s ≡ ok (v, rest)
      → length rest < length s
      → Reads rest w
      → Reads s (v + w)
  unfolding parse_tokens
  token-Reads [] v w rest is less reads f d enough fits = absurd (omega arith)
  token-Reads (c ∷ s) v w rest is less reads zero d enough fits = absurd (omega arith)
  token-Reads (c ∷ s) v w rest is less reads (suc f) d enough fits =
      let same : (d + v) % 2 ^ 64 ≡ d + v = omega arith in
      let low : ltb top (d + v) ≡ false = ground arith in
      rw (parse_tokens, is, same, low)
        (ap (λ k. parse_tokens scaled f k rest) same
          ∙ reads f (d + v) (omega arith) (omega arith)
          ∙ ap (λ k. some (ok k)) (omega arith))

  part-Reads :
      (v u unit w : ℕ) (rest : Bytes)
      → is_number u ≡ false
      → unit_of (u ∷ []) ≡ some unit
      → v ≤ top / unit
      → v ≤ top
      → Ends rest
      → Reads rest w
      → Reads (part v u rest) (v * unit + w)
  unfolding leading_int
  part-Reads v u unit w rest no_number is fits small ends reads =
      let digit : is_digit u ≡ false = ground arith in
      let longer = length-decimal v v (u ∷ rest) in
      token-Reads (part v u rest) (v * unit) w rest
        (token_lem (part v u rest) v u unit rest (decimal-Starts v v _)
          (leading_int-decimal v v (u ∷ rest) (omega arith) small ∙ rw digit) longer no_number ends
          is fits)
        (omega (arith, longer)) reads

  -- A text to be read, which is worth `w`, and at which a unit ends.
  abbrev IsTail : Bytes → ℕ → Type 0
  IsTail s w = Ends s × Reads s w

  part-IsTail :
      (v u unit w : ℕ) (rest : Bytes)
      → is_number u ≡ false
      → unit_of (u ∷ []) ≡ some unit
      → v ≤ top / unit
      → v ≤ top
      → IsTail rest w
      → IsTail (part v u rest) (v * unit + w)
  part-IsTail v u unit w rest no_number is fits small (ends, reads) = (
    Starts-Ends _ (decimal-Starts v v _),
    part-Reads v u unit w rest no_number is fits small ends reads,
  )

  optional_part :
      (shown : Bool) (v u unit w : ℕ) (rest : Bytes)
      → (shown ≡ false → v ≡ 0)
      → is_number u ≡ false
      → unit_of (u ∷ []) ≡ some unit
      → v ≤ top / unit
      → v ≤ top
      → IsTail rest w
      → IsTail (if shown then part v u rest else rest) (v * unit + w)
  optional_part true v u unit w rest hidden no_number is fits small tail =
      part-IsTail v u unit w rest no_number is fits small tail
  optional_part false v u unit w rest hidden no_number is fits small tail =
      let gone : v * unit + w ≡ w = rw (hidden refl) (omega arith) in rw gone tail

  format_parts-IsTail :
      (h m s : ℕ)
      → h * hour + m * minute + s * second ≤ top
      → IsTail (format_parts h m s) (h * hour + (m * minute + (s * second + 0)))
  unfolding format_parts unit_of bytes_eq split_unit
  format_parts-IsTail h m s fits =
      optional_part (ltb 0 h) h b'h' hour _ _ (λ e. ground arith) refl refl (omega arith)
        (omega arith)
        (optional_part (ltb 0 m) m b'm' minute _ _ (λ e. ground arith) refl refl (omega arith)
          (omega arith)
          (optional_part (ltb 0 s || (not (ltb 0 h) && not (ltb 0 m))) s b's' second 0 []
            (λ e. ground arith) refl refl (omega arith) (omega arith) (refl, nothing-Reads)))

  parse_duration_lem :
      (s : Bytes) (w : ℕ)
      → Starts s
      → 2 ≤ length s
      → w < top
      → Reads s w
      → parse_duration scaled s ≡ some (ok (pos w))
  unfolding parse_duration parse_unsigned bytes_eq
  parse_duration_lem [] w h two low reads = absurd h
  parse_duration_lem (c ∷ []) w h two low reads = absurd (omega arith)
  parse_duration_lem (c ∷ e ∷ s) w h two low reads =
      let minus : (c == b'-') ≡ false = ground arith in
      let plus : (c == b'+') ≡ false = ground arith in
      let zero_alone : bytes_eq (c ∷ e ∷ s) (b'0' ∷ []) ≡ false = ground arith in
      let fits : ltb (top - 1) w ≡ false = ground arith in
      let sum : 0 + w ≡ w = omega arith in
      rw (
        minus,
        plus,
        zero_alone,
        reads (suc (suc (length s))) 0 (omega arith) (omega arith),
        sum,
        fits,
      )

-- A text that begins with a digit and goes on.
abbrev IsNumber : Bytes → Type 0
IsNumber s = Starts s × (2 ≤ length s)

part-IsNumber : (v u : ℕ) (rest : Bytes) → IsNumber (part v u rest)
part-IsNumber v u rest =
    (decimal-Starts v v (u ∷ rest), omega (arith, length-decimal v v (u ∷ rest)))

format_parts-IsNumber : (h m s : ℕ) → IsNumber (format_parts h m s)
unfolding format_parts
format_parts-IsNumber h m s = elim (Bool-cases (ltb 0 h)) [
  | inl some_h ↦ rw some_h (part-IsNumber h b'h' _)
  | inr no_h ↦ elim (Bool-cases (ltb 0 m)) [
    | inl some_m ↦ rw (no_h, some_m) (part-IsNumber m b'm' _)
    | inr no_m ↦ elim (Bool-cases (ltb 0 s)) [
      | inl some_s ↦ rw (no_h, no_m, some_s) (part-IsNumber s b's' [])
      | inr no_s ↦ rw (no_h, no_m, no_s) (part-IsNumber s b's' [])
    ]
  ]
]

pub format_compact-parts :
    (n : ℕ) → format_compact (pos n) ≡ format_parts (n / hour) (n / minute % 60) (n / second % 60)
unfolding format_compact format_parts decimal
format_compact-parts n = elim (Bool-cases (n == 0)) [
  | inl none_left ↦ let e : n ≡ 0 = ground arith in rw e refl
  | inr left ↦ rw left refl
]

-- A duration of a whole number of seconds, not negative and within the 63 bits of a duration, is
-- read back from its text as it was.
pub format_compact-read :
    (scaled : ℕ → ℕ → ℕ → ℕ) (t : ℕ)
    → t * second < top
    → unmarshal_duration scaled (ok (format_compact (pos (t * second))))
      ≡ some (ok (pos (t * second)))
unfolding unmarshal_duration
format_compact-read scaled t fits =
    let n = t * second in
    let whole : n / hour * hour + (n / minute % 60 * minute + (n / second % 60 * second + 0)) ≡ n =
      omega arith in
    let shape = format_parts-IsNumber (n / hour) (n / minute % 60) (n / second % 60) in
    let tail =
      format_parts-IsTail scaled (n / hour) (n / minute % 60) (n / second % 60) (omega arith) in
    ap (parse_duration scaled) (format_compact-parts n)
    ∙ parse_duration_lem scaled _ _ shape.0 shape.1 (omega arith) tail.1
    ∙ ap (λ k. some (ok (pos k))) whole
