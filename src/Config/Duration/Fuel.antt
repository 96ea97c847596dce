-- ===== src/Config/Duration/Fuel.antt =====
-- The fuel of `parse_duration`: every token takes some of the text.
use yc_sheduler.Prelude.{
  ℕ, zero, suc, ◌+◌, ◌-◌, ◌*◌, ◌/◌, ◌%◌, ◌^◌, ◌≤◌, ◌<◌, ◌==◌, ltb, if◌then◌else◌, ◌≡◌, refl, sym,
  ap, ◌∙◌, ℤ, pos, Bool, false, not, ◌&&◌, ◌||◌, Option, none, some, [], ◌∷◌, Result, ok, err,
  Error, length, arith, Bool-cases, inl, inr,
}
use yc_sheduler.Config.{Bytes}
use yc_sheduler.Config.Files.{bytes_eq}
use yc_sheduler.Schedule.Clock.{is_digit}
use yc_sheduler.Config.Duration.{
  top, leading_int, leading_fraction, fraction, split_unit, unit_of, token_value, after_number,
  token, parse_tokens, parse_unsigned, parse_duration, is_number, with_sign,
}

leading_int-length :
    (x : ℕ) (s : Bytes) (v : ℕ) (rest : Bytes)
    → leading_int x s ≡ some (v, rest)
    → length rest ≤ length s
unfolding leading_int
leading_int-length x [] v rest e = let same : [] ≡ rest = cc in rw (← same) (omega arith)
leading_int-length x (c ∷ s) v rest e =
    let ih = leading_int-length (x * 10 + (c - b'0')) s v rest in
    elim (Bool-cases (is_digit c)) [
      | inr stop ↦
          let h = simp stop at e in let same : c ∷ s ≡ rest = cc in rw (← same) (omega arith)
      | inl digit ↦ elim (Bool-cases (ltb (top / 10) x)) [
        | inl large ↦ let bad = simp (digit, large) at e in absurd (cc)
        | inr small ↦ elim (Bool-cases (ltb top (x * 10 + (c - b'0')))) [
          | inl over ↦ let bad = simp (digit, small, over) at e in absurd (cc)
          | inr fits ↦ omega (arith, ih (simp (digit, small, fits) at e))
        ]
      ]
    ]

leading_fraction-length :
    (o : Bool) (x scale : ℕ) (s : Bytes) → length (leading_fraction o x scale s).2 ≤ length s
unfolding leading_fraction
leading_fraction-length o x scale [] = omega arith
leading_fraction-length o x scale (c ∷ s) =
    let y = x * 10 + (c - b'0') in
    let skip = o || ltb ((top - 1) / 10) x || ltb top y in
    let ih =
      leading_fraction-length skip (if skip then x else y) (if skip then scale else scale * 10) s in
    elim (Bool-cases (is_digit c)) [
      | inr stop ↦ rw stop (omega arith)
      | inl digit ↦ rw digit (omega (arith, ih))
    ]

split_unit-length : (s : Bytes) → length (split_unit s).0 + length (split_unit s).1 ≡ length s
unfolding split_unit
split_unit-length [] = refl
split_unit-length (c ∷ s) = elim (Bool-cases (is_number c)) [
  | inl number ↦ rw number (omega arith)
  | inr letter ↦ rw letter (omega (arith, split_unit-length s))
]

fraction-length : (s : Bytes) → length (fraction s).2 ≤ length s
fraction-length [] = omega arith
fraction-length (c ∷ s) = elim (Bool-cases (c == b'.')) [
  | inl dot ↦ rw dot (omega (arith, leading_fraction-length false 0 1 s))
  | inr other ↦ rw other (omega arith)
]

nameless : unit_of [] ≡ none
unfolding unit_of bytes_eq
nameless = refl

module _ (scaled : ℕ → ℕ → ℕ → ℕ) where
  token_value-rest :
      (v f scale : ℕ) (o : Option ℕ) (rest : Bytes) (p : ℕ × Bytes)
      → token_value scaled v f scale o rest ≡ ok p
      → (p.1 ≡ rest) × ((unit : ℕ) × (o ≡ some unit))
  token_value-rest v f scale none rest p e = absurd (cc)
  token_value-rest v f scale (some unit) rest p e = elim (Bool-cases (ltb (top / unit) v)) [
    | inl over ↦ let bad = simp over at e in absurd (cc)
    | inr fits ↦ elim (Bool-cases (ltb 0 f)) [
      | inr whole ↦
          let h = simp (fits, whole) at e in
          let same : (v * unit, rest) ≡ p = cc in
          (sym (ap (λ (q : ℕ × Bytes). q.1) same), (unit, refl))
      | inl part ↦ elim (Bool-cases (ltb top ((v * unit + scaled f unit scale) % 2 ^ 64))) [
        | inl large ↦ let bad = simp (fits, part, large) at e in absurd (cc)
        | inr small ↦
            let h = simp (fits, part, small) at e in
            let same : ((v * unit + scaled f unit scale) % 2 ^ 64, rest) ≡ p = cc in
            (sym (ap (λ (q : ℕ × Bytes). q.1) same), (unit, refl))
      ]
    ]
  ]

  named_unit : (u : Bytes) (unit : ℕ) → unit_of u ≡ some unit → 1 ≤ length u
  named_unit [] unit e = let bad = sym nameless ∙ e in absurd (cc)
  named_unit (c ∷ u) unit e = omega arith

  after_number-length :
      (n : ℕ) (o : Option (ℕ × Bytes)) (p : ℕ × Bytes)
      → ((v : ℕ) (s : Bytes) → o ≡ some (v, s) → length s ≤ n)
      → after_number scaled n o ≡ ok p
      → length p.1 < n
  after_number-length n none p le e = absurd (cc)
  after_number-length n (some (v, s)) p le e =
      let rest = (fraction s).2 in
      elim (Bool-cases ((length s == n) && not (fraction s).3)) [
        | inl missing ↦ let bad = simp missing at e in absurd (cc)
        | inr there ↦
            let (same, (unit, is)) =
              token_value-rest v (fraction s).0 (fraction s).1 (unit_of (split_unit rest).0)
                (split_unit rest).1 p (simp there at e) in
            rw same (
              omega (
                arith,
                le v s refl,
                fraction-length s,
                split_unit-length rest,
                named_unit (split_unit rest).0 unit is,
              ))
      ]

  token-length : (s : Bytes) (p : ℕ × Bytes) → token scaled s ≡ ok p → length p.1 < length s
  unfolding token
  token-length [] p e = absurd (cc)
  token-length (c ∷ s) p e = elim (Bool-cases (is_number c)) [
    | inr other ↦ let bad = simp other at e in absurd (cc)
    | inl number ↦
        after_number-length (suc (length s)) (leading_int 0 (c ∷ s)) p
          (λ v r is. leading_int-length 0 (c ∷ s) v r is) (simp number at e)
  ]

  -- Fuel of the length of the text is enough.
  parse_tokens-ends :
      (f d : ℕ) (s : Bytes) → length s ≤ f → (r : Result ℕ) × (parse_tokens scaled f d s ≡ some r)
  unfolding parse_tokens
  parse_tokens-ends zero d [] le = (ok d, refl)
  parse_tokens-ends (suc f) d [] le = (ok d, refl)
  parse_tokens-ends zero d (c ∷ s) le = absurd (omega arith)
  parse_tokens-ends (suc f) d (c ∷ s) le =
      go (token scaled (c ∷ s)) refl (λ sum rest le'. parse_tokens-ends f sum rest le')
    where
      go :
          (t : Result (ℕ × Bytes))
          → token scaled (c ∷ s) ≡ t
          → ((sum : ℕ) (rest : Bytes)
              → length rest ≤ f
              → (r : Result ℕ) × (parse_tokens scaled f sum rest ≡ some r))
          → (r : Result ℕ) × (elim t as (λ x. Option (Result ℕ)) [
            | err e ↦ some (err e)
            | ok p ↦
                let sum = (d + p.0) % 2 ^ 64 in
                let more = parse_tokens scaled f sum p.1 in
                if ltb top sum then some (err Error.invalid_duration) else more
          ]
              ≡ some r)
      go (err e) is again = (err e, refl)
      go (ok p) is again = elim (Bool-cases (ltb top ((d + p.0) % 2 ^ 64))) [
        | inl over ↦ rw over (err Error.invalid_duration, refl)
        | inr fits ↦
            rw fits (again ((d + p.0) % 2 ^ 64) p.1 (omega (arith, token-length (c ∷ s) p is)))
      ]

  parse_unsigned-ends :
      (neg : Bool) (s : Bytes) → (r : Result ℤ) × (parse_unsigned scaled neg s ≡ some r)
  unfolding parse_unsigned
  parse_unsigned-ends neg [] = (err Error.invalid_duration, refl)
  parse_unsigned-ends neg (c ∷ s) = elim (Bool-cases (bytes_eq (c ∷ s) (b'0' ∷ []))) [
    | inl alone ↦ rw alone (ok (pos 0), refl)
    | inr more ↦
        let (r, made) = parse_tokens-ends (suc (length s)) 0 (c ∷ s) (omega arith) in
        rw (more, made) (with_sign scaled neg r, refl)
  ]

  -- The length of a text is enough fuel to read it as a duration.
  pub parse_duration-ends : (s : Bytes) → (r : Result ℤ) × (parse_duration scaled s ≡ some r)
  unfolding parse_duration
  parse_duration-ends [] = (err Error.invalid_duration, refl)
  parse_duration-ends (c ∷ s) = elim (Bool-cases (c == b'-' || c == b'+')) [
    | inl sign ↦ rw sign (parse_unsigned-ends (c == b'-') s)
    | inr plain ↦ rw plain (parse_unsigned-ends false (c ∷ s))
  ]
