-- ===== src/Calendar/Agreement.antt =====
-- The times that the calendar and the scheduler read.
use yc_sheduler.Prelude.{
  ℕ, ◌+◌, ◌-◌, ◌*◌, ◌/◌, ◌%◌, ◌<◌, ◌≡◌, refl, ◌∙◌, ap, true, false, ◌&&◌, ◌||◌, ◌==◌, if◌then◌else◌,
  [], ◌∷◌, Result, ok, err, Error, arith, ltb, Bool-cases, inl, inr, ok_injective, ok_before, ◌≤◌,
}
use yc_sheduler.Config.{Bytes}
use yc_sheduler.Schedule.Clock.{Clock, is_digit, past_colon, parse_time_string}
use yc_sheduler.Schedule.Clock.Formats.{
  two, Stops, scan_ints-one, scan_ints-next, Reads, parse_time_string-minutes,
  parse_time_string-seconds,
}
use yc_sheduler.Calendar.Parse.{
  getnum, field, colon, skip_fraction, ended, with_seconds, without_seconds, parse_clock,
}

digit_lem : (c : ℕ) → is_digit c ≡ true → (c ≡ b'0' + (c - b'0')) × (c - b'0' < 10)
digit_lem c h = ground arith

-- Two digits, as the text of the number that they show.
two_digits :
    (c d : ℕ) (s : Bytes)
    → is_digit c ≡ true
    → is_digit d ≡ true
    → c ∷ d ∷ s ≡ two ((c - b'0') * 10 + (d - b'0')) s
two_digits c d s hc hd =
    let tens : c ≡ b'0' + ((c - b'0') * 10 + (d - b'0')) / 10 =
      omega (arith, digit_lem c hc, digit_lem d hd) in
    let ones : d ≡ b'0' + ((c - b'0') * 10 + (d - b'0')) % 10 =
      omega (arith, digit_lem c hc, digit_lem d hd) in
    cc

-- What a number with a range check is, once it was read.
checked_lem :
    (n limit : ℕ) (s : Bytes) (p : ℕ × Bytes)
    → (if ltb n limit then ok (n, s) else err Error.invalid_time) ≡ ok p
    → (n ≡ p.0) × (s ≡ p.1) × (n < limit)
checked_lem n limit s p e = elim (Bool-cases (ltb n limit)) [
  | inl small ↦
      let same = ok_injective (n, s) p (rw small at e) in
      (ap (λ q. q.0) same, ap (λ q. q.1) same, ground arith)
  | inr large ↦ let bad = rw large at e in absurd (cc)
]

field-two :
    (limit : ℕ) (s : Bytes) (p : ℕ × Bytes)
    → field true limit s ≡ ok p
    → (s ≡ two p.0 p.1) × (p.0 < limit)
unfolding field getnum
field-two limit [] p e = absurd (cc)
field-two limit (c ∷ []) p e = elim (Bool-cases (is_digit c)) [
  | inl h ↦ let bad = simp h at e in absurd (cc)
  | inr h ↦ let bad = simp h at e in absurd (cc)
]
field-two limit (c ∷ d ∷ s) p e = elim (Bool-cases (is_digit c)) [
  | inr h ↦ let bad = simp h at e in absurd (cc)
  | inl hc ↦ elim (Bool-cases (is_digit d)) [
    | inr h ↦ let bad = simp (hc, h) at e in absurd (cc)
    | inl hd ↦
        let (n, rest, small) = checked_lem _ limit s p (simp (hc, hd) at e) in
        (two_digits c d s hc hd ∙ cc, omega (arith, n, small))
  ]
]

one_digit :
    (c : ℕ) (s : Bytes) (limit : ℕ) (p : ℕ × Bytes)
    → is_digit c ≡ true
    → (if ltb (c - b'0') limit then ok (c - b'0', s) else err Error.invalid_time) ≡ ok p
    → (front : Bytes → Bytes) × (c ∷ s ≡ front p.1) × (p.0 < limit) × Reads front p.0
one_digit c s limit p h e =
    let (n, rest, small) = checked_lem _ limit s p e in
    let first : c ≡ b'0' + p.0 = omega (arith, digit_lem c h, n) in
    (
      (λ r. (b'0' + p.0) ∷ r),
      cc,
      omega (arith, n, small),
      λ k rest'. scan_ints-one k p.0 rest' (omega (arith, digit_lem c h, n)),
    )

-- The hours may have one digit.
field-hour :
    (limit : ℕ) (s : Bytes) (p : ℕ × Bytes)
    → limit ≤ 100
    → field false limit s ≡ ok p
    → (front : Bytes → Bytes) × (s ≡ front p.1) × (p.0 < limit) × Reads front p.0
unfolding field getnum
field-hour limit [] p most e = absurd (cc)
field-hour limit (c ∷ []) p most e = elim (Bool-cases (is_digit c)) [
  | inr h ↦ let bad = simp h at e in absurd (cc)
  | inl h ↦ one_digit c [] limit p h (simp h at e)
]
field-hour limit (c ∷ d ∷ s) p most e = elim (Bool-cases (is_digit c)) [
  | inr h ↦ let bad = simp h at e in absurd (cc)
  | inl hc ↦ elim (Bool-cases (is_digit d)) [
    | inr h ↦ one_digit c (d ∷ s) limit p hc (simp (hc, h) at e)
    | inl hd ↦
        let (n, rest, small) = checked_lem _ limit s p (simp (hc, hd) at e) in
        (
          two p.0,
          two_digits c d s hc hd ∙ cc,
          omega (arith, n, small),
          λ k rest'. scan_ints-next k p.0 rest' (omega (arith, n, small, most)),
        )
  ]
]

colon_lem : (s r : Bytes) → colon s ≡ ok r → s ≡ b':' ∷ r
unfolding colon past_colon
colon_lem [] r e = absurd (cc)
colon_lem (c ∷ s) r e = elim (Bool-cases (c == b':')) [
  | inl h ↦
      let same = ok_injective s r (rw (h, colon) at e) in
      let colon_is : c ≡ b':' = ground arith in cc
  | inr h ↦ let bad = rw (h, colon) at e in absurd (cc)
]

ended_lem : (s : Bytes) (c c' : Clock) → ended s c ≡ ok c' → (s ≡ []) × (c ≡ c')
unfolding ended
ended_lem [] c c' e = (refl, ok_injective c c' e)
ended_lem (x ∷ s) c c' e = absurd (cc)

-- A fraction begins with no digit.
skip_fraction-Stops : (s : Bytes) → skip_fraction s ≡ [] → Stops s
unfolding skip_fraction
skip_fraction-Stops [] e = tt
skip_fraction-Stops (c ∷ []) e = absurd (cc)
skip_fraction-Stops (c ∷ d ∷ s) e = elim (Bool-cases ((c == b'.' || c == b',') && is_digit d)) [
  | inl h ↦ ground arith
  | inr h ↦ let bad = rw h at e in absurd (cc)
]

without_seconds-agrees :
    (s : Bytes) (c : Clock) → without_seconds s ≡ ok c → parse_time_string s ≡ ok c
unfolding without_seconds
without_seconds-agrees s c e =
    let (h, hour, e1) = ok_before (field false 24 s) _ c e in
    let (s1, colon1, e2) = ok_before (colon h.1) _ c e1 in
    let (mi, minute, e3) = ok_before (field true 60 s1) _ c e2 in
    let (front, text, small, reads) = field-hour 24 s h (omega arith) hour in
    let (text1, small1) = field-two 60 s1 mi minute in
    let (end, clock) = ended_lem mi.1 _ c e3 in
    let all : s ≡ front (b':' ∷ two mi.0 []) =
      text ∙ ap front (colon_lem h.1 s1 colon1 ∙ ap (λ r. b':' ∷ r) (text1 ∙ ap (two mi.0) end)) in
    ap parse_time_string all
    ∙ parse_time_string-minutes front h.0 reads small mi.0 small1
    ∙ ap ok clock

with_seconds-agrees : (s : Bytes) (c : Clock) → with_seconds s ≡ ok c → parse_time_string s ≡ ok c
unfolding with_seconds
with_seconds-agrees s c e =
    let (h, hour, e1) = ok_before (field false 24 s) _ c e in
    let (s1, colon1, e2) = ok_before (colon h.1) _ c e1 in
    let (mi, minute, e3) = ok_before (field true 60 s1) _ c e2 in
    let (s2, colon2, e4) = ok_before (colon mi.1) _ c e3 in
    let (sec, second, e5) = ok_before (field true 60 s2) _ c e4 in
    let (front, text, small, reads) = field-hour 24 s h (omega arith) hour in
    let (text1, small1) = field-two 60 s1 mi minute in
    let (text2, small2) = field-two 60 s2 sec second in
    let (end, clock) = ended_lem (skip_fraction sec.1) _ c e5 in
    let all : s ≡ front (b':' ∷ two mi.0 (b':' ∷ two sec.0 sec.1)) =
      text
      ∙ ap front (
          colon_lem h.1 s1 colon1
          ∙ ap (λ r. b':' ∷ r)
              (text1 ∙ ap (two mi.0) (colon_lem mi.1 s2 colon2 ∙ ap (λ r. b':' ∷ r) text2))) in
    ap parse_time_string all
    ∙ parse_time_string-seconds front h.0 reads small mi.0 sec.0 sec.1 small1 small2
        (skip_fraction-Stops sec.1 end)
    ∙ ap ok clock

-- Every time that the calendar can read, the scheduler and the validator read as the same time.
pub parse_clock-agrees : (s : Bytes) (c : Clock) → parse_clock s ≡ ok c → parse_time_string s ≡ ok c
unfolding parse_clock
parse_clock-agrees s c e = go (with_seconds s) refl (without_seconds s) refl e
  where
    go :
        (r : Result Clock)
        → with_seconds s ≡ r
        → (r' : Result Clock) → without_seconds s ≡ r'
        → elim r [ ok c ↦ ok c | err _ ↦ elim r' [ ok c ↦ ok c | err _ ↦ err Error.invalid_time ] ]
          ≡ ok c
        → parse_time_string s ≡ ok c
    go (ok c') a r' b e = with_seconds-agrees s c (a ∙ e)
    go (err x) a (ok c') b e = without_seconds-agrees s c (b ∙ e)
    go (err x) a (err y) b e = absurd (cc)
