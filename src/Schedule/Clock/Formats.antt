-- ===== src/Schedule/Clock/Formats.antt =====
-- Which texts `parse_time_string` takes, and what it makes of them.
use yc_sheduler.Prelude.{
  ℕ, zero, suc, ◌+◌, ◌*◌, ◌-◌, ◌/◌, true, ◌%◌, ◌<◌, ◌≡◌, refl, ℤ, pos, List, [], ◌∷◌, some, ok,
  arith, ◌==◌, false,
}
use yc_sheduler.Config.{Bytes}
use yc_sheduler.Schedule.Clock.{
  is_digit, digits, scan_int, scan_ints, in_int, in_range, is_blank, from_operands, Clock,
  parse_time_string,
}

-- The two digits of a number below 100.
abbrev pub two : ℕ → Bytes → Bytes
two n rest = (b'0' + n / 10) ∷ (b'0' + n % 10) ∷ rest

-- A text at whose front no digit stands.
abbrev pub Stops : Bytes → Type 0
Stops [] = Unit
Stops (c ∷ s) = is_digit c ≡ false

digits-stop : (n : ℕ) (rest : Bytes) → Stops rest → digits n rest ≡ (n, rest)
unfolding digits
digits-stop n [] h = refl
digits-stop n (c ∷ s) h = rw h

pub is_digit_lem : (d : ℕ) → d < 10 → is_digit (b'0' + d) ≡ true
is_digit_lem d h = ground arith

digits-digit :
    (n d : ℕ) (rest : Bytes) → d < 10 → digits n ((b'0' + d) ∷ rest) ≡ digits (n * 10 + d) rest
unfolding digits
digits-digit n d rest h = let e : b'0' + d - b'0' ≡ d = omega arith in rw (is_digit_lem d h, e)

scan_int-digit :
    (d : ℕ) (rest : Bytes)
    → d < 10
    → scan_int ((b'0' + d) ∷ rest) ≡ in_int (digits 0 ((b'0' + d) ∷ rest))
unfolding scan_int
scan_int-digit d rest h =
    let blank : is_blank (b'0' + d) ≡ false = ground arith in
    let minus : (b'0' + d == b'-') ≡ false = ground arith in
    let plus : (b'0' + d == b'+') ≡ false = ground arith in
    rw (blank, minus, plus, is_digit_lem d h)

scan_int-two :
    (n : ℕ) (rest : Bytes) → n < 100 → Stops rest → scan_int (two n rest) ≡ some (pos n, rest)
unfolding in_int
scan_int-two n rest h stops =
    let e : n / 10 * 10 + n % 10 ≡ n = omega arith in
    let z : (0 * 10 + n / 10) * 10 + n % 10 ≡ n = omega arith in
    rw
      (
        scan_int-digit (n / 10) _ (omega arith),
        digits-digit 0 (n / 10) _ (omega arith),
        digits-digit _ (n % 10) rest (omega arith),
        z,
        digits-stop n rest stops,
      )
      (ground arith)

pub scan_ints-next :
    (k n : ℕ) (rest : Bytes)
    → n < 100
    → scan_ints (suc k) (two n (b':' ∷ rest)) ≡ pos n ∷ scan_ints k rest
unfolding scan_ints
scan_ints-next k n rest h = rw (scan_int-two n (b':' ∷ rest) h refl, scan_ints)

scan_ints-last : (k n : ℕ) → n < 100 → scan_ints k (two n []) ≡ pos n ∷ []
unfolding scan_ints
scan_ints-last zero n h = rw (scan_int-two n [] h tt, scan_ints)
scan_ints-last (suc k) n h = rw (scan_int-two n [] h tt, scan_ints)

abbrev pub hh_mm : ℕ → ℕ → Bytes
hh_mm h m = two h (b':' ∷ two m [])

abbrev pub hh_mm_ss : ℕ → ℕ → ℕ → Bytes
hh_mm_ss h m s = two h (b':' ∷ two m (b':' ∷ two s []))

in_range_lem :
    (h m s : ℕ)
    → h < 24
    → m < 60
    → s < 60
    → in_range (pos h) (pos m) (pos s) ≡ ok (record { hour = h; minute = m; second = s })
unfolding in_range
in_range_lem h m s hh hm hs = ground arith

-- Every text of the two documented forms, HH:MM and HH:MM:SS, with hours below 24 and minutes and
-- seconds below 60, is read as the time of day that it shows.
pub parse_time_string-formats :
    (h m s : ℕ)
    → h < 24
    → m < 60
    → s < 60
    → (parse_time_string (hh_mm h m) ≡ ok (record { hour = h; minute = m; second = 0 }))
      × (parse_time_string (hh_mm_ss h m s) ≡ ok (record { hour = h; minute = m; second = s }))
unfolding parse_time_string
parse_time_string-formats h m s hh hm hs = (
  rw (
    scan_ints-next 1 h _ (omega arith),
    scan_ints-last 1 m (omega arith),
    in_range_lem h m 0 hh hm (omega arith),
  ),
  rw (
    scan_ints-next 1 h _ (omega arith),
    scan_ints-next 0 m _ (omega arith),
    scan_ints-last 0 s (omega arith),
    in_range_lem h m s hh hm hs,
  ),
)

-- One digit, then a colon.
pub scan_ints-one :
    (k d : ℕ) (rest : Bytes)
    → d < 10
    → scan_ints (suc k) ((b'0' + d) ∷ b':' ∷ rest) ≡ pos d ∷ scan_ints k rest
unfolding in_int scan_ints
scan_ints-one k d rest h =
    let e : 0 * 10 + d ≡ d = omega arith in
    let number : scan_int ((b'0' + d) ∷ b':' ∷ rest) ≡ some (pos d, b':' ∷ rest) =
      rw
        (
          scan_int-digit d _ h,
          digits-digit 0 d (b':' ∷ rest) h,
          e,
          digits-stop d (b':' ∷ rest) refl,
        )
        (ground arith) in
    rw (number, scan_ints)

-- A front of a text that reads as one number before a colon.
abbrev pub Reads : (Bytes → Bytes) → ℕ → Type 0
Reads front h =
    (k : ℕ) (rest : Bytes) → scan_ints (suc k) (front (b':' ∷ rest)) ≡ pos h ∷ scan_ints k rest

module _ (front : Bytes → Bytes) (h : ℕ) (reads : Reads front h) (hh : h < 24) where
  pub parse_time_string-minutes :
      (m : ℕ)
      → m < 60
      → parse_time_string (front (b':' ∷ two m []))
        ≡ ok (record { hour = h; minute = m; second = 0 })
  unfolding parse_time_string
  parse_time_string-minutes m hm =
      rw (
        reads 1 (two m []),
        scan_ints-last 1 m (omega arith),
        in_range_lem h m 0 hh hm (omega arith),
      )

  -- What follows the seconds does not count.
  pub parse_time_string-seconds :
      (m s : ℕ) (rest : Bytes)
      → m < 60
      → s < 60
      → Stops rest
      → parse_time_string (front (b':' ∷ two m (b':' ∷ two s rest)))
        ≡ ok (record { hour = h; minute = m; second = s })
  unfolding parse_time_string scan_ints
  parse_time_string-seconds m s rest hm hs stops =
      let last : scan_ints 0 (two s rest) ≡ pos s ∷ [] =
        rw (scan_int-two s rest (omega arith) stops, scan_ints) in
      rw (
        reads 1 (two m (b':' ∷ two s rest)),
        scan_ints-next 0 m (two s rest) (omega arith),
        last,
        in_range_lem h m s hh hm hs,
      )

abbrev pub IsClock : Clock → Type 0
IsClock c = (c.hour < 24) × (c.minute < 60) × (c.second < 60)

in_range-IsClock : (h m s : ℤ) (c : Clock) → in_range h m s ≡ ok c → IsClock c
unfolding in_range
in_range-IsClock (pos h) (pos m) (pos s) c e = ground arith
in_range-IsClock h m s c e = ground arith

from_operands-IsClock : (l : List ℤ) (c : Clock) → from_operands l ≡ ok c → IsClock c
unfolding from_operands
from_operands-IsClock [] c e = cc
from_operands-IsClock (h ∷ []) c e = cc
from_operands-IsClock (h ∷ m ∷ []) c e = in_range-IsClock h m (pos 0) c e
from_operands-IsClock (h ∷ m ∷ s ∷ l) c e = in_range-IsClock h m s c e

-- Whatever the text, a time that is read lies within the day.
pub parse_time_string-IsClock : (s : Bytes) (c : Clock) → parse_time_string s ≡ ok c → IsClock c
unfolding parse_time_string
parse_time_string-IsClock s c e = from_operands-IsClock (scan_ints 2 s) c e
