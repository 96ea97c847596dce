-- ===== src/Schedule/Clock.antt =====
-- `parseTimeString`, `ParseTime`, `ParseWeekday` and `ParseDayOfMonth`, with what Go's
-- `fmt.Sscanf(s, "%d:%d:%d", …)` does on ASCII text: blanks and a sign may precede each number, and
-- what follows the last number that was read is not looked at.
pub mod Formats
use yc_sheduler.Prelude.{
  ℕ, zero, suc, ◌+◌, ◌-◌, ◌*◌, ◌^◌, ◌==◌, ltb, leb, if◌then◌else◌, ℤ, pos, negsuc, pos_part, ltb_ℤ,
  Bool, ◌&&◌, ◌||◌, Option, none, some, List, [], ◌∷◌, Result, ok, err, ◌>>=◌, empty_time,
  invalid_time, time_out_of_range, invalid_weekday, invalid_month_day,
}
use yc_sheduler.Config.{Bytes}

abbrev pub is_digit : ℕ → Bool
is_digit c = leb b'0' c && leb c b'9'

-- Tab, vertical tab, form feed and space. A line break stops the scan with an error.
abbrev is_blank : ℕ → Bool
is_blank c = c == 9 || c == 11 || c == 12 || c == 13 || c == 32

skip_space : Bytes → Bytes
skip_space [] = []
skip_space (c ∷ s) = let rest = skip_space s in if is_blank c then rest else c ∷ s

-- The value of the digits in front, with what follows them.
unfoldable pub digits : ℕ → Bytes → ℕ × Bytes
digits n [] = (n, [])
digits n (c ∷ s) =
    let more = digits (n * 10 + (c - b'0')) s in if is_digit c then more else (n, c ∷ s)

-- `strconv.ParseInt(tok, 10, 64)`: the magnitude must fit.
abbrev max_int : ℕ
max_int = 2 ^ 63 - 1

in_int : ℕ × Bytes → Option (ℤ × Bytes)
in_int (n, s) = if leb n max_int then some (pos n, s) else none

negate : ℕ → ℤ
negate zero = pos 0
negate (suc n) = negsuc n

in_int_neg : ℕ × Bytes → Option (ℤ × Bytes)
unfolding negate
in_int_neg (n, s) = if leb n (2 ^ 63) then some (negate n, s) else none

unsigned : Bytes → Option (ℕ × Bytes)
unfolding digits
unsigned [] = none
unsigned (c ∷ s) = if is_digit c then some (digits 0 (c ∷ s)) else none

signed : Bytes → Option (ℤ × Bytes)
unfolding unsigned in_int in_int_neg
signed [] = none
signed (c ∷ s) =
    if c == b'-'
    then elim (unsigned s) [ none ↦ none | some p ↦ in_int_neg p ]
    else elim (unsigned (if c == b'+' then s else c ∷ s)) [ none ↦ none | some p ↦ in_int p ]

-- One `%d`.
unfoldable pub scan_int : Bytes → Option (ℤ × Bytes)
unfolding skip_space signed
scan_int s = signed (skip_space s)

-- The literal `:` of the format.
unfoldable pub past_colon : Bytes → Option Bytes
past_colon [] = none
past_colon (c ∷ s) = if c == b':' then some s else none

-- The operands that are stored before the scan ends or fails: a number, then up to `k` more, each
-- behind a colon.
unfoldable pub scan_ints : ℕ → Bytes → List ℤ
unfolding past_colon
scan_ints zero s = elim (scan_int s) [ none ↦ [] | some p ↦ p.0 ∷ [] ]
scan_ints (suc k) s = elim (scan_int s) [
  | none ↦ []
  | some p ↦ p.0 ∷ elim (past_colon p.1) [ none ↦ [] | some rest ↦ scan_ints k rest ]
]

-- A time of day.
pub record Clock : Type 0 where
  pub hour : ℕ
  pub minute : ℕ
  pub second : ℕ

abbrev outside : ℤ → ℕ → Bool
outside v hi = ltb_ℤ v (pos 0) || ltb_ℤ (pos hi) v

in_range : ℤ → ℤ → ℤ → Result Clock
in_range h m s =
    if outside h 23 || outside m 59 || outside s 59
    then err time_out_of_range
    else ok (record { hour = pos_part h; minute = pos_part m; second = pos_part s })

from_operands : List ℤ → Result Clock
unfolding in_range
from_operands (h ∷ m ∷ s ∷ rest) = in_range h m s
from_operands (h ∷ m ∷ []) = in_range h m (pos 0)
from_operands _ = err invalid_time

unfoldable pub parse_time_string : Bytes → Result Clock
unfolding from_operands
parse_time_string s = from_operands (scan_ints 2 s)

-- The text of an empty time is refused before it is scanned. The range is checked once more.
unfoldable pub parse_time : Bytes → Result Clock
unfolding parse_time_string
parse_time [] = err empty_time
parse_time (c ∷ s) = do
  t ← parse_time_string (c ∷ s)
  if ltb 23 t.hour || ltb 59 t.minute || ltb 59 t.second then err time_out_of_range else ok t

-- A `gocron.Weekdays` of one day, by its number in Go's `time.Weekday`.
unfoldable pub parse_weekday : ℤ → Result ℕ
parse_weekday (pos d) = if ltb d 7 then ok d else err invalid_weekday
parse_weekday (negsuc n) = err invalid_weekday

unfoldable pub parse_day_of_month : ℤ → Result ℤ
parse_day_of_month d = if ltb_ℤ d (pos 1) || ltb_ℤ (pos 31) d then err invalid_month_day else ok d
