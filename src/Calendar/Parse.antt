-- ===== src/Calendar/Parse.antt =====
-- `parseClock` of internal/calendar/calendar.go, with what Go's `time.Parse` does for its layouts.
use yc_sheduler.Prelude.{
  ℕ, ◌+◌, ◌-◌, ◌*◌, ◌==◌, ltb, if◌then◌else◌, Bool, true, false, ◌&&◌, ◌||◌, none, some, [], ◌∷◌,
  Result, ok, err, ◌>>=◌, invalid_time,
}
use yc_sheduler.Config.{Bytes}
use yc_sheduler.Schedule.Clock.{Clock, is_digit, digits, past_colon}

-- Two digits, or one if the layout does not fix the width.
unfoldable pub getnum : Bool → Bytes → Result (ℕ × Bytes)
getnum fixed [] = err invalid_time
getnum fixed (c ∷ []) =
    if is_digit c && (if fixed then false else true) then ok (c - b'0', []) else err invalid_time
getnum fixed (c ∷ d ∷ s) =
    if is_digit c
    then if is_digit d
      then ok ((c - b'0') * 10 + (d - b'0'), s)
      else if fixed
      then err invalid_time
      else ok (c - b'0', d ∷ s)
    else err invalid_time

unfoldable pub field : Bool → ℕ → Bytes → Result (ℕ × Bytes)
field fixed limit s = do p ← getnum fixed s; if ltb p.0 limit then ok p else err invalid_time

unfoldable pub colon : Bytes → Result Bytes
colon s = elim (past_colon s) [ none ↦ err invalid_time | some rest ↦ ok rest ]

-- A fraction of a second may follow the seconds, also if the layout has none.
unfoldable pub skip_fraction : Bytes → Bytes
skip_fraction [] = []
skip_fraction (c ∷ []) = c ∷ []
skip_fraction (c ∷ d ∷ s) =
    if (c == b'.' || c == b',') && is_digit d then (digits 0 s).1 else c ∷ d ∷ s

unfoldable pub ended : Bytes → Clock → Result Clock
ended [] c = ok c
ended (_ ∷ _) c = err invalid_time

-- The layout `15:04:05`.
unfoldable pub with_seconds : Bytes → Result Clock
with_seconds value = do
  h ← field false 24 value
  at_minute ← colon h.1
  mi ← field true 60 at_minute
  at_second ← colon mi.1
  s ← field true 60 at_second
  ended (skip_fraction s.1) (record { hour = h.0; minute = mi.0; second = s.0 })

-- The layout `15:04`.
unfoldable pub without_seconds : Bytes → Result Clock
without_seconds value = do
  h ← field false 24 value
  at_minute ← colon h.1
  mi ← field true 60 at_minute
  ended mi.1 (record { hour = h.0; minute = mi.0; second = 0 })

unfoldable pub parse_clock : Bytes → Result Clock
parse_clock value = elim (with_seconds value) [
  | ok c ↦ ok c
  | err _ ↦ elim (without_seconds value) [ ok c ↦ ok c | err _ ↦ err invalid_time ]
]
