-- ===== src/GoTime/Rfc3339.antt =====
-- Go's `time.Parse(time.RFC3339, …)` on dates from 1 March of year 0 on. Besides the documented form
-- it takes hours of one digit and a fraction of a second.
pub mod RoundTrip
use yc_sheduler.Prelude.{
  ℕ, zero, suc, ◌+◌, ◌-◌, ◌*◌, ◌^◌, ◌==◌, ltb, if◌then◌else◌, Bool, true, false, not, ◌&&◌, ◌||◌,
  [], ◌∷◌, Result, ok, err, ◌>>=◌, invalid_time,
}
use yc_sheduler.Config.{Bytes}
use yc_sheduler.GoTime.Civil.{month_start}
use yc_sheduler.GoTime.Instant.{Location, Time, Zone, second_ns, day_seconds, date_days}
use yc_sheduler.Schedule.Clock.{is_digit}
use yc_sheduler.Calendar.Parse.{getnum, field, colon, skip_fraction}

-- The layout's `2006`.
unfoldable pub year_number : Bytes → Result (ℕ × Bytes)
year_number (a ∷ b ∷ c ∷ d ∷ s) =
    if is_digit a && is_digit b && is_digit c && is_digit d
    then ok (((a - b'0') * 10 + (b - b'0')) * 100 + ((c - b'0') * 10 + (d - b'0')), s)
    else err invalid_time
year_number _ = err invalid_time

-- A literal byte of the layout.
unfoldable pub past : ℕ → Bytes → Result Bytes
past x [] = err invalid_time
past x (c ∷ s) = if c == x then ok s else err invalid_time

-- The nanoseconds of up to nine digits of a fraction; the others are skipped.
unfoldable pub nanoseconds : ℕ → ℕ → Bytes → ℕ
nanoseconds places n [] = n * 10 ^ places
nanoseconds zero n (c ∷ s) = n
nanoseconds (suc places) n (c ∷ s) =
    let more = nanoseconds places (n * 10 + (c - b'0')) s in
    if is_digit c then more else n * 10 ^ suc places

unfoldable pub fraction_ns : Bytes → ℕ
unfolding nanoseconds
fraction_ns (c ∷ d ∷ s) =
    if (c == b'.' || c == b',') && is_digit d then nanoseconds 9 0 (d ∷ s) else 0
fraction_ns _ = 0

-- `Z`, or an offset from UTC as the seconds that it is ahead and behind.
pub data Offset : Type 0 where
  utc : Offset
  fixed : ℕ → ℕ → Offset

-- A sign, hours and minutes. Offsets of 24 hours and of 60 minutes are taken too.
abbrev pub signed_offset : ℕ → ℕ → ℕ → Bytes → Result (Offset × Bytes)
signed_offset sign h m rest =
    if ltb 24 h || ltb 60 m
    then err invalid_time
    else if sign == b'+'
    then ok (fixed (h * 3600 + m * 60) 0, rest)
    else if sign == b'-'
    then ok (fixed 0 (h * 3600 + m * 60), rest)
    else err invalid_time

abbrev pub numeric_offset : ℕ → Bytes → Result (Offset × Bytes)
numeric_offset sign s = do
  h ← getnum true s
  at_minute ← past b':' h.1
  m ← getnum true at_minute
  signed_offset sign h.0 m.0 m.1

-- The layout's `Z07:00`.
unfoldable pub zone_offset : Bytes → Result (Offset × Bytes)
unfolding getnum past
zone_offset [] = err invalid_time
zone_offset (c ∷ s) = let offset = numeric_offset c s in if c == b'Z' then ok (utc, s) else offset

abbrev pub days_in_month : ℕ → ℕ → ℕ
days_in_month y m = month_start (12 * y + m) - month_start (12 * y + m - 1)

abbrev pub fixed_zone : ℕ → ℕ → Location
fixed_zone ahead behind = record {
  zone = λ s. record { ahead = ahead; behind = behind; since = 0; until = 0 };
}

-- The instant of a second that a clock with that offset shows; its location is the local one if that
-- has the same offset then.
unfoldable pub at_offset : Location → Offset → ℕ → ℕ → Time
at_offset local utc s n = record { ns = s * second_ns + n; loc = fixed_zone 0 0 }
at_offset local (fixed ahead behind) s n =
    let second = s + behind - ahead in
    let z = local.zone second in
    record {
      ns = second * second_ns + n;
      loc = if z.ahead + behind == ahead + z.behind then local else fixed_zone ahead behind;
    }

abbrev pub is_done : Bytes → Bool
is_done [] = true
is_done (c ∷ s) = false

-- The time of the fields, if there is such a date and nothing follows.
abbrev pub dated : Location → ℕ → ℕ → ℕ → ℕ → ℕ → Offset → Bytes → Result Time
dated local y m d seconds n offset rest =
    if not (is_done rest) || m == 0 || ltb 12 m || d == 0 || ltb (days_in_month y m) d
    then err invalid_time
    else ok
        (at_offset local offset ((month_start (12 * y + m - 1) + d - 1) * day_seconds + seconds) n)

unfoldable pub parse_rfc3339 : Location → Bytes → Result Time
parse_rfc3339 local value = do
  y ← year_number value
  at_month ← past b'-' y.1
  m ← getnum true at_month
  at_day ← past b'-' m.1
  d ← getnum true at_day
  at_hour ← past b'T' d.1
  h ← field false 24 at_hour
  at_minute ← colon h.1
  mi ← field true 60 at_minute
  at_second ← colon mi.1
  s ← field true 60 at_second
  z ← zone_offset (skip_fraction s.1)
  dated local y.0 m.0 d.0 (h.0 * 3600 + mi.0 * 60 + s.0) (fraction_ns s.1) z.0 z.1
