-- ===== src/Calendar/Title.antt =====
-- FormatMonthTitle of internal/calendar/calendar.go.
use yc_sheduler.Prelude.{ℕ, zero, suc, ◌-◌, ◌/◌, ◌%◌, List, [], ◌∷◌, ◌++◌}
use yc_sheduler.Config.{Bytes}
use yc_sheduler.GoTime.Instant.{Time, year, month}
use yc_sheduler.Schedule.Clock.Formats.{two}

abbrev pub month_names : List Bytes
month_names =
    (b'J' ∷ b'a' ∷ b'n' ∷ b'u' ∷ b'a' ∷ b'r' ∷ b'y' ∷ [])
    ∷ (b'F' ∷ b'e' ∷ b'b' ∷ b'r' ∷ b'u' ∷ b'a' ∷ b'r' ∷ b'y' ∷ [])
    ∷ (b'M' ∷ b'a' ∷ b'r' ∷ b'c' ∷ b'h' ∷ [])
    ∷ (b'A' ∷ b'p' ∷ b'r' ∷ b'i' ∷ b'l' ∷ [])
    ∷ (b'M' ∷ b'a' ∷ b'y' ∷ [])
    ∷ (b'J' ∷ b'u' ∷ b'n' ∷ b'e' ∷ [])
    ∷ (b'J' ∷ b'u' ∷ b'l' ∷ b'y' ∷ [])
    ∷ (b'A' ∷ b'u' ∷ b'g' ∷ b'u' ∷ b's' ∷ b't' ∷ [])
    ∷ (b'S' ∷ b'e' ∷ b'p' ∷ b't' ∷ b'e' ∷ b'm' ∷ b'b' ∷ b'e' ∷ b'r' ∷ [])
    ∷ (b'O' ∷ b'c' ∷ b't' ∷ b'o' ∷ b'b' ∷ b'e' ∷ b'r' ∷ [])
    ∷ (b'N' ∷ b'o' ∷ b'v' ∷ b'e' ∷ b'm' ∷ b'b' ∷ b'e' ∷ b'r' ∷ [])
    ∷ (b'D' ∷ b'e' ∷ b'c' ∷ b'e' ∷ b'm' ∷ b'b' ∷ b'e' ∷ b'r' ∷ [])
    ∷ []

abbrev pub nth_name : List Bytes → ℕ → Bytes
nth_name [] n = []
nth_name (name ∷ names) zero = name
nth_name (name ∷ names) (suc n) = nth_name names n

-- The month and the year, of four digits; there is no space at an end to trim.
unfoldable pub format_month_title : Time → Bytes
format_month_title t =
    nth_name month_names (month t - 1) ++ (b' ' ∷ two (year t / 100) (two (year t % 100) []))
