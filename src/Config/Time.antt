-- ===== src/Config/Time.antt =====
-- internal/config/time.go: which texts the JSON schema of a time of day accepts.
pub mod Accepted
use yc_sheduler.Prelude.{ℕ, leb, ◌==◌, Bool, false, ◌&&◌, ◌||◌, [], ◌∷◌, length}
use yc_sheduler.Config.{Bytes}
use yc_sheduler.Schedule.Clock.{is_digit}

-- `[0-1][0-9]|2[0-3]`
abbrev pub hour_digits : ℕ → ℕ → Bool
hour_digits a b = leb b'0' a && leb a b'1' && is_digit b || a == b'2' && leb b'0' b && leb b b'3'

-- `[0-5][0-9]`
abbrev pub sixty_digits : ℕ → ℕ → Bool
sixty_digits a b = leb b'0' a && leb a b'5' && is_digit b

-- `^([0-1][0-9]|2[0-3]):[0-5][0-9](:[0-5][0-9])?$`
unfoldable pub matches_time : Bytes → Bool
matches_time (a ∷ b ∷ c ∷ d ∷ e ∷ []) = hour_digits a b && c == b':' && sixty_digits d e
matches_time (a ∷ b ∷ c ∷ d ∷ e ∷ f ∷ g ∷ h ∷ []) =
    hour_digits a b && c == b':' && sixty_digits d e && f == b':' && sixty_digits g h
matches_time _ = false

-- The pattern and the least length, which counts bytes here: the pattern has only texts of ASCII.
unfoldable pub accepts_time : Bytes → Bool
unfolding matches_time
accepts_time s = leb 5 (length s) && matches_time s
