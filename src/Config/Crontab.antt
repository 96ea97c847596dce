-- ===== src/Config/Crontab.antt =====
-- internal/config/crontab.go: what the JSON schema says of a cron expression.
pub mod Separated
use yc_sheduler.Prelude.{
  ℕ, zero, suc, ◌==◌, leb, Bool, true, false, ◌&&◌, ◌||◌, not, if◌then◌else◌, [], ◌∷◌, length,
}
use yc_sheduler.Config.{Bytes}

-- `\s` of the pattern; `\S` is any other byte.
abbrev pub is_space : ℕ → Bool
is_space c = c == 9 || c == 10 || c == 12 || c == 13 || c == 32

-- Whether this many fields may be followed by the last one.
abbrev pub enough : ℕ → Bool
enough n = n == 4 || n == 5

abbrev pub some_field : ℕ → Bool
some_field zero = false
some_field (suc n) = true

-- The number of fields that have ended, after one more byte.
abbrev pub ended : Bool → Bool → ℕ → ℕ
ended inside space n = if inside && space then suc n else n

-- `^(\S+\s+){4,5}\S+$`, after `n` fields, inside of the next one or before it. Only between two fields
-- is there space.
unfoldable pub matches_crontab : ℕ → Bool → Bytes → Bool
matches_crontab n inside [] = inside && enough n
matches_crontab n inside (c ∷ s) =
    (inside || not (is_space c) || some_field n)
    && matches_crontab (ended inside (is_space c) n) (not (is_space c)) s

-- The pattern and the least length.
unfoldable pub accepts_crontab : Bytes → Bool
unfolding matches_crontab
accepts_crontab s = leb 1 (length s) && matches_crontab 0 false s
