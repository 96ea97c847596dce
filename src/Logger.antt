-- ===== src/Logger.antt =====
-- internal/logger/logger.go: which logger `Setup` installs. The levels of zerolog, with their parser,
-- and the answer of `os.Stderr.Stat` are parameters.
use yc_sheduler.Prelude.{String, str_eq, Bool, false, not, if◌then◌else◌, Result, ok, err}

pub record Logger : Type 0 where
  pub level : String
  pub format : String

-- Both write to standard error with a time: lines of JSON, or text with or without colors.
pub data Output : Type 0 where
  json_lines : Output
  console : Bool → Output

-- The global state of the library after `Setup`.
pub record Global (L : Type 0) : Type 0 where
  pub level : L
  pub output : Output

abbrev pub level_or : {L : Type 0} → L → Result L → L
level_or info (err e) = info
level_or info (ok level) = level

-- `NoColor`: if it is known that standard error is not a terminal.
abbrev pub no_color : Result Bool → Bool
no_color (err e) = false
no_color (ok is_char_device) = not is_char_device

-- `Setup`
abbrev pub setup : {L : Type 0} → (String → Result L) → L → Result Bool → Logger → Global L
setup parse_level info stat l = record {
  level = level_or info (parse_level l.level);
  output = if str_eq l.format "json" then json_lines else console (no_color stat);
}
