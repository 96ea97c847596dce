-- ===== src/Tests/Settings.antt =====
-- The texts of durations, and a configuration that is loaded.
use yc_sheduler.Prelude.{
  ◌↔◌, ◌⊎◌, ap, sym, ok_injective, invalid_config, err, ◌*◌, ◌≡◌, ◌↔◌, refl, inl, str_eq, true,
  false, none, [], ◌∷◌, ok, arith, pos, negsuc, if◌then◌else◌,
}
use yc_sheduler.Config.Crontab.{accepts_crontab}
use yc_sheduler.Config.Crontab.Separated.{Separated, accepts_crontab-Separated}
use yc_sheduler.Config.Values.{Json, rfc3339_time, duration}
use yc_sheduler.Config.Values.RoundTrip.{
  ComesBack, IsCalendarText, IsWholeSeconds, unmarshal_json-marshal_json,
}
use yc_sheduler.Config.Time.{accepts_time}
use yc_sheduler.Config.Time.Accepted.{IsText, accepts_time-IsText}
use yc_sheduler.Calendar.Parse.{parse_clock}
use yc_sheduler.Schedule.Clock.Formats.{hh_mm_ss}
use yc_sheduler.Schedule.Clock.{Clock, parse_time_string, parse_time}
use yc_sheduler.Config.{Bytes, Config, to_schedule}
use yc_sheduler.Config.Files.{
  Files, directory, file, ext, to_lower, bytes_eq, is_yaml, insert_name, sort_names, yaml_names,
}
use yc_sheduler.Config.Loader.{
  add_schedules, parse_documents, parse_schedule_file, load_files, loaded_schedules, load_dir,
}
use yc_sheduler.Config.Duration.{second, format_compact}
use yc_sheduler.Config.Duration.Pattern.{matches_pattern, format_compact-matches}
use yc_sheduler.Config.Load.{
  SchemaLib, ConfigLib, compile_embedded_schema, get_schema, check, validate, read_config,
  resolve_dir, with_schedules, validated, load,
}
use yc_sheduler.Config.Load.Loaded.{IsLoaded, load-IsLoaded}
use yc_sheduler.Tests.Fixtures.{moscow}
use yc_sheduler.Tests.Services.{manifest, codec, files}

-- The minute 0 of the hour 9, every day.
abbrev nine : Bytes
nine = b'0' ∷ b' ' ∷ b'9' ∷ b' ' ∷ b'*' ∷ b' ' ∷ b'*' ∷ b' ' ∷ b'*' ∷ []

accepts_crontab-Separated_example :
    (accepts_crontab nine ≡ true) ↔ (Separated 4 nine ⊎ Separated 5 nine)
accepts_crontab-Separated_example = accepts_crontab-Separated nine

-- A quote before every text.
abbrev quoted : Json
quoted = record {
  marshal = λ s. ok (b'"' ∷ s);
  unmarshal = λ bytes. elim bytes [ [] ↦ err invalid_config | c ∷ s ↦ ok s ];
  is_utf8 = λ s. true;
}

unmarshal_json-marshal_json_example :
    ComesBack quoted (duration (λ f unit scale. 0)) IsWholeSeconds
    × ComesBack quoted (rfc3339_time moscow) IsCalendarText
unmarshal_json-marshal_json_example =
    unmarshal_json-marshal_json quoted moscow (λ f unit scale. 0)
      (λ s bytes utf8 made. ap quoted.unmarshal (sym (ok_injective (b'"' ∷ s) bytes made)))

-- 1m5s, and five minutes below zero.
format_compact-matches_example :
    (matches_pattern (format_compact (pos 65000000000)) ≡ true)
    × (matches_pattern (format_compact (negsuc 299999999999)) ≡ true)
    × (format_compact (negsuc 299999999999) ≡ format_compact (pos 0))
format_compact-matches_example = format_compact-matches 65000000000 5 299999999999 (omega arith)

abbrev config_files : Files
config_files = record files { stat = λ path. if str_eq path "config.yaml" then file else directory }

abbrev defaults : Config
defaults = record {
  validation_resources = none;
  timezone = "UTC";
  schedules_dir = "schedules";
  schedules = [];
  validation_interval = pos (600 * second);
  shutdown_timeout = pos (10 * second);
  metrics_port = pos 9090;
  max_concurrent_jobs = pos 5;
  metrics_enabled = true;
  ui_enabled = false;
}

abbrev config_lib : ConfigLib
config_lib = record {
  read_file = λ path. ok (b'x' ∷ []);
  unmarshal = λ raw. ok defaults;
  set_defaults = λ cfg. ok cfg;
  marshal_json = λ cfg. ok (b'x' ∷ []);
  is_abs = λ path. false;
  dir = λ path. ".";
  join = λ a b. b;
}

abbrev schema_lib : SchemaLib Bytes Bytes Bytes
schema_lib = record {
  unmarshal_json = λ text. ok text;
  add_resource = λ url doc. ok doc;
  compile = λ c url. ok c;
  validate = λ s doc. ok tt;
}

abbrev pub loaded_config : Config
loaded_config = record defaults { schedules = to_schedule manifest ∷ [] }

loads :
    (load schema_lib (b'x' ∷ []) config_lib codec config_files "config.yaml" none).0
    ≡ ok loaded_config
unfolding load validated validate check get_schema compile_embedded_schema read_config
    with_schedules resolve_dir load_dir load_files loaded_schedules add_schedules parse_documents
    parse_schedule_file yaml_names sort_names insert_name is_yaml ext to_lower bytes_eq
loads = refl

load-IsLoaded_example :
    IsLoaded schema_lib (b'x' ∷ []) config_lib codec config_files "config.yaml" loaded_config
load-IsLoaded_example =
    load-IsLoaded schema_lib (b'x' ∷ []) config_lib codec config_files "config.yaml" none
      loaded_config (inl refl) loads

accepts_time-IsText_example :
    ((accepts_time (hh_mm_ss 9 30 15) ≡ true) ↔ ((c : Clock) × IsText (hh_mm_ss 9 30 15) c))
    × ((c : Clock)
        → IsText (hh_mm_ss 9 30 15) c
        → (parse_time_string (hh_mm_ss 9 30 15) ≡ ok c)
          × (parse_time (hh_mm_ss 9 30 15) ≡ ok c)
          × (parse_clock (hh_mm_ss 9 30 15) ≡ ok c))
accepts_time-IsText_example = accepts_time-IsText (hh_mm_ss 9 30 15)
