-- ===== src/SchemaGen.antt =====
-- cmd/schema-gen/main.go: the generator of the JSON schemas, from its parsed flags to its exit code.
-- The reflection of the configuration, the encoder and what the file system answers are parameters.
pub mod Written
use yc_sheduler.Prelude.{
  ℕ, String, str_eq, Bool, not, if◌then◌else◌, Option, none, some, List, [], ◌∷◌, ◌++◌, Result, ok,
  err, Error,
}
use yc_sheduler.Config.{Bytes}
use yc_sheduler.App.Provider.{Map}

-- A schema: its head, and all that reflection finds.
pub record Schema : Type 0 where
  pub version : String
  pub title : String
  pub description : String
  pub rest : Bytes

-- What is printed to standard error.
pub data Note : Type 0 where
  comments_failed : Error → Note
  config_failed schedule_failed : Error → Note
  close_failed : String → Error → Note
  config_written schedule_written : String → Note

-- What the generator changes; the latest file and the latest note come first.
pub record World : Type 0 where
  pub files : Map Bytes
  pub stdout : Bytes
  pub notes : List Note

-- What the outside answers. A write says what has got to its target, and whether it failed.
pub record Outside : Type 0 where
  pub dir : String → String
  pub mkdir_all : String → World → Option Error
  pub create : String → World → Option Error
  pub encode : Schema → Bool → Result Bytes
  pub write : String → Bytes → World → Bytes × Option Error
  pub close : String → World → Option Error
  pub add_comments : String → Option Error
  pub reflect_config : String → Schema
  pub reflect_schedule : String → Schema

abbrev pub noted : Note → World → World
noted n w = record w { notes = n ∷ w.notes }

module _ (o : Outside) where
  -- `enc.Encode(schema)`, up to the write; `put` appends to the output.
  abbrev pub encoded :
      String → (Bytes → World → World) → Result Bytes → World → Option Error × World
  encoded target put (err e) w = (some e, w)
  encoded target put (ok bytes) w = let (done, e) = o.write target bytes w in (e, put done w)

  abbrev pub to_stdout : Bytes → World → World
  to_stdout bytes w = record w { stdout = w.stdout ++ bytes }

  abbrev pub to_file : String → Bytes → World → World
  to_file path bytes w = record w { files = (path, bytes) ∷ w.files }

  abbrev pub after_close : String → Option Error → Option Error × World → Option Error × World
  after_close path none r = r
  after_close path (some c) r = (r.0, noted (close_failed path c) r.1)

  -- The deferred `f.Close()`: its error is only printed.
  abbrev pub closed : String → Option Error × World → Option Error × World
  closed path r = after_close path (o.close path r.1) r

  -- After `os.Create`, which leaves an empty file.
  abbrev pub created : String → Schema → Bool → Option Error → World → Option Error × World
  created path schema pretty (some e) w = (some e, w)
  created path schema pretty none w =
      closed path (encoded path (to_file path) (o.encode schema pretty) (to_file path [] w))

  -- After `os.MkdirAll`.
  abbrev pub in_directory : String → Schema → Bool → Option Error → World → Option Error × World
  in_directory path schema pretty (some e) w = (some e, w)
  in_directory path schema pretty none w = created path schema pretty (o.create path w) w

  unfoldable pub write_schema : String → Schema → Bool → World → Option Error × World
  write_schema path schema pretty w =
      if str_eq path ""
      then encoded path to_stdout (o.encode schema pretty) w
      else in_directory path schema pretty
          (if str_eq (o.dir path) "" then none else o.mkdir_all (o.dir path) w) w

  abbrev pub draft_07 : String
  draft_07 = "http://json-schema.org/draft-07/schema#"

  abbrev pub config_schema : String → Schema
  config_schema module_path = record (o.reflect_config module_path) {
    version = draft_07;
    title = "YC Scheduler Configuration";
    description = "Configuration schema for YC Scheduler application";
  }

  abbrev pub schedule_schema : String → Schema
  schedule_schema module_path = record (o.reflect_schedule module_path) {
    version = draft_07;
    title = "YC Scheduler Schedule Manifest";
    description = "Schedule manifest schema for YC Scheduler application";
  }

  abbrev pub noted_if : String → (String → Note) → World → World
  noted_if path n w = if not (str_eq path "") then noted (n path) w else w

  -- After the second schema.
  abbrev pub finished : String → String → Option Error × World → ℕ × World
  finished out schedule_out (some e, w) = (1, noted (schedule_failed e) w)
  finished out schedule_out (none, w) =
      (0, noted_if schedule_out schedule_written (noted_if out config_written w))

  -- After the first schema.
  abbrev pub half_done : String → String → String → Bool → Option Error × World → ℕ × World
  half_done out schedule_out module_path pretty (some e, w) = (1, noted (config_failed e) w)
  half_done out schedule_out module_path pretty (none, w) =
      finished out schedule_out (write_schema schedule_out (schedule_schema module_path) pretty w)

  abbrev pub commented : Option Error → World → World
  commented none w = w
  commented (some e) w = noted (comments_failed e) w

  -- `main`, with the values of its four flags.
  unfoldable pub generate : String → String → String → Bool → World → ℕ × World
  generate out schedule_out module_path pretty w = half_done out schedule_out module_path pretty (
      write_schema out (config_schema module_path) pretty
        (commented (o.add_comments module_path) w))
