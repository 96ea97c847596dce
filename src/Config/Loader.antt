-- ===== src/Config/Loader.antt =====
-- internal/config/loader.go: `LoadSchedules`. YAML, the JSON schema and the expansion of variables
-- are a parameter.
pub mod Names
use yc_sheduler.Prelude.{
  ℕ, suc, String, str_eq, Bool, true, false, ◌||◌, if◌then◌else◌, Option, none, some, List, [], ◌∷◌,
  ◌++◌, Result, ok, err, ◌>>=◌, config_not_found, invalid_config, duplicate_name, zero,
}
use yc_sheduler.Config.{Bytes, Schedule, ScheduleManifest, to_schedule}
use yc_sheduler.Config.Files.{
  Files, Info, missing, directory, file, unreadable, sort_names, yaml_names,
}

-- What a file is read with. `D` is a decoded document.
pub record Codec (D : Type 0) : Type 0 where
  -- the compiled schema
  pub schema : Result (D → Result (Unit {0}))
  -- what the decoder gives until the end of the file; an empty document is `none`
  pub documents : Bytes → List (Result (Option D))
  -- the document as a manifest
  pub unmarshal : D → Result ScheduleManifest

-- The schedules that were accepted, with the file of each name, and the files that were parsed.
pub record Loaded : Type 0 where
  pub names : List (String × Bytes)
  pub schedules : List Schedule
  pub parsed_files : ℕ

abbrev pub known : String → List (String × Bytes) → Bool
known name [] = false
known name (p ∷ ps) = str_eq p.0 name || known name ps

-- The loop over the schedules of one file.
unfoldable pub add_schedules : Bytes → List Schedule → Loaded → Result Loaded
add_schedules path [] s = ok s
add_schedules path (sch ∷ rest) s =
    let more =
      add_schedules path rest
        (record s { names = (sch.name, path) ∷ s.names; schedules = s.schedules ++ sch ∷ [] }) in
    if known sch.name s.names then err duplicate_name else more

module _ {D : Type 0} (codec : Codec D) (files : Files) where
  -- The loop over the documents of one file.
  unfoldable pub parse_documents :
      (D → Result (Unit {0})) → List (Result (Option D)) → Result (List Schedule)
  parse_documents validate [] = ok []
  parse_documents validate (err e ∷ rest) = err invalid_config
  parse_documents validate (ok none ∷ rest) = parse_documents validate rest
  parse_documents validate (ok (some doc) ∷ rest) = do
    checked ← validate doc
    manifest ← codec.unmarshal doc
    schedules ← parse_documents validate rest
    ok (to_schedule manifest ∷ schedules)

  unfoldable pub parse_schedule_file : Bytes → Result (List Schedule)
  parse_schedule_file raw = do
    validate ← codec.schema
    parse_documents validate (codec.documents raw)

  -- The loop over the files, in the order of their names.
  unfoldable pub load_files : String → List Bytes → Loaded → Result Loaded
  load_files path [] s = ok s
  load_files path (name ∷ rest) s = do
    raw ← files.read_file path name
    schedules ← parse_schedule_file raw
    s' ← add_schedules name schedules (record s { parsed_files = suc s.parsed_files })
    load_files path rest s'

  -- Nothing parsed, or nothing found.
  unfoldable pub loaded_schedules : Loaded → Result (List Schedule)
  loaded_schedules s = elim s.parsed_files [
    | zero ↦ err invalid_config
    | suc n ↦ elim s.schedules [ [] ↦ err invalid_config | sch ∷ rest ↦ ok (sch ∷ rest) ]
  ]

  unfoldable pub load_dir : String → Result (List Schedule)
  load_dir path = elim (files.stat path) [
    | missing ↦ err config_not_found
    | unreadable e ↦ err e
    | file ↦ err invalid_config
    | directory ↦ (do
      entries ← files.read_dir path
      s ←
          load_files path (sort_names (yaml_names entries))
            (record { names = []; schedules = []; parsed_files = 0 })
      loaded_schedules s)
  ]

  unfoldable pub load_schedules : String → Result (List Schedule)
  load_schedules path = if str_eq path "" then err config_not_found else load_dir path
