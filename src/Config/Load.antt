-- ===== src/Config/Load.antt =====
-- internal/config/loader.go: `Load`, `validate` and the compilation of the embedded schemas. JSON, the
-- schema library, the decoder with its defaults, and paths are parameters.
pub mod Loaded
use yc_sheduler.Prelude.{
  String, str_eq, not, Bool, true, false, if◌then◌else◌, Option, none, some, List, [], ◌∷◌, Result,
  ok, err, ◌>>=◌, Error, config_not_found, invalid_config, schema_load, schema_violation,
}
use yc_sheduler.Config.{Bytes, Config}
use yc_sheduler.Config.Files.{Files, Info, missing, directory, file, unreadable}
use yc_sheduler.Config.Loader.{Codec, load_dir}

-- JSON values `J`, a compiler `C` with its resources, compiled schemas `S`.
pub record SchemaLib (J C S : Type 0) : Type 0 where
  pub unmarshal_json : Bytes → Result J
  pub add_resource : String → J → Result C
  pub compile : C → String → Result S
  pub validate : S → J → Result (Unit {0})

-- What `Load` reads a file with.
pub record ConfigLib : Type 0 where
  pub read_file : String → Result Bytes
  pub unmarshal : Bytes → Result Config
  pub set_defaults : Config → Result Config
  pub marshal_json : Config → Result Bytes
  pub is_abs : String → Bool
  pub dir : String → String
  pub join : String → String → String

-- `fmt.Errorf("%w: …", e)`: any error becomes an `e`.
abbrev pub wrapped : {A : Type 0} → Error → Result A → Result A
wrapped e (err x) = err e
wrapped e (ok a) = ok a

-- A `sync.Once` with the value that it fills in.
abbrev pub Once : Type 0 → Type 0
Once A = Option A

abbrev pub do_once : {A : Type 0} → A → Once A → A
do_once value none = value
do_once value (some a) = a

abbrev no_bytes : Bytes → Bool
no_bytes [] = true
no_bytes (c ∷ s) = false

module _ (config : ConfigLib) where
  -- Up to the default values.
  unfoldable pub read_config : String → Result Config
  read_config path = do
    raw ← config.read_file path
    cfg ← wrapped invalid_config (config.unmarshal raw)
    wrapped invalid_config (config.set_defaults cfg)

  -- A directory that is not absolute is one beside the file.
  unfoldable pub resolve_dir : String → String → String
  resolve_dir path dir = if not (config.is_abs dir) then config.join (config.dir path) dir else dir

module _ {J C S : Type 0} (lib : SchemaLib J C S) where
  unfoldable pub compile_embedded_schema : Bytes → String → Error → Result S
  compile_embedded_schema raw url load_err = if no_bytes raw then err load_err else (do
    doc ← wrapped load_err (lib.unmarshal_json raw)
    compiler ← wrapped load_err (lib.add_resource url doc)
    wrapped load_err (lib.compile compiler url))

  -- `getSchema`, of the embedded bytes, and what it keeps.
  unfoldable pub get_schema : Bytes → Once (Result S) → Result S × Once (Result S)
  unfolding compile_embedded_schema
  get_schema raw once =
      let answer =
        do_once (compile_embedded_schema raw "embedded://config-schema" schema_load) once in
      (answer, some answer)

  module _ {D : Type 0} (static_schema : Bytes) (config : ConfigLib) (codec : Codec D)
      (files : Files) where
    -- The configuration as a JSON value, checked with a schema.
    unfoldable pub check : Config → S → Result (Unit {0})
    check cfg schema = do
      text ← wrapped invalid_config (config.marshal_json cfg)
      doc ← wrapped invalid_config (lib.unmarshal_json text)
      wrapped schema_violation (lib.validate schema doc)

    unfoldable pub validate : Config → Once (Result S) → Result (Unit {0}) × Once (Result S)
    unfolding get_schema check
    validate cfg once =
        let (schema, once') = get_schema static_schema once in (schema >>= check cfg, once')

    unfoldable pub with_schedules : String → Config → Result Config
    unfolding resolve_dir
    with_schedules path cfg = do
      schedules ← load_dir codec files (resolve_dir config path cfg.schedules_dir)
      ok (record cfg {
        schedules_dir = resolve_dir config path cfg.schedules_dir;
        schedules = schedules;
      })

    -- From the validation on.
    unfoldable pub validated :
        String → Result Config → Once (Result S) → Result Config × Once (Result S)
    unfolding validate with_schedules
    validated path (err e) once = (err e, once)
    validated path (ok cfg) once =
        let (valid, once') = validate cfg once in (valid >>= λ _. with_schedules path cfg, once')

    unfoldable pub load : String → Once (Result S) → Result Config × Once (Result S)
    unfolding validated read_config
    load path once =
        if str_eq path "" then (err config_not_found, once) else elim (files.stat path) [
          | missing ↦ (err config_not_found, once)
          | unreadable e ↦ (err e, once)
          | directory ↦ (err invalid_config, once)
          | file ↦ validated path (read_config config path) once
        ]
