-- ===== src/Config/Load/Loaded.antt =====
-- What a configuration that `Load` returns has been through.
use yc_sheduler.Prelude.{
  ◌≡◌, refl, sym, ◌∙◌, subst, ◌⊎◌, inl, inr, String, str_eq, if◌then◌else◌, none, some, Result, ok,
  err, Error, config_not_found, invalid_config, schema_load, Bool, true, false, ok_before,
  ok_injective, Bool-cases,
}
use yc_sheduler.Config.{Bytes, Config}
use yc_sheduler.Config.Files.{Files, Info, missing, directory, file, unreadable}
use yc_sheduler.Config.Loader.{Codec, load_dir, load_schedules}
use yc_sheduler.Config.Load.{
  SchemaLib, ConfigLib, Once, compile_embedded_schema, get_schema, check, validate, read_config,
  wrapped, resolve_dir, with_schedules, validated, load,
}

wrapped-ok : {A : Type 0} (e : Error) (r : Result A) (a : A) → wrapped e r ≡ ok a → r ≡ ok a
wrapped-ok e (err x) a h = absurd (cc)
wrapped-ok e (ok b) a h = h

past_test :
    {A : Type 0} (b : Bool) (e : Error) (r : Result A) (a : A)
    → (if b then err e else r) ≡ ok a
    → r ≡ ok a
past_test true e r a h = absurd (cc)
past_test false e r a h = h

module _ {J C S D : Type 0} (lib : SchemaLib J C S) (static_schema : Bytes) (config : ConfigLib)
    (codec : Codec D) (files : Files) where
  -- Nothing is kept yet, or what compiling gives.
  abbrev pub IsCached : Once (Result S) → Type 0
  IsCached once =
      (once ≡ none)
      ⊎ (once
          ≡ some (compile_embedded_schema lib static_schema "embedded://config-schema" schema_load))

  get_schema-cached :
      (once : Once (Result S))
      → IsCached once
      → (get_schema lib static_schema once).0
        ≡ compile_embedded_schema lib static_schema "embedded://config-schema" schema_load
  unfolding get_schema
  get_schema-cached once (inl fresh) = rw fresh
  get_schema-cached once (inr kept) = rw kept

  -- The file was read and decoded, and given its defaults.
  abbrev pub IsRead : String → Config → Type 0
  IsRead path c =
      (raw : Bytes) × (decoded : Config) × (config.read_file path ≡ ok raw)
      × (config.unmarshal raw ≡ ok decoded)
      × (config.set_defaults decoded ≡ ok c)

  -- The schema that the embedded text, under its name, compiles to.
  abbrev pub IsCompiled : S → Type 0
  IsCompiled schema =
      (doc : J) × (compiler : C) × (lib.unmarshal_json static_schema ≡ ok doc)
      × (lib.add_resource "embedded://config-schema" doc ≡ ok compiler)
      × (lib.compile compiler "embedded://config-schema" ≡ ok schema)

  -- What the JSON of a configuration stands for is valid by a schema.
  abbrev pub IsAccepted : S → Config → Type 0
  IsAccepted schema c =
      (text : Bytes) × (doc : J) × (config.marshal_json c ≡ ok text)
      × (lib.unmarshal_json text ≡ ok doc)
      × (lib.validate schema doc ≡ ok tt)

  -- The directory of the schedules: an absolute one, or one beside the file.
  abbrev pub dir_of : String → String → String
  dir_of path dir = if config.is_abs dir then dir else config.join (config.dir path) dir

  abbrev pub IsLoaded : String → Config → Type 0
  IsLoaded path cfg =
      (files.stat path ≡ file)
      × ((c : Config) × (schema : S) × IsRead path c
          × IsCompiled schema
          × IsAccepted schema c
          × (cfg ≡ record c {
            schedules_dir = dir_of path c.schedules_dir;
            schedules = cfg.schedules;
          }))
      × (load_schedules codec files cfg.schedules_dir
          ≡ (if str_eq cfg.schedules_dir "" then err config_not_found else ok cfg.schedules))

  read_config-IsRead : (path : String) (c : Config) → read_config config path ≡ ok c → IsRead path c
  unfolding read_config
  read_config-IsRead path c h =
      let (raw, read, h1) = ok_before (config.read_file path) _ c h in
      let (decoded, made, h2) = ok_before (wrapped invalid_config (config.unmarshal raw)) _ c h1 in
      (raw, decoded, read, wrapped-ok _ _ _ made, wrapped-ok _ _ _ h2)

  compile_embedded_schema-IsCompiled :
      (schema : S)
      → compile_embedded_schema lib static_schema "embedded://config-schema" schema_load ≡ ok schema
      → IsCompiled schema
  unfolding compile_embedded_schema
  compile_embedded_schema-IsCompiled schema h =
      let h' = past_test _ schema_load _ schema h in
      let (doc, made, h1) =
        ok_before (wrapped schema_load (lib.unmarshal_json static_schema)) _ schema h' in
      let (compiler, added, h2) =
        ok_before (wrapped schema_load (lib.add_resource "embedded://config-schema" doc)) _ schema
          h1 in
      (doc, compiler, wrapped-ok _ _ _ made, wrapped-ok _ _ _ added, wrapped-ok _ _ _ h2)

  check-IsAccepted :
      (c : Config) (schema : S)
      → check lib static_schema config codec files c schema ≡ ok tt
      → IsAccepted schema c
  unfolding check
  check-IsAccepted c schema h =
      let (text, made, h1) = ok_before (wrapped invalid_config (config.marshal_json c)) _ tt h in
      let (doc, read, h2) = ok_before (wrapped invalid_config (lib.unmarshal_json text)) _ tt h1 in
      (text, doc, wrapped-ok _ _ _ made, wrapped-ok _ _ _ read, wrapped-ok _ _ _ h2)

  resolve_dir-dir_of : (path dir : String) → resolve_dir config path dir ≡ dir_of path dir
  unfolding resolve_dir
  resolve_dir-dir_of path dir = elim (Bool-cases (config.is_abs dir)) [
    | inl absolute ↦ rw absolute refl
    | inr relative ↦ rw relative refl
  ]

  abbrev IsFilled : String → Config → Config → Type 0
  IsFilled path c cfg =
      (cfg ≡ record c { schedules_dir = dir_of path c.schedules_dir; schedules = cfg.schedules })
      × (load_schedules codec files cfg.schedules_dir
          ≡ (if str_eq cfg.schedules_dir "" then err config_not_found else ok cfg.schedules))

  with_schedules-IsFilled :
      (path : String) (c cfg : Config)
      → with_schedules lib static_schema config codec files path c ≡ ok cfg
      → IsFilled path c cfg
  unfolding with_schedules load_schedules
  with_schedules-IsFilled path c cfg e =
      let there = dir_of path c.schedules_dir in
      let (schs, found, e') =
        ok_before (load_dir codec files there) _ cfg (rw resolve_dir-dir_of at e) in
      subst (IsFilled path c)
        (ok_injective (record c { schedules_dir = there; schedules = schs }) cfg e')
        (refl, rw found)

  validated-Loaded :
      (path : String) (read : Result Config) (once : Once (Result S)) (cfg : Config)
      → IsCached once
      → (validated lib static_schema config codec files path read once).0 ≡ ok cfg
      → (c : Config) × (schema : S) × (read ≡ ok c)
        × IsCompiled schema
        × IsAccepted schema c
        × IsFilled path c cfg
  unfolding validated validate
  validated-Loaded path (err e) once cfg cached h = absurd (cc)
  validated-Loaded path (ok c) once cfg cached h =
      let (checked, valid, filled) =
        ok_before (validate lib static_schema config codec files c once).0 _ cfg h in
      let (schema, got, accepts) =
        ok_before (get_schema lib static_schema once).0 _ checked valid in
      (
        c,
        schema,
        refl,
        compile_embedded_schema-IsCompiled schema (sym (get_schema-cached once cached) ∙ got),
        check-IsAccepted c schema accepts,
        with_schedules-IsFilled path c cfg filled,
      )

  -- Whatever `Load` returns: the file was there, was read, decoded and given its defaults; the
  -- embedded schema compiled, and the JSON of that configuration is valid by it; and what is returned
  -- is that configuration with its directory, which is taken beside the file unless it is absolute, and
  -- the schedules that `LoadSchedules` loads from this directory too, unless its name is empty. The
  -- schema may have been compiled before.
  pub load-IsLoaded :
      (path : String) (once : Once (Result S)) (cfg : Config)
      → IsCached once
      → (load lib static_schema config codec files path once).0 ≡ ok cfg
      → IsLoaded path cfg
  unfolding load
  load-IsLoaded path once cfg cached h = elim (Bool-cases (str_eq path "")) [
    | inl none_given ↦ let bad = rw none_given at h in absurd (cc)
    | inr given ↦ go (files.stat path) refl (rw given at h)
  ]
    where
      go :
          (info : Info)
          → files.stat path ≡ info
          → (elim info as (λ i. Result Config × Once (Result S)) [
            | missing ↦ (err config_not_found, once)
            | unreadable e ↦ (err e, once)
            | directory ↦ (err Error.invalid_config, once)
            | file ↦
                validated lib static_schema config codec files path (read_config config path) once
          ]).0
            ≡ ok cfg
          → IsLoaded path cfg
      go missing is e = absurd (cc)
      go (unreadable x) is e = absurd (cc)
      go directory is e = absurd (cc)
      go file is e =
          let (c, schema, read, compiles, accepts, filled) =
            validated-Loaded path (read_config config path) once cfg cached e in
          (is, (c, schema, read_config-IsRead path c read, compiles, accepts, filled.0), filled.1)
