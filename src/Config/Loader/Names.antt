-- ===== src/Config/Loader/Names.antt =====
-- The names of loaded schedules.
use yc_sheduler.Prelude.{
  ℕ, zero, suc, ◌+◌, ◌≤◌, ◌≡◌, refl, String, str_eq, eq_iff, true, false, if◌then◌else◌, List, [],
  ◌∷◌, ◌++◌, ok, err, ◌>>=◌, arith, Bool-cases, inl, inr, length, ap, sym, ◌∙◌, Error, subst,
  ok_injective, ok_before,
}
use yc_sheduler.Config.{Bytes, Schedule}
use yc_sheduler.Config.Files.{
  Files, Info, missing, directory, file, unreadable, yaml_names, sort_names,
}
use yc_sheduler.Config.Loader.{
  Codec, Loaded, known, add_schedules, load_files, loaded_schedules, load_dir, load_schedules,
  parse_schedule_file,
}

abbrev has_name : String → Schedule → ℕ
has_name name sch = if str_eq sch.name name then 1 else 0

-- The schedules with a name.
abbrev pub name_count : String → List Schedule → ℕ
name_count name [] = 0
name_count name (sch ∷ rest) = has_name name sch + name_count name rest

name_count-append :
    (name : String) (xs ys : List Schedule)
    → name_count name (xs ++ ys) ≡ name_count name xs + name_count name ys
name_count-append name [] ys = omega arith
name_count-append name (x ∷ xs) ys = omega (arith, name_count-append name xs ys)

-- The accepted names are those of the schedules, each of which occurs once.
abbrev IsUnique : Loaded → Type 0
IsUnique s = (name : String) → name_count name s.schedules ≡ (if known name s.names then 1 else 0)

one_more :
    (name new : String) (names : List (String × Bytes)) (path : Bytes) (n : ℕ)
    → known new names ≡ false
    → n ≡ (if known name names then 1 else 0)
    → n + ((if str_eq new name then 1 else 0) + 0)
      ≡ (if known name ((new, path) ∷ names) then 1 else 0)
one_more name new names path n fresh h =
    let same : str_eq new name ≡ true → known name names ≡ known new names =
      λ e. ap (λ x. known x names) (sym ((eq_iff new name).0 e)) in
    ground (arith, same)

add_schedules-IsUnique :
    (path : Bytes) (schs : List Schedule) (s t : Loaded)
    → add_schedules path schs s ≡ ok t
    → IsUnique s
    → IsUnique t
unfolding add_schedules
add_schedules-IsUnique path [] s t e unique = subst IsUnique (ok_injective s t e) unique
add_schedules-IsUnique path (sch ∷ rest) s t e unique = elim (Bool-cases (known sch.name s.names)) [
  | inl taken ↦ absurd (cc)
  | inr fresh ↦
      add_schedules-IsUnique path rest
        (record s { names = (sch.name, path) ∷ s.names; schedules = s.schedules ++ sch ∷ [] }) t
        (simp fresh at e)
        (λ name.
          name_count-append name s.schedules (sch ∷ [])
          ∙ one_more name sch.name s.names path (name_count name s.schedules) fresh (unique name))
]

module _ {D : Type 0} (codec : Codec D) (files : Files) where
  load_files-IsUnique :
      (path : String) (names : List Bytes) (s t : Loaded)
      → load_files codec files path names s ≡ ok t
      → IsUnique s
      → IsUnique t
  unfolding load_files
  load_files-IsUnique path [] s t e unique = subst IsUnique (ok_injective s t e) unique
  load_files-IsUnique path (name ∷ rest) s t e unique =
      let (raw, _, e1) = ok_before (files.read_file path name) _ t e in
      let (schs, _, e2) = ok_before (parse_schedule_file codec files raw) _ t e1 in
      let (s', added, e3) = ok_before _ _ t e2 in
      load_files-IsUnique path rest s' t e3 (add_schedules-IsUnique name schs _ s' added unique)

  loaded_schedules_lem :
      (s : Loaded) (schs : List Schedule)
      → loaded_schedules codec files s ≡ ok schs
      → (s.schedules ≡ schs) × (1 ≤ length schs)
  unfolding loaded_schedules
  loaded_schedules_lem s schs e = go s.parsed_files s.schedules e
    where
      go :
          (n : ℕ) (l : List Schedule)
          → elim n [
            | zero ↦ err Error.invalid_config
            | suc n ↦ elim l [ [] ↦ err Error.invalid_config | sch ∷ rest ↦ ok (sch ∷ rest) ]
          ]
            ≡ ok schs
          → (l ≡ schs) × (1 ≤ length schs)
      go zero l e = absurd (cc)
      go (suc n) [] e = absurd (cc)
      go (suc n) (sch ∷ rest) e =
          let same = ok_injective (sch ∷ rest) schs e in
          (same, subst (λ l. 1 ≤ length l) same (omega arith))

  -- Whatever the files hold: if the schedules of a directory load, there is at least one, and no two
  -- of them have the same name.
  pub load_schedules-names :
      (path : String) (schs : List Schedule) (name : String)
      → load_schedules codec files path ≡ ok schs
      → (1 ≤ length schs) × (name_count name schs ≤ 1)
  unfolding load_schedules load_dir
  load_schedules-names path schs name e = elim (Bool-cases (str_eq path "")) [
    | inl none_given ↦ absurd (cc)
    | inr given ↦ dir (files.stat path) (rw given at e)
  ]
    where
      dir :
          (info : Info)
          → elim info [
            | missing ↦ err Error.config_not_found
            | unreadable x ↦ err x
            | file ↦ err Error.invalid_config
            | directory ↦ (do
              entries ← files.read_dir path
              s ←
                  load_files codec files path
                    (sort_names (yaml_names entries))
                    (record { names = []; schedules = []; parsed_files = 0 })
              loaded_schedules codec files s)
          ]
            ≡ ok schs
          → (1 ≤ length schs) × (name_count name schs ≤ 1)
      dir missing e = absurd (cc)
      dir (unreadable x) e = absurd (cc)
      dir file e = absurd (cc)
      dir directory e =
          let (entries, _, e1) = ok_before (files.read_dir path) _ schs e in
          let (s, loaded, e2) = ok_before _ _ schs e1 in
          let unique = load_files-IsUnique path _ _ s loaded (λ name. refl) in
          let (same, found) = loaded_schedules_lem s schs e2 in
          (found, subst (λ l. name_count name l ≤ 1) same (ground (arith, unique name)))
