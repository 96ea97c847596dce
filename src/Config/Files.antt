-- ===== src/Config/Files.antt =====
-- The files of a directory of schedules, as internal/config/loader.go and internal/reloader read
-- them: the file system is a parameter.
use yc_sheduler.Prelude.{
  ◌+◌, ◌==◌, leb, if◌then◌else◌, Bool, true, false, ◌&&◌, ◌||◌, String, List, [], ◌∷◌, Result,
  Error, ltb,
}
use yc_sheduler.Config.{Bytes}

pub record Entry : Type 0 where
  pub name : Bytes
  pub is_dir : Bool

-- What `os.Stat` says of a path.
pub data Info : Type 0 where
  missing directory file : Info
  unreadable : Error → Info

pub record Files : Type 0 where
  pub stat : String → Info
  pub read_dir : String → Result (List Entry)
  -- the file of a name in a directory
  pub read_file : String → Bytes → Result Bytes

-- `filepath.Ext` of a name without a slash: from the last dot on.
unfoldable pub ext : Bytes → Bytes
ext [] = []
ext (c ∷ s) =
    let rest = ext s in elim rest [ [] ↦ (if c == b'.' then c ∷ s else []) | d ∷ more ↦ d ∷ more ]

-- `strings.ToLower`, on ASCII text.
unfoldable pub to_lower : Bytes → Bytes
to_lower [] = []
to_lower (c ∷ s) = (if leb b'A' c && leb c b'Z' then c + 32 else c) ∷ to_lower s

unfoldable pub bytes_eq : Bytes → Bytes → Bool
bytes_eq [] [] = true
bytes_eq (x ∷ xs) (y ∷ ys) = (x == y) && bytes_eq xs ys
bytes_eq _ _ = false

abbrev dot_yaml : Bytes
dot_yaml = b'.' ∷ b'y' ∷ b'a' ∷ b'm' ∷ b'l' ∷ []

abbrev dot_yml : Bytes
dot_yml = b'.' ∷ b'y' ∷ b'm' ∷ b'l' ∷ []

unfoldable pub is_yaml : Bytes → Bool
is_yaml name = let e = to_lower (ext name) in bytes_eq e dot_yaml || bytes_eq e dot_yml

-- Go's order of strings, by their bytes.
unfoldable pub bytes_lt : Bytes → Bytes → Bool
bytes_lt [] [] = false
bytes_lt [] (_ ∷ _) = true
bytes_lt (_ ∷ _) [] = false
bytes_lt (x ∷ xs) (y ∷ ys) = let rest = bytes_lt xs ys in if x == y then rest else ltb x y

-- A sort of texts.
unfoldable pub insert_name : Bytes → List Bytes → List Bytes
insert_name n [] = n ∷ []
insert_name n (m ∷ ms) =
    let rest = insert_name n ms in if bytes_lt m n then m ∷ rest else n ∷ m ∷ ms

unfoldable pub sort_names : List Bytes → List Bytes
sort_names [] = []
sort_names (n ∷ ns) = insert_name n (sort_names ns)

-- The names of the YAML files among the entries.
unfoldable pub yaml_names : List Entry → List Bytes
yaml_names [] = []
yaml_names (e ∷ es) =
    let rest = yaml_names es in
    if e.is_dir then rest else if is_yaml e.name then e.name ∷ rest else rest
