-- ===== src/SchemaGen/Written.antt =====
-- What the generator has written when it ends.
use mathlib.Core.List.{append-nil}
use yc_sheduler.Prelude.{
  ℕ, zero, suc, String, str_eq, str_eq_refl, Bool, true, false, ◌||◌, if◌then◌else◌, Option, none,
  some, List, [], ◌∷◌, ◌++◌, Result, ok, err, Error, ◌≡◌, refl, sym, ap, subst, ◌∙◌, inl, inr,
  Bool-cases,
}
use yc_sheduler.Config.{Bytes}
use yc_sheduler.App.Provider.{find}
use yc_sheduler.SchemaGen.{
  Schema, Note, config_failed, schedule_failed, World, Outside, write_schema, encoded, created,
  in_directory, config_schema, schedule_schema, finished, half_done, generate, to_file, to_stdout,
  noted_if, after_close, commented,
}

-- A write that reports no error has written everything.
abbrev pub WritesAll : Outside → Type 0
WritesAll o =
    (target : String) (bytes : Bytes) (w : World)
    → (o.write target bytes w).1 ≡ none
    → (o.write target bytes w).0 ≡ bytes

-- A file that is there with these contents, unless it does not matter.
abbrev pub Kept : Bool → String → Bytes → World → Type 0
Kept true path bytes w = Unit
Kept false path bytes w = find path w.files ≡ some bytes

-- What goes to standard output instead of a file.
abbrev pub printed : String → Bytes → Bytes
printed path bytes = if str_eq path "" then bytes else []

-- One schema is in its place, and no other file has changed.
record IsPut (path : String) (bytes : Bytes) (w w' : World) : Type 0 where
  on_stdout : w'.stdout ≡ w.stdout ++ printed path bytes
  kept : Kept (str_eq path "") path bytes w'
  others : (p : String) → str_eq path p ≡ false → find p w'.files ≡ find p w.files

module _ (o : Outside) where
  -- What the two schemas leave on the disk and on standard output.
  abbrev pub IsWritten : String → String → String → Bool → World → World → Type 0
  IsWritten out schedule_out module_path pretty w w' =
      (a : Bytes) × (b : Bytes) × (o.encode (config_schema o module_path) pretty ≡ ok a)
      × (o.encode (schedule_schema o module_path) pretty ≡ ok b)
      × Kept (str_eq out "" || str_eq schedule_out out) out a w'
      × Kept (str_eq schedule_out "") schedule_out b w'
      × (w'.stdout ≡ w.stdout ++ printed out a ++ printed schedule_out b)

  -- Why a schema is not in its place: its directory or its file cannot be made, it cannot be encoded,
  -- or the write fails.
  pub data Fails (path : String) (s : Schema) (pretty : Bool) : Error → Type 0 where
    no_directory :
        {e : Error} (w : World)
        → str_eq (o.dir path) "" ≡ false
        → o.mkdir_all (o.dir path) w ≡ some e
        → Fails path s pretty e
    not_created : {e : Error} (w : World) → o.create path w ≡ some e → Fails path s pretty e
    not_encoded : {e : Error} → o.encode s pretty ≡ err e → Fails path s pretty e
    not_written :
        {e : Error} (bytes : Bytes) (w : World)
        → o.encode s pretty ≡ ok bytes
        → (o.write path bytes w).1 ≡ some e
        → Fails path s pretty e

  -- The last thing printed is which schema failed, and with which error; the second one is not tried
  -- before the first is encoded.
  abbrev pub IsFailed : String → String → String → Bool → List Note → Type 0
  IsFailed out schedule_out module_path pretty (config_failed e ∷ notes) =
      Fails out (config_schema o module_path) pretty e
  IsFailed out schedule_out module_path pretty (schedule_failed e ∷ notes) =
      ((a : Bytes) × (o.encode (config_schema o module_path) pretty ≡ ok a))
      × Fails schedule_out (schedule_schema o module_path) pretty e
  IsFailed out schedule_out module_path pretty _ = ⊥

  -- An exit code with what was written, or what was printed at the end.
  abbrev pub Ends : String → String → String → Bool → World → ℕ × World → Type 0
  Ends out schedule_out module_path pretty w (zero, w') =
      IsWritten out schedule_out module_path pretty w w'
  Ends out schedule_out module_path pretty w (suc n, w') =
      (n ≡ 0) × IsFailed out schedule_out module_path pretty w'.notes

module _ (o : Outside) (path : String) (s : Schema) (pretty : Bool) where
  -- If there is an error, it has its cause.
  abbrev Failed : Option Error → Type 0
  Failed none = Unit
  Failed (some e) = Fails o path s pretty e

  encoded-Failed :
      (put : Bytes → World → World) (r : Result Bytes) (w : World)
      → o.encode s pretty ≡ r
      → Failed (encoded o path put r w).0
  encoded-Failed put (err e) w h = not_encoded h
  encoded-Failed put (ok bytes) w h = go (o.write path bytes w).1 refl
    where
      go : (e : Option Error) → (o.write path bytes w).1 ≡ e → Failed e
      go none same = tt
      go (some e) same = not_written bytes w h same

  after_close-Failed :
      (c : Option Error) (r : Option Error × World) → Failed r.0 → Failed (after_close o path c r).0
  after_close-Failed none r h = h
  after_close-Failed (some c) r h = h

  created-Failed :
      (answer : Option Error) (w : World)
      → o.create path w ≡ answer
      → Failed (created o path s pretty answer w).0
  created-Failed (some e) w h = not_created w h
  created-Failed none w h =
      let r = encoded o path (to_file o path) (o.encode s pretty) (to_file o path [] w) in
      after_close-Failed (o.close path r.1) r
        (encoded-Failed (to_file o path) (o.encode s pretty) (to_file o path [] w) refl)

  in_directory-Failed :
      (b : Bool) (answer : Option Error) (w : World)
      → str_eq (o.dir path) "" ≡ b
      → o.mkdir_all (o.dir path) w ≡ answer
      → Failed (in_directory o path s pretty (if b then none else answer) w).0
  in_directory-Failed true answer w unnamed h = created-Failed (o.create path w) w refl
  in_directory-Failed false none w named h = created-Failed (o.create path w) w refl
  in_directory-Failed false (some e) w named h = no_directory w named h

  write_schema-Failed : (w : World) → Failed (write_schema o path s pretty w).0
  unfolding write_schema
  write_schema-Failed w = elim (Bool-cases (str_eq path "")) [
    | inl unnamed ↦ rw unnamed (encoded-Failed (to_stdout o) (o.encode s pretty) w refl)
    | inr named ↦
        rw named
          (in_directory-Failed (str_eq (o.dir path) "") (o.mkdir_all (o.dir path) w) w refl refl)
  ]

module _ (o : Outside) (whole : WritesAll o) where
  encoded-file :
      (path : String) (r : Result Bytes) (w w' : World)
      → str_eq path "" ≡ false
      → encoded o path (to_file o path) r w ≡ (none, w')
      → (bytes : Bytes) × (r ≡ ok bytes)
        × (w'.stdout ≡ w.stdout)
        × (w'.files ≡ (path, bytes) ∷ w.files)
  encoded-file path (err e) w w' named h = absurd (cc)
  encoded-file path (ok bytes) w w' named h =
      let done = whole path bytes w (ap (λ p. p.0) h) in
      (bytes, refl, ap (λ p. p.1.stdout) (sym h), ap (λ p. p.1.files) (sym h) ∙ rw done refl)

  after_close-none :
      (path : String) (c : Option Error) (r : Option Error × World) (w' : World)
      → after_close o path c r ≡ (none, w')
      → (r.0 ≡ none) × (w'.stdout ≡ r.1.stdout) × (w'.files ≡ r.1.files)
  after_close-none path none r w' h =
      (ap (λ p. p.0) h, ap (λ p. p.1.stdout) (sym h), ap (λ p. p.1.files) (sym h))
  after_close-none path (some c) r w' h =
      (ap (λ p. p.0) h, ap (λ p. p.1.stdout) (sym h), ap (λ p. p.1.files) (sym h))

  created-IsPut :
      (path : String) (s : Schema) (pretty : Bool) (answer : Option Error) (w w' : World)
      → str_eq path "" ≡ false
      → created o path s pretty answer w ≡ (none, w')
      → (bytes : Bytes) × (o.encode s pretty ≡ ok bytes) × IsPut path bytes w w'
  created-IsPut path s pretty (some e) w w' named h = absurd (cc)
  created-IsPut path s pretty none w w' named h =
      let r = encoded o path (to_file o path) (o.encode s pretty) (to_file o path [] w) in
      let (fine, out, files) = after_close-none path (o.close path r.1) r w' h in
      let (bytes, made, same, put) =
        encoded-file path (o.encode s pretty) (to_file o path [] w) r.1 named
          (ap (λ e. (e, r.1)) fine) in
      (
        bytes,
        made,
        record {
          on_stdout = rw named (out ∙ same ∙ sym (append-nil w.stdout));
          kept = rw (named, files, put, str_eq_refl path) refl;
          others = λ p other. rw (files, put, other) refl;
        },
      )

  in_directory-IsPut :
      (path : String) (s : Schema) (pretty : Bool) (answer : Option Error) (w w' : World)
      → str_eq path "" ≡ false
      → in_directory o path s pretty answer w ≡ (none, w')
      → (bytes : Bytes) × (o.encode s pretty ≡ ok bytes) × IsPut path bytes w w'
  in_directory-IsPut path s pretty (some e) w w' named h = absurd (cc)
  in_directory-IsPut path s pretty none w w' named h =
      created-IsPut path s pretty (o.create path w) w w' named h

  encoded-stdout :
      (path : String) (r : Result Bytes) (w w' : World)
      → str_eq path "" ≡ true
      → encoded o path (to_stdout o) r w ≡ (none, w')
      → (bytes : Bytes) × (r ≡ ok bytes) × IsPut path bytes w w'
  encoded-stdout path (err e) w w' unnamed h = absurd (cc)
  encoded-stdout path (ok bytes) w w' unnamed h =
      let done = whole path bytes w (ap (λ p. p.0) h) in
      (
        bytes,
        refl,
        record {
          on_stdout = rw unnamed (ap (λ p. p.1.stdout) (sym h) ∙ rw done refl);
          kept = rw unnamed tt;
          others = λ p other. ap (λ q. find p q.1.files) (sym h);
        },
      )

  -- Without an error, the schema is in its place.
  write_schema-IsPut :
      (path : String) (s : Schema) (pretty : Bool) (w w' : World)
      → write_schema o path s pretty w ≡ (none, w')
      → (bytes : Bytes) × (o.encode s pretty ≡ ok bytes) × IsPut path bytes w w'
  unfolding write_schema
  write_schema-IsPut path s pretty w w' h = elim (Bool-cases (str_eq path "")) [
    | inl unnamed ↦ encoded-stdout path (o.encode s pretty) w w' unnamed (rw unnamed at h)
    | inr named ↦
        in_directory-IsPut path s pretty
          (if str_eq (o.dir path) "" then none else o.mkdir_all (o.dir path) w) w w' named
          (rw named at h)
  ]

  both_put :
      (out schedule_out module_path : String) (pretty : Bool) (a b : Bytes) (w w1 w2 : World)
      → o.encode (config_schema o module_path) pretty ≡ ok a
      → o.encode (schedule_schema o module_path) pretty ≡ ok b
      → IsPut out a w w1
      → IsPut schedule_out b w1 w2
      → IsWritten o out schedule_out module_path pretty w w2
  both_put out schedule_out module_path pretty a b w w1 w2 ha hb first second = (
    a,
    b,
    ha,
    hb,
    still,
    second.kept,
    second.on_stdout ∙ ap (λ s. s ++ printed schedule_out b) first.on_stdout,
  )
    where
      still : Kept (str_eq out "" || str_eq schedule_out out) out a w2
      still = elim (Bool-cases (str_eq out "")) [
        | inl unnamed ↦ rw unnamed tt
        | inr named ↦ elim (Bool-cases (str_eq schedule_out out)) [
          | inl same ↦ rw (named, same) tt
          | inr other ↦ rw (named, other) (second.others out other ∙ rw named at first.kept)
        ]
      ]

  noted_if-same :
      (path : String) (n : String → Note) (w : World)
      → ((noted_if o path n w).files ≡ w.files) × ((noted_if o path n w).stdout ≡ w.stdout)
  noted_if-same path n w = elim (Bool-cases (str_eq path "")) [
    | inl unnamed ↦ rw unnamed (refl, refl)
    | inr named ↦ rw named (refl, refl)
  ]

  Kept-same :
      (b : Bool) (path : String) (bytes : Bytes) (w w' : World)
      → w'.files ≡ w.files
      → Kept b path bytes w
      → Kept b path bytes w'
  Kept-same true path bytes w w' same h = tt
  Kept-same false path bytes w w' same h = ap (find path) same ∙ h

  -- Messages and comments change neither the files nor standard output.
  IsWritten-same :
      (out schedule_out module_path : String) (pretty : Bool) (v w w1 w2 : World)
      → v.stdout ≡ w.stdout
      → w2.files ≡ w1.files
      → w2.stdout ≡ w1.stdout
      → IsWritten o out schedule_out module_path pretty v w1
      → IsWritten o out schedule_out module_path pretty w w2
  IsWritten-same out schedule_out module_path pretty v w w1 w2 from files stdout
        (a, b, ha, hb, first, second, printed_both) =
      (
        a,
        b,
        ha,
        hb,
        Kept-same _ out a w1 w2 files first,
        Kept-same _ schedule_out b w1 w2 files second,
        stdout ∙ printed_both ∙ ap (λ s. s ++ printed out a ++ printed schedule_out b) from,
      )

  finished-Ends :
      (out schedule_out module_path : String) (pretty : Bool) (v w : World)
      (r : Option Error × World)
      → v.stdout ≡ w.stdout
      → ((a : Bytes) × (o.encode (config_schema o module_path) pretty ≡ ok a))
      → Failed o schedule_out (schedule_schema o module_path) pretty r.0
      → (r.0 ≡ none → IsWritten o out schedule_out module_path pretty v r.1)
      → Ends o out schedule_out module_path pretty w (finished o out schedule_out r)
  finished-Ends out schedule_out module_path pretty v w (some e, w2) from first fails h =
      (refl, (first, fails))
  finished-Ends out schedule_out module_path pretty v w (none, w2) from made fails h =
      let first = noted_if-same out Note.config_written w2 in
      let second =
        noted_if-same schedule_out Note.schedule_written (noted_if o out Note.config_written w2) in
      IsWritten-same out schedule_out module_path pretty v w w2
        (noted_if o schedule_out Note.schedule_written (noted_if o out Note.config_written w2)) from
        (second.0 ∙ first.0) (second.1 ∙ first.1) (h refl)

  half_done-Ends :
      (out schedule_out module_path : String) (pretty : Bool) (v w : World)
      (r : Option Error × World)
      → v.stdout ≡ w.stdout
      → write_schema o out (config_schema o module_path) pretty v ≡ r
      → Ends o out schedule_out module_path pretty w
          (half_done o out schedule_out module_path pretty r)
  half_done-Ends out schedule_out module_path pretty v w (some e, w1) from h = (
    refl,
    subst (Failed o out (config_schema o module_path) pretty) (ap (λ p. p.0) h)
        (write_schema-Failed o out (config_schema o module_path) pretty v),
  )
  half_done-Ends out schedule_out module_path pretty v w (none, w1) from h =
      let (a, ha, first) = write_schema-IsPut out (config_schema o module_path) pretty v w1 h in
      let r = write_schema o schedule_out (schedule_schema o module_path) pretty w1 in
      finished-Ends out schedule_out module_path pretty v w r from (a, ha)
        (write_schema-Failed o schedule_out (schedule_schema o module_path) pretty w1)
        (λ fine.
          let (b, hb, second) =
            write_schema-IsPut schedule_out (schedule_schema o module_path) pretty w1 r.1
              (ap (λ e. (e, r.1)) fine) in
          both_put out schedule_out module_path pretty a b v w1 r.1 ha hb first second)

  commented-stdout : (e : Option Error) (w : World) → (commented o e w).stdout ≡ w.stdout
  commented-stdout none w = refl
  commented-stdout (some e) w = refl

-- If a write that reports no error has written everything: the exit code is 0 or 1. With 0 both schemas
-- are encoded and in their places, in their files, unless the second has the file of the first, or one
-- after the other on standard output. With 1 the last message names the schema that failed, with its
-- error, which is one that making its directory or its file, encoding it or writing it has given, and
-- for the second schema the first one was encoded.
pub generate-Ends :
    (o : Outside)
    → WritesAll o
    → (out schedule_out module_path : String) (pretty : Bool) (w : World)
    → Ends o out schedule_out module_path pretty w
        (generate o out schedule_out module_path pretty w)
unfolding generate
generate-Ends o whole out schedule_out module_path pretty w =
    let v = commented o (o.add_comments module_path) w in
    half_done-Ends o whole out schedule_out module_path pretty v w
      (write_schema o out (config_schema o module_path) pretty v)
      (commented-stdout o whole (o.add_comments module_path) w) refl
