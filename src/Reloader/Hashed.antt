-- ===== src/Reloader/Hashed.antt =====
-- What is hashed of the files.
use yc_sheduler.Config.Files.{Files}
use mathlib.Core.List.{append_assoc}
use yc_sheduler.Prelude.{
  ◌≡◌, ◌≢◌, refl, List, [], ◌∷◌, ◌++◌, All, ap, String, sym, ◌∙◌, ok, subst, ok_before,
  ok_injective, Result, err,
}
use yc_sheduler.Config.{Bytes}
use yc_sheduler.Reloader.{file_bytes, hashed_bytes}

abbrev pub IsZeroFree : Bytes → Type 0
IsZeroFree s = All (λ c. c ≢ 0) s

-- A text without a zero is known from what stands in front of the first zero.
up_to_zero :
    (xs ys rest rest' : Bytes)
    → IsZeroFree xs
    → IsZeroFree ys
    → xs ++ 0 ∷ rest ≡ ys ++ 0 ∷ rest'
    → (xs ≡ ys) × (rest ≡ rest')
up_to_zero [] [] rest rest' hx hy e = (refl, cc)
up_to_zero [] (y ∷ ys) rest rest' hx hy e = absurd (hy.0 (cc))
up_to_zero (x ∷ xs) [] rest rest' hx hy e = absurd (hx.0 (cc))
up_to_zero (x ∷ xs) (y ∷ ys) rest rest' hx hy e =
    let (same, more) = up_to_zero xs ys rest rest' hx.1 hy.1 (cc) in
    let first : x ≡ y = cc in (cc, more)

parts :
    (name content rest : Bytes)
    → file_bytes name content ++ rest ≡ name ++ 0 ∷ (content ++ 0 ∷ rest)
parts name content rest =
    append_assoc name (0 ∷ (content ++ 0 ∷ [])) rest
    ∙ ap (λ s. name ++ 0 ∷ s) (append_assoc content (0 ∷ []) rest)

not_nil : (name content rest : Bytes) → file_bytes name content ++ rest ≢ []
not_nil [] content rest = λ e. cc
not_nil (c ∷ name) content rest = λ e. cc

-- The bytes of one file are in front of those of the others.
same_file :
    (n c rest n' c' rest' : Bytes)
    → IsZeroFree n
    → IsZeroFree c
    → IsZeroFree n'
    → IsZeroFree c'
    → file_bytes n c ++ rest ≡ file_bytes n' c' ++ rest'
    → (n ≡ n') × (c ≡ c') × (rest ≡ rest')
same_file n c rest n' c' rest' hn hc hn' hc' e =
    let (names, more) = up_to_zero n n' _ _ hn hn' (sym (parts n c rest) ∙ e ∙ parts n' c' rest') in
    let (contents, others) = up_to_zero c c' rest rest' hc hc' more in (names, contents, others)

-- What a read gives, if it succeeds, holds no zero byte.
abbrev IsTextRead : Result Bytes → Type 0
IsTextRead (ok content) = IsZeroFree content
IsTextRead (err e) = Unit

-- Neither the name nor what is read of the file holds a zero byte.
abbrev pub IsText : Files → String → Bytes → Type 0
IsText files path name = IsZeroFree name × IsTextRead (files.read_file path name)

-- If the same bytes are hashed for two states of a directory, whose file names and contents hold no
-- zero byte, then the files have the same names and every file reads the same.
pub hashed_bytes-injective :
    (files files' : Files) (path : String) (names names' : List Bytes) (b : Bytes)
    → All (IsText files path) names
    → All (IsText files' path) names'
    → hashed_bytes files path names ≡ ok b
    → hashed_bytes files' path names' ≡ ok b
    → (names ≡ names') × All (λ name. files.read_file path name ≡ files'.read_file path name) names
unfolding hashed_bytes
hashed_bytes-injective files files' path [] [] b h h' e e' = (refl, tt)
hashed_bytes-injective files files' path [] (n ∷ ns) b h h' e e' =
    let (c, _, e1) = ok_before (files'.read_file path n) _ b e' in
    let (rest, _, e2) = ok_before (hashed_bytes files' path ns) _ b e1 in
    absurd (not_nil n c rest (ok_injective _ _ (e2 ∙ sym e)))
hashed_bytes-injective files files' path (n ∷ ns) [] b h h' e e' =
    let (c, _, e1) = ok_before (files.read_file path n) _ b e in
    let (rest, _, e2) = ok_before (hashed_bytes files path ns) _ b e1 in
    absurd (not_nil n c rest (ok_injective _ _ (e2 ∙ sym e')))
hashed_bytes-injective files files' path (n ∷ ns) (m ∷ ms) b (h, hs) (h', hs') e e' =
    let (c, read, e1) = ok_before (files.read_file path n) _ b e in
    let (rest, more, e2) = ok_before (hashed_bytes files path ns) _ b e1 in
    let (c', read', e1') = ok_before (files'.read_file path m) _ b e' in
    let (rest', more', e2') = ok_before (hashed_bytes files' path ms) _ b e1' in
    let (name, content, others) =
      same_file n c rest m c' rest' h.0 (subst IsTextRead read h.1) h'.0
        (subst IsTextRead read' h'.1) (ok_injective _ _ (e2 ∙ sym e2')) in
    let (all, reads) =
      hashed_bytes-injective files files' path ns ms rest hs hs' more
        (more' ∙ ap ok (sym others)) in
    (
      cc,
      (
        read ∙ ap ok content ∙ sym (subst (λ k. files'.read_file path k ≡ ok c') (sym name) read'),
        reads,
      ),
    )
