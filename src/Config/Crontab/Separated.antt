-- ===== src/Config/Crontab/Separated.antt =====
-- The texts that the schema of a cron expression accepts, by their fields.
use mathlib.Core.List.{append-nil}
use yc_sheduler.Prelude.{
  ℕ, zero, suc, ◌+◌, ◌≡◌, ◌∙◌, ◌⊎◌, ◌↔◌, inl, inr, refl, sym, ap, leb, Bool, true, false, ◌&&◌, [],
  ◌∷◌, ◌++◌, length, All, arith, Bool-cases, leb_of_le, subst,
}
use yc_sheduler.Config.{Bytes}
use yc_sheduler.Config.Crontab.{is_space, enough, matches_crontab, accepts_crontab}

-- Nothing but fields of at least one byte, each of these many followed by space, and one more.
pub data Separated : ℕ → Bytes → Type 0 where
  last : (c : ℕ) (w : Bytes) → All (λ x. is_space x ≡ false) (c ∷ w) → Separated 0 (c ∷ w)
  more :
      {n : ℕ} {s : Bytes} (c : ℕ) (w : Bytes) (d : ℕ) (g : Bytes)
      → All (λ x. is_space x ≡ false) (c ∷ w)
      → All (λ x. is_space x ≡ true) (d ∷ g)
      → Separated n s
      → Separated (suc n) (c ∷ (w ++ (d ∷ (g ++ s))))

matches_crontab-field :
    (n : ℕ) (w s : Bytes)
    → All (λ x. is_space x ≡ false) w
    → matches_crontab n true (w ++ s) ≡ matches_crontab n true s
unfolding matches_crontab
matches_crontab-field n [] s h = refl
matches_crontab-field n (c ∷ w) s (h, hs) = rw h (matches_crontab-field n w s hs)

matches_crontab-gap :
    (n : ℕ) (g s : Bytes)
    → All (λ x. is_space x ≡ true) g
    → matches_crontab (suc n) false (g ++ s) ≡ matches_crontab (suc n) false s
unfolding matches_crontab
matches_crontab-gap n [] s h = refl
matches_crontab-gap n (c ∷ g) s (h, hs) = rw h (matches_crontab-gap n g s hs)

matches_crontab-last :
    (n c : ℕ) (w : Bytes)
    → All (λ x. is_space x ≡ false) (c ∷ w)
    → matches_crontab n false (c ∷ w) ≡ enough n
unfolding matches_crontab
matches_crontab-last n c w (h, hs) =
    rw h (ap (matches_crontab n true) (sym (append-nil w)) ∙ matches_crontab-field n w [] hs)

matches_crontab-more :
    (n c : ℕ) (w : Bytes) (d : ℕ) (g s : Bytes)
    → All (λ x. is_space x ≡ false) (c ∷ w)
    → All (λ x. is_space x ≡ true) (d ∷ g)
    → matches_crontab n false (c ∷ (w ++ (d ∷ (g ++ s)))) ≡ matches_crontab (suc n) false s
unfolding matches_crontab
matches_crontab-more n c w d g s (hc, hw) (hd, hg) =
    rw (hc, matches_crontab-field n w (d ∷ (g ++ s)) hw, hd) (matches_crontab-gap n g s hg)

zero_right : (n : ℕ) → n ≡ n + 0
zero_right n = omega arith

zero_left : (n : ℕ) → 0 + n ≡ n
zero_left n = omega arith

suc_right : (n k : ℕ) → suc n + k ≡ n + suc k
suc_right n k = omega arith

matches_crontab-Separated :
    {k : ℕ} {s : Bytes} (n : ℕ) → Separated k s → matches_crontab n false s ≡ enough (n + k)
matches_crontab-Separated n (last c w h) = matches_crontab-last n c w h ∙ ap enough (zero_right n)
matches_crontab-Separated n (more {n = k} {s = s} c w d g hw hg later) =
    matches_crontab-more n c w d g s hw hg
    ∙ matches_crontab-Separated (suc n) later
    ∙ ap enough (suc_right n k)

-- What an accepted rest of a text is, inside of a field or before one.
Rest : Bool → ℕ → Bytes → Type 0
Rest true n s =
    (w : Bytes) × All (λ x. is_space x ≡ false) w
    × (((s ≡ w) × (enough n ≡ true))
        ⊎ ((k : ℕ) × (d : ℕ) × (g : Bytes) × (r : Bytes) × (s ≡ w ++ (d ∷ (g ++ r)))
            × All (λ x. is_space x ≡ true) (d ∷ g)
            × Separated k r
            × (enough (suc n + k) ≡ true)))
Rest false n s =
    (k : ℕ) × (g : Bytes) × (r : Bytes) × (s ≡ g ++ r)
    × All (λ x. is_space x ≡ true) g
    × Separated k r
    × (enough (n + k) ≡ true)
    × (n ≡ 0 → g ≡ [])

Rest-field : (n c : ℕ) (s : Bytes) → is_space c ≡ false → Rest true n s → Rest true n (c ∷ s)
unfolding Rest
Rest-field n c s h (w, hw, inl (all, fine)) = (c ∷ w, (h, hw), inl (ap (λ t. c ∷ t) all, fine))
Rest-field n c s h (w, hw, inr (k, d, g, r, eq, hg, later, fine)) =
    (c ∷ w, (h, hw), inr (k, d, g, r, ap (λ t. c ∷ t) eq, hg, later, fine))

Rest-begin : (n c : ℕ) (s : Bytes) → is_space c ≡ false → Rest true n s → Rest false n (c ∷ s)
unfolding Rest
Rest-begin n c s h (w, hw, inl (all, fine)) = (
  0,
  [],
  c ∷ s,
  refl,
  tt,
  rw all (last c w (h, hw)),
  ap enough (sym (zero_right n)) ∙ fine,
  λ e. refl,
)
Rest-begin n c s h (w, hw, inr (k, d, g, r, eq, hg, later, fine)) = (
  suc k,
  [],
  c ∷ s,
  refl,
  tt,
  rw eq (more c w d g (h, hw) hg later),
  ap enough (sym (suc_right n k)) ∙ fine,
  λ e. refl,
)

Rest-end : (n c : ℕ) (s : Bytes) → is_space c ≡ true → Rest false (suc n) s → Rest true n (c ∷ s)
unfolding Rest
Rest-end n c s h (k, g, r, eq, hg, later, fine, _) =
    ([], tt, inr (k, c, g, r, ap (λ t. c ∷ t) eq, (h, hg), later, fine))

Rest-gap :
    (n c : ℕ) (s : Bytes) → is_space c ≡ true → Rest false (suc n) s → Rest false (suc n) (c ∷ s)
unfolding Rest
Rest-gap n c s h (k, g, r, eq, hg, later, fine, _) =
    (k, c ∷ g, r, ap (λ t. c ∷ t) eq, (h, hg), later, fine, λ e. absurd (omega (arith, e)))

matches_crontab-Rest :
    (inside : Bool) (n : ℕ) (s : Bytes) → matches_crontab n inside s ≡ true → Rest inside n s
unfolding Rest matches_crontab
matches_crontab-Rest true n [] h = ([], tt, inl (refl, h))
matches_crontab-Rest false n [] h = absurd (cc)
matches_crontab-Rest true n (c ∷ s) h = elim (Bool-cases (is_space c)) [
  | inl space ↦ Rest-end n c s space (matches_crontab-Rest false (suc n) s (rw space at h))
  | inr away ↦ Rest-field n c s away (matches_crontab-Rest true n s (rw away at h))
]
matches_crontab-Rest false zero (c ∷ s) h = elim (Bool-cases (is_space c)) [
  | inl space ↦ absurd (cc)
  | inr away ↦ Rest-begin zero c s away (matches_crontab-Rest true zero s (rw away at h))
]
matches_crontab-Rest false (suc n) (c ∷ s) h = elim (Bool-cases (is_space c)) [
  | inl space ↦ Rest-gap n c s space (matches_crontab-Rest false (suc n) s (rw space at h))
  | inr away ↦ Rest-begin (suc n) c s away (matches_crontab-Rest true (suc n) s (rw away at h))
]

enough-cases : (k : ℕ) → enough k ≡ true → (k ≡ 4) ⊎ (k ≡ 5)
enough-cases k h = ground arith

length-Separated : {k : ℕ} {s : Bytes} → Separated k s → leb 1 (length s) ≡ true
length-Separated (last c w h) = leb_of_le 1 (length (c ∷ w)) (omega arith)
length-Separated (more {s = s} c w d g hw hg later) =
    leb_of_le 1 (length (c ∷ (w ++ (d ∷ (g ++ s))))) (omega arith)

both_true : (p q : Bool) → (p && q) ≡ true → q ≡ true
both_true true q h = h
both_true false q h = absurd (cc)

read_fields : (s : Bytes) → Rest false 0 s → Separated 4 s ⊎ Separated 5 s
unfolding Rest
read_fields s (k, g, r, eq, hg, later, fine, first) =
    let whole : s ≡ r = eq ∙ ap (λ x. x ++ r) (first refl) in
    elim (enough-cases k (ap enough (sym (zero_left k)) ∙ fine)) [
      | inl four ↦ inl (subst (λ n. Separated n s) four (subst (Separated k) (sym whole) later))
      | inr five ↦ inr (subst (λ n. Separated n s) five (subst (Separated k) (sym whole) later))
    ]

accepted : {k : ℕ} {s : Bytes} → enough k ≡ true → Separated k s → accepts_crontab s ≡ true
unfolding accepts_crontab
accepted {k = k} fine fields =
    rw (length-Separated fields, matches_crontab-Separated 0 fields, zero_left k) fine

-- The schema accepts a text if and only if it is nothing but five or six fields, each of at least one
-- byte and none of space, with space between two of them and none before the first or behind the last.
pub accepts_crontab-Separated :
    (s : Bytes) → (accepts_crontab s ≡ true) ↔ (Separated 4 s ⊎ Separated 5 s)
unfolding accepts_crontab
accepts_crontab-Separated s = (
  λ h. read_fields s (matches_crontab-Rest false 0 s (both_true (leb 1 (length s)) _ h)),
  λ fields. elim fields [ inl four ↦ accepted refl four | inr five ↦ accepted refl five ],
)
