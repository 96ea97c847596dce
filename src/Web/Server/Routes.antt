-- ===== src/Web/Server/Routes.antt =====
-- Which requests reach which handler.
use yc_sheduler.Prelude.{
  ◌==◌, ◌≡◌, refl, Bool, true, false, ◌&&◌, ◌||◌, if◌then◌else◌, some, [], ◌∷◌, arith, Bool-cases,
  inl, inr,
}
use yc_sheduler.Config.{Bytes}
use yc_sheduler.Config.Files.{bytes_eq}
use yc_sheduler.Web.Server.{
  Handler, metrics, calendar, ui_files, ui_redirect, health, build_info, metrics_path,
  calendar_path, ui_dir, ui_path, health_path, live_path, ready_path, root, new_mux,
  pattern_matches, begins_with, longest, serve,
}

-- The table of the paths, in no need of an order: no two of the tests overlap.
abbrev pub route : Bool → Bool → Bytes → Handler
route metrics_enabled has_provider path =
    if metrics_enabled && bytes_eq metrics_path path
    then metrics
    else if has_provider && bytes_eq calendar_path path
    then calendar
    else if has_provider && begins_with ui_dir path
    then ui_files
    else if has_provider && bytes_eq ui_path path
    then ui_redirect
    else if bytes_eq health_path path || bytes_eq live_path path || bytes_eq ready_path path
    then health
    else build_info

pub bytes_eq_sound : (a b : Bytes) → bytes_eq a b ≡ true → b ≡ a
unfolding bytes_eq
bytes_eq_sound [] [] e = refl
bytes_eq_sound [] (y ∷ b) e = absurd (cc)
bytes_eq_sound (x ∷ a) [] e = absurd (cc)
bytes_eq_sound (x ∷ a) (y ∷ b) e =
    let (here, rest) = both_true (x == y) (bytes_eq a b) e in
    let head : y ≡ x = ground arith in rw (bytes_eq_sound a b rest, head)
  where
    both_true : (p q : Bool) → (p && q) ≡ true → (p ≡ true) × (q ≡ true)
    both_true true q e = (refl, e)
    both_true false q e = absurd (cc)

-- The mux and the table agree on a path.
Agrees : Bytes → Type 0
Agrees path = (m u : Bool) → serve (new_mux m u) path ≡ some (route m u path)

metrics_path-Agrees : Agrees metrics_path
unfolding Agrees serve longest new_mux pattern_matches bytes_eq
metrics_path-Agrees true true = refl
metrics_path-Agrees true false = refl
metrics_path-Agrees false true = refl
metrics_path-Agrees false false = refl

calendar_path-Agrees : Agrees calendar_path
unfolding Agrees serve longest new_mux pattern_matches bytes_eq
calendar_path-Agrees true true = refl
calendar_path-Agrees true false = refl
calendar_path-Agrees false true = refl
calendar_path-Agrees false false = refl

ui_path-Agrees : Agrees ui_path
unfolding Agrees serve longest new_mux pattern_matches bytes_eq
ui_path-Agrees true true = refl
ui_path-Agrees true false = refl
ui_path-Agrees false true = refl
ui_path-Agrees false false = refl

health_path-Agrees : Agrees health_path
unfolding Agrees serve longest new_mux pattern_matches bytes_eq
health_path-Agrees true true = refl
health_path-Agrees true false = refl
health_path-Agrees false true = refl
health_path-Agrees false false = refl

live_path-Agrees : Agrees live_path
unfolding Agrees serve longest new_mux pattern_matches bytes_eq
live_path-Agrees true true = refl
live_path-Agrees true false = refl
live_path-Agrees false true = refl
live_path-Agrees false false = refl

ready_path-Agrees : Agrees ready_path
unfolding Agrees serve longest new_mux pattern_matches bytes_eq
ready_path-Agrees true true = refl
ready_path-Agrees true false = refl
ready_path-Agrees false true = refl
ready_path-Agrees false false = refl

-- None of the whole paths.
other-Agrees :
    (path : Bytes)
    → begins_with root path ≡ true
    → bytes_eq metrics_path path ≡ false
    → bytes_eq calendar_path path ≡ false
    → bytes_eq ui_path path ≡ false
    → bytes_eq health_path path ≡ false
    → bytes_eq live_path path ≡ false
    → bytes_eq ready_path path ≡ false
    → Agrees path
unfolding Agrees serve longest new_mux pattern_matches bytes_eq
other-Agrees path slash no_m no_c no_u no_h no_l no_r true true =
    elim (Bool-cases (begins_with ui_dir path)) [
      | inl page ↦ rw (slash, no_m, no_c, no_u, no_h, no_l, no_r, page)
      | inr away ↦ rw (slash, no_m, no_c, no_u, no_h, no_l, no_r, away)
    ]
other-Agrees path slash no_m no_c no_u no_h no_l no_r false true =
    elim (Bool-cases (begins_with ui_dir path)) [
      | inl page ↦ rw (slash, no_c, no_u, no_h, no_l, no_r, page)
      | inr away ↦ rw (slash, no_c, no_u, no_h, no_l, no_r, away)
    ]
other-Agrees path slash no_m no_c no_u no_h no_l no_r true false =
    rw (slash, no_m, no_h, no_l, no_r)
other-Agrees path slash no_m no_c no_u no_h no_l no_r false false = rw (slash, no_h, no_l, no_r)

-- The six whole paths, one after another.
whole_or : (a path : Bytes) → Agrees a → (bytes_eq a path ≡ false → Agrees path) → Agrees path
whole_or a path known others = elim (Bool-cases (bytes_eq a path)) [
  | inl same ↦ rw (bytes_eq_sound a path same) known
  | inr differs ↦ others differs
]

-- For every path that begins with a slash, the longest pattern of the mux belongs to the handler of
-- the table, with and without metrics and with and without the page.
pub serve-route :
    (metrics_enabled has_provider : Bool) (path : Bytes)
    → begins_with root path ≡ true
    → serve (new_mux metrics_enabled has_provider) path
      ≡ some (route metrics_enabled has_provider path)
unfolding Agrees
serve-route m u path slash =
    whole_or metrics_path path metrics_path-Agrees
      (λ a. whole_or calendar_path path calendar_path-Agrees (λ b.
        whole_or ui_path path ui_path-Agrees (λ c.
          whole_or health_path path health_path-Agrees (λ d.
            whole_or live_path path live_path-Agrees (λ e.
              whole_or ready_path path ready_path-Agrees
                (λ f. other-Agrees path slash a b c d e f))))))
      m u
