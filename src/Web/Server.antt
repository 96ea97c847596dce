-- ===== src/Web/Server.antt =====
-- internal/web/server.go, ui.go, health.go and buildinfo.go: which handler answers a path,
-- with `ServeMux` on clean paths.
pub mod Routes
pub mod Running
use yc_sheduler.Prelude.{
  ℕ, ◌==◌, ltb, Bool, true, false, ◌&&◌, ◌||◌, not, if◌then◌else◌, Option, none, some, List, [],
  ◌∷◌, ◌++◌, length,
}
use yc_sheduler.Config.{Bytes}
use yc_sheduler.Config.Files.{bytes_eq}

-- `promhttp.Handler`, the calendar, the files of the page, the redirection to them, `HealthHandler`,
-- and `BuildInfoHandler`.
pub data Handler : Type 0 where
  metrics calendar ui_files ui_redirect health build_info : Handler

-- A pattern and the handler that is registered for it.
abbrev pub Mux : Type 0
Mux = List (Bytes × Handler)

abbrev pub metrics_path : Bytes
metrics_path = b'/' ∷ b'm' ∷ b'e' ∷ b't' ∷ b'r' ∷ b'i' ∷ b'c' ∷ b's' ∷ []

abbrev pub calendar_path : Bytes
calendar_path =
    b'/' ∷ b'a' ∷ b'p' ∷ b'i' ∷ b'/' ∷ b'c' ∷ b'a' ∷ b'l' ∷ b'e' ∷ b'n' ∷ b'd' ∷ b'a' ∷ b'r' ∷ []

abbrev pub ui_dir : Bytes
ui_dir = b'/' ∷ b'u' ∷ b'i' ∷ b'/' ∷ []

abbrev pub ui_path : Bytes
ui_path = b'/' ∷ b'u' ∷ b'i' ∷ []

abbrev pub health_path : Bytes
health_path = b'/' ∷ b'h' ∷ b'e' ∷ b'a' ∷ b'l' ∷ b't' ∷ b'h' ∷ []

abbrev pub live_path : Bytes
live_path = b'/' ∷ b'h' ∷ b'e' ∷ b'a' ∷ b'l' ∷ b't' ∷ b'h' ∷ b'/' ∷ b'l' ∷ b'i' ∷ b'v' ∷ b'e' ∷ []

abbrev pub ready_path : Bytes
ready_path =
    b'/' ∷ b'h' ∷ b'e' ∷ b'a' ∷ b'l' ∷ b't' ∷ b'h' ∷ b'/' ∷ b'r' ∷ b'e' ∷ b'a' ∷ b'd' ∷ b'y' ∷ []

abbrev pub root : Bytes
root = b'/' ∷ []

-- `registerUIHandlers`
abbrev pub ui_handlers : Mux
ui_handlers = (ui_dir, ui_files) ∷ (ui_path, ui_redirect) ∷ []

-- `newMux`, in the order of the registrations; the second flag is whether there is a provider.
unfoldable pub new_mux : Bool → Bool → Mux
new_mux metrics_enabled has_provider =
    (if metrics_enabled then (metrics_path, metrics) ∷ [] else [])
    ++ ((if has_provider then (calendar_path, calendar) ∷ ui_handlers else [])
        ++ ((health_path, health)
            ∷ (live_path, health)
            ∷ (ready_path, health)
            ∷ (root, build_info)
            ∷ []))

abbrev is_subtree : Bytes → Bool
is_subtree [] = false
is_subtree (c ∷ []) = c == b'/'
is_subtree (c ∷ d ∷ s) = is_subtree (d ∷ s)

abbrev pub begins_with : Bytes → Bytes → Bool
begins_with [] s = true
begins_with (x ∷ xs) [] = false
begins_with (x ∷ xs) (y ∷ ys) = (x == y) && begins_with xs ys

-- A pattern with a slash at its end matches every path that begins with it; another one only itself.
unfoldable pub pattern_matches : Bytes → Bytes → Bool
pattern_matches pattern path =
    if is_subtree pattern then begins_with pattern path else bytes_eq pattern path

abbrev longer : Bytes × Handler → Option (Bytes × Handler) → Bytes × Handler
longer e none = e
longer e (some f) = if ltb (length e.0) (length f.0) then f else e

-- `ServeMux` takes the longest pattern that matches.
unfoldable pub longest : Mux → Bytes → Option (Bytes × Handler)
unfolding pattern_matches
longest [] path = none
longest (e ∷ rest) path =
    let best = longest rest path in if pattern_matches e.0 path then some (longer e best) else best

unfoldable pub serve : Mux → Bytes → Option Handler
unfolding longest
serve mux path = elim (longest mux path) [ none ↦ none | some e ↦ some e.1 ]
