-- ===== src/Web/Handlers/Isolated.antt =====
-- Which requests reach the provider.
use yc_sheduler.Prelude.{
  [], ℕ, ◌≡◌, ◌≢◌, ◌∙◌, refl, String, Bool, true, false, ◌&&◌, ◌||◌, if◌then◌else◌, Option, none,
  some, Result, Bool-cases, inl, inr,
}
use yc_sheduler.Config.{Bytes}
use yc_sheduler.Config.Files.{bytes_eq}
use yc_sheduler.GoTime.Instant.{Location, Time}
use yc_sheduler.Schedule.Last.{CronParser}
use yc_sheduler.Validator.{TimeZones}
use yc_sheduler.Vars.{Vars}
use yc_sheduler.App.Provider.{State, is_some}
use yc_sheduler.App.Pages.{UiProvider}
use yc_sheduler.Web.{handle_calendar}
use yc_sheduler.Web.Server.{
  Handler, metrics, calendar, ui_files, ui_redirect, health, build_info, root, begins_with,
  calendar_path, health_path, live_path, ready_path, metrics_path, ui_path, ui_dir,
}
use yc_sheduler.Web.Server.Routes.{route, serve-route, bytes_eq_sound}
use yc_sheduler.Web.Handlers.{Request, Reply, text, with_reply, handled, serve_http}

-- A path of the three for the probes of the health.
abbrev pub is_probe : Bytes → Bool
is_probe path = bytes_eq health_path path || bytes_eq live_path path || bytes_eq ready_path path

-- The table at the whole paths.
whole_paths :
    (m u : Bool)
    → (route m u health_path ≡ health)
      × (route m u live_path ≡ health)
      × (route m u ready_path ≡ health)
      × (route m true calendar_path ≡ calendar)
unfolding bytes_eq
whole_paths true true = (refl, refl, refl, refl)
whole_paths true false = (refl, refl, refl, refl)
whole_paths false true = (refl, refl, refl, refl)
whole_paths false false = (refl, refl, refl, refl)

route-probe : (m u : Bool) (path : Bytes) → is_probe path ≡ true → route m u path ≡ health
route-probe m u path h = elim (Bool-cases (bytes_eq health_path path)) [
  | inl same ↦ rw (bytes_eq_sound health_path path same) (whole_paths m u).0
  | inr a ↦ elim (Bool-cases (bytes_eq live_path path)) [
    | inl same ↦ rw (bytes_eq_sound live_path path same) (whole_paths m u).1
    | inr b ↦ elim (Bool-cases (bytes_eq ready_path path)) [
      | inl same ↦ rw (bytes_eq_sound ready_path path same) (whole_paths m u).2
      | inr c ↦ absurd (cc)
    ]
  ]
]

route-calendar :
    (m u : Bool) (path : Bytes)
    → (u && bytes_eq calendar_path path) ≡ true
    → route m u path ≡ calendar
route-calendar m false path h = absurd (cc)
route-calendar m true path h = rw (bytes_eq_sound calendar_path path h) (whole_paths m true).3

if-other :
    (b : Bool) (x y : Handler) → x ≢ calendar → y ≢ calendar → (if b then x else y) ≢ calendar
if-other true x y hx hy = hx
if-other false x y hx hy = hy

route-other :
    (m u : Bool) (path : Bytes)
    → (u && bytes_eq calendar_path path) ≡ false
    → route m u path ≢ calendar
route-other m u path away = rw away (
    if-other (m && bytes_eq metrics_path path) metrics _ (λ e. absurd (cc))
      (if-other (u && begins_with ui_dir path) ui_files _ (λ e. absurd (cc))
        (if-other (u && bytes_eq ui_path path) ui_redirect _ (λ e. absurd (cc))
          (if-other (is_probe path) health build_info (λ e. absurd (cc)) (λ e. absurd (cc))))))

-- An answer that leaves a state as it was.
abbrev pub Same : {W : Type 0} → State W → Option (Reply × State W) → Type 0
Same s none = ⊥
Same s (some (reply, s')) = s' ≡ s

module _ {W : Type 0} (parser : CronParser) (zones : TimeZones) (local_name : String)
    (parse : Bytes → Location → Result Time) (fuel : ℕ) (metrics_page : Reply)
    (file_server : Bytes → Reply) (vars : Vars) (provider : Option (UiProvider W)) where
  handled-Same :
      (h : Handler) (r : Request) (now : Time) (s : State W)
      → h ≢ calendar
      → Same s (
          handled parser zones local_name parse fuel metrics_page file_server vars provider
            (some h)
            r
            now
            s)
  handled-Same metrics r now s other = refl
  handled-Same calendar r now s other = absurd (other refl)
  handled-Same ui_files r now s other = refl
  handled-Same ui_redirect r now s other = refl
  handled-Same health r now s other = refl
  handled-Same build_info r now s other = refl

  routed :
      (m : Bool) (r : Request) (now : Time) (s : State W)
      → begins_with root r.path ≡ true
      → serve_http parser zones local_name parse fuel metrics_page file_server vars provider m r now
          s
        ≡ handled parser zones local_name parse fuel metrics_page file_server vars provider
            (some (route m (is_some provider) r.path))
            r
            now
            s
  unfolding serve_http
  routed m r now s slash = rw (serve-route m (is_some provider) r.path slash) refl

  -- For a path that begins with a slash, whatever the flags, the provider and its state are: a probe of
  -- the health is answered with the status 200 and OK, and nothing changes. Only a request for the
  -- calendar, if there is a provider, goes to it; every other one is answered without a change.
  pub serve_http-Same :
      (m : Bool) (r : Request) (now : Time) (s : State W)
      → begins_with root r.path ≡ true
      → let answered =
          serve_http parser zones local_name parse fuel metrics_page file_server vars provider m r
            now s in
        let asked = is_some provider && bytes_eq calendar_path r.path in
        (is_probe r.path ≡ true
          → answered ≡ some (record { status = 200; headers = []; body = text "OK" }, s))
        × (asked ≡ true
            → answered
              ≡ with_reply (
                  handle_calendar parser zones local_name parse fuel provider r.from_raw r.to_raw
                    now s))
        × (asked ≡ false → Same s answered)
  serve_http-Same m r now s slash = (
    λ probe. routed m r now s slash ∙ rw (route-probe m (is_some provider) r.path probe) refl,
    λ asked. routed m r now s slash ∙ rw (route-calendar m (is_some provider) r.path asked) refl,
    λ away. rw (routed m r now s slash) (
        handled-Same (route m (is_some provider) r.path) r now s
          (route-other m (is_some provider) r.path away)),
  )
