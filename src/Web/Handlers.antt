-- ===== src/Web/Handlers.antt =====
-- internal/web/health.go, buildinfo.go, ui.go and calendar.go: what the handlers answer. The pages of
-- the metrics and the file server are parameters. A body is what is written, before its encoding.
pub mod Isolated
pub mod Built
use yc_sheduler.Prelude.{
  ℕ, ◌==◌, String, Bool, if◌then◌else◌, Option, none, some, List, [], ◌∷◌, Result,
}
use yc_sheduler.Config.{Bytes}
use yc_sheduler.GoTime.Instant.{Location, Time}
use yc_sheduler.Schedule.Last.{CronParser}
use yc_sheduler.Validator.{TimeZones}
use yc_sheduler.Vars.{Vars, BuildInfo, info}
use yc_sheduler.App.Provider.{State, is_some}
use yc_sheduler.App.Pages.{UiProvider}
use yc_sheduler.Web.{
  Response, internal_error, bad_request, success, CalendarResponse, handle_calendar,
}
use yc_sheduler.Web.Server.{
  Handler, metrics, calendar, ui_files, ui_redirect, health, build_info, new_mux, serve, ui_dir,
}

pub record Request : Type 0 where
  pub path : Bytes
  pub from_raw : Bytes
  pub to_raw : Bytes

-- The messages of errors, and the page of a redirection, are left out.
pub data Body : Type 0 where
  text : String → Body
  build : BuildInfo → Body
  events : CalendarResponse → Body
  page : Bytes → Body
  message : Body

pub record Reply : Type 0 where
  pub status : ℕ
  pub headers : List (String × String)
  pub body : Body

-- `HealthHandler`
abbrev pub health_handler : Reply
health_handler = record { status = 200; headers = []; body = text "OK" }

abbrev pub json_headers : List (String × String)
json_headers = ("Content-Type", "application/json") ∷ []

-- `BuildInfoHandler`
abbrev pub build_info_handler : Vars → Reply
build_info_handler v = record { status = 200; headers = json_headers; body = build (info v) }

-- The redirection to the page.
abbrev pub redirect : Reply
redirect = record { status = 301; headers = ("Location", "/ui/") ∷ []; body = message }

abbrev pub text_headers : List (String × String)
text_headers = ("Content-Type", "text/plain; charset=utf-8") ∷ []

-- `http.Error`
abbrev pub error_reply : ℕ → Reply
error_reply status = record { status = status; headers = text_headers; body = message }

abbrev pub calendar_reply : Response → Reply
calendar_reply internal_error = error_reply 500
calendar_reply bad_request = error_reply 400
calendar_reply (success resp) = record { status = 200; headers = json_headers; body = events resp }

-- What is behind a prefix, if it is there.
abbrev pub after_prefix : Bytes → Bytes → Option Bytes
after_prefix [] s = some s
after_prefix (x ∷ prefix) [] = none
after_prefix (x ∷ prefix) (y ∷ s) =
    let rest = after_prefix prefix s in if x == y then rest else none

-- `http.StripPrefix`
abbrev pub stripped : (Bytes → Reply) → Option Bytes → Reply
stripped file_server none = error_reply 404
stripped file_server (some path) = file_server path

abbrev pub with_reply : {S : Type 0} → Option (Response × S) → Option (Reply × S)
with_reply none = none
with_reply (some (r, s)) = some (calendar_reply r, s)

module _ {W : Type 0} (parser : CronParser) (zones : TimeZones) (local_name : String)
    (parse : Bytes → Location → Result Time) (fuel : ℕ) (metrics_page : Reply)
    (file_server : Bytes → Reply) (vars : Vars) (provider : Option (UiProvider W)) where
  -- The handler of a request. Only that of the calendar goes to the provider.
  abbrev pub handled : Option Handler → Request → Time → State W → Option (Reply × State W)
  handled none r now s = some (error_reply 404, s)
  handled (some metrics) r now s = some (metrics_page, s)
  handled (some calendar) r now s =
      with_reply
        (handle_calendar parser zones local_name parse fuel provider r.from_raw r.to_raw now s)
  handled (some ui_files) r now s = some (stripped file_server (after_prefix ui_dir r.path), s)
  handled (some ui_redirect) r now s = some (redirect, s)
  handled (some health) r now s = some (health_handler, s)
  handled (some build_info) r now s = some (build_info_handler vars, s)

  -- A request to the server: no answer if the loop of the calendar does not end.
  unfoldable pub serve_http : Bool → Request → Time → State W → Option (Reply × State W)
  serve_http metrics_enabled r now s =
      handled (serve (new_mux metrics_enabled (is_some provider)) r.path) r now s
