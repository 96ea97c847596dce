-- ===== src/Tests/Pages.antt =====
-- Requests to the server.
use yc_sheduler.Prelude.{◌≡◌, refl, ◌&&◌, String, true, false, Option, some, [], ◌∷◌, err, Error}
use yc_sheduler.Config.Files.{bytes_eq}
use yc_sheduler.GoTime.Instant.{second_ns}
use yc_sheduler.GoTime.Rfc3339.{parse_rfc3339}
use yc_sheduler.Calendar.{format_rfc3339}
use yc_sheduler.Vars.{Vars, defaults, initialized}
use yc_sheduler.App.Provider.{State, is_some}
use yc_sheduler.App.Pages.{UiProvider, new_ui_provider, schedules, provided_statuses}
use yc_sheduler.Web.{handle_calendar}
use yc_sheduler.Web.Statuses.{IsShowing, handle_calendar-IsShowing}
use yc_sheduler.Web.Server.{live_path, calendar_path}
use yc_sheduler.Web.Handlers.{
  Request, Reply, message, build, text, build_info_handler, with_reply, serve_http,
}
use yc_sheduler.Web.Handlers.Isolated.{is_probe, Same, serve_http-Same}
use yc_sheduler.Web.Handlers.Built.{built_at, build_info_handler-initialized}
use yc_sheduler.Tests.Fixtures.{
  moscow, moscow_fixed, zones, now, now_ns, every, cron_of, office_hours, checker,
}
use yc_sheduler.Tests.Services.{no_date}
use yc_sheduler.Tests.Written.{now-IsShown}

abbrev new_pages : UiProvider String × State String
new_pages =
    new_ui_provider (some (record { timezone = ""; schedules = office_hours ∷ [] })) (some checker)
      [] true "stopped"

abbrev pages : UiProvider String
pages = new_pages.0

-- Nothing kept, and the resource stopped.
abbrev quiet : State String
quiet = new_pages.1

handle_calendar-IsShowing_example :
    IsShowing quiet (provided_statuses (some pages) now (schedules (some pages)) quiet) (
      handle_calendar
        (cron_of (every second_ns))
        zones
        "Local"
        no_date
        32
        (some pages)
        []
        []
        now
        quiet)
handle_calendar-IsShowing_example =
    handle_calendar-IsShowing (cron_of (every second_ns)) zones "Local" no_date 32 pages checker
      refl [] [] now quiet

abbrev probe : Request
probe = record { path = live_path; from_raw = []; to_raw = [] }

abbrev no_page : Reply
no_page = record { status = 404; headers = []; body = message }

abbrev answered : Option (Reply × State String)
answered =
    serve_http (cron_of (every second_ns)) zones "Local" no_date 32 no_page (λ path. no_page)
      (defaults moscow) (some pages) true probe now quiet

serve_http-Same_example :
    (is_probe probe.path ≡ true
      → answered ≡ some (record { status = 200; headers = []; body = text "OK" }, quiet))
    × ((is_some (some pages) && bytes_eq calendar_path probe.path) ≡ true
        → answered
          ≡ with_reply (
              handle_calendar
                (cron_of (every second_ns))
                zones
                "Local"
                no_date
                32
                (some pages)
                []
                []
                now
                quiet))
    × ((is_some (some pages) && bytes_eq calendar_path probe.path) ≡ false → Same quiet answered)
serve_http-Same_example =
    serve_http-Same (cron_of (every second_ns)) zones "Local" no_date 32 no_page (λ path. no_page)
      (defaults moscow) (some pages) true probe now quiet refl

abbrev linked : Vars
linked = record (defaults moscow) {
  raw_build_time = format_rfc3339 (record { ns = now_ns; loc = moscow });
}

build_info_handler-initialized_example :
    (linked.raw_build_time ≡ format_rfc3339 (record { ns = now_ns; loc = moscow })
      → (build_info_handler (initialized moscow linked)).body ≡ build (built_at now_ns linked))
    × ((e : Error)
        → parse_rfc3339 moscow linked.raw_build_time ≡ err e
        → build_info_handler (initialized moscow linked) ≡ build_info_handler linked)
build_info_handler-initialized_example =
    build_info_handler-initialized moscow_fixed moscow now_ns linked now-IsShown refl refl
