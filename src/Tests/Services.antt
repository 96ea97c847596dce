-- ===== src/Tests/Services.antt =====
-- Loading, reloading, the cloud, and the page.
use yc_sheduler.Prelude.{
  ◌==◌, ◌<◌, ◌*◌, ◌↔◌, sym, subst, ℕ, ◌+◌, ◌≤◌, ◌≡◌, refl, String, true, false, none, some, List,
  [], ◌∷◌, ok, arith, length, All, Result, err, invalid_range,
}
use yc_sheduler.Web.{parse_calendar_range}
use yc_sheduler.Web.Month.{IsMonth, parse_calendar_range-IsMonth}
use yc_sheduler.Schedule.Last.Months.{month_index}
use yc_sheduler.Tests.Times.{today}
use yc_sheduler.Config.{Bytes, ScheduleManifest, to_schedule}
use yc_sheduler.Config.Files.{
  Files, directory, ext, to_lower, bytes_eq, is_yaml, insert_name, sort_names, yaml_names,
}
use yc_sheduler.Config.Loader.{
  Codec, add_schedules, parse_documents, parse_schedule_file, load_files, loaded_schedules,
  load_dir, load_schedules,
}
use yc_sheduler.Config.Loader.Names.{name_count, load_schedules-names}
use yc_sheduler.Reloader.{Sha256, Reloader, hashed_bytes, run}
use yc_sheduler.Reloader.Ticks.{repeated, Changes, run-Changes}
use yc_sheduler.Web.Server.Routes.{bytes_eq_sound}
use yc_sheduler.Reloader.Hashed.{IsText, hashed_bytes-injective}
use yc_sheduler.Resource.{Call}
use yc_sheduler.Resource.Yandex.{ClientInterface, running, yc_state_checker, state_of}
use yc_sheduler.Yc.{Sdk, ticked, wait_loop, wait_operation, ensure_initialized, execute_operation}
use yc_sheduler.Scheduler.Jobs.{Job}
use yc_sheduler.App.{App, reload_schedules}
use yc_sheduler.App.Reload.{IsConsistent, Reloaded, reload_schedules-IsConsistent}
use yc_sheduler.App.Provider.{State, get_resource_status, get_resource_status-ttl}
use yc_sheduler.GoTime.Instant.{Location, Time}
use yc_sheduler.Tests.Fixtures.{
  moscow, moscow_fixed, now, vm, office_hours, gocron, gocron_laws, checker,
}

abbrev a_yml : Bytes
a_yml = b'a' ∷ b'.' ∷ b'y' ∷ b'm' ∷ b'l' ∷ []

-- A directory of one file.
abbrev pub files : Files
files = record {
  stat = λ path. directory;
  read_dir = λ path. ok (record { name = a_yml; is_dir = false } ∷ []);
  read_file = λ path name. ok (b'x' ∷ []);
}

abbrev pub manifest : ScheduleManifest
manifest = record {
  api_version = "v1";
  kind = "Schedule";
  metadata = record { annotations = λ key. ""; name = "office" };
  spec = record {
    actions = office_hours.actions;
    cron_job = none;
    daily_job = none;
    weekly_job = none;
    monthly_job = none;
    resource = vm;
    type = "daily";
  };
}

abbrev pub codec : Codec (Unit {0})
codec = record {
  schema = ok (λ doc. ok tt);
  documents = λ raw. ok (some tt) ∷ [];
  unmarshal = λ doc. ok manifest;
}

loaded : load_schedules codec files "schedules" ≡ ok (to_schedule manifest ∷ [])
unfolding load_schedules load_dir load_files loaded_schedules add_schedules parse_documents
    parse_schedule_file yaml_names sort_names insert_name is_yaml ext to_lower bytes_eq
loaded = refl

load_schedules-names_example :
    (1 ≤ length (to_schedule manifest ∷ [])) × (name_count "office" (to_schedule manifest ∷ []) ≤ 1)
load_schedules-names_example =
    load_schedules-names codec files "schedules" (to_schedule manifest ∷ []) "office" loaded

abbrev sha : Sha256 Bytes
sha = record { sum = λ s. s; equal = λ s t. bytes_eq s t }

-- A callback that counts its calls.
abbrev counting : Call ℕ (Unit {0})
counting n = (ok tt, n + 1)

abbrev watched : Reloader Bytes ℕ
watched = record { last_sig = none; world = 0 }

bytes_eq_self : (a : Bytes) → bytes_eq a a ≡ true
unfolding bytes_eq
bytes_eq_self [] = refl
bytes_eq_self (x ∷ a) = let e : (x == x) ≡ true = ground arith in rw (e, bytes_eq_self a) refl

sha_exact : (a b : Bytes) → (bytes_eq a b ≡ true) ↔ (a ≡ b)
sha_exact a b =
    ((λ h. sym (bytes_eq_sound a b h)), (λ e. subst (λ s. bytes_eq a s ≡ true) e (bytes_eq_self a)))

run-Changes_example :
    (n : ℕ) × Changes {H = Bytes} none (ok (1 ∷ []) ∷ ok (1 ∷ []) ∷ ok (2 ∷ []) ∷ []) n
    × ((run sha counting (ok (1 ∷ []) ∷ ok (1 ∷ []) ∷ ok (2 ∷ []) ∷ []) watched).world
        ≡ repeated counting n 0)
run-Changes_example =
    run-Changes sha counting sha_exact (ok (1 ∷ []) ∷ ok (1 ∷ []) ∷ ok (2 ∷ []) ∷ []) watched

abbrev a_names : List Bytes
a_names = (b'a' ∷ []) ∷ []

abbrev issue : Unit {0} → Call ℕ String
issue conn w = (ok "op-1", w)

abbrev hashed_a : Bytes
hashed_a = b'a' ∷ 0 ∷ b'x' ∷ 0 ∷ []

hashes : hashed_bytes files "schedules" ((b'a' ∷ []) ∷ []) ≡ ok hashed_a
unfolding hashed_bytes
hashes = refl

texts : All (IsText files "schedules") ((b'a' ∷ []) ∷ [])
texts = (((omega arith, tt), (omega arith, tt)), tt)

hashed_bytes-injective_example :
    (a_names ≡ a_names)
    × All
        (λ name. files.read_file "schedules" name ≡ files.read_file "schedules" name)
        ((b'a' ∷ []) ∷ [])
hashed_bytes-injective_example =
    hashed_bytes-injective files files "schedules" ((b'a' ∷ []) ∷ []) ((b'a' ∷ []) ∷ []) hashed_a
      texts texts hashes hashes

abbrev client : ClientInterface ℕ
client = record {
  start_instance = λ folder id w. (ok tt, w);
  stop_instance = λ folder id w. (ok tt, w);
  get_instance = λ folder id w. (ok running, w);
  start_cluster = λ folder id w. (ok tt, w);
  stop_cluster = λ folder id w. (ok tt, w);
  get_cluster = λ folder id w. (ok running, w);
}

read_running : (yc_state_checker client).get_state vm 0 ≡ (ok ("running", false), 0)
unfolding yc_state_checker state_of
read_running = refl

-- An operation that is done at once.
abbrev pub sdk : Sdk ℕ (Unit {0})
sdk = record {
  get_connection = λ endpoint w. (ok tt, w);
  get_operation = λ conn id w. (ok (record { done = true; error = none }), w + 1);
  shutdown = λ w. (ok tt, w);
}

started : execute_operation (some sdk) (ticked ∷ []) "start" issue 0 ≡ (some (ok tt), 1)
unfolding execute_operation ensure_initialized wait_operation wait_loop
started = refl

abbrev app : App (List Job)
app = record {
  scheduler = some [];
  cfg_schedules = [];
  validator_schedules = [];
  store = record { timezone = ""; schedules = [] };
}

reload_schedules-IsConsistent_example :
    IsConsistent gocron gocron_laws (reload_schedules gocron false (ok (office_hours ∷ [])) app).0
    × Reloaded gocron gocron_laws false
        (ok (office_hours ∷ []))
        []
        app
        (reload_schedules gocron false (ok (office_hours ∷ [])) app)
reload_schedules-IsConsistent_example =
    reload_schedules-IsConsistent gocron gocron_laws false (ok (office_hours ∷ [])) [] app refl
      (refl, refl)

abbrev empty_cache : State String
empty_cache = record { cache = []; world = "running" }

get_resource_status-ttl_example :
    let (status, s') = get_resource_status checker now "vm:folder-1:vm-1" vm empty_cache in
    (s'.world ≡ (checker.get_state vm empty_cache.world).1)
    × (now.ns < now.ns + 30 * 1000000000
        → get_resource_status checker now "vm:folder-1:vm-1" vm s' ≡ (status, s'))
    × (now.ns + 30 * 1000000000 ≤ now.ns
        → (get_resource_status checker now "vm:folder-1:vm-1" vm s').1.world
          ≡ (checker.get_state vm s'.world).1)
get_resource_status-ttl_example =
    get_resource_status-ttl checker now now "vm:folder-1:vm-1" vm empty_cache tt

-- `time.ParseInLocation` of a text that is no date.
abbrev pub no_date : Bytes → Location → Result Time
no_date s l = err invalid_range

parse_calendar_range-IsMonth_example :
    (from : Time) × (to : Time) × (parse_calendar_range no_date [] [] now moscow ≡ ok (from, to))
    × IsMonth (month_index now) from to
parse_calendar_range-IsMonth_example =
    parse_calendar_range-IsMonth moscow_fixed no_date now (omega (arith, today))
