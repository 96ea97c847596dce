-- ===== src/Lib.antt =====
-- Verification of yc-scheduler, which starts and stops virtual machines and Kubernetes clusters of
-- Yandex Cloud by schedule.
--
-- The program reads schedules, each of which names a resource and when to start and to stop it. The
-- scheduler (internal/scheduler) turns every enabled action into a job of the gocron library. A job
-- (internal/executor) checks the state of its resource and calls the operation. The validator
-- (internal/validator) looks at every resource from time to time, works out from the last start and
-- the last stop (internal/schedule) which state the schedule asks for, and adds a one-time job if the
-- state is another one. The calendar (internal/calendar) expands the schedules of a range of days
-- into events for the web page.
--
--   Config      internal/config/config.go, schedule_manifest.go: the data, and ToSchedule; Load and
--               Loader are Load and LoadSchedules of loader.go, over the directory of Files; Duration
--               is duration.go, with its text (Print), the pattern of its schema (Pattern), and what
--               time.ParseDuration does; Time and Crontab are the patterns of time.go and
--               crontab.go; Rfc3339 is rfc3339.go; Values has the methods of all these types for
--               YAML and JSON, as one interface that each fills.
--   GoTime      Go's time package as far as the program uses it: the Gregorian calendar (Civil),
--               instants, locations and time.Date (Instant), what holds for a location whose offset
--               never changes (Fixed), and time.Parse of RFC 3339 (Rfc3339).
--   Schedule    internal/schedule/timeparser.go: Clock reads times of day, with what Sscanf does;
--               Last has GetLastDailyTime, GetLastWeeklyTime, GetLastMonthlyTime, GetLastCronTime.
--   Resource    internal/resource: the interfaces StateChecker and Operator, over a state of the world,
--               and YCStateChecker and YCOperator (Yandex).
--   Yc          internal/yc: executeOperation, getResource and waitOperation; Methods has the calls for
--               machines and clusters, and ValidateCredentials; Operated joins them with YCOperator.
--   Metrics     internal/metrics/metrics.go: the counters, by the labels of each increment.
--   Executor    internal/executor/executor.go: the job of Make from start to end; Interleaving has
--               the steps of many jobs on the shared in-flight keys, Progress how they go on, and
--               Effects what a job does to the states of the resources.
--   Scheduler   internal/scheduler/scheduler.go: RegisterSchedules, ReplaceSchedules, AddJob,
--               AddOneTimeJob (Scheduler), ScheduleToJobDefinition (Definition) and New (Life).
--   Validator   internal/validator/validator.go: determineExpectedState and runOnce; Expected, Weekly
--               and Monthly say what the first asks for, by the kind of schedule; Loop is Start with
--               UpdateSchedules, and Convergence runs the jobs that a round adds.
--   Calendar    internal/calendar/calendar.go: EventsInRange, expandAction and parseClock (Parse);
--               Latest, with Weekly and Monthly, joins it with the last times of Schedule; Chronology
--               is about the order of the events, and Complete says what is listed.
--   Reloader    internal/reloader/reloader.go: the signature of the directory, and the ticks.
--   App         internal/app: reloadSchedules, ScheduleStore, the UIProvider (its cache in Provider,
--               the rest in Pages), and New, Run and Shutdown as the effects that they have (Lifecycle).
--   Web         internal/web/calendar.go: the request for the calendar (its default range in Month);
--               Server has the routes of server.go and ui.go, with the patterns of ServeMux, and its
--               goroutines (Running); Handlers is what every handler answers.
--   Vars        internal/vars/vars.go: the data of the build, with init.
--   SchemaGen   cmd/schema-gen/main.go: the generator of the JSON schemas, from its flags to its exit
--               code.
--   Main        cmd/yc-scheduler/main.go and internal/signals: run, with its deferred calls.
--   Logger      internal/logger/logger.go: what Setup installs.
--   Tests       runs at concrete inputs.
--
-- State is passed explicitly: a method takes the state it acts on and returns it. Code outside the
-- repository is a parameter: gocron (Scheduler/Jobs, with the documented behaviour of NewJob and
-- RemoveByTags), the cron library (a parser, and a parsed expression as its Next), the time zone
-- database (a location is the zone in use at each second), the file system, YAML, JSON and the JSON schema
-- (Config/Files, Config/Loader, Config/Load), SHA-256 (Reloader), and the SDK of the cloud with the
-- generated clients (Yc). What a cloud does that obeys its operations is stated in Executor/Effects. An
-- instant counts nanoseconds since 1 March of year 0, so that it is a natural number. Go's int is an
-- unbounded integer, except where Sscanf checks the range of 64 bits; ParseDuration keeps its 64 bits,
-- and its floating-point product for a fraction is a parameter.
--
-- Bounds and fuel: the loop of GetLastCronTime has the program's own bound of 10000 rounds. The loops
-- of expandAction run on fuel and give no result without enough of it; more fuel than the range has
-- days, or for a cron expression as much as it has nanoseconds, is enough. The loop of waitOperation
-- runs on the list of signals that its select receives, and is still waiting when they end; a list that
-- ends with the end of the context is enough for it to return. The loop of ParseDuration has the length
-- of the text as fuel, of which every round takes some.
--
-- The goroutines of the server and the calls of Shutdown are steps on shared state, in any order;
-- Shutdown of net/http waits there until no request is being answered, as it documents. The
-- generator of the schemas tells files apart by the texts of their paths. An HTTP request has a clean
-- path, as ServeMux makes it, and one time at which it is answered.
--
-- Not modelled: what is logged, contexts beyond their end, messages of errors beyond their kind, the
-- encoding of what the HTTP handlers write, and the embedded files.
pub mod Prelude
pub mod Config
pub mod GoTime
pub mod Schedule
pub mod Resource
pub mod Metrics
pub mod Executor
pub mod Scheduler
pub mod Validator
pub mod Calendar
pub mod Reloader
pub mod Yc
pub mod App
pub mod Web
pub mod Main
pub mod SchemaGen
pub mod Vars
pub mod Logger
pub mod Tests
