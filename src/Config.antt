-- ===== src/Config.antt =====
-- internal/config/config.go and internal/config/schedule_manifest.go: the runtime configuration. A
-- time of day is a text that the program takes apart, so it is a list of bytes; every other text is
-- only compared or joined.
pub mod Files
pub mod Loader
pub mod Load
pub mod Crontab
pub mod Duration
pub mod Time
pub mod Rfc3339
pub mod Values
use yc_sheduler.Prelude.{
  ℕ, ℤ, String, Bool, true, false, Option, none, some, List, not, str_eq, if◌then◌else◌,
}

-- The bytes of a Go string.
abbrev pub Bytes : Type 0
Bytes = List ℕ

pub record Resource : Type 0 where
  pub type : String
  pub id : String
  pub folder_id : String

pub record ActionConfig : Type 0 where
  pub time : Bytes
  pub crontab : String
  pub day : ℤ
  pub enabled : Bool

pub record Actions : Type 0 where
  pub start : Option ActionConfig
  pub stop : Option ActionConfig

-- The deprecated parameters of a schedule, which nothing reads.
pub record CronJobConfig : Type 0 where
  pub crontab : String

pub record DailyJobConfig : Type 0 where
  pub time : Bytes

pub record WeeklyJobConfig : Type 0 where
  pub time : Bytes
  pub day : ℤ

pub record MonthlyJobConfig : Type 0 where
  pub time : Bytes
  pub day : ℤ

pub record Schedule : Type 0 where
  pub display_name : String
  pub actions : Actions
  pub cron_job : Option CronJobConfig
  pub daily_job : Option DailyJobConfig
  pub weekly_job : Option WeeklyJobConfig
  pub monthly_job : Option MonthlyJobConfig
  pub resource : Resource
  pub name : String
  pub type : String

pub record Config : Type 0 where
  pub validation_resources : Option Bool
  pub timezone : String
  pub schedules_dir : String
  pub schedules : List Schedule
  pub validation_interval : ℤ
  pub shutdown_timeout : ℤ
  pub metrics_port : ℤ
  pub max_concurrent_jobs : ℤ
  pub metrics_enabled : Bool
  pub ui_enabled : Bool

pub record ScheduleManifestMeta : Type 0 where
  pub annotations : String → String
  pub name : String

pub record ScheduleManifestSpec : Type 0 where
  pub actions : Actions
  pub cron_job : Option CronJobConfig
  pub daily_job : Option DailyJobConfig
  pub weekly_job : Option WeeklyJobConfig
  pub monthly_job : Option MonthlyJobConfig
  pub resource : Resource
  pub type : String

pub record ScheduleManifest : Type 0 where
  pub api_version : String
  pub kind : String
  pub metadata : ScheduleManifestMeta
  pub spec : ScheduleManifestSpec

unfoldable pub is_validation_resources_enabled : Config → Bool
is_validation_resources_enabled c = elim c.validation_resources [ none ↦ true | some b ↦ b ]

abbrev pub display_name_annotation : String
display_name_annotation = "yc-scheduler/display-name"

-- A key that is not in the map reads as the empty text.
unfoldable pub to_schedule : ScheduleManifest → Schedule
to_schedule m =
    let value = m.metadata.annotations display_name_annotation in
    record {
      display_name = if not (str_eq value "") then value else m.metadata.name;
      actions = m.spec.actions;
      cron_job = m.spec.cron_job;
      daily_job = m.spec.daily_job;
      weekly_job = m.spec.weekly_job;
      monthly_job = m.spec.monthly_job;
      resource = m.spec.resource;
      name = m.metadata.name;
      type = m.spec.type;
    }

-- `a != nil && a.Enabled`
unfoldable pub is_enabled : Option ActionConfig → Bool
is_enabled none = false
is_enabled (some a) = a.enabled
