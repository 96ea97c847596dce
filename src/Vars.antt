-- ===== src/Vars.antt =====
-- internal/vars/vars.go: the data of the build. The linker may set the variables before `init` runs.
use yc_sheduler.Prelude.{ℕ, ◌*◌, String, [], ◌∷◌, Result, ok, err}
use yc_sheduler.Config.{Bytes}
use yc_sheduler.GoTime.Instant.{Location, Time, second_ns, day_seconds, in_location}
use yc_sheduler.GoTime.Rfc3339.{parse_rfc3339, fixed_zone}

pub record BuildInfo : Type 0 where
  pub version : String
  pub commit : String
  pub build_time : Time
  pub url : String

-- The variables of the package; `raw_build_time` is `_buildTime`.
pub record Vars : Type 0 where
  pub version : String
  pub commit : String
  pub build_time : Time
  pub url : String
  pub raw_build_time : Bytes

-- 1 January 1970, on which the seconds of Unix begin.
abbrev pub epoch_ns : ℕ
epoch_ns = 719468 * day_seconds * second_ns

-- The values that the source gives.
abbrev pub defaults : Location → Vars
defaults local = record {
  version = "dev";
  commit = "unknown";
  build_time = record { ns = epoch_ns; loc = local };
  url = "https://github.com/sentoz/yc-sheduler";
  raw_build_time = [];
}

abbrev pub utc_zone : Location
utc_zone = fixed_zone 0 0

abbrev pub with_build_time : Result Time → Vars → Vars
with_build_time (err e) v = v
with_build_time (ok t) v = record v { build_time = in_location t utc_zone }

-- `init`
unfoldable pub initialized : Location → Vars → Vars
initialized local v = elim v.raw_build_time [
  | [] ↦ v
  | c ∷ s ↦ with_build_time (parse_rfc3339 local (c ∷ s)) v
]

-- `Info`
abbrev pub info : Vars → BuildInfo
info v = record { version = v.version; commit = v.commit; build_time = v.build_time; url = v.url }
