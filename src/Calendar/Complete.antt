-- ===== src/Calendar/Complete.antt =====
-- All the runs of daily, weekly and monthly schedules in a range: what the calendar is to show.
pub mod Listed
pub mod Actions
pub mod Joined
pub mod Ordered
use mathlib.Core.List.{Memᴰ}
use yc_sheduler.Prelude.{
  ℕ, ◌≤◌, ◌<◌, ◌%◌, ◌==◌, ◌≡◌, ◌⊎◌, String, str_eq, Bool, true, if◌then◌else◌, pos, pos_part,
  Option, none, some, List, All, ok,
}
use yc_sheduler.Config.{Schedule, ActionConfig}
use yc_sheduler.GoTime.Civil.{weekday_of_day, mday_of_day}
use yc_sheduler.GoTime.Instant.{Location, Time, second_ns, day_number, clock}
use yc_sheduler.Schedule.Clock.{Clock}
use yc_sheduler.Schedule.Last.AtClock.{seconds_of}
use yc_sheduler.Calendar.Parse.{parse_clock}
use yc_sheduler.Calendar.Chronology.Order.{Item}

-- A type of schedule with a time of day, and a day that it has.
pub data Kind (sch : Schedule) (a : ActionConfig) : Type 0 where
  daily : sch.type ≡ "daily" → Kind sch a
  weekly : (d : ℕ) → sch.type ≡ "weekly" → a.day ≡ pos d → d ≤ 6 → Kind sch a
  monthly : (d : ℕ) → sch.type ≡ "monthly" → a.day ≡ pos d → 1 ≤ d → d ≤ 31 → Kind sch a

-- An action whose time can be read, if there is one and it is enabled.
abbrev pub IsReadable : Schedule → Option ActionConfig → Type 0
IsReadable sch none = Unit
IsReadable sch (some a) =
    a.enabled ≡ true → Kind sch a × ((c : Clock) × (parse_clock a.time ≡ ok c))

abbrev pub AllReadable : List Schedule → Type 0
AllReadable = All (λ sch. IsReadable sch sch.actions.start × IsReadable sch sch.actions.stop)

-- The days on which an action runs.
abbrev pub runs_on : Schedule → ActionConfig → ℕ → Bool
runs_on sch a z =
    if str_eq sch.type "daily"
    then true
    else if str_eq sch.type "weekly"
    then weekday_of_day z == pos_part a.day
    else mday_of_day z == pos_part a.day

module _ (l : Location) (first last : ℕ) where
  -- An enabled action runs at an instant of the days from the first to the last one.
  abbrev pub RunsAt : Schedule → Option ActionConfig → ℕ → Type 0
  RunsAt sch none k = ⊥
  RunsAt sch (some a) k =
      let t : Time = record { ns = k; loc = l } in
      (a.enabled ≡ true)
      × ((c : Clock) × (parse_clock a.time ≡ ok c) × (clock t ≡ seconds_of c))
      × (k % second_ns ≡ 0)
      × (first ≤ day_number t)
      × (day_number t ≤ last)
      × (runs_on sch a (day_number t) ≡ true)

  -- What the calendar is to show: the runs of all the actions of all the schedules.
  abbrev pub IsShownRun : List Schedule → Item → Type 0
  IsShownRun schedules (sch, name, k) =
      Memᴰ sch schedules
      × (((name ≡ "start") × RunsAt sch sch.actions.start k)
          ⊎ ((name ≡ "stop") × RunsAt sch sch.actions.stop k))
