-- ===== src/Schedule/Last/Daily.antt =====
-- The runs of a daily schedule.
use yc_sheduler.Prelude.{
  ℕ, ◌+◌, ◌*◌, ◌≤◌, ◌<◌, ◌≡◌, pos, negsuc, ok, arith, Bool-cases, inl, inr, ◌==◌, ltb, ◌||◌,
  if◌then◌else◌, ◌∙◌, ◌-◌,
}
use yc_sheduler.Config.{Bytes}
use yc_sheduler.GoTime.Instant.{
  Location, Time, second_ns, day_seconds, day_number, clock, year, month, day, add_date, after,
  equal, date,
}
use yc_sheduler.GoTime.Fixed.{IsFixed, ns_lem, clock-lt, add_date-days}
use yc_sheduler.Schedule.Clock.{Clock, parse_time_string}
use yc_sheduler.Schedule.Clock.Formats.{IsClock, parse_time_string-IsClock}
use yc_sheduler.Schedule.Last.{at_clock, get_last_daily_time}
use yc_sheduler.Schedule.Last.AtClock.{seconds_of, day_ns, Shows, at_clock-same}

-- The run of a daily schedule on some day `z`, before `n` and at most a day old.
abbrev pub IsLastDaily : {l : Location} → IsFixed l → Clock → ℕ → Time → Type 0
IsLastDaily f c n t =
    (z : ℕ) × (t.ns < n)
    × (n ≤ t.ns + day_ns)
    × (clock t ≡ seconds_of c)
    × (t.ns + f.east * second_ns ≡ (z * day_seconds + seconds_of c + f.west) * second_ns)

choose_day :
    {l : Location} (f : IsFixed l) (n k : ℕ) (c : Clock) (valid : IsClock c)
    → let now : Time = record { ns = n; loc = l } in
      let today : Time = record { ns = k; loc = l } in
      2 ≤ day_number now
      → Shows f c valid (day_number now) today
      → IsLastDaily f c n (
          if after today now || equal today now
          then add_date today (pos 0) (pos 0) (negsuc 0)
          else today)
choose_day {l} f n k c valid late shows = elim (Bool-cases (ltb n k || k == n)) [
  | inl coming ↦
      let ahead : n ≤ k = ground arith in
      let (_, same, moved) =
        add_date-days f k (negsuc 0) (omega (arith, shows)) (omega (arith, shows)) in
      rw coming (
        day_number (record { ns = n; loc = l }) - 1,
        omega (arith, shows, moved, ns_lem f n (omega arith), clock-lt f n),
        omega (arith, shows, moved, ns_lem f n (omega arith), clock-lt f n),
        same ∙ shows.1,
        omega (arith, shows, moved),
      )
  | inr passed ↦
      let behind : k < n = ground arith in
      rw passed (
        day_number (record { ns = n; loc = l }),
        behind,
        omega (arith, shows, ns_lem f n (omega arith), clock-lt f n),
        shows.1,
        shows.2,
      )
]

-- For a time of day that can be read, in a location with a fixed offset, and `n` from day 2 of the
-- calendar on: there is a result, it is the run of some day at that time of day, strictly before
-- `n`, and `n` is at most a day later.
pub get_last_daily_time-last :
    {l : Location} (f : IsFixed l) (s : Bytes) (c : Clock) (n : ℕ)
    → parse_time_string s ≡ ok c
    → 2 ≤ day_number (record { ns = n; loc = l })
    → (t : Time) × (get_last_daily_time s (record { ns = n; loc = l }) l ≡ ok t)
      × IsLastDaily f c n t
unfolding get_last_daily_time date
get_last_daily_time-last {l} f s c n e late = (
  _,
  rw e,
  choose_day f n (at_clock (year now) (month now) (pos (day now)) c l).ns c valid late
      (at_clock-same f c valid now (omega arith)),
)
  where
    now : Time
    now = record { ns = n; loc = l }

    valid : IsClock c
    valid = parse_time_string-IsClock s c e
