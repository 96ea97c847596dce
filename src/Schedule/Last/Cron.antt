-- ===== src/Schedule/Last/Cron.antt =====
-- `get_last_cron_time` searches forward from a year before, in a bounded number of rounds. `next` is
-- the cron library's `Next`; what is assumed of it is that it moves on by a bounded time.
use yc_sheduler.Prelude.{
  ℕ, zero, suc, ◌+◌, ◌*◌, ◌≤◌, ◌<◌, ◌≡◌, ◌∙◌, refl, sym, subst, ok, err, arith, String, pos, negsuc,
  no_cron_found,
}
use native.Mathlib.Decide.{dec_lt}
use yc_sheduler.GoTime.Instant.{Location, Time, zero_ns, is_zero, add_date, date, day_number}
use yc_sheduler.GoTime.Fixed.{IsFixed, add_date-year_back}
use yc_sheduler.Schedule.Last.{
  CronSchedule, CronParser, parse_cron, zero_time, find_last, max_iterations, get_last_cron_time,
}
use yc_sheduler.Schedule.Last.AtClock.{day_ns}

-- The documented promise of `Next`: an activation later than the given time.
abbrev pub Advances : CronSchedule → Type 0
Advances next = (t : Time) → t.ns < (next t).ns

-- There is an activation in every `q` nanoseconds.
abbrev pub Within : ℕ → CronSchedule → Type 0
Within q next = (t : Time) → (next t).ns ≤ t.ns + q

-- Two activations are at least `p` nanoseconds apart.
abbrev pub Apart : ℕ → CronSchedule → Type 0
Apart p next = (t : Time) → (next t).ns + p ≤ (next (next t)).ns

find_last-step :
    (rounds : ℕ) (next : CronSchedule) (now prev last : Time)
    → last.ns < now.ns
    → find_last (suc rounds) next now prev last ≡ find_last rounds next now last (next last)
unfolding find_last
find_last-step rounds next now prev last h = ground arith

-- Too few rounds: the search gives up at a run after which there is another one before `now`.
find_last-early :
    (rounds q : ℕ) (next : CronSchedule) (now prev : Time)
    → Advances next
    → Within q next
    → zero_ns < prev.ns
    → (next prev).ns + rounds * q < now.ns
    → (r : Time) × (find_last rounds next now prev (next prev) ≡ ok r) × ((next r).ns < now.ns)
unfolding find_last is_zero
find_last-early zero q next now prev grows most late h = (prev, ground arith, omega arith)
find_last-early (suc rounds) q next now prev grows most late h =
    let (r, e, early) =
      find_last-early rounds q next now (next prev) grows most (omega (arith, grows prev))
        (omega (arith, most (next prev))) in
    (r, find_last-step rounds next now prev (next prev) (omega arith) ∙ e, early)

find_last-stop :
    (rounds : ℕ) (next : CronSchedule) (now prev last : Time)
    → zero_ns < prev.ns
    → now.ns ≤ last.ns
    → find_last (suc rounds) next now prev last ≡ ok prev
unfolding find_last is_zero
find_last-stop rounds next now prev last late h = ground arith

-- The documented behaviour of `Next`: the first run after the instant that it is asked for, in the
-- location of the time that it is given, to which the fields of the expression refer. `Runs` says at
-- which instants the expression runs in a location.
pub record IsNext (next : CronSchedule) (Runs : Location → ℕ → Type 0) : Type 0 where
  pub stays : (t : Time) → (next t).loc ≡ t.loc
  pub is_run : (t : Time) → Runs t.loc (next t).ns
  pub later : (t : Time) → t.ns < (next t).ns
  pub least : (t : Time) (k : ℕ) → Runs t.loc k → t.ns < k → (next t).ns ≤ k

-- A run before `now`, and the latest of them.
abbrev pub IsLastRun : (Location → ℕ → Type 0) → Time → Time → Type 0
IsLastRun Runs now r =
    Runs now.loc r.ns × (r.ns < now.ns) × ((k : ℕ) → Runs now.loc k → k < now.ns → k ≤ r.ns)

-- Of two runs that follow one another, the first is the last one before `now` if the second is not.
IsNext-IsLastRun :
    {Runs : Location → ℕ → Type 0} {next : CronSchedule} (laws : IsNext next Runs) (now prev : Time)
    → prev.loc ≡ now.loc
    → Runs now.loc prev.ns
    → prev.ns < now.ns
    → now.ns ≤ (next prev).ns
    → IsLastRun Runs now prev
IsNext-IsLastRun {Runs} {next} laws now prev here runs before stop =
    (runs, before, λ k at early. bounded k at early)
  where
    bounded : (k : ℕ) → Runs now.loc k → k < now.ns → k ≤ prev.ns
    bounded k at early = elim (dec_lt prev.ns k) [
      | yes beyond ↦
          let bound : (next prev).ns ≤ k =
            laws.least prev k (subst (λ l. Runs l k) (sym here) at) beyond in
          absurd (omega arith)
      | no near ↦ omega arith
    ]

IsNext-run :
    {Runs : Location → ℕ → Type 0} {next : CronSchedule} (laws : IsNext next Runs) (now t : Time)
    → t.loc ≡ now.loc
    → ((next t).loc ≡ now.loc) × Runs now.loc (next t).ns
IsNext-run {Runs} {next} laws now t here =
    (laws.stays t ∙ here, subst (λ l. Runs l (next t).ns) here (laws.is_run t))

-- Enough rounds: the search ends at the last activation before `now`.
find_last-exact :
    {Runs : Location → ℕ → Type 0} (rounds p : ℕ) (next : CronSchedule) (now prev : Time)
    → IsNext next Runs
    → Apart p next
    → prev.loc ≡ now.loc
    → Runs now.loc prev.ns
    → zero_ns < prev.ns
    → prev.ns < now.ns
    → now.ns ≤ (next prev).ns + rounds * p
    → (r : Time) × (find_last (suc rounds) next now prev (next prev) ≡ ok r) × IsLastRun Runs now r
find_last-exact zero p next now prev laws apart here runs late before enough = (
  prev,
  find_last-stop zero next now prev (next prev) late (omega arith),
  IsNext-IsLastRun laws now prev here runs before (omega arith),
)
find_last-exact (suc rounds) p next now prev laws apart here runs late before enough =
    elim (dec_lt (next prev).ns now.ns) [
      | yes h ↦
          let (here', runs') = IsNext-run laws now prev here in
          let (r, e, last) =
            find_last-exact rounds p next now (next prev) laws apart here' runs'
              (omega (arith, laws.later prev)) h (omega (arith, apart prev)) in
          (r, find_last-step (suc rounds) next now prev (next prev) h ∙ e, last)
      | no h ↦ (
        prev,
        find_last-stop (suc rounds) next now prev (next prev) late (omega arith),
        IsNext-IsLastRun laws now prev here runs before (omega arith),
      )
    ]

-- A schedule of which no run is ever found: `Next` returns the zero time.
find_last-never :
    (rounds : ℕ) (next : CronSchedule) (now prev : Time)
    → ((t : Time) → next t ≡ zero_time)
    → prev ≡ zero_time
    → zero_ns < now.ns
    → find_last rounds next now prev zero_time ≡ err no_cron_found
unfolding find_last is_zero
find_last-never zero next now prev never z late = rw z
find_last-never (suc rounds) next now prev never z late =
    find_last-step rounds next now prev zero_time late
    ∙ rw never (find_last-never rounds next now zero_time never refl late)

abbrev pub year_before : Time → Time
year_before now = add_date now (negsuc 0) (pos 0) (pos 0)

year_before-loc : (now : Time) → (year_before now).loc ≡ now.loc
unfolding add_date date
year_before-loc now = refl

-- For an expression that parses, of which `Next` gives the first run after an instant in its
-- location, with runs that are at least `p` nanoseconds apart, of which the first since a year before
-- is after the zero time and before `now`, and `now` at most 9998 times `p` after the second: the
-- result is a run of the expression in the location of `now`, strictly before `now`, and no other
-- run before `now` is later.
pub get_last_cron_time-last :
    {Runs : Location → ℕ → Type 0} (parser : CronParser) (tab : String) (next : CronSchedule)
    (p : ℕ) (now : Time)
    → parse_cron parser tab ≡ ok next
    → IsNext next Runs
    → Apart p next
    → let first = next (year_before now) in
      zero_ns < first.ns
      → first.ns < now.ns
      → now.ns ≤ (next first).ns + 9998 * p
      → (r : Time) × (get_last_cron_time parser tab now ≡ ok r) × IsLastRun Runs now r
unfolding get_last_cron_time
get_last_cron_time-last parser tab next p now e laws apart late before enough =
    let first = next (year_before now) in
    let (here, runs) = IsNext-run laws now (year_before now) (year_before-loc now) in
    let (r, found, last) =
      find_last-exact 9998 p next now first laws apart here runs late before enough in
    (r, rw e (find_last-step 9999 next now zero_time first before ∙ found), last)

-- In a location with a fixed offset, from day 500 of the calendar on, with the zero time more than
-- a year back: if an expression parses, its activations move on, one falls in every `q`
-- nanoseconds, and 10001 times `q` is less than 365 days, then the result is not the last
-- activation before `now`: after it comes another one, still before `now`.
pub get_last_cron_time-stale :
    {l : Location} (f : IsFixed l) (parser : CronParser) (tab : String) (next : CronSchedule)
    (q n : ℕ)
    → let now : Time = record { ns = n; loc = l } in
      parse_cron parser tab ≡ ok next
      → Advances next
      → Within q next
      → 10001 * q < 365 * day_ns
      → 500 ≤ day_number now
      → zero_ns ≤ (year_before now).ns
      → (r : Time) × (get_last_cron_time parser tab now ≡ ok r) × ((next r).ns < n)
unfolding get_last_cron_time
get_last_cron_time-stale {l} f parser tab next q n e grows often many late positive =
    let now : Time = record { ns = n; loc = l } in
    let first = next (year_before now) in
    let back = add_date-year_back f n late in
    let from = often (year_before now) in
    let (r, found, early) =
      find_last-early 9999 q next now first grows often (omega (arith, grows (year_before now)))
        (omega (arith, often first)) in
    (r, rw e (find_last-step 9999 next now zero_time first (omega arith) ∙ found), early)

-- For an expression that parses but of which no run is ever found, `Next` returning the zero time,
-- and `now` after the zero time, the result is an error.
get_last_cron_time-never :
    (parser : CronParser) (tab : String) (next : CronSchedule) (now : Time)
    → parse_cron parser tab ≡ ok next
    → ((t : Time) → next t ≡ zero_time)
    → zero_ns < now.ns
    → get_last_cron_time parser tab now ≡ err no_cron_found
unfolding get_last_cron_time
get_last_cron_time-never parser tab next now e never late =
    rw (e, never) (find_last-never max_iterations next now zero_time never refl late)
