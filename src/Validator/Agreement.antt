-- ===== src/Validator/Agreement.antt =====
-- The actions that the scheduler and the validator take.
use yc_sheduler.Scheduler.Jobs.{daily_job, weekly_job, monthly_job}
use yc_sheduler.Prelude.{
  ◌≡◌, refl, str_eq, Bool, true, false, ◌||◌, if◌then◌else◌, ltb, ltb_ℤ, ℤ, pos, negsuc, Result, ok,
  err, arith, Bool-cases, inl, inr, [], ◌∷◌, ◌>>=◌, ◌∙◌, Error, missing_time, invalid_weekday,
  invalid_month_day, sym,
}
use yc_sheduler.Config.{Bytes, Schedule, ActionConfig}
use yc_sheduler.GoTime.Instant.{Location, Time}
use yc_sheduler.Schedule.Clock.{
  Clock, parse_time_string, parse_time, parse_weekday, parse_day_of_month,
}
use yc_sheduler.Schedule.Clock.Formats.{IsClock, parse_time_string-IsClock}
use yc_sheduler.Schedule.Last.{
  CronParser, get_last_daily_time, get_last_weekly_time, get_last_monthly_time, target_weekday,
}
use yc_sheduler.Scheduler.Definition.{is_empty, schedule_to_job_definition}
use yc_sheduler.Validator.{get_last_execution_time}

abbrev pub is_ok {ℓ} : {A : Type ℓ} → Result A → Bool
is_ok (ok _) = true
is_ok (err _) = false

-- The second range check of `parse_time` never fails.
pub parse_time_lem : (s : Bytes) → is_empty s ≡ false → parse_time s ≡ parse_time_string s
unfolding parse_time
parse_time_lem [] h = cc
parse_time_lem (c ∷ s) h = go (parse_time_string (c ∷ s)) (parse_time_string-IsClock (c ∷ s))
  where
    go :
        (r : Result Clock)
        → ((t : Clock) → r ≡ ok t → IsClock t)
        → (r >>= λ t.
            if ltb 23 t.hour || ltb 59 t.minute || ltb 59 t.second
            then err Error.time_out_of_range
            else ok t)
          ≡ r
    go (err e) valid = refl
    go (ok t) valid = ground (arith, valid t refl)

is_ok-bind {ℓ κ} :
    {A : Type ℓ} {B : Type κ} (m : Result A) (f : A → Result B)
    → ((a : A) → is_ok (f a) ≡ true)
    → is_ok (m >>= f) ≡ is_ok m
is_ok-bind (ok a) f h = h a
is_ok-bind (err e) f h = refl

weekday_ok :
    (d : ℤ)
    → (ltb_ℤ d (pos 0) || ltb_ℤ (pos 6) d) ≡ false
    → (is_ok (parse_weekday d) ≡ true) × (is_ok (target_weekday d) ≡ true)
unfolding parse_weekday target_weekday
weekday_ok (pos d) h = ground arith
weekday_ok (negsuc d) h = ground arith

daily_ok :
    (t : Bytes) (now : Time) (l : Location)
    → is_ok (if is_empty t then err missing_time else get_last_daily_time t now l)
      ≡ is_ok (if is_empty t then err missing_time else (do at ← parse_time t; ok (daily_job 1 at)))
unfolding get_last_daily_time
daily_ok [] now l = refl
daily_ok (c ∷ s) now l =
    is_ok-bind (parse_time_string (c ∷ s)) _ (λ a. refl)
    ∙ rw (parse_time_lem (c ∷ s) refl) (sym (is_ok-bind (parse_time_string (c ∷ s)) _ (λ a. refl)))

weekly_ok :
    (t : Bytes) (d : ℤ) (now : Time) (l : Location)
    → is_ok (
        if is_empty t
        then err missing_time
        else if ltb_ℤ d (pos 0) || ltb_ℤ (pos 6) d
        then err invalid_weekday
        else get_last_weekly_time t d now l)
      ≡ is_ok (
          if is_empty t
          then err missing_time
          else if ltb_ℤ d (pos 0) || ltb_ℤ (pos 6) d
          then err invalid_weekday
          else (do at ← parse_time t; weekday ← parse_weekday d; ok (weekly_job 1 weekday at)))
unfolding get_last_weekly_time
weekly_ok [] d now l = refl
weekly_ok (c ∷ s) d now l = elim (Bool-cases (ltb_ℤ d (pos 0) || ltb_ℤ (pos 6) d)) [
  | inl bad ↦ rw bad refl
  | inr good ↦
      rw (good, parse_time_lem (c ∷ s) refl)
        (is_ok-bind (parse_time_string (c ∷ s)) _
            (λ a. is_ok-bind (target_weekday d) _ (λ b. refl) ∙ (weekday_ok d good).1)
          ∙ sym (
              is_ok-bind (parse_time_string (c ∷ s)) _
                (λ a. is_ok-bind (parse_weekday d) _ (λ b. refl) ∙ (weekday_ok d good).0)))
]

monthly_ok :
    (t : Bytes) (d : ℤ) (now : Time) (l : Location)
    → is_ok (
        if is_empty t
        then err missing_time
        else if ltb_ℤ d (pos 1) || ltb_ℤ (pos 31) d
        then err invalid_month_day
        else get_last_monthly_time t d now l)
      ≡ is_ok (
          if is_empty t
          then err missing_time
          else if ltb_ℤ d (pos 1) || ltb_ℤ (pos 31) d
          then err invalid_month_day
          else (do at ← parse_time t; day ← parse_day_of_month d; ok (monthly_job 1 day at)))
unfolding get_last_monthly_time parse_day_of_month
monthly_ok [] d now l = refl
monthly_ok (c ∷ s) d now l = elim (Bool-cases (ltb_ℤ d (pos 1) || ltb_ℤ (pos 31) d)) [
  | inl bad ↦ rw bad refl
  | inr good ↦
      rw (good, parse_time_lem (c ∷ s) refl)
        (is_ok-bind (parse_time_string (c ∷ s)) _ (λ a. refl)
          ∙ sym (is_ok-bind (parse_time_string (c ∷ s)) _ (λ a. refl)))
]

-- The two functions ask for the types in different orders.
same_type {ℓ κ} :
    {A : Type ℓ} {B : Type κ} (cron daily weekly monthly : Bool) (c d w m o : Result A)
    (c' d' w' m' o' : Result B)
    → cron ≡ false
    → is_ok d ≡ is_ok d'
    → is_ok w ≡ is_ok w'
    → is_ok m ≡ is_ok m'
    → is_ok o ≡ is_ok o'
    → is_ok
        (if daily then d else if weekly then w else if monthly then m else if cron then c else o)
      ≡ is_ok (
          if cron
          then c'
          else if daily
          then d'
          else if weekly
          then w'
          else if monthly
          then m'
          else o')
same_type true daily weekly monthly c d w m o c' d' w' m' o' h hd hw hm ho = absurd (cc)
same_type false true weekly monthly c d w m o c' d' w' m' o' h hd hw hm ho = hd
same_type false false true monthly c d w m o c' d' w' m' o' h hd hw hm ho = hw
same_type false false false true c d w m o c' d' w' m' o' h hd hw hm ho = hm
same_type false false false false c d w m o c' d' w' m' o' h hd hw hm ho = ho

-- Except for schedules of type cron, the validator finds a time for an action exactly if the
-- scheduler has a definition for it, at every current time and in every location.
pub get_last_execution_time-definition :
    (parser : CronParser) (sch : Schedule) (a : ActionConfig) (now : Time) (l : Location)
    → str_eq sch.type "cron" ≡ false
    → is_ok (get_last_execution_time parser sch a now l) ≡ is_ok (schedule_to_job_definition sch a)
unfolding get_last_execution_time schedule_to_job_definition get_last_daily_time
    get_last_weekly_time get_last_monthly_time parse_day_of_month
get_last_execution_time-definition parser sch a now l other =
    same_type (str_eq sch.type "cron") (str_eq sch.type "daily") (str_eq sch.type "weekly")
      (str_eq sch.type "monthly") _ _ _ _ _ _ _ _ _ _ other (daily_ok a.time now l)
      (weekly_ok a.time a.day now l) (monthly_ok a.time a.day now l) refl
