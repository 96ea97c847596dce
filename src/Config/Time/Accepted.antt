-- ===== src/Config/Time/Accepted.antt =====
-- The texts that the schema of a time of day accepts, and what the scheduler makes of them.
use yc_sheduler.Prelude.{
  ℕ, ◌+◌, ◌-◌, ◌*◌, ◌/◌, ◌%◌, ◌≤◌, ◌<◌, ◌≡◌, ==_iff, refl, Bool, true, false, ◌&&◌, [], ◌∷◌, ok,
  arith, ◌↔◌, ◌⊎◌, inl, inr,
}
use yc_sheduler.Config.{Bytes}
use yc_sheduler.Schedule.Clock.{Clock, parse_time_string, parse_time}
use yc_sheduler.Schedule.Clock.Formats.{hh_mm, hh_mm_ss, IsClock, parse_time_string-formats}
use yc_sheduler.Calendar.Parse.{parse_clock}
use yc_sheduler.Calendar.Texts.{parse_clock-formats}
use yc_sheduler.Config.Time.{hour_digits, sixty_digits, matches_time, accepts_time}

-- The text is HH:MM or HH:MM:SS of a time of day.
abbrev pub IsText : Bytes → Clock → Type 0
IsText s c =
    IsClock c
    × ((s ≡ hh_mm c.hour c.minute) × (c.second ≡ 0) ⊎ (s ≡ hh_mm_ss c.hour c.minute c.second))

-- The digits of a number below 24 or 60, and the number of two digits.
hour_of :
    (a b : ℕ)
    → hour_digits a b ≡ true
    → (h : ℕ) × (h < 24) × (a ≡ b'0' + h / 10) × (b ≡ b'0' + h % 10)
hour_of a b e =
    let bounds : (b'0' ≤ a) × (b'0' ≤ b) × (b ≤ b'9') × ((a - b'0') * 10 + (b - b'0') < 24) =
      ground arith in
    ((a - b'0') * 10 + (b - b'0'), bounds.3, omega (arith, bounds), omega (arith, bounds))

sixty_of :
    (a b : ℕ)
    → sixty_digits a b ≡ true
    → (m : ℕ) × (m < 60) × (a ≡ b'0' + m / 10) × (b ≡ b'0' + m % 10)
sixty_of a b e =
    let bounds : (b'0' ≤ a) × (b'0' ≤ b) × (b ≤ b'9') × ((a - b'0') * 10 + (b - b'0') < 60) =
      ground arith in
    ((a - b'0') * 10 + (b - b'0'), bounds.3, omega (arith, bounds), omega (arith, bounds))

hour_digits_lem : (h : ℕ) → h < 24 → hour_digits (b'0' + h / 10) (b'0' + h % 10) ≡ true
hour_digits_lem h small = ground arith

sixty_digits_lem : (m : ℕ) → m < 60 → sixty_digits (b'0' + m / 10) (b'0' + m % 10) ≡ true
sixty_digits_lem m small = ground arith

of_text : (s : Bytes) (c : Clock) → IsText s c → accepts_time s ≡ true
unfolding accepts_time matches_time
of_text s c ((hh, hm, hs), inl (e, zeros)) =
    rw (e, hour_digits_lem c.hour hh, sixty_digits_lem c.minute hm) refl
of_text s c ((hh, hm, hs), inr e) =
    rw (e, hour_digits_lem c.hour hh, sixty_digits_lem c.minute hm, sixty_digits_lem c.second hs)
      refl

and_split : (x y : Bool) → (x && y) ≡ true → (x ≡ true) × (y ≡ true)
and_split true y e = (refl, e)
and_split false y e = cc

matched : (s : Bytes) → matches_time s ≡ true → (c : Clock) × IsText s c
unfolding matches_time
matched (a ∷ b ∷ c ∷ d ∷ e ∷ []) h =
    let (front, is_m) = and_split _ _ h in
    let (is_h, colon) = and_split _ _ front in
    let (hours, h24, a_is, b_is) = hour_of a b is_h in
    let (minutes, m60, d_is, e_is) = sixty_of d e is_m in
    let first = (==_iff _ _).0 colon in
    (
      record { hour = hours; minute = minutes; second = 0 },
      ((h24, m60, omega arith), inl (cc, refl)),
    )
matched (a ∷ b ∷ c ∷ d ∷ e ∷ f ∷ g ∷ i ∷ []) h =
    let (front, is_s) = and_split _ _ h in
    let (front', colon') = and_split _ _ front in
    let (front'', is_m) = and_split _ _ front' in
    let (is_h, colon) = and_split _ _ front'' in
    let (hours, h24, a_is, b_is) = hour_of a b is_h in
    let (minutes, m60, d_is, e_is) = sixty_of d e is_m in
    let (seconds, s60, g_is, i_is) = sixty_of g i is_s in
    let first = (==_iff _ _).0 colon in
    let second = (==_iff _ _).0 colon' in
    (record { hour = hours; minute = minutes; second = seconds }, ((h24, m60, s60), inr cc))
matched _ h = cc

read_string : (s : Bytes) (c : Clock) → IsText s c → parse_time_string s ≡ ok c
read_string s c ((hh, hm, hs), inl (e, zeros)) =
    rw (e, (parse_time_string-formats c.hour c.minute 0 hh hm (omega arith)).0, zeros) refl
read_string s c ((hh, hm, hs), inr e) =
    rw (e, (parse_time_string-formats c.hour c.minute c.second hh hm hs).1) refl

-- The second check of the range never fails.
parse_time_lem :
    (a : ℕ) (s : Bytes) (c : Clock)
    → IsClock c
    → parse_time_string (a ∷ s) ≡ ok c
    → parse_time (a ∷ s) ≡ ok c
unfolding parse_time
parse_time_lem a s c (hh, hm, hs) e = rw e (ground arith)

read_time : (s : Bytes) (c : Clock) → IsText s c → parse_time s ≡ ok c
read_time [] c (valid, inl (e, zeros)) = cc
read_time [] c (valid, inr e) = cc
read_time (a ∷ s) c text = parse_time_lem a s c text.0 (read_string (a ∷ s) c text)

read_clock : (s : Bytes) (c : Clock) → IsText s c → parse_clock s ≡ ok c
read_clock s c ((hh, hm, hs), inl (e, zeros)) =
    rw (e, (parse_clock-formats c.hour c.minute 0 hh hm (omega arith)).0, zeros) refl
read_clock s c ((hh, hm, hs), inr e) =
    rw (e, (parse_clock-formats c.hour c.minute c.second hh hm hs).1) refl

-- The schema accepts a text exactly if it is HH:MM or HH:MM:SS of a time of day, and every such text
-- is read as that time by the validator, by the job definitions and by the calendar.
pub accepts_time-IsText :
    (s : Bytes)
    → ((accepts_time s ≡ true) ↔ ((c : Clock) × IsText s c))
      × ((c : Clock)
          → IsText s c
          → (parse_time_string s ≡ ok c) × (parse_time s ≡ ok c) × (parse_clock s ≡ ok c))
unfolding accepts_time
accepts_time-IsText s = (
  (λ h. matched s (and_split _ _ h).1, λ text. of_text s text.0 text.1),
  λ c text. (read_string s c text, read_time s c text, read_clock s c text),
)
