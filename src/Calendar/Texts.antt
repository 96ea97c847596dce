-- ===== src/Calendar/Texts.antt =====
-- What `parseClock` makes of the documented texts of a time of day.
use yc_sheduler.Prelude.{
  ℕ, ◌+◌, ◌-◌, ◌*◌, ◌/◌, ◌%◌, ◌<◌, ◌≤◌, ◌≡◌, refl, Bool, true, false, [], ◌∷◌, ok, arith, ltb_of_lt,
}
use yc_sheduler.Config.{Bytes}
use yc_sheduler.Schedule.Clock.{past_colon}
use yc_sheduler.Schedule.Clock.Formats.{two, hh_mm, hh_mm_ss, is_digit_lem}
use yc_sheduler.Calendar.Parse.{
  getnum, field, colon, skip_fraction, ended, with_seconds, without_seconds, parse_clock,
}

pub field_number :
    (fixed : Bool) (limit n : ℕ) (rest : Bytes)
    → n < limit
    → limit ≤ 100
    → field fixed limit (two n rest) ≡ ok (n, rest)
unfolding field getnum
field_number fixed limit n rest small most =
    let tens = is_digit_lem (n / 10) (omega arith) in
    let ones = is_digit_lem (n % 10) (omega arith) in
    let value : (b'0' + n / 10 - b'0') * 10 + (b'0' + n % 10 - b'0') ≡ n = omega arith in
    rw (tens, ones, value, ltb_of_lt n limit small) refl

pub parse_clock-formats :
    (h m s : ℕ)
    → h < 24
    → m < 60
    → s < 60
    → (parse_clock (hh_mm h m) ≡ ok (record { hour = h; minute = m; second = 0 }))
      × (parse_clock (hh_mm_ss h m s) ≡ ok (record { hour = h; minute = m; second = s }))
unfolding parse_clock with_seconds without_seconds colon past_colon ended skip_fraction
parse_clock-formats h m s hh hm hs =
    let in_hour = λ (r : Bytes). field_number false 24 h r hh (omega arith) in
    let in_minute = λ (r : Bytes). field_number true 60 m r hm (omega arith) in
    (
      rw (
        parse_clock,
        with_seconds,
        in_hour (b':' ∷ two m []),
        colon,
        in_minute [],
        colon,
        without_seconds,
        in_hour (b':' ∷ two m []),
        colon,
        in_minute [],
      ),
      rw (
        parse_clock,
        with_seconds,
        in_hour (b':' ∷ two m (b':' ∷ two s [])),
        colon,
        in_minute (b':' ∷ two s []),
        colon,
        field_number true 60 s [] hs (omega arith),
      ),
    )
