-- ===== src/Web/Handlers/Built.antt =====
-- The time of the build, from the linker to the page.
use yc_sheduler.Prelude.{ℕ, ◌-◌, ◌%◌, ◌≡◌, ◌≢◌, ◌∙◌, refl, ap, err, ok, Error, [], ◌∷◌}
use yc_sheduler.Config.{Bytes}
use yc_sheduler.GoTime.Instant.{Location, Time}
use yc_sheduler.GoTime.Fixed.{IsFixed}
use yc_sheduler.GoTime.Rfc3339.{parse_rfc3339}
use yc_sheduler.GoTime.Rfc3339.RoundTrip.{parse_rfc3339-format, at_offset-ns}
use yc_sheduler.Calendar.{format_rfc3339, format_date}
use yc_sheduler.Calendar.Chronology.{IsShown}
use yc_sheduler.Vars.{Vars, BuildInfo, initialized, with_build_time, utc_zone}
use yc_sheduler.Web.Handlers.{build, build_info_handler}

format_rfc3339-some : (t : Time) → format_rfc3339 t ≢ []
unfolding format_rfc3339 format_date
format_rfc3339-some t e = absurd (cc)

with_time :
    (local : Location) (s : Bytes) (t : Time) (v : Vars)
    → s ≢ []
    → v.raw_build_time ≡ s
    → parse_rfc3339 local s ≡ ok t
    → initialized local v ≡ with_build_time (ok t) v
unfolding initialized
with_time local [] t v some raw e = absurd (some refl)
with_time local (c ∷ s) t v some raw e = rw (raw, e) refl

without_time :
    (local : Location) (s : Bytes) (e : Error) (v : Vars)
    → v.raw_build_time ≡ s
    → parse_rfc3339 local s ≡ err e
    → initialized local v ≡ v
unfolding initialized
without_time local [] e v raw failed = rw raw refl
without_time local (c ∷ s) e v raw failed = rw (raw, failed) refl

-- The build information with another time.
abbrev pub built_at : ℕ → Vars → BuildInfo
built_at k v = record {
  version = v.version;
  commit = v.commit;
  build_time = record { ns = k; loc = utc_zone };
  url = v.url;
}

-- If the linker has set the text of an instant in a location with a fixed offset of whole minutes, the
-- page shows this instant in UTC, for whole seconds from day 1 of the calendar on in years of four
-- digits; a text that is no time leaves the time of the source.
pub build_info_handler-initialized :
    {l : Location} (f : IsFixed l) (local : Location) (k : ℕ) (v : Vars)
    → IsShown f k
    → (f.east - f.west) % 60 ≡ 0
    → (f.west - f.east) % 60 ≡ 0
    → (v.raw_build_time ≡ format_rfc3339 (record { ns = k; loc = l })
        → (build_info_handler (initialized local v)).body ≡ build (built_at k v))
      × ((e : Error)
          → parse_rfc3339 local v.raw_build_time ≡ err e
          → build_info_handler (initialized local v) ≡ build_info_handler v)
build_info_handler-initialized {l} f local k v shown we ww =
    let s = format_rfc3339 (record { ns = k; loc = l }) in
    (
      λ raw.
          ap (λ x. (build_info_handler x).body)
            (with_time local s _ v (format_rfc3339-some (record { ns = k; loc = l })) raw
              (parse_rfc3339-format f local k shown we ww))
          ∙ ap (λ n. build (built_at n v)) (at_offset-ns f local k shown),
      λ e failed. ap build_info_handler (without_time local v.raw_build_time e v refl failed),
    )
