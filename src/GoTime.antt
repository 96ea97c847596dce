-- ===== src/GoTime.antt =====
-- What the program uses of Go's `time` package: the Gregorian calendar, and instants in a location.
pub mod Civil
pub mod CivilLaws
pub mod Instant
pub mod Fixed
pub mod Rfc3339
