-- ===== src/Schedule.antt =====
-- internal/schedule/timeparser.go: times of day, and the last run of a schedule before an instant.
pub mod Clock
pub mod Last
