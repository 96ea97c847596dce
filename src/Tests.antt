-- ===== src/Tests.antt =====
-- Concrete runs: data for the tests, and each theorem at an input.
pub mod Fixtures
pub mod Times
pub mod Jobs
pub mod Events
pub mod Services
pub mod Lifecycle
pub mod Settings
pub mod Processes
pub mod Written
pub mod Pages
