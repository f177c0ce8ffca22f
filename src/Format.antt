-- ===== src/Format.antt =====
-- web/src/lib/format.ts: times, calendar arithmetic and the words for schedules.
pub mod Time
pub mod Calendar
pub mod NextRun
pub mod Cron
pub mod Words
