-- ===== src/Cron.antt =====
-- cron/: schedules of recurring jobs.
pub mod Schedule
pub mod Durations
mod Tests
