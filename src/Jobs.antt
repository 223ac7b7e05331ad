-- ===== src/Jobs.antt =====
-- app/scheduler/jobs: the jobs that run at intervals.
pub mod Trigger
pub mod Scaler
pub mod Processor
pub mod Tracker
