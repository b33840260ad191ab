-- ===== src/Worker.antt =====
-- The background worker: jobs, scheduled jobs and the job around the workflow runner.
pub mod Alerts
pub mod Jobs
pub mod StepJob
pub mod Scheduler
