-- ===== src/Tests.antt =====
-- Concrete runs at which the hypotheses of the theorems hold.
mod Samples
mod Client
mod Http
mod Integration
mod Saga
mod Workflow
mod Webhooks
mod Authorization
mod Worker
mod Scheduler
mod Ingestion
mod Cursor
