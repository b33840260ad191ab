-- ===== src/Webhooks.antt =====
-- src/app/webhooks: what happens to an incoming webhook.
pub mod Idempotency
pub mod Processing
pub mod Events
pub mod Replay
pub mod Ingestion
