-- ===== src/Integration.antt =====
-- src/app/integrations/contracts: the error taxonomy of the integration adapters, and the patterns
-- that handle outages and partial failures.
pub mod Errors
pub mod Fallback
pub mod PartialFailure
pub mod Compensation
pub mod Deferred
pub mod Cursor
