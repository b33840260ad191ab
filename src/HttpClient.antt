-- ===== src/HttpClient.antt =====
-- src/app/integrations/http_client: the shared outbound HTTP client.
pub mod CircuitBreaker
pub mod Client
pub mod Errors
pub mod RateLimit
pub mod Retry
