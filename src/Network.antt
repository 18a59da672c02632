-- ===== src/Network.antt =====
-- app/network: the HTTP layer's building blocks and the session manager that composes them.
pub mod CircuitBreaker
pub mod RateLimiter
pub mod Retry
pub mod RetryAsync
pub mod Metrics
pub mod UserAgent
pub mod Session
pub mod Singleton
