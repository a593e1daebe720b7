-- ===== src/RateLimiter.antt =====
-- signal-gateway/src/rate_limiter.rs: thresholds, the ring of timestamps, and the limiters over it.
pub mod Ring
pub mod Multi
pub mod Limiter
