-- ===== src/RateLimit.antt =====
-- Rate limits (internal/ratelimit): ClientIp is the client address that a limit is
-- keyed by, and Limiter the buckets of the clients.
pub mod ClientIp
pub mod Forged
pub mod Limiter
pub mod Bounded
