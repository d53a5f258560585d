-- ===== src/Server.antt =====
-- internal/server: routing rules, middlewares and the rate limiter.
pub mod Rbac
pub mod Gate
pub mod RateLimit
pub mod Tests
