-- ===== src/Pkg.antt =====
-- The packages under pkg/.
pub mod RedisLock
pub mod RateLimiter
pub mod Tests
