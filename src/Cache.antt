-- ===== src/Cache.antt =====
-- The caches of internal/cache.
pub mod Tiered
pub mod HotKeys
pub mod Bloom
pub mod Tests
