-- ===== src/Fanout.antt =====
-- The fan-out of posts and the home timeline of internal/fanout.
pub mod Boxes
pub mod Writing
pub mod Config
pub mod Timeline
pub mod Tests
