-- ===== src/Counter/Tests.antt =====
-- The theorems on counters, at concrete inputs.
pub mod Applied
pub mod Batched
pub mod Looped
pub mod Services
pub mod Rebuilt
