-- ===== src/Counter.antt =====
-- internal/counter: toggles, the aggregation of their events, and the repair of the snapshots.
pub mod Model
pub mod Publish
pub mod Toggle
pub mod Watermark
pub mod Batch
pub mod Flush
pub mod Loop
pub mod UserCounter
pub mod Backoff
pub mod Likers
pub mod Rebuild
pub mod Repair
pub mod Tests
