-- ===== src/Relation.antt =====
-- internal/relation: the consumer of follow events.
pub mod EventProcessor
pub mod Follows
pub mod Tests
