-- ===== src/Replica.antt =====
-- The storage replicas and the courier that speaks to them: where a box is stored, and which epochs
-- an envelope may come from.
pub mod Sharding
pub mod Epochs
mod Tests
