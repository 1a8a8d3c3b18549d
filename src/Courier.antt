-- ===== src/Courier.antt =====
-- The courier, which writes what a client has put into a copy stream to the replicas.
pub mod CopyCommand
pub mod Reply
pub mod Delivery
mod Tests
