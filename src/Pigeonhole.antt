-- ===== src/Pigeonhole.antt =====
-- The pigeonhole package: the stream of elements in which a client hands envelopes to a courier.
pub mod Wire
pub mod Geometry
pub mod Element
pub mod CopyStream
pub mod Envelope
pub mod Query
pub mod Inner
mod Tests
