-- ===== src/Sphinx.antt =====
-- core/sphinx: the packet format.
pub mod Geometry
pub mod Commands
pub mod Crypto
pub mod Header
pub mod Packet
pub mod Surb
pub mod Tests
