-- ===== src/Server.antt =====
-- The packet path of a mix server, of server/internal: a packet's commands, the replay filter of
-- a mix key, and what the crypto worker does with a packet.
pub mod Packet
pub mod MixKey
pub mod CryptoWorker
pub mod Routing
pub mod Candidates
pub mod Replay
pub mod Marks
pub mod History
mod Tests
