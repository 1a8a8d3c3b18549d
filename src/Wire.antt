-- ===== src/Wire.antt =====
-- The wire protocol commands of core/wire/commands: the commands and the connection's settings,
-- their encodings with the traffic padding, and the decoder.
pub mod Id
pub mod Command
pub mod Serialize
pub mod Encode
pub mod Body
pub mod Parse
pub mod Received
pub mod Frame
pub mod Reading
pub mod Sent
pub mod Client
pub mod Authority
pub mod Replica
pub mod RoundTrip
pub mod Settings
pub mod Uniform
pub mod ReplicaTraffic
pub mod Safety
mod Tests
