-- ===== src/Lib.antt =====
-- A model of Katzenpost, a mix network with a storage service. It covers the packet format that the
-- mixes share, what a mix does with a packet, the commands of the wire protocol, the stream in which
-- a client hands write operations to a courier, and the choices of replicas and epochs on which the
-- courier and the replicas have to agree.
--
-- Sphinx models core/sphinx. A client (`NewPacket`) builds a packet for a path of mixes, each of
-- which takes one layer off (`Unwrap`); with a SURB the last of them can answer.
--   Geometry: core/sphinx/geo/geo.go, the lengths that all the other parts read.
--   Commands: core/sphinx/commands/commands.go, what a hop is told.
--   Crypto: core/sphinx/internal/crypto/crypto.go. The hpqc NIKE scheme, HKDF, HMAC, AES-CTR, AEZ
--     and SHA-512/256 are the fields of `Primitives`; `IsCorrect` has what their libraries document.
--   Header: `createHeader` of core/sphinx/sphinx.go, each of its loops a function.
--   Packet: `newNikePacket` and `unwrapNike` of core/sphinx/sphinx.go. The loop over commands has
--     fuel: one round more than the block has bytes, since each command takes at least one. `deliver`
--     hands a packet from mix to mix.
--   Surb: core/sphinx/surb.go.
--
-- Pigeonhole models pigeonhole/copy_stream.go, pigeonhole/geo/geometry.go and the
-- messages of pigeonhole/trunnel_messages.go.
--   Wire, Envelope, Element: the readers, `CourierEnvelope` and `CopyStreamElement`.
--   Query: what clients and couriers say to each other. Inner: what is in the envelopes, and `Box`.
--   CopyStream: the encoder of the client and the decoders of the courier, with `send_stream` for
--     the client's calls and `receive` for a decoder that gets one element after the other. The loops
--     have as much fuel as the buffer has bytes, or one round more, since each round takes at least
--     one byte; the one that has not is that of an encoder whose chunks are empty, which in Go does not end either.
--   Geometry: the lengths of the messages, to and from Sphinx, and those of what is sent.
--
-- Courier models `processCopyCommand` of courier/server/plugin.go, which reads a copy stream with the
-- decoder of Pigeonhole, up to its ceilings of boxes and envelopes, and dispatches the envelopes.
--   CopyCommand: the code. Reply: its answer in any case. Delivery: a whole stream.
--
-- Replica models what the courier and the replicas share.
--   Sharding: replica/common/shard.go, over BLAKE2b-256.
--   Epochs: courier/server/envelope_epoch.go and replica/envelope_epoch.go, over the replica's keys
--     and the MKEM scheme, and the epochs of replica/common/time.go.
--
-- Wire models core/wire/commands, what nodes, clients and authorities say to each other.
--   Command, Settings: the commands, `Commands` with its constructors, and `Length`.
--   Serialize, Encode: `ToBytes`, with the traffic padding. Body, Parse: `FromBytes`. An index
--     or slice past the end of a body is a panic, whether a check comes before it or not; the buffer
--     that is read ends where its bytes do.
--   Received, Frame, Sent, Reading, Client, Authority, Replica, RoundTrip: encoding and decoding.
--   Uniform, ReplicaTraffic, Safety: the length of what is sent, and the panics of the decoder.
--
-- Server models the packet path of a mix, in server/internal: packet/packet.go,
-- mixkey/mixkey.go (`IsReplay`) and cryptoworker/crypto_worker.go. It unwraps with Sphinx's
-- `unwrap_nike`. The workers share a store of keys; `history` is a run of all their packets in the
-- order in which they take the lock of a key. The Bloom filter is the parameter `Bloom`.
--   Packet, MixKey, CryptoWorker: the code. Routing: where a packet goes. Candidates, Replay: the
--     steps of `doUnwrap`. Marks, History: the tags in the filters, in runs.
--
-- Prelude has the tests on numbers, lists and bytes, exclusive or, and `Run`: a Go call returns a
-- value, returns an error or panics. Integers are unbounded where Go has an `int` of 64 bits for a
-- length; the words of the encodings wrap. Memory that Go overwrites in place is returned anew.
--
-- Not modelled: the KEM variant of core/sphinx, the clearing of secrets, the sessions of the network
-- (core/wire/session.go, quic), the rest of the servers (server, authority, courier, replica), the
-- client daemon (client), configuration and command lines (cmd).
pub mod Prelude
pub mod Sphinx
pub mod Pigeonhole
pub mod Courier
pub mod Replica
pub mod Wire
pub mod Server
