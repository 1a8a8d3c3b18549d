-- ===== src/Wire/Id.antt =====
-- The command identifiers of core/wire/commands/constants.go, and the bytes that stand for them.
use katzenpost_wt.Prelude.{ℕ, ◌≡◌, refl, Option, none, some, List, [], ◌∷◌, ◌==◌, if◌then◌else◌}

pub data CommandId : Type 0 where
  no_op disconnect send_packet send_retrieve_packet send_retrieve_packet_reply : CommandId
  replica_message replica_message_reply post_replica_descriptor_status : CommandId
  post_replica_descriptor replica_write replica_write_reply retrieve_message message : CommandId
  get_consensus consensus post_descriptor post_descriptor_status vote vote_status : CommandId
  get_vote reveal reveal_status sig sig_status certificate cert_status consensus2 : CommandId
  get_consensus2 replica_decoy : CommandId

unfoldable pub byte : CommandId → ℕ
byte no_op = 0
byte disconnect = 1
byte send_packet = 2
byte send_retrieve_packet = 3
byte send_retrieve_packet_reply = 4
byte replica_message = 8
byte replica_message_reply = 9
byte post_replica_descriptor_status = 10
byte post_replica_descriptor = 11
byte replica_write = 12
byte replica_write_reply = 13
byte retrieve_message = 16
byte message = 17
byte get_consensus = 18
byte consensus = 19
byte post_descriptor = 20
byte post_descriptor_status = 21
byte vote = 22
byte vote_status = 23
byte get_vote = 24
byte reveal = 25
byte reveal_status = 26
byte sig = 27
byte sig_status = 28
byte certificate = 29
byte cert_status = 30
byte consensus2 = 31
byte get_consensus2 = 32
byte replica_decoy = 33

abbrev command_ids : List CommandId
command_ids =
    no_op ∷ disconnect ∷ send_packet ∷ send_retrieve_packet ∷ send_retrieve_packet_reply
    ∷ replica_message ∷ replica_message_reply ∷ post_replica_descriptor_status
    ∷ post_replica_descriptor ∷ replica_write ∷ replica_write_reply ∷ retrieve_message ∷ message
    ∷ get_consensus ∷ consensus ∷ post_descriptor ∷ post_descriptor_status ∷ vote ∷ vote_status
    ∷ get_vote ∷ reveal ∷ reveal_status ∷ sig ∷ sig_status ∷ certificate ∷ cert_status ∷ consensus2
    ∷ get_consensus2 ∷ replica_decoy ∷ []

-- The first of the identifiers that has the byte `n`.
find_byte : ℕ → List CommandId → Option CommandId
unfolding byte
find_byte n [] = none
find_byte n (i ∷ rest) = if byte i == n then some i else find_byte n rest

-- The `case` that a `switch commandID(id)` takes, `none` for its `default`.
unfoldable pub command_id : ℕ → Option CommandId
unfolding find_byte
command_id n = find_byte n command_ids

pub command_id-byte : (i : CommandId) → command_id (byte i) ≡ some i
unfolding command_id byte
command_id-byte no_op = refl
command_id-byte disconnect = refl
command_id-byte send_packet = refl
command_id-byte send_retrieve_packet = refl
command_id-byte send_retrieve_packet_reply = refl
command_id-byte replica_message = refl
command_id-byte replica_message_reply = refl
command_id-byte post_replica_descriptor_status = refl
command_id-byte post_replica_descriptor = refl
command_id-byte replica_write = refl
command_id-byte replica_write_reply = refl
command_id-byte retrieve_message = refl
command_id-byte message = refl
command_id-byte get_consensus = refl
command_id-byte consensus = refl
command_id-byte post_descriptor = refl
command_id-byte post_descriptor_status = refl
command_id-byte vote = refl
command_id-byte vote_status = refl
command_id-byte get_vote = refl
command_id-byte reveal = refl
command_id-byte reveal_status = refl
command_id-byte sig = refl
command_id-byte sig_status = refl
command_id-byte certificate = refl
command_id-byte cert_status = refl
command_id-byte consensus2 = refl
command_id-byte get_consensus2 = refl
command_id-byte replica_decoy = refl
