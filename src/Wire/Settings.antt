-- ===== src/Wire/Settings.antt =====
-- The `Length` methods and the constructors of `Commands`, of core/wire/commands. The pointers
-- `Geo`, `Cmds` and `Scheme` of a command are those of the settings, and `PigeonholeGeometry` is
-- given.
use Prim.Native.String.{String}
use katzenpost_wt.Prelude.{
  ℕ, ◌+◌, true, false, List, [], ◌∷◌, Option, none, some, Run, ok, err, panic, or_panic, ◌>>=◌,
  length, replicate, ltb, if◌then◌else◌,
}
use katzenpost_wt.Sphinx.Geometry.{Geometry, Scheme, surb_id_length}
use katzenpost_wt.Pigeonhole.Geometry.{
  PigeonholeGeometry, new_geometry_from_sphinx, box_ciphertext_length,
  envelope_ciphertext_size_write, envelope_reply_size_read,
}
use katzenpost_wt.Wire.Command.{Command, Commands, Hpqc, WireError}
use katzenpost_wt.Wire.Serialize.{cmd_overhead}

module _ {Key : Type 0} (hpqc : Hpqc Key) where
  -- The lengths of the commands of mix nodes and clients, and zero for those of the authorities.
  unfoldable pub command_length :
      Commands Key → Option PigeonholeGeometry → Command Key → Run WireError ℕ
  command_length c p Command.no_op = ok cmd_overhead
  command_length c p Command.disconnect = ok cmd_overhead
  command_length c p Command.replica_decoy = ok cmd_overhead
  command_length c p (Command.send_packet packet) = do
    g ← or_panic c.geo
    ok (cmd_overhead + g.packet_length)
  command_length c p (Command.send_retrieve_packet packet) = do
    g ← or_panic c.geo
    ok (cmd_overhead + g.packet_length)
  command_length c p (Command.send_retrieve_packet_reply surb_id payload) = do
    g ← or_panic c.geo
    ok (cmd_overhead + surb_id_length + g.user_forward_payload_length)
  command_length c p (Command.retrieve_message sequence) = ok (cmd_overhead + 4)
  command_length c p (Command.message hint sequence payload) = do
    g ← or_panic c.geo
    ok (cmd_overhead + 1 + 4 + g.packet_length)
  command_length c p (Command.message_ack hint sequence id payload) = do
    g ← or_panic c.geo
    ok (cmd_overhead + 1 + 4 + surb_id_length + g.packet_length)
  command_length c p (Command.message_empty sequence) = do
    g ← or_panic c.geo
    ok (cmd_overhead + 4 + g.packet_length)
  command_length c p (Command.get_consensus epoch mixnet_transmission) = ok (cmd_overhead + 8)
  command_length c p (Command.get_consensus2 epoch) = ok (cmd_overhead + 8)
  command_length c p (Command.get_vote epoch key) = do
    scheme ← or_panic c.pki_signature_scheme
    ok (cmd_overhead + 8 + scheme.public_key_size)
  command_length c p (Command.replica_message sender dek ciphertext) = do
    pigeonhole ← or_panic p
    scheme ← or_panic c.replica_nike_scheme
    ok (
        cmd_overhead
        + hpqc.sizes.dek_size
        + scheme
        + envelope_ciphertext_size_write hpqc.sizes pigeonhole)
  command_length c p (Command.replica_message_reply code envelope_hash replica_id reply) = do
    pigeonhole ← or_panic p
    ok (cmd_overhead + 1 + 32 + 1 + envelope_reply_size_read hpqc.sizes pigeonhole)
  command_length c (some pigeonhole) (Command.replica_write box_id signature payload) = ok (
      cmd_overhead
      + hpqc.sizes.box_id_size
      + hpqc.sizes.signature_size
      + box_ciphertext_length pigeonhole)
  command_length c none (Command.replica_write box_id signature payload) =
      ok (cmd_overhead + hpqc.sizes.box_id_size + hpqc.sizes.signature_size + length payload)
  command_length c p (Command.replica_write_reply code) = ok (cmd_overhead + 1)
  command_length c p _ = ok 0

  -- The loop of `calcMaxMessageLenServerToClient` and of `calcMaxMessageLenClientToServer`.
  max_length : Commands Key → Option PigeonholeGeometry → ℕ → List (Command Key) → Run WireError ℕ
  unfolding command_length
  max_length c p m [] = ok m
  max_length c p m (cmd ∷ commands) = do
    n ← command_length c p cmd
    max_length c p (if ltb m n then n else m) commands

  -- Both maxima, over the lists of the settings.
  unfoldable pub with_max_lengths :
      Commands Key → Option PigeonholeGeometry → Run WireError (Commands Key)
  unfolding max_length
  with_max_lengths c p = do
    up ← max_length c p 0 c.client_to_server_commands
    down ← max_length c p 0 c.server_to_client_commands
    ok (record c { max_message_len_client_to_server = up; max_message_len_server_to_client = down })

  mixnet_start : Geometry → Commands Key
  mixnet_start g = record {
    geo = some g;
    pki_signature_scheme = none;
    replica_nike_scheme = none;
    client_to_server_commands =
        Command.no_op
        ∷ Command.send_packet []
        ∷ Command.disconnect
        ∷ Command.retrieve_message 0
        ∷ Command.get_consensus 0 false
        ∷ Command.get_consensus2 0
        ∷ Command.send_retrieve_packet []
        ∷ [];
    server_to_client_commands =
        Command.consensus 0 []
        ∷ Command.consensus2 0 0 0 []
        ∷ Command.message 0 0 []
        ∷ Command.message_ack 0 0 (replicate surb_id_length 0) []
        ∷ Command.message_empty 0
        ∷ Command.send_retrieve_packet_reply (replicate surb_id_length 0) []
        ∷ [];
    max_message_len_server_to_client = 0;
    max_message_len_client_to_server = 0;
    should_pad = true;
  }

  unfoldable pub new_mixnet_commands : Geometry → Run WireError (Commands Key)
  unfolding with_max_lengths mixnet_start
  new_mixnet_commands g = with_max_lengths (mixnet_start g) none

  storage_replica_commands : Geometry → Scheme → List (Command Key)
  storage_replica_commands g scheme =
      Command.replica_message (replicate scheme.size 0) (some (replicate hpqc.sizes.dek_size 0))
        (replicate g.packet_length 0)
      ∷ Command.replica_message_reply 0 none 0 []
      ∷ Command.replica_write none none []
      ∷ Command.replica_write_reply 0
      ∷ Command.replica_decoy
      ∷ Command.no_op
      ∷ Command.disconnect
      ∷ []

  unfoldable pub storage_replica_start : Geometry → Scheme → Commands Key
  unfolding storage_replica_commands
  storage_replica_start g scheme = record {
    geo = some g;
    pki_signature_scheme = none;
    replica_nike_scheme = some scheme.size;
    client_to_server_commands = storage_replica_commands g scheme;
    server_to_client_commands = storage_replica_commands g scheme;
    max_message_len_server_to_client = 0;
    max_message_len_client_to_server = 0;
    should_pad = true;
  }

  -- The Pigeonhole geometry of `NewStorageReplicaCommands`, whose error the constructor answers with
  -- a panic.
  unfoldable pub replica_geometry :
      (String → Option Scheme) → Geometry → Scheme → Option PigeonholeGeometry
  replica_geometry by_name g scheme = elim (new_geometry_from_sphinx hpqc.sizes by_name g scheme) [
    | ok pigeonhole ↦ some pigeonhole
    | err fault ↦ none
    | panic ↦ none
  ]

  unfoldable pub new_storage_replica_commands :
      (String → Option Scheme) → Geometry → Scheme → Run WireError (Commands Key)
  unfolding with_max_lengths storage_replica_start replica_geometry
  new_storage_replica_commands by_name g scheme = do
    pigeonhole ← or_panic (replica_geometry by_name g scheme)
    with_max_lengths (storage_replica_start g scheme) (some pigeonhole)

unfoldable pub max_command_size : {Key : Type 0} → Commands Key → ℕ
max_command_size c =
    if ltb c.max_message_len_client_to_server c.max_message_len_server_to_client
    then c.max_message_len_server_to_client
    else c.max_message_len_client_to_server
