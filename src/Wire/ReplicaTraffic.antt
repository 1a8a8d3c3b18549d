-- ===== src/Wire/ReplicaTraffic.antt =====
-- The traffic padding between couriers and storage replicas, of
-- core/wire/commands/storage_replica_commands.go.
use Prim.Native.String.{String}
use katzenpost_wt.Prelude.{ℕ, ◌+◌, ◌≤◌, ◌≡◌, List, Option, some, length}
use katzenpost_wt.Sphinx.Geometry.{Geometry, Scheme}
use katzenpost_wt.Pigeonhole.Geometry.{
  PigeonholeGeometry, box_ciphertext_length, envelope_ciphertext_size_write,
  envelope_reply_size_read, Sizes,
}
use katzenpost_wt.Wire.Command.{Command, Commands, Hpqc}

-- What couriers and replicas send to each other: no part is longer than the Pigeonhole geometry says.
pub data IsTraffic {Key : Type 0} (sizes : Sizes) (p : PigeonholeGeometry) (scheme : Scheme)
    : Command Key → Type 0 where
  no_op : IsTraffic sizes p scheme Command.no_op
  disconnect : IsTraffic sizes p scheme Command.disconnect
  replica_decoy : IsTraffic sizes p scheme Command.replica_decoy
  replica_message :
      (sender dek ciphertext : List ℕ)
      → length sender ≡ scheme.size
      → length dek ≡ sizes.dek_size
      → length ciphertext ≤ envelope_ciphertext_size_write sizes p
      → IsTraffic sizes p scheme (Command.replica_message sender (some dek) ciphertext)
  replica_message_reply :
      (code : ℕ) (hash : List ℕ) (replica_id : ℕ) (reply : List ℕ)
      → length hash ≡ 32
      → length reply ≤ envelope_reply_size_read sizes p
      → IsTraffic sizes p scheme (Command.replica_message_reply code (some hash) replica_id reply)
  replica_write :
      (box signed payload : List ℕ)
      → length box ≡ sizes.box_id_size
      → length signed ≡ sizes.signature_size
      → length payload ≤ box_ciphertext_length p
      → IsTraffic sizes p scheme (Command.replica_write (some box) (some signed) payload)
  replica_write_reply : (code : ℕ) → IsTraffic sizes p scheme (Command.replica_write_reply code)

module _ {Key : Type 0} (hpqc : Hpqc Key) (by_name : String → Option Scheme) (g : Geometry)
    (scheme : Scheme) (p : PigeonholeGeometry) where
  record ReplicaLimits (c : Commands Key) : Type 0 where
    same : c.max_message_len_server_to_client ≡ c.max_message_len_client_to_server
    small : 7 ≤ c.max_message_len_client_to_server
    envelope :
        6 + hpqc.sizes.dek_size + scheme.size + envelope_ciphertext_size_write hpqc.sizes p
        ≤ c.max_message_len_client_to_server
    reply : 40 + envelope_reply_size_read hpqc.sizes p ≤ c.max_message_len_client_to_server
    write :
        6 + hpqc.sizes.box_id_size + hpqc.sizes.signature_size + box_ciphertext_length p
        ≤ c.max_message_len_client_to_server
