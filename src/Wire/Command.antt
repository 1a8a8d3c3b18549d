-- ===== src/Wire/Command.antt =====
-- The command structures and the `Commands` settings of core/wire/commands. The pointers `Cmds`
-- and `Geo` of a command are the settings that its serializer is called with. A byte array that
-- the source holds by pointer may be nil. Signature keys, the array sizes of bacap and mkem and
-- the key sizes of the schemes belong to the hpqc library.
use katzenpost_wt.Prelude.{ℕ, Bool, Option, List}
use katzenpost_wt.Sphinx.Geometry.{Geometry}
use katzenpost_wt.Pigeonhole.Geometry.{Sizes}

-- What the source takes from hpqc, whose public signature keys are `Key`.
pub record Hpqc (Key : Type 0) : Type 0 where
  pub sizes : Sizes
  -- `key.Scheme().PublicKeySize()` and `key.MarshalBinary()`
  pub key_size : Key → ℕ
  pub marshal : Key → Option (List ℕ)

-- A `sign.Scheme`.
pub record SignScheme (Key : Type 0) : Type 0 where
  pub public_key_size : ℕ
  pub unmarshal : List ℕ → Option Key

pub data Command (Key : Type 0) : Type 0 where
  no_op disconnect replica_decoy : Command Key
  send_packet : (sphinx_packet : List ℕ) → Command Key
  send_retrieve_packet : (sphinx_packet : List ℕ) → Command Key
  send_retrieve_packet_reply : (surb_id payload : List ℕ) → Command Key
  retrieve_message : (sequence : ℕ) → Command Key
  message : (queue_size_hint sequence : ℕ) (payload : List ℕ) → Command Key
  message_ack : (queue_size_hint sequence : ℕ) (id payload : List ℕ) → Command Key
  message_empty : (sequence : ℕ) → Command Key
  get_consensus : (epoch : ℕ) (mixnet_transmission : Bool) → Command Key
  get_consensus2 : (epoch : ℕ) → Command Key
  consensus : (error_code : ℕ) (payload : List ℕ) → Command Key
  consensus2 : (error_code chunk_num chunk_total : ℕ) (payload : List ℕ) → Command Key
  post_descriptor : (epoch : ℕ) (payload : List ℕ) → Command Key
  post_descriptor_status : (error_code : ℕ) → Command Key
  post_replica_descriptor : (epoch : ℕ) (payload : List ℕ) → Command Key
  post_replica_descriptor_status : (error_code : ℕ) → Command Key
  get_vote : (epoch : ℕ) (public_key : Key) → Command Key
  reveal : (epoch : ℕ) (public_key : Key) (payload : List ℕ) → Command Key
  vote : (epoch : ℕ) (public_key : Key) (payload : List ℕ) → Command Key
  cert : (epoch : ℕ) (public_key : Key) (payload : List ℕ) → Command Key
  sig : (epoch : ℕ) (public_key : Key) (payload : List ℕ) → Command Key
  reveal_status vote_status cert_status sig_status : (error_code : ℕ) → Command Key
  replica_message :
      (sender_epub_key : List ℕ) (dek : Option (List ℕ)) (ciphertext : List ℕ) → Command Key
  replica_message_reply :
      (error_code : ℕ) (envelope_hash : Option (List ℕ)) (replica_id : ℕ) (envelope_reply : List ℕ)
      → Command Key
  replica_write : (box_id signature : Option (List ℕ)) (payload : List ℕ) → Command Key
  replica_write_reply : (error_code : ℕ) → Command Key

-- `Commands`, with the `PublicKeySize()` of its NIKE scheme.
pub record Commands (Key : Type 0) : Type 0 where
  pub geo : Option Geometry
  pub pki_signature_scheme : Option (SignScheme Key)
  pub replica_nike_scheme : Option ℕ
  pub client_to_server_commands : List (Command Key)
  pub server_to_client_commands : List (Command Key)
  pub max_message_len_server_to_client : ℕ
  pub max_message_len_client_to_server : ℕ
  pub should_pad : Bool

-- `errInvalidCommand`, "message too short", " wtf: errInvalidCommand", and what a scheme says of a
-- key that it does not decode.
pub data WireError : Type 0 where
  invalid_command message_too_short bad_reveal bad_key : WireError
