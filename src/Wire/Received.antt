-- ===== src/Wire/Received.antt =====
-- What the decoder makes of a command, and when a command may be encoded.
use katzenpost_wt.Prelude.{ℕ, ◌+◌, ◌<◌, ◌≤◌, ◌^◌, ◌≡◌, false, List, Option, some, length}
use katzenpost_wt.Sphinx.Geometry.{Geometry, surb_id_length}
use katzenpost_wt.Wire.Command.{Command, Commands, Hpqc, SignScheme}

-- The encoding of `GetConsensus` says nothing of its `MixnetTransmission`.
unfoldable pub received : {Key : Type 0} → Command Key → Command Key
received (Command.get_consensus epoch mixnet_transmission) = Command.get_consensus epoch false
received cmd = cmd

module _ {Key : Type 0} (hpqc : Hpqc Key) (c : Commands Key) where
  -- The connection's scheme is that of the key, and reads what the key's encoder writes.
  pub record IsKey (key : Key) : Type 0 where
    pub scheme : SignScheme Key
    pub blob : List ℕ
    pub configured : c.pki_signature_scheme ≡ some scheme
    pub size : hpqc.key_size key ≡ scheme.public_key_size
    pub marshalled : hpqc.marshal key ≡ some blob
    pub blob_size : length blob ≡ scheme.public_key_size
    pub unmarshalled : scheme.unmarshal blob ≡ some key

  -- The connection has a geometry, which gives the payload its length.
  pub HasGeometry : (Geometry → ℕ) → List ℕ → Type 0
  HasGeometry payload_length payload =
      (g : Geometry) × (c.geo ≡ some g) × (length payload ≡ payload_length g)

  pub HasArray : Option (List ℕ) → ℕ → Type 0
  HasArray array n = (xs : List ℕ) × (array ≡ some xs) × (length xs ≡ n)

  -- The sizes that the Go types give the fields, and what the settings ask of the command.
  unfoldable pub Fits : Command Key → Type 0
  unfolding HasGeometry HasArray
  Fits (Command.send_retrieve_packet packet) = HasGeometry (λ g. g.packet_length) packet
  Fits (Command.send_retrieve_packet_reply surb_id payload) = length surb_id ≡ surb_id_length
  Fits (Command.retrieve_message sequence) = sequence < 2 ^ 32
  Fits (Command.message hint sequence payload) =
      (sequence < 2 ^ 32) × HasGeometry (λ g. g.user_forward_payload_length) payload
  Fits (Command.message_ack hint sequence id payload) =
      (sequence < 2 ^ 32)
      × (length id ≡ surb_id_length)
      × HasGeometry (λ g. g.payload_tag_length + g.forward_payload_length) payload
  Fits (Command.message_empty sequence) = (sequence < 2 ^ 32) × ((g : Geometry) × (c.geo ≡ some g))
  Fits (Command.get_consensus epoch mixnet_transmission) = epoch < 2 ^ 64
  Fits (Command.get_consensus2 epoch) = epoch < 2 ^ 64
  Fits (Command.consensus2 code chunk_num chunk_total payload) =
      (chunk_num < 2 ^ 32) × (chunk_total < 2 ^ 32)
  Fits (Command.post_descriptor epoch payload) = epoch < 2 ^ 64
  Fits (Command.post_replica_descriptor epoch payload) = epoch < 2 ^ 64
  Fits (Command.get_vote epoch key) = (epoch < 2 ^ 64) × IsKey key
  Fits (Command.reveal epoch key payload) = (epoch < 2 ^ 64) × IsKey key
  Fits (Command.vote epoch key payload) = (epoch < 2 ^ 64) × IsKey key
  Fits (Command.cert epoch key payload) = (epoch < 2 ^ 64) × IsKey key
  Fits (Command.sig epoch key payload) = (epoch < 2 ^ 64) × IsKey key
  Fits (Command.replica_message sender dek ciphertext) =
      (c.replica_nike_scheme ≡ some (length sender))
      × HasArray dek hpqc.sizes.dek_size
      × (4 ≤ length ciphertext)
  Fits (Command.replica_message_reply code envelope_hash replica_id reply) =
      HasArray envelope_hash 32
  Fits (Command.replica_write box_id signature payload) =
      HasArray box_id hpqc.sizes.box_id_size
      × HasArray signature hpqc.sizes.signature_size
      × (0 < hpqc.sizes.box_id_size)
  Fits _ = Unit {0}
