-- ===== src/Wire/Encode.antt =====
-- The `ToBytes` methods of core/wire/commands, over the settings of the connection.
use katzenpost_wt.Prelude.{
  ℕ, ◌+◌, ◌-◌, Bool, true, false, List, [], ◌∷◌, ◌++◌, Option, Run, ok, or_panic, ◌>>=◌, ◌>>◌,
  panic_unless, length, replicate, ◌==◌, if◌then◌else◌,
}
use katzenpost_wt.Prelude.Bytes.{put_u32, copy_array}
use katzenpost_wt.Pigeonhole.Wire.{put_u64}
use katzenpost_wt.Sphinx.Geometry.{surb_id_length}
use katzenpost_wt.Wire.Id.{CommandId}
use katzenpost_wt.Wire.Command.{Command, Commands, Hpqc, WireError}
use katzenpost_wt.Wire.Serialize.{
  message_base_length, message_ack_length, pad_to_max_command_size, if_padded, header,
  message_msg_padding_length, message_msg_length, message_empty_length, signed_to_bytes,
  reveal_to_bytes, status_to_bytes, post_to_bytes, consensus_to_bytes,
}

-- Each method is given its `Cmds`; the command carries the rest.
module _ {Key : Type 0} where
  unfoldable pub no_op_to_bytes : Option (Commands Key) → Run WireError (List ℕ)
  unfolding header pad_to_max_command_size
  no_op_to_bytes cmds = do
    c ← or_panic cmds
    ok (pad_to_max_command_size c (header CommandId.no_op 0) true)

  unfoldable pub disconnect_to_bytes : Option (Commands Key) → Run WireError (List ℕ)
  unfolding header pad_to_max_command_size
  disconnect_to_bytes cmds = do
    c ← or_panic cmds
    ok (pad_to_max_command_size c (header CommandId.disconnect 0) true)

  unfoldable pub replica_decoy_to_bytes : Option (Commands Key) → Run WireError (List ℕ)
  unfolding header if_padded
  replica_decoy_to_bytes cmds = ok (if_padded cmds (header CommandId.replica_decoy 0) true)

  unfoldable pub send_packet_to_bytes : Option (Commands Key) → List ℕ → Run WireError (List ℕ)
  unfolding header pad_to_max_command_size
  send_packet_to_bytes cmds packet = do
    c ← or_panic cmds
    ok (pad_to_max_command_size c (header CommandId.send_packet (length packet) ++ packet) true)

  unfoldable pub send_retrieve_packet_to_bytes :
      Option (Commands Key) → List ℕ → Run WireError (List ℕ)
  unfolding header pad_to_max_command_size
  send_retrieve_packet_to_bytes cmds packet = do
    c ← or_panic cmds
    g ← or_panic c.geo
    panic_unless (length packet == g.packet_length)
    ok (
        pad_to_max_command_size c (header CommandId.send_retrieve_packet (length packet) ++ packet)
          true)

  unfoldable pub send_retrieve_packet_reply_to_bytes :
      Option (Commands Key) → List ℕ → List ℕ → Run WireError (List ℕ)
  unfolding header pad_to_max_command_size
  send_retrieve_packet_reply_to_bytes cmds surb_id payload = do
    c ← or_panic cmds
    ok (
        pad_to_max_command_size c
          (header CommandId.send_retrieve_packet_reply (surb_id_length + length payload)
            ++ (copy_array surb_id_length surb_id ++ payload))
          false)

  unfoldable pub retrieve_message_to_bytes : Option (Commands Key) → ℕ → Run WireError (List ℕ)
  unfolding header pad_to_max_command_size
  retrieve_message_to_bytes cmds sequence = do
    c ← or_panic cmds
    ok (pad_to_max_command_size c (header CommandId.retrieve_message 4 ++ put_u32 sequence) true)

  unfoldable pub message_to_bytes : Option (Commands Key) → ℕ → ℕ → List ℕ → Run WireError (List ℕ)
  unfolding header message_msg_length message_msg_padding_length pad_to_max_command_size
  message_to_bytes cmds hint sequence payload = do
    c ← or_panic cmds
    g ← or_panic c.geo
    panic_unless (length payload == g.user_forward_payload_length)
    ok (
        pad_to_max_command_size c
          (header CommandId.message (message_msg_length g + length payload)
            ++ (0
                ∷ hint
                ∷ (put_u32 sequence ++ (payload ++ replicate (message_msg_padding_length g) 0))))
          false)

  unfoldable pub message_ack_to_bytes :
      Option (Commands Key) → ℕ → ℕ → List ℕ → List ℕ → Run WireError (List ℕ)
  unfolding header pad_to_max_command_size
  message_ack_to_bytes cmds hint sequence id payload = do
    c ← or_panic cmds
    g ← or_panic c.geo
    panic_unless (length payload == g.payload_tag_length + g.forward_payload_length)
    ok (
        pad_to_max_command_size c
          (header CommandId.message (message_ack_length + length payload)
            ++ (1 ∷ hint ∷ (put_u32 sequence ++ (copy_array surb_id_length id ++ payload))))
          false)

  unfoldable pub message_empty_to_bytes : Option (Commands Key) → ℕ → Run WireError (List ℕ)
  unfolding header message_empty_length pad_to_max_command_size
  message_empty_to_bytes cmds sequence = do
    c ← or_panic cmds
    g ← or_panic c.geo
    ok (
        pad_to_max_command_size c
          (header CommandId.message (message_empty_length g)
            ++ (2
                ∷ 0
                ∷ (put_u32 sequence ++ replicate (message_empty_length g - message_base_length) 0)))
          false)

  unfoldable pub get_consensus_to_bytes : Option (Commands Key) → ℕ → Bool → Run WireError (List ℕ)
  unfolding header pad_to_max_command_size
  get_consensus_to_bytes cmds epoch mixnet_transmission =
      let out = header CommandId.get_consensus 8 ++ put_u64 epoch in
      if mixnet_transmission
      then (or_panic cmds >>= λ c. ok (pad_to_max_command_size c out true))
      else ok out

  unfoldable pub get_consensus2_to_bytes : Option (Commands Key) → ℕ → Run WireError (List ℕ)
  unfolding header pad_to_max_command_size
  get_consensus2_to_bytes cmds epoch = do
    c ← or_panic cmds
    ok (pad_to_max_command_size c (header CommandId.get_consensus2 8 ++ put_u64 epoch) true)

  unfoldable pub consensus2_to_bytes :
      Option (Commands Key) → ℕ → ℕ → ℕ → List ℕ → Run WireError (List ℕ)
  unfolding header pad_to_max_command_size
  consensus2_to_bytes cmds code chunk_num chunk_total payload = do
    c ← or_panic cmds
    ok (
        pad_to_max_command_size c
          (header CommandId.consensus2 (9 + length payload)
            ++ (code ∷ (put_u32 chunk_num ++ (put_u32 chunk_total ++ payload))))
          false)

  unfoldable pub replica_message_reply_to_bytes :
      Option (Commands Key) → ℕ → Option (List ℕ) → ℕ → List ℕ → Run WireError (List ℕ)
  unfolding header if_padded
  replica_message_reply_to_bytes cmds code envelope_hash replica_id reply = do
    hash ← or_panic envelope_hash
    ok (
        if_padded cmds
          (header CommandId.replica_message_reply (1 + 32 + 1 + length reply)
            ++ (code ∷ (hash ++ (replica_id ∷ reply))))
          false)

  unfoldable pub replica_write_reply_to_bytes : Option (Commands Key) → ℕ → Run WireError (List ℕ)
  unfolding header if_padded
  replica_write_reply_to_bytes cmds code =
      ok (if_padded cmds (header CommandId.replica_write_reply 1 ++ (code ∷ [])) true)

module _ {Key : Type 0} (hpqc : Hpqc Key) where
  unfoldable pub replica_message_to_bytes :
      Option (Commands Key) → List ℕ → Option (List ℕ) → List ℕ → Run WireError (List ℕ)
  unfolding header pad_to_max_command_size
  replica_message_to_bytes cmds sender dek ciphertext = do
    key ← or_panic dek
    c ← or_panic cmds
    ok (
        pad_to_max_command_size c
          (header CommandId.replica_message
              (length sender + hpqc.sizes.dek_size + length ciphertext)
            ++ (sender ++ (key ++ ciphertext)))
          true)

  unfoldable pub replica_write_to_bytes :
      Option (Commands Key) → Option (List ℕ) → Option (List ℕ) → List ℕ → Run WireError (List ℕ)
  unfolding header if_padded
  replica_write_to_bytes cmds box_id signature payload = do
    box ← or_panic box_id
    signed ← or_panic signature
    ok (
        if_padded cmds
          (header CommandId.replica_write
              (hpqc.sizes.box_id_size + hpqc.sizes.signature_size + length payload)
            ++ (box ++ (signed ++ payload)))
          true)

  -- `ToBytes`, with no settings where `Cmds` is nil: the methods that pad whatever it is then
  -- dereference nil, as those that read the geometry do.
  unfoldable pub to_bytes : Option (Commands Key) → Command Key → Run WireError (List ℕ)
  unfolding signed_to_bytes reveal_to_bytes status_to_bytes post_to_bytes consensus_to_bytes
      no_op_to_bytes disconnect_to_bytes replica_decoy_to_bytes send_packet_to_bytes
      send_retrieve_packet_to_bytes send_retrieve_packet_reply_to_bytes retrieve_message_to_bytes
      message_to_bytes message_ack_to_bytes message_empty_to_bytes get_consensus_to_bytes
      get_consensus2_to_bytes consensus2_to_bytes replica_message_to_bytes
      replica_message_reply_to_bytes replica_write_to_bytes replica_write_reply_to_bytes
  to_bytes cmds Command.no_op = no_op_to_bytes cmds
  to_bytes cmds Command.disconnect = disconnect_to_bytes cmds
  to_bytes cmds Command.replica_decoy = replica_decoy_to_bytes cmds
  to_bytes cmds (Command.send_packet packet) = send_packet_to_bytes cmds packet
  to_bytes cmds (Command.send_retrieve_packet packet) = send_retrieve_packet_to_bytes cmds packet
  to_bytes cmds (Command.send_retrieve_packet_reply surb_id payload) =
      send_retrieve_packet_reply_to_bytes cmds surb_id payload
  to_bytes cmds (Command.retrieve_message sequence) = retrieve_message_to_bytes cmds sequence
  to_bytes cmds (Command.message hint sequence payload) =
      message_to_bytes cmds hint sequence payload
  to_bytes cmds (Command.message_ack hint sequence id payload) =
      message_ack_to_bytes cmds hint sequence id payload
  to_bytes cmds (Command.message_empty sequence) = message_empty_to_bytes cmds sequence
  to_bytes cmds (Command.get_consensus epoch mixnet_transmission) =
      get_consensus_to_bytes cmds epoch mixnet_transmission
  to_bytes cmds (Command.get_consensus2 epoch) = get_consensus2_to_bytes cmds epoch
  to_bytes cmds (Command.consensus code payload) = ok (consensus_to_bytes code payload)
  to_bytes cmds (Command.consensus2 code chunk_num chunk_total payload) =
      consensus2_to_bytes cmds code chunk_num chunk_total payload
  to_bytes cmds (Command.post_descriptor epoch payload) =
      ok (post_to_bytes CommandId.post_descriptor epoch payload)
  to_bytes cmds (Command.post_descriptor_status code) =
      ok (status_to_bytes CommandId.post_descriptor_status code)
  to_bytes cmds (Command.post_replica_descriptor epoch payload) =
      ok (post_to_bytes CommandId.post_replica_descriptor epoch payload)
  to_bytes cmds (Command.post_replica_descriptor_status code) =
      ok (status_to_bytes CommandId.post_replica_descriptor_status code)
  to_bytes cmds (Command.get_vote epoch key) = signed_to_bytes hpqc CommandId.get_vote epoch key []
  to_bytes cmds (Command.reveal epoch key payload) = reveal_to_bytes hpqc epoch key payload
  to_bytes cmds (Command.vote epoch key payload) =
      signed_to_bytes hpqc CommandId.vote epoch key payload
  to_bytes cmds (Command.cert epoch key payload) =
      signed_to_bytes hpqc CommandId.certificate epoch key payload
  to_bytes cmds (Command.sig epoch key payload) =
      signed_to_bytes hpqc CommandId.sig epoch key payload
  to_bytes cmds (Command.reveal_status code) = ok (status_to_bytes CommandId.reveal_status code)
  to_bytes cmds (Command.vote_status code) = ok (status_to_bytes CommandId.vote_status code)
  to_bytes cmds (Command.cert_status code) = ok (status_to_bytes CommandId.cert_status code)
  to_bytes cmds (Command.sig_status code) = ok (status_to_bytes CommandId.sig_status code)
  to_bytes cmds (Command.replica_message sender dek ciphertext) =
      replica_message_to_bytes cmds sender dek ciphertext
  to_bytes cmds (Command.replica_message_reply code envelope_hash replica_id reply) =
      replica_message_reply_to_bytes cmds code envelope_hash replica_id reply
  to_bytes cmds (Command.replica_write box_id signature payload) =
      replica_write_to_bytes cmds box_id signature payload
  to_bytes cmds (Command.replica_write_reply code) = replica_write_reply_to_bytes cmds code
