-- ===== src/Wire/Body.antt =====
-- The parsers of the single commands of core/wire/commands: each reads the body of a command. The
-- indices and slices of a parser panic where the body ends before the last of them, whatever its
-- check of the length lets through; the bounds of the two that read on are their own.
use katzenpost_wt.Prelude.{
  ℕ, ◌+◌, ◌-◌, ◌*◌, ◌^◌, not, List, ◌++◌, Option, some, Run, ok, err, or_panic, or_fail, refuse_if,
  panic_unless, ◌>>=◌, ◌>>◌, length, take, drop, get_or, ltb, leb, ◌==◌, if◌then◌else◌,
}
use katzenpost_wt.Prelude.Bytes.{get_u32, copy_array, ct_is_zero}
use katzenpost_wt.Sphinx.Geometry.{Geometry, surb_id_length}
use katzenpost_wt.Wire.Command.{
  Command, Hpqc, SignScheme, WireError, invalid_command, message_too_short, bad_key,
}
use katzenpost_wt.Wire.Serialize.{
  message_base_length, message_msg_padding_length, message_empty_length,
}

-- `binary.BigEndian.Uint64`
unfoldable pub get_u64 : List ℕ → ℕ
get_u64 b = get_u32 b * 2 ^ 32 + get_u32 (drop 4 b)

module _ {Key : Type 0} where
  -- The parsers of the commands with an error code only.
  unfoldable pub status_from_bytes :
      (ℕ → Command Key) → WireError → List ℕ → Run WireError (Command Key)
  status_from_bytes status fault b = do
    refuse_if (not (length b == 1)) fault
    panic_unless (leb 1 (length b))
    ok (status (get_or b 0 0))

  -- `postDescriptorFromBytes` and `postReplicaDescriptorFromBytes`
  unfoldable pub post_from_bytes : (ℕ → List ℕ → Command Key) → List ℕ → Run WireError (Command Key)
  unfolding get_u64
  post_from_bytes post b = do
    refuse_if (ltb (length b) 8) invalid_command
    panic_unless (leb 8 (length b))
    ok (post (get_u64 b) (drop 8 b))

  -- `getConsensusFromBytes` and `getConsensus2FromBytes`
  unfoldable pub epoch_from_bytes : (ℕ → Command Key) → List ℕ → Run WireError (Command Key)
  unfolding get_u64
  epoch_from_bytes command b = do
    refuse_if (not (length b == 8)) invalid_command
    panic_unless (leb 8 (length b))
    ok (command (get_u64 b))

  unfoldable pub consensus_from_bytes : List ℕ → Run WireError (Command Key)
  consensus_from_bytes b = do
    refuse_if (ltb (length b) 1) invalid_command
    panic_unless (leb 1 (length b))
    ok (Command.consensus (get_or b 0 0) (drop 1 b))

  -- The bounds of `b[1:5]` and `b[5:9]` are those of the capacity, so that a short `b` reads on in
  -- what follows it in the buffer.
  unfoldable pub consensus2_from_bytes : List ℕ → List ℕ → Run WireError (Command Key)
  consensus2_from_bytes b spare = do
    refuse_if (ltb (length b) 1) invalid_command
    panic_unless (leb 9 (length (b ++ spare)))
    ok (
        Command.consensus2 (get_or b 0 0) (get_u32 (drop 1 (b ++ spare)))
          (get_u32 (drop 5 (b ++ spare))) (drop 9 b))

  unfoldable pub send_retrieve_packet_reply_from_bytes :
      List ℕ → List ℕ → Run WireError (Command Key)
  send_retrieve_packet_reply_from_bytes b spare = do
    panic_unless (leb surb_id_length (length (b ++ spare)))
    panic_unless (leb surb_id_length (length b))
    ok (
        Command.send_retrieve_packet_reply
          (copy_array surb_id_length (take surb_id_length (b ++ spare))) (drop surb_id_length b))

  unfoldable pub retrieve_message_from_bytes : List ℕ → Run WireError (Command Key)
  retrieve_message_from_bytes b = do
    refuse_if (not (length b == 4)) invalid_command
    panic_unless (leb 4 (length b))
    ok (Command.retrieve_message (get_u32 b))

  -- `voteFromBytes`, `certFromBytes`, `sigFromBytes` and `revealFromBytes`
  unfoldable pub signed_from_bytes :
      Option (SignScheme Key)
      → (ℕ → Key → List ℕ → Command Key)
      → WireError
      → List ℕ
      → Run WireError (Command Key)
  unfolding get_u64
  signed_from_bytes scheme signed fault b = do
    s ← or_panic scheme
    refuse_if (ltb (length b) (8 + s.public_key_size)) fault
    panic_unless (leb (8 + s.public_key_size) (length b))
    key ← or_fail (s.unmarshal (take s.public_key_size (drop 8 b))) bad_key
    ok (signed (get_u64 b) key (drop (8 + s.public_key_size) b))

  unfoldable pub get_vote_from_bytes :
      Option (SignScheme Key) → List ℕ → Run WireError (Command Key)
  unfolding get_u64
  get_vote_from_bytes scheme b = do
    s ← or_panic scheme
    refuse_if (not (length b == 8 + s.public_key_size)) invalid_command
    panic_unless (leb (8 + s.public_key_size) (length b))
    key ← or_fail (s.unmarshal (take s.public_key_size (drop 8 b))) bad_key
    ok (Command.get_vote (get_u64 b) key)

  unfoldable pub message_ack_from_bytes : Geometry → ℕ → ℕ → List ℕ → Run WireError (Command Key)
  message_ack_from_bytes g hint sequence b = do
    refuse_if (not (length b == surb_id_length + g.payload_tag_length + g.forward_payload_length))
        invalid_command
    panic_unless (leb surb_id_length (length b))
    ok (
        Command.message_ack hint sequence (copy_array surb_id_length (take surb_id_length b))
          (drop surb_id_length b))

  unfoldable pub message_message_from_bytes :
      Geometry → ℕ → ℕ → List ℕ → Run WireError (Command Key)
  message_message_from_bytes g hint sequence b = do
    refuse_if (not (length b == message_msg_padding_length g + g.user_forward_payload_length))
        invalid_command
    panic_unless (leb g.user_forward_payload_length (length b))
    refuse_if (not (ct_is_zero (drop g.user_forward_payload_length b))) invalid_command
    ok (Command.message hint sequence (take g.user_forward_payload_length b))

  unfoldable pub message_empty_from_bytes : Geometry → ℕ → List ℕ → Run WireError (Command Key)
  message_empty_from_bytes g sequence b = do
    refuse_if (not (length b == message_empty_length g - message_base_length)) invalid_command
    refuse_if (not (ct_is_zero b)) invalid_command
    ok (Command.message_empty sequence)

  -- The `switch t` of `messageFromBytes`; a case reads the geometry, which may be nil.
  unfoldable pub message_type_from_bytes :
      Option Geometry → ℕ → ℕ → ℕ → List ℕ → Run WireError (Command Key)
  unfolding message_ack_from_bytes message_message_from_bytes message_empty_from_bytes
      message_msg_padding_length message_empty_length
  message_type_from_bytes geo t hint sequence b =
      if t == 1
      then (or_panic geo >>= λ g. message_ack_from_bytes g hint sequence b)
      else (if t == 0
          then (or_panic geo >>= λ g. message_message_from_bytes g hint sequence b)
          else (if t == 2
              then (or_panic geo >>= λ g. message_empty_from_bytes g sequence b)
              else err invalid_command))

  unfoldable pub message_from_bytes : Option Geometry → List ℕ → Run WireError (Command Key)
  unfolding message_type_from_bytes
  message_from_bytes geo b = do
    refuse_if (ltb (length b) message_base_length) invalid_command
    panic_unless (leb message_base_length (length b))
    message_type_from_bytes geo (get_or b 0 0) (get_or b 1 0) (get_u32 (drop 2 b))
        (drop message_base_length b)

  unfoldable pub replica_message_reply_from_bytes : List ℕ → Run WireError (Command Key)
  replica_message_reply_from_bytes b = do
    refuse_if (ltb (length b) (1 + 32 + 1)) invalid_command
    panic_unless (leb (1 + 32 + 1) (length b))
    ok (
        Command.replica_message_reply (get_or b 0 0) (some (copy_array 32 (take 32 (drop 1 b))))
          (get_or b 33 0) (drop 34 b))

module _ {Key : Type 0} (hpqc : Hpqc Key) where
  unfoldable pub replica_write_from_bytes : List ℕ → Run WireError (Command Key)
  replica_write_from_bytes b = do
    refuse_if (ltb (length b) (hpqc.sizes.box_id_size + hpqc.sizes.signature_size)) invalid_command
    panic_unless (leb (hpqc.sizes.box_id_size + hpqc.sizes.signature_size) (length b))
    ok (
        Command.replica_write
          (some (copy_array hpqc.sizes.box_id_size (take hpqc.sizes.box_id_size b)))
          (some (
            copy_array hpqc.sizes.signature_size
              (take hpqc.sizes.signature_size (drop hpqc.sizes.box_id_size b))))
          (drop (hpqc.sizes.box_id_size + hpqc.sizes.signature_size) b))

  unfoldable pub replica_message_from_bytes : Option ℕ → List ℕ → Run WireError (Command Key)
  replica_message_from_bytes scheme b = do
    hk_size ← or_panic scheme
    refuse_if (ltb (length b) (hk_size + hpqc.sizes.dek_size + 4)) message_too_short
    panic_unless (leb (hk_size + hpqc.sizes.dek_size) (length b))
    ok (
        Command.replica_message (copy_array hk_size (take hk_size b))
          (some (copy_array hpqc.sizes.dek_size (take hpqc.sizes.dek_size (drop hk_size b))))
          (drop (hk_size + hpqc.sizes.dek_size) b))
