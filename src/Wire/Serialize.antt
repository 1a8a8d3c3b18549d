-- ===== src/Wire/Serialize.antt =====
-- The `ToBytes` methods of core/wire/commands, with the traffic padding.
use katzenpost_wt.Prelude.{
  ℕ, ◌+◌, ◌-◌, Bool, List, [], ◌∷◌, ◌++◌, Option, none, some, Run, ok, or_panic, ◌>>=◌, length,
  replicate, leb, ◌==◌, if◌then◌else◌,
}
use katzenpost_wt.Prelude.Bytes.{put_u32, copy_array}
use katzenpost_wt.Pigeonhole.Wire.{put_u64}
use katzenpost_wt.Sphinx.Geometry.{Geometry, surb_id_length}
use katzenpost_wt.Wire.Id.{CommandId, byte}
use katzenpost_wt.Wire.Command.{Commands, Hpqc, WireError}

abbrev pub cmd_overhead : ℕ
cmd_overhead = 1 + 1 + 4

abbrev pub message_base_length : ℕ
message_base_length = 1 + 1 + 4

module _ {Key : Type 0} where
  unfoldable pub pad_to_max_command_size : Commands Key → List ℕ → Bool → List ℕ
  pad_to_max_command_size c bytes is_upstream =
      let max_message_len =
        if is_upstream
        then c.max_message_len_client_to_server
        else c.max_message_len_server_to_client in
      if max_message_len == 0
      then bytes
      else (if leb max_message_len (length bytes)
          then bytes
          else bytes ++ replicate (max_message_len - length bytes) 0)

  -- The commands that are padded only where `Cmds` is set.
  unfoldable pub if_padded : Option (Commands Key) → List ℕ → Bool → List ℕ
  unfolding pad_to_max_command_size
  if_padded none out is_upstream = out
  if_padded (some c) out is_upstream = pad_to_max_command_size c out is_upstream

-- The six bytes that every `ToBytes` begins with.
unfoldable pub header : CommandId → ℕ → List ℕ
header id n = byte id ∷ 0 ∷ put_u32 n

unfoldable pub message_msg_padding_length : Geometry → ℕ
message_msg_padding_length g =
    surb_id_length + g.sphinx_plaintext_header_length + g.surb_length + g.payload_tag_length

unfoldable pub message_msg_length : Geometry → ℕ
message_msg_length g = message_base_length + message_msg_padding_length g

abbrev pub message_ack_length : ℕ
message_ack_length = message_base_length + surb_id_length

unfoldable pub message_empty_length : Geometry → ℕ
message_empty_length g = message_ack_length + g.payload_tag_length + g.forward_payload_length

-- A command with an error code only.
unfoldable pub status_to_bytes : CommandId → ℕ → List ℕ
status_to_bytes id code = header id 1 ++ (code ∷ [])

-- An epoch and a payload.
unfoldable pub post_to_bytes : CommandId → ℕ → List ℕ → List ℕ
post_to_bytes id epoch payload = header id (8 + length payload) ++ (put_u64 epoch ++ payload)

unfoldable pub consensus_to_bytes : ℕ → List ℕ → List ℕ
consensus_to_bytes code payload =
    header CommandId.consensus (1 + length payload) ++ (code ∷ payload)

module _ {Key : Type 0} (hpqc : Hpqc Key) where
  -- `voteOverhead`, `revealOverhead`, `certOverhead` and `sigOverhead` of the scheme of a key.
  unfoldable pub key_overhead : Key → ℕ
  key_overhead key = 8 + hpqc.key_size key

  -- `append(out, blob...)` after the epoch, in `Vote`, `Cert` and `Sig`, and in `GetVote` with no
  -- payload.
  unfoldable pub signed_to_bytes : CommandId → ℕ → Key → List ℕ → Run WireError (List ℕ)
  unfolding key_overhead
  signed_to_bytes id epoch key payload = do
    blob ← or_panic (hpqc.marshal key)
    ok (header id (key_overhead key + length payload) ++ (put_u64 epoch ++ (blob ++ payload)))

  -- `Reveal` copies the key into a field of the size that its scheme gives.
  unfoldable pub reveal_to_bytes : ℕ → Key → List ℕ → Run WireError (List ℕ)
  unfolding key_overhead
  reveal_to_bytes epoch key payload = do
    blob ← or_panic (hpqc.marshal key)
    ok (
        header CommandId.reveal (key_overhead key + length payload)
        ++ (put_u64 epoch ++ (copy_array (hpqc.key_size key) blob ++ payload)))
