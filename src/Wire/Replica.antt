-- ===== src/Wire/Replica.antt =====
-- The commands of couriers and storage replicas, as they are sent and read.
use katzenpost_wt.Prelude.{
  ℕ, ◌<◌, ◌≤◌, ◌≡◌, refl, true, false, List, [], ◌∷◌, ◌++◌, some, arith, length, length-append,
}
use katzenpost_wt.Prelude.Bytes.{put_u32}
use katzenpost_wt.Wire.Id.{CommandId}
use katzenpost_wt.Wire.Command.{Command, Commands, Hpqc}
use katzenpost_wt.Wire.Serialize.{if_padded}
use katzenpost_wt.Wire.Encode.{
  to_bytes, replica_decoy_to_bytes, replica_message_to_bytes, replica_message_reply_to_bytes,
  replica_write_to_bytes, replica_write_reply_to_bytes,
}
use katzenpost_wt.Wire.Body.{status_from_bytes}
use katzenpost_wt.Wire.Parse.{dispatch, parse, no_payload}
use katzenpost_wt.Wire.Received.{received}
use katzenpost_wt.Wire.Reading.{
  length-both, replica_message_reply_from_bytes-lem, replica_write_from_bytes-lem,
  replica_message_from_bytes-lem,
}
use katzenpost_wt.Wire.Sent.{IsSent, to_parse, sent_padded}

module _ {Key : Type 0} (hpqc : Hpqc Key) (c : Commands Key) where
  pub sent_replica_decoy : IsSent hpqc c Command.replica_decoy
  unfolding to_bytes replica_decoy_to_bytes put_u32 if_padded dispatch no_payload received
  sent_replica_decoy =
      sent_padded hpqc c _ CommandId.replica_decoy 0 [] true refl
        (record { size = refl; reads = λ spare. refl })

  pub sent_replica_message :
      (sender key ciphertext : List ℕ)
      → c.replica_nike_scheme ≡ some (length sender)
      → length key ≡ hpqc.sizes.dek_size
      → 4 ≤ length ciphertext
      → IsSent hpqc c (Command.replica_message sender (some key) ciphertext)
  unfolding to_bytes replica_message_to_bytes parse received
  sent_replica_message sender key ciphertext scheme key_size h =
      sent_padded hpqc c _ CommandId.replica_message _ (sender ++ (key ++ ciphertext)) true refl (
        to_parse hpqc c _ _ _ _ (length-both sender key ciphertext refl key_size) (omega arith)
          (λ spare.
            rw (scheme) (replica_message_from_bytes-lem hpqc sender key ciphertext key_size h)))

  pub sent_replica_message_reply :
      (code : ℕ) (hash : List ℕ) (replica_id : ℕ) (reply : List ℕ)
      → length hash ≡ 32
      → IsSent hpqc c (Command.replica_message_reply code (some hash) replica_id reply)
  unfolding to_bytes replica_message_reply_to_bytes if_padded parse received
  sent_replica_message_reply code hash replica_id reply size =
      sent_padded hpqc c _ CommandId.replica_message_reply _ (code ∷ (hash ++ (replica_id ∷ reply)))
        false refl
        (to_parse hpqc c _ _ _ _ (omega (arith, length-append hash (replica_id ∷ reply)))
          (omega arith)
          (λ spare. replica_message_reply_from_bytes-lem code hash replica_id reply size))

  pub sent_replica_write :
      (box signed payload : List ℕ)
      → length box ≡ hpqc.sizes.box_id_size
      → length signed ≡ hpqc.sizes.signature_size
      → 0 < hpqc.sizes.box_id_size
      → IsSent hpqc c (Command.replica_write (some box) (some signed) payload)
  unfolding to_bytes replica_write_to_bytes if_padded parse received
  sent_replica_write box signed payload box_size signed_size h =
      sent_padded hpqc c _ CommandId.replica_write _ (box ++ (signed ++ payload)) true refl (
        to_parse hpqc c _ _ _ _ (length-both box signed payload box_size signed_size) (omega arith)
          (λ spare. replica_write_from_bytes-lem hpqc box signed payload box_size signed_size))

  pub sent_replica_write_reply : (code : ℕ) → IsSent hpqc c (Command.replica_write_reply code)
  unfolding to_bytes replica_write_reply_to_bytes if_padded parse received status_from_bytes
  sent_replica_write_reply code =
      sent_padded hpqc c _ CommandId.replica_write_reply 1 (code ∷ []) true refl
        (to_parse hpqc c _ _ _ _ refl (omega arith) (λ spare. refl))
