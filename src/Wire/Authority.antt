-- ===== src/Wire/Authority.antt =====
-- The commands of the directory authorities, as they are sent and read.
use katzenpost_wt.Prelude.{
  ℕ, ◌+◌, ◌<◌, ◌^◌, ◌≡◌, refl, sym, ap, ◌∙◌, Bool, true, false, List, [], ◌∷◌, ◌++◌, some, ok,
  arith, length, length-append,
}
use mathlib.Core.List.{append-nil}
use katzenpost_wt.Prelude.Bytes.{length-put_u32, put_u32, copy_array_self}
use katzenpost_wt.Pigeonhole.Wire.{put_u64, length-put_u64}
use katzenpost_wt.Wire.Id.{CommandId}
use katzenpost_wt.Wire.Command.{Command, Commands, Hpqc, WireError}
use katzenpost_wt.Wire.Serialize.{
  consensus_to_bytes, post_to_bytes, key_overhead, header, status_to_bytes, signed_to_bytes,
  reveal_to_bytes,
}
use katzenpost_wt.Wire.Encode.{
  to_bytes, get_consensus_to_bytes, get_consensus2_to_bytes, consensus2_to_bytes,
}
use katzenpost_wt.Wire.Body.{
  status_from_bytes, post_from_bytes, signed_from_bytes, epoch_from_bytes,
}
use katzenpost_wt.Wire.Parse.{parse}
use katzenpost_wt.Wire.Received.{received, IsKey}
use katzenpost_wt.Wire.Reading.{
  length-both, post_from_bytes-put_u64, epoch_from_bytes-put_u64, consensus_from_bytes-lem,
  consensus2_from_bytes-lem, signed_from_bytes-lem, get_vote_from_bytes-lem,
}
use katzenpost_wt.Wire.Sent.{IsSent, IsBody, to_parse, sent_padded, sent_plain}

module _ {Key : Type 0} (hpqc : Hpqc Key) (c : Commands Key) where
  epoch-IsBody :
      (cmd : Command Key) (id : CommandId) (command : ℕ → Command Key) (epoch : ℕ)
      → epoch < 2 ^ 64
      → ((spare : List ℕ)
          → parse hpqc c id (put_u64 epoch) spare ≡ epoch_from_bytes command (put_u64 epoch))
      → command epoch ≡ received cmd
      → IsBody hpqc c cmd id 8 (put_u64 epoch)
  epoch-IsBody cmd id command epoch h parses same =
      to_parse hpqc c _ _ _ _ (length-put_u64 epoch) (omega arith)
        (λ spare. parses spare ∙ epoch_from_bytes-put_u64 command epoch h ∙ ap ok same)

  pub sent_get_consensus :
      (epoch : ℕ) (mixnet_transmission : Bool)
      → epoch < 2 ^ 64
      → IsSent hpqc c (Command.get_consensus epoch mixnet_transmission)
  unfolding to_bytes get_consensus_to_bytes parse received
  sent_get_consensus epoch true h =
      sent_padded hpqc c _ CommandId.get_consensus 8 (put_u64 epoch) true refl
        (epoch-IsBody _ _ (λ epoch. Command.get_consensus epoch false) epoch h (λ spare. refl) refl)
  sent_get_consensus epoch false h =
      sent_plain hpqc c _ CommandId.get_consensus 8 (put_u64 epoch) refl
        (epoch-IsBody _ _ (λ epoch. Command.get_consensus epoch false) epoch h (λ spare. refl) refl)

  pub sent_get_consensus2 :
      (epoch : ℕ) → epoch < 2 ^ 64 → IsSent hpqc c (Command.get_consensus2 epoch)
  unfolding to_bytes get_consensus2_to_bytes parse received
  sent_get_consensus2 epoch h =
      sent_padded hpqc c _ CommandId.get_consensus2 8 (put_u64 epoch) true refl
        (epoch-IsBody _ _ Command.get_consensus2 epoch h (λ spare. refl) refl)

  pub sent_consensus :
      (code : ℕ) (payload : List ℕ) → IsSent hpqc c (Command.consensus code payload)
  unfolding to_bytes consensus_to_bytes parse received
  sent_consensus code payload =
      sent_plain hpqc c _ CommandId.consensus (1 + length payload) (code ∷ payload) refl (
        to_parse hpqc c _ _ _ _ (omega arith) (omega arith)
          (λ spare. consensus_from_bytes-lem code payload))

  pub sent_consensus2 :
      (code chunk_num chunk_total : ℕ) (payload : List ℕ)
      → chunk_num < 2 ^ 32
      → chunk_total < 2 ^ 32
      → IsSent hpqc c (Command.consensus2 code chunk_num chunk_total payload)
  unfolding to_bytes consensus2_to_bytes parse received
  sent_consensus2 code chunk_num chunk_total payload h h2 =
      sent_padded hpqc c _ CommandId.consensus2 (9 + length payload)
        (code ∷ (put_u32 chunk_num ++ (put_u32 chunk_total ++ payload))) false refl
        (to_parse hpqc c _ _ _ _
          (omega (
            arith,
            length-both (put_u32 chunk_num) (put_u32 chunk_total) payload (length-put_u32 chunk_num)
                (length-put_u32 chunk_total),
          ))
          (omega arith)
          (λ spare. consensus2_from_bytes-lem code chunk_num chunk_total payload spare h h2))

  pub sent_post :
      (cmd : Command Key) (id : CommandId) (post : ℕ → List ℕ → Command Key) (epoch : ℕ)
      (payload : List ℕ)
      → to_bytes hpqc (some c) cmd ≡ ok (post_to_bytes id epoch payload)
      → ((b spare : List ℕ) → parse hpqc c id b spare ≡ post_from_bytes post b)
      → post epoch payload ≡ received cmd
      → epoch < 2 ^ 64
      → IsSent hpqc c cmd
  unfolding post_to_bytes
  sent_post cmd id post epoch payload writes parses same h =
      sent_plain hpqc c _ id (8 + length payload) (put_u64 epoch ++ payload) writes (
        to_parse hpqc c _ _ _ _
          (omega (arith, length-append (put_u64 epoch) payload, length-put_u64 epoch)) (omega arith)
          (λ spare. parses _ spare ∙ post_from_bytes-put_u64 post epoch payload h ∙ ap ok same))

  pub sent_status :
      (cmd : Command Key) (id : CommandId) (status : ℕ → Command Key) (fault : WireError) (code : ℕ)
      → to_bytes hpqc (some c) cmd ≡ ok (status_to_bytes id code)
      → ((b spare : List ℕ) → parse hpqc c id b spare ≡ status_from_bytes status fault b)
      → status code ≡ received cmd
      → IsSent hpqc c cmd
  unfolding status_to_bytes status_from_bytes
  sent_status cmd id status fault code writes parses same =
      sent_plain hpqc c _ id 1 (code ∷ []) writes
        (to_parse hpqc c _ _ _ _ refl (omega arith) (λ spare. parses _ spare ∙ ap ok same))

  -- A command that a key signs.
  pub sent_signed :
      (cmd : Command Key) (id : CommandId) (signed : ℕ → Key → List ℕ → Command Key)
      (fault : WireError) (epoch : ℕ) (key : Key) (payload : List ℕ) (k : IsKey hpqc c key)
      → to_bytes hpqc (some c) cmd
        ≡ ok (
            header id (8 + hpqc.key_size key + length payload)
            ++ (put_u64 epoch ++ (k.blob ++ payload)))
      → ((b spare : List ℕ)
          → parse hpqc c id b spare ≡ signed_from_bytes c.pki_signature_scheme signed fault b)
      → signed epoch key payload ≡ received cmd
      → epoch < 2 ^ 64
      → IsSent hpqc c cmd
  sent_signed cmd id signed fault epoch key payload k writes parses same h =
      sent_plain hpqc c _ id _ (put_u64 epoch ++ (k.blob ++ payload)) writes (
        to_parse hpqc c _ _ _ _
          (length-both (put_u64 epoch) k.blob payload (length-put_u64 epoch)
            (k.blob_size ∙ sym k.size))
          (omega arith)
          (λ spare.
            parses _ spare ∙ signed_from_bytes-lem signed fault epoch payload k h ∙ ap ok same))

  pub signed_to_bytes-IsKey :
      (id : CommandId) (epoch : ℕ) (key : Key) (payload : List ℕ) (k : IsKey hpqc c key)
      → signed_to_bytes hpqc id epoch key payload
        ≡ ok (
            header id (8 + hpqc.key_size key + length payload)
            ++ (put_u64 epoch ++ (k.blob ++ payload)))
  unfolding signed_to_bytes key_overhead
  signed_to_bytes-IsKey id epoch key payload k = rw (k.marshalled)

  pub reveal_to_bytes-IsKey :
      (epoch : ℕ) (key : Key) (payload : List ℕ) (k : IsKey hpqc c key)
      → reveal_to_bytes hpqc epoch key payload
        ≡ ok (
            header CommandId.reveal (8 + hpqc.key_size key + length payload)
            ++ (put_u64 epoch ++ (k.blob ++ payload)))
  unfolding reveal_to_bytes key_overhead
  reveal_to_bytes-IsKey epoch key payload k =
      rw (k.marshalled, copy_array_self (hpqc.key_size key) k.blob (k.blob_size ∙ sym k.size))

  pub sent_get_vote :
      (epoch : ℕ) (key : Key)
      → IsKey hpqc c key
      → epoch < 2 ^ 64
      → IsSent hpqc c (Command.get_vote epoch key)
  unfolding to_bytes parse received
  sent_get_vote epoch key k h =
      sent_plain hpqc c _ CommandId.get_vote (8 + hpqc.key_size key + 0) (put_u64 epoch ++ k.blob)
        (signed_to_bytes-IsKey CommandId.get_vote epoch key [] k
          ∙ ap
              (λ b.
                ok (header CommandId.get_vote (8 + hpqc.key_size key + 0) ++ (put_u64 epoch ++ b)))
              (append-nil k.blob))
        (to_parse hpqc c _ _ _ _
          (omega (
            arith,
            length-append (put_u64 epoch) k.blob,
            length-put_u64 epoch,
            k.blob_size,
            k.size,
          ))
          (omega arith) (λ spare. get_vote_from_bytes-lem epoch k h))
