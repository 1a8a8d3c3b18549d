-- ===== src/Wire/Reading.antt =====
-- What the parsers of core/wire/commands make of the bodies that the encoders write.
use katzenpost_wt.Prelude.{
  ℕ, zero, suc, ◌+◌, ◌/◌, ◌%◌, ◌-◌, ◌<◌, ◌≤◌, ◌^◌, ◌≡◌, refl, sym, ap, ◌∙◌, true, false, List, [],
  ◌∷◌, ◌++◌, Option, some, ok, arith, length, length-append, replicate, drop, drop-append,
  take-append, ltb, leb, ◌==◌, length-replicate, get_or, take_all,
}
use mathlib.Core.List.{append_assoc, append-nil}
use katzenpost_wt.Prelude.Bytes.{
  get_u32-put_u32, length-put_u32, get_u32, put_u32, copy_array_self, ct_is_zero-replicate,
}
use katzenpost_wt.Pigeonhole.Wire.{put_u64, length-put_u64}
use katzenpost_wt.Sphinx.Geometry.{Geometry, surb_id_length}
use katzenpost_wt.Wire.Command.{Command, Commands, Hpqc, WireError}
use katzenpost_wt.Wire.Body.{
  get_u64, post_from_bytes, epoch_from_bytes, consensus_from_bytes, consensus2_from_bytes,
  send_retrieve_packet_reply_from_bytes, retrieve_message_from_bytes, signed_from_bytes,
  get_vote_from_bytes, message_from_bytes, replica_message_reply_from_bytes,
  replica_write_from_bytes, replica_message_from_bytes, message_ack_from_bytes,
  message_message_from_bytes, message_empty_from_bytes, message_type_from_bytes,
}
use katzenpost_wt.Wire.Serialize.{
  message_msg_padding_length, message_empty_length, message_base_length,
}
use katzenpost_wt.Wire.Received.{IsKey}

get_u64-put_u64 : (n : ℕ) (rest : List ℕ) → n < 2 ^ 64 → get_u64 (put_u64 n ++ rest) ≡ n
unfolding get_u64 put_u64
get_u64-put_u64 n rest h =
    let high : get_u32 ((put_u32 (n / 2 ^ 32) ++ put_u32 (n % 2 ^ 32)) ++ rest) ≡ n / 2 ^ 32 =
      ap get_u32 (append_assoc (put_u32 (n / 2 ^ 32)) (put_u32 (n % 2 ^ 32)) rest)
      ∙ get_u32-put_u32 (n / 2 ^ 32) (put_u32 (n % 2 ^ 32) ++ rest) (omega arith) in
    let low : get_u32 (drop 4 ((put_u32 (n / 2 ^ 32) ++ put_u32 (n % 2 ^ 32)) ++ rest))
        ≡ n % 2 ^ 32 =
      ap (λ t. get_u32 (drop 4 t)) (append_assoc (put_u32 (n / 2 ^ 32)) (put_u32 (n % 2 ^ 32)) rest)
      ∙ ap get_u32 (
          drop-append 4 (put_u32 (n / 2 ^ 32)) (put_u32 (n % 2 ^ 32) ++ rest)
            (length-put_u32 (n / 2 ^ 32)))
      ∙ get_u32-put_u32 (n % 2 ^ 32) rest (omega arith) in
    omega (arith, high, low)

get_or-append : (xs ys : List ℕ) (n d : ℕ) → length xs ≡ n → get_or (xs ++ ys) n d ≡ get_or ys 0 d
get_or-append [] ys zero d h = refl
get_or-append [] ys (suc n) d h = absurd (omega arith)
get_or-append (x ∷ xs) ys zero d h = absurd (omega arith)
get_or-append (x ∷ xs) ys (suc n) d h = get_or-append xs ys n d (omega arith)

has_room : (m n : ℕ) → ltb m n ≡ false → leb n m ≡ true
has_room m n h = ground arith

-- Two fields of known sizes before the rest.
module _ {m n : ℕ} (xs ys zs : List ℕ) (left : length xs ≡ m) (right : length ys ≡ n) where
  both : length (xs ++ ys) ≡ m + n
  both = omega (arith, length-append xs ys)

  drop-both : drop (m + n) (xs ++ (ys ++ zs)) ≡ zs
  drop-both =
      ap (drop (m + n)) (sym (append_assoc xs ys zs)) ∙ drop-append (m + n) (xs ++ ys) zs both

  pub length-both : length (xs ++ (ys ++ zs)) ≡ m + n + length zs
  length-both = omega (arith, length-append xs (ys ++ zs), length-append ys zs)

module _ {Key : Type 0} where
  pub post_from_bytes-put_u64 :
      (post : ℕ → List ℕ → Command Key) (epoch : ℕ) (payload : List ℕ)
      → epoch < 2 ^ 64
      → post_from_bytes post (put_u64 epoch ++ payload) ≡ ok (post epoch payload)
  unfolding post_from_bytes
  post_from_bytes-put_u64 post epoch payload h =
      let size = length-put_u64 epoch in
      let long : ltb (length (put_u64 epoch ++ payload)) 8 ≡ false =
        ground (arith, length-append (put_u64 epoch) payload) in
      rw (
        long,
        has_room _ _ long,
        get_u64-put_u64 epoch payload h,
        drop-append 8 (put_u64 epoch) payload size,
      )

  pub epoch_from_bytes-put_u64 :
      (command : ℕ → Command Key) (epoch : ℕ)
      → epoch < 2 ^ 64
      → epoch_from_bytes command (put_u64 epoch) ≡ ok (command epoch)
  unfolding epoch_from_bytes
  epoch_from_bytes-put_u64 command epoch h =
      let word : get_u64 (put_u64 epoch) ≡ epoch =
        ap get_u64 (sym (append-nil (put_u64 epoch))) ∙ get_u64-put_u64 epoch [] h in
      rw (length-put_u64 epoch, word)

  pub consensus_from_bytes-lem :
      (code : ℕ) (payload : List ℕ)
      → consensus_from_bytes {Key = Key} (code ∷ payload) ≡ ok (Command.consensus code payload)
  unfolding consensus_from_bytes
  consensus_from_bytes-lem code payload = ground arith

  pub consensus2_from_bytes-lem :
      (code chunk_num chunk_total : ℕ) (payload spare : List ℕ)
      → chunk_num < 2 ^ 32
      → chunk_total < 2 ^ 32
      → consensus2_from_bytes {Key = Key}
          (code ∷ (put_u32 chunk_num ++ (put_u32 chunk_total ++ payload)))
          spare
        ≡ ok (Command.consensus2 code chunk_num chunk_total payload)
  unfolding consensus2_from_bytes put_u32
  consensus2_from_bytes-lem code chunk_num chunk_total payload spare h h2 =
      let first = get_u32-put_u32 chunk_num ((put_u32 chunk_total ++ payload) ++ spare) h in
      let second = get_u32-put_u32 chunk_total (payload ++ spare) h2 in
      let some_body : ltb (length (code ∷ (put_u32 chunk_num ++ (put_u32 chunk_total ++ payload))))
            1
          ≡ false =
        ground arith in
      let room : leb 9
            (length ((code ∷ (put_u32 chunk_num ++ (put_u32 chunk_total ++ payload))) ++ spare))
          ≡ true =
        ground arith in
      rw (some_body, room, first, second)

  pub send_retrieve_packet_reply_from_bytes-lem :
      (surb_id payload spare : List ℕ)
      → length surb_id ≡ surb_id_length
      → send_retrieve_packet_reply_from_bytes {Key = Key} (surb_id ++ payload) spare
        ≡ ok (Command.send_retrieve_packet_reply surb_id payload)
  unfolding send_retrieve_packet_reply_from_bytes
  send_retrieve_packet_reply_from_bytes-lem surb_id payload spare size =
      let total : length ((surb_id ++ payload) ++ spare)
          ≡ surb_id_length + length payload + length spare =
        omega (arith, length-append surb_id payload, length-append (surb_id ++ payload) spare) in
      let room : leb surb_id_length (length ((surb_id ++ payload) ++ spare)) ≡ true =
        ground arith in
      let long : leb surb_id_length (length (surb_id ++ payload)) ≡ true =
        ground (arith, length-append surb_id payload) in
      rw (
        room,
        long,
        append_assoc surb_id payload spare,
        take-append surb_id_length surb_id (payload ++ spare) size,
        copy_array_self surb_id_length surb_id size,
        drop-append surb_id_length surb_id payload size,
      )

  pub retrieve_message_from_bytes-put_u32 :
      (sequence : ℕ)
      → sequence < 2 ^ 32
      → retrieve_message_from_bytes {Key = Key} (put_u32 sequence)
        ≡ ok (Command.retrieve_message sequence)
  unfolding retrieve_message_from_bytes
  retrieve_message_from_bytes-put_u32 sequence h =
      let word : get_u32 (put_u32 sequence) ≡ sequence =
        ap get_u32 (sym (append-nil (put_u32 sequence))) ∙ get_u32-put_u32 sequence [] h in
      rw (length-put_u32 sequence, word)

  pub replica_message_reply_from_bytes-lem :
      (code : ℕ) (hash : List ℕ) (replica_id : ℕ) (reply : List ℕ)
      → length hash ≡ 32
      → replica_message_reply_from_bytes {Key = Key} (code ∷ (hash ++ (replica_id ∷ reply)))
        ≡ ok (Command.replica_message_reply code (some hash) replica_id reply)
  unfolding replica_message_reply_from_bytes
  replica_message_reply_from_bytes-lem code hash replica_id reply size =
      let long : ltb (length (code ∷ (hash ++ (replica_id ∷ reply)))) 34 ≡ false =
        ground (arith, length-append hash (replica_id ∷ reply)) in
      let last = drop-both {n = 1} hash (replica_id ∷ []) reply size refl in
      rw (
        long,
        has_room _ _ long,
        take-append 32 hash (replica_id ∷ reply) size,
        copy_array_self 32 hash size,
        get_or-append hash (replica_id ∷ reply) 32 0 size,
        last,
      )

  pub signed_from_bytes-lem :
      {hpqc : Hpqc Key} {c : Commands Key} {key : Key} (signed : ℕ → Key → List ℕ → Command Key)
      (fault : WireError) (epoch : ℕ) (payload : List ℕ) (k : IsKey hpqc c key)
      → epoch < 2 ^ 64
      → signed_from_bytes c.pki_signature_scheme signed fault (put_u64 epoch ++ (k.blob ++ payload))
        ≡ ok (signed epoch key payload)
  unfolding signed_from_bytes
  signed_from_bytes-lem signed fault epoch payload k h =
      let size = length-put_u64 epoch in
      let n = k.scheme.public_key_size in
      let total = length-both (put_u64 epoch) k.blob payload size k.blob_size in
      let long : ltb (length (put_u64 epoch ++ (k.blob ++ payload))) (8 + n) ≡ false =
        ground arith in
      let last = drop-both (put_u64 epoch) k.blob payload size k.blob_size in
      rw (
        k.configured,
        long,
        has_room _ _ long,
        drop-append 8 (put_u64 epoch) (k.blob ++ payload) size,
        take-append n k.blob payload k.blob_size,
        k.unmarshalled,
        get_u64-put_u64 epoch (k.blob ++ payload) h,
        last,
      )

  pub get_vote_from_bytes-lem :
      {hpqc : Hpqc Key} {c : Commands Key} {key : Key} (epoch : ℕ) (k : IsKey hpqc c key)
      → epoch < 2 ^ 64
      → get_vote_from_bytes c.pki_signature_scheme (put_u64 epoch ++ k.blob)
        ≡ ok (Command.get_vote epoch key)
  unfolding get_vote_from_bytes
  get_vote_from_bytes-lem epoch k h =
      let size = length-put_u64 epoch in
      let n = k.scheme.public_key_size in
      let exact : (length (put_u64 epoch ++ k.blob) == 8 + n) ≡ true =
        ground (arith, k.blob_size, length-append (put_u64 epoch) k.blob) in
      let room : leb (8 + n) (length (put_u64 epoch ++ k.blob)) ≡ true = ground arith in
      rw (
        k.configured,
        exact,
        room,
        drop-append 8 (put_u64 epoch) k.blob size,
        take_all n k.blob k.blob_size,
        k.unmarshalled,
        get_u64-put_u64 epoch k.blob h,
      )

-- The three kinds of message of a client's spool.
module _ {Key : Type 0} (g : Geometry) (hint sequence : ℕ) where
  pub message_ack_from_bytes-lem :
      (id payload : List ℕ)
      → length id ≡ surb_id_length
      → length payload ≡ g.payload_tag_length + g.forward_payload_length
      → message_ack_from_bytes {Key = Key} g hint sequence (id ++ payload)
        ≡ ok (Command.message_ack hint sequence id payload)
  unfolding message_ack_from_bytes
  message_ack_from_bytes-lem id payload size payload_size =
      let exact : (length (id ++ payload)
            == surb_id_length + g.payload_tag_length + g.forward_payload_length)
          ≡ true =
        ground (arith, length-append id payload) in
      let room : leb surb_id_length (length (id ++ payload)) ≡ true = ground arith in
      rw (
        exact,
        room,
        take-append surb_id_length id payload size,
        copy_array_self surb_id_length id size,
        drop-append surb_id_length id payload size,
      )

  pub message_message_from_bytes-lem :
      (payload : List ℕ)
      → length payload ≡ g.user_forward_payload_length
      → message_message_from_bytes {Key = Key} g hint sequence
          (payload ++ replicate (message_msg_padding_length g) 0)
        ≡ ok (Command.message hint sequence payload)
  unfolding message_message_from_bytes
  message_message_from_bytes-lem payload size =
      let n = message_msg_padding_length g in
      let exact : (length (payload ++ replicate n 0) == n + g.user_forward_payload_length) ≡ true =
        ground (arith, length-append payload (replicate n 0), length-replicate {A = ℕ} n 0) in
      let room : leb g.user_forward_payload_length (length (payload ++ replicate n 0)) ≡ true =
        ground arith in
      rw (
        exact,
        room,
        drop-append g.user_forward_payload_length payload (replicate n 0) size,
        ct_is_zero-replicate n,
        take-append g.user_forward_payload_length payload (replicate n 0) size,
      )

  pub message_empty_from_bytes-lem :
      message_empty_from_bytes {Key = Key} g sequence
        (replicate (message_empty_length g - message_base_length) 0)
      ≡ ok (Command.message_empty sequence)
  unfolding message_empty_from_bytes
  message_empty_from_bytes-lem =
      let n = message_empty_length g - message_base_length in
      let exact : (length {A = ℕ} (replicate n 0) == n) ≡ true =
        ground (arith, length-replicate {A = ℕ} n 0) in
      rw (exact, ct_is_zero-replicate n)

module _ {Key : Type 0} (hpqc : Hpqc Key) where
  pub replica_write_from_bytes-lem :
      (box signed payload : List ℕ)
      → length box ≡ hpqc.sizes.box_id_size
      → length signed ≡ hpqc.sizes.signature_size
      → replica_write_from_bytes hpqc (box ++ (signed ++ payload))
        ≡ ok (Command.replica_write (some box) (some signed) payload)
  unfolding replica_write_from_bytes
  replica_write_from_bytes-lem box signed payload box_size signed_size =
      let total = length-both box signed payload box_size signed_size in
      let long : ltb (length (box ++ (signed ++ payload)))
            (hpqc.sizes.box_id_size + hpqc.sizes.signature_size)
          ≡ false =
        ground arith in
      rw (
        long,
        has_room _ _ long,
        drop-append hpqc.sizes.box_id_size box (signed ++ payload) box_size,
        take-append hpqc.sizes.box_id_size box (signed ++ payload) box_size,
        take-append hpqc.sizes.signature_size signed payload signed_size,
        copy_array_self hpqc.sizes.box_id_size box box_size,
        copy_array_self hpqc.sizes.signature_size signed signed_size,
        drop-both box signed payload box_size signed_size,
      )

  pub replica_message_from_bytes-lem :
      (sender key ciphertext : List ℕ)
      → length key ≡ hpqc.sizes.dek_size
      → 4 ≤ length ciphertext
      → replica_message_from_bytes hpqc (some (length sender)) (sender ++ (key ++ ciphertext))
        ≡ ok (Command.replica_message sender (some key) ciphertext)
  unfolding replica_message_from_bytes
  replica_message_from_bytes-lem sender key ciphertext key_size h =
      let total = length-both sender key ciphertext refl key_size in
      let long : ltb (length (sender ++ (key ++ ciphertext)))
            (length sender + hpqc.sizes.dek_size + 4)
          ≡ false =
        ground arith in
      let room : leb (length sender + hpqc.sizes.dek_size) (length (sender ++ (key ++ ciphertext)))
          ≡ true =
        ground arith in
      rw (
        long,
        room,
        drop-append (length sender) sender (key ++ ciphertext) refl,
        take-append (length sender) sender (key ++ ciphertext) refl,
        take-append hpqc.sizes.dek_size key ciphertext key_size,
        copy_array_self (length sender) sender refl,
        copy_array_self hpqc.sizes.dek_size key key_size,
        drop-both sender key ciphertext refl key_size,
      )

-- What `messageFromBytes` passes on to the case of the type `t`.
pub message_from_bytes-lem :
    {Key : Type 0} (geo : Option Geometry) (t hint sequence : ℕ) (b : List ℕ)
    → sequence < 2 ^ 32
    → message_from_bytes {Key = Key} geo (t ∷ hint ∷ (put_u32 sequence ++ b))
      ≡ message_type_from_bytes geo t hint sequence b
unfolding message_from_bytes
message_from_bytes-lem geo t hint sequence b h =
    let size = length-put_u32 sequence in
    let long : ltb (length (t ∷ hint ∷ (put_u32 sequence ++ b))) message_base_length ≡ false =
      ground (arith, length-append (put_u32 sequence) b) in
    rw (
      long,
      has_room _ _ long,
      get_u32-put_u32 sequence b h,
      drop-append 4 (put_u32 sequence) b size,
    )
