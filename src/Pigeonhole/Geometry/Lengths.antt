-- ===== src/Pigeonhole/Geometry/Lengths.antt =====
-- The lengths of marshalled queries and replies, and those that pigeonhole/geo/geometry.go gives.
use Prim.Native.String.{String}
use katzenpost_wt.Prelude.{
  ℕ, ◌+◌, ◌≡◌, List, ◌∷◌, Option, none, some, ok, arith, length, length-append, take_all, if_true,
  ap,
}
use katzenpost_wt.Prelude.Bytes.{length-put_u32}
use katzenpost_wt.Sphinx.Geometry.{Scheme}
use katzenpost_wt.Pigeonhole.Wire.{length-put_u16, length-put_u64}
use katzenpost_wt.Pigeonhole.Geometry.{
  Sizes, PigeonholeGeometry, new_geometry, filled, box_ciphertext_length, calculate_query_read,
  calculate_query_write, calculate_reply_read, courier_envelope_overhead,
  replica_write_fixed_overhead, mkem_encryption_overhead,
}
use katzenpost_wt.Pigeonhole.Envelope.{
  CourierEnvelope, IsWellFormed, encode_envelope, validate_envelope-IsWellFormed,
}
use katzenpost_wt.Pigeonhole.Query.{
  CourierEnvelopeReply, marshal_query, encode_query, validate_query, encoded, validated,
  encode_envelope_reply, marshal_query_reply, encode_query_reply, validate_query_reply,
}
use katzenpost_wt.Pigeonhole.Query.RoundTrip.{
  IsEnvelopeReply, validate_envelope_reply-IsEnvelopeReply,
}
use katzenpost_wt.Pigeonhole.Inner.{
  ReplicaRead, ReplicaReadReply, ReplicaWrite, encode_inner, encode_replica_read,
  encode_replica_write, encode_inner_reply, encode_replica_read_reply,
}
use katzenpost_wt.Pigeonhole.Inner.RoundTrip.{IsSized}

-- The sizes of the arrays in the messages.
pub record AreArrays (sizes : Sizes) : Type 0 where
  pub box_id : sizes.box_id_size ≡ 32
  pub signature : sizes.signature_size ≡ 64
  pub dek : sizes.dek_size ≡ 60

length-encode_envelope :
    (e : CourierEnvelope)
    → IsWellFormed e
    → length (encode_envelope e) ≡ 137 + e.sender_pubkey_len + e.ciphertext_len
unfolding encode_envelope
length-encode_envelope e w =
    let size = e.sender_pubkey_len in
    let key = take_all e.sender_pubkey_len e.sender_pubkey w.pubkey in
    let text = take_all e.ciphertext_len e.ciphertext w.text in
    rw (key, text)
      (simp (length-append, length-put_u16, length-put_u32, length-put_u64) (omega (arith, w)))

pub length-encode_replica_write :
    (w : ReplicaWrite)
    → IsSized w.box_id w.signature w.payload_len w.payload
    → length (encode_replica_write w) ≡ 100 + w.payload_len
unfolding encode_replica_write
length-encode_replica_write w s =
    rw (take_all w.payload_len w.payload s.size)
      (simp (length-append, length-put_u32) (omega (arith, s)))

length-encode_replica_read_reply :
    (r : ReplicaReadReply)
    → IsSized r.box_id r.signature r.payload_len r.payload
    → length (encode_replica_read_reply r) ≡ 101 + r.payload_len
unfolding encode_replica_read_reply
length-encode_replica_read_reply r s =
    rw (take_all r.payload_len r.payload s.size)
      (simp (length-append, length-put_u32) (omega (arith, s)))

length-encode_envelope_reply :
    (c : CourierEnvelopeReply)
    → IsEnvelopeReply c
    → length (encode_envelope_reply c) ≡ 39 + c.payload_len
unfolding encode_envelope_reply
length-encode_envelope_reply c w =
    rw (take_all c.payload_len c.payload w.size)
      (simp (length-append, length-put_u32) (omega (arith, w)))

-- A courier query that holds the encryption of a write of a full box has exactly the length that the
-- geometry gives, whatever the NIKE scheme, where the arrays have the sizes that bacap and mkem
-- give and the encryption adds a nonce and a tag.
pub length-marshal_query :
    (sizes : Sizes) (by_name : String → Option Scheme) (n : ℕ) (nike used : Scheme)
    (w : ReplicaWrite) (e : CourierEnvelope) (g : PigeonholeGeometry)
    → AreArrays sizes
    → by_name nike.name ≡ some used
    → new_geometry sizes by_name n nike ≡ ok g
    → IsSized w.box_id w.signature w.payload_len w.payload
    → w.payload_len ≡ box_ciphertext_length g
    → IsWellFormed e
    → e.sender_pubkey_len ≡ used.size
    → e.ciphertext_len
      ≡ length (encode_inner (record { message_type = 1; read_msg = none; write_msg = some w }))
        + mkem_encryption_overhead sizes
    → (bytes : List ℕ) × (marshal_query
          (record { query_type = 0; envelope = some e; copy_command = none })
        ≡ some bytes)
      × (length bytes ≡ g.courier_query_write_length)
unfolding new_geometry filled marshal_query encode_query validate_query encoded validated
    encode_inner box_ciphertext_length calculate_query_write courier_envelope_overhead
    replica_write_fixed_overhead
length-marshal_query sizes by_name n nike used w e g a known made s full wf key text =
    let opened : ok (filled sizes n used nike.name) ≡ ok g = rw known at made in
    let same : filled sizes n used nike.name ≡ g = cc in
    let payload = ap (λ g. g.max_plaintext_payload_length) same in
    let query = ap (λ g. g.courier_query_write_length) same in
    (
      0 ∷ encode_envelope e,
      if_true _ _ (validate_envelope-IsWellFormed e wf),
      omega
          (arith, a, payload, query, length-encode_envelope e wf, length-encode_replica_write w s),
    )

-- A courier query that holds the encryption of a read has exactly the length that the geometry
-- gives, under the same conditions.
pub length-marshal_query_read :
    (sizes : Sizes) (by_name : String → Option Scheme) (n : ℕ) (nike used : Scheme)
    (r : ReplicaRead) (e : CourierEnvelope) (g : PigeonholeGeometry)
    → AreArrays sizes
    → by_name nike.name ≡ some used
    → new_geometry sizes by_name n nike ≡ ok g
    → length r.box_id ≡ 32
    → IsWellFormed e
    → e.sender_pubkey_len ≡ used.size
    → e.ciphertext_len
      ≡ length (encode_inner (record { message_type = 0; read_msg = some r; write_msg = none }))
        + mkem_encryption_overhead sizes
    → (bytes : List ℕ) × (marshal_query
          (record { query_type = 0; envelope = some e; copy_command = none })
        ≡ some bytes)
      × (length bytes ≡ g.courier_query_read_length)
unfolding new_geometry filled marshal_query encode_query validate_query encoded validated
    encode_inner encode_replica_read calculate_query_read courier_envelope_overhead
length-marshal_query_read sizes by_name n nike used r e g a known made id wf key text =
    let opened : ok (filled sizes n used nike.name) ≡ ok g = rw known at made in
    let same : filled sizes n used nike.name ≡ g = cc in
    let query = ap (λ g. g.courier_query_read_length) same in
    (
      0 ∷ encode_envelope e,
      if_true _ _ (validate_envelope-IsWellFormed e wf),
      omega (arith, a, query, length-encode_envelope e wf),
    )

-- A courier's reply that holds the encryption of the reply to a read of a full box is 45 bytes
-- longer than the length that the geometry gives, where the arrays have the sizes that bacap and
-- mkem give and the encryption adds a nonce and a tag.
pub length-marshal_query_reply :
    (sizes : Sizes) (by_name : String → Option Scheme) (n : ℕ) (nike used : Scheme)
    (r : ReplicaReadReply) (c : CourierEnvelopeReply) (g : PigeonholeGeometry)
    → AreArrays sizes
    → by_name nike.name ≡ some used
    → new_geometry sizes by_name n nike ≡ ok g
    → IsSized r.box_id r.signature r.payload_len r.payload
    → r.payload_len ≡ box_ciphertext_length g
    → IsEnvelopeReply c
    → c.payload_len
      ≡ length (
          encode_inner_reply (record { message_type = 0; read_reply = some r; write_reply = none }))
        + mkem_encryption_overhead sizes
    → (bytes : List ℕ) × (marshal_query_reply
          (record { reply_type = 0; envelope_reply = some c; copy_command_reply = none })
        ≡ some bytes)
      × (length bytes ≡ g.courier_query_reply_read_length + 45)
unfolding new_geometry filled marshal_query_reply encode_query_reply validate_query_reply encoded
    validated encode_inner_reply box_ciphertext_length calculate_reply_read
length-marshal_query_reply sizes by_name n nike used r c g a known made s full w text =
    let opened : ok (filled sizes n used nike.name) ≡ ok g = rw known at made in
    let same : filled sizes n used nike.name ≡ g = cc in
    let payload = ap (λ g. g.max_plaintext_payload_length) same in
    let reply = ap (λ g. g.courier_query_reply_read_length) same in
    (
      0 ∷ encode_envelope_reply c,
      if_true _ _ (validate_envelope_reply-IsEnvelopeReply c w),
      omega (
        arith,
        a,
        payload,
        reply,
        length-encode_envelope_reply c w,
        length-encode_replica_read_reply r s,
      ),
    )
