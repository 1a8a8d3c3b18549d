-- ===== src/Pigeonhole/Tests.antt =====
-- Runs of the model of the pigeonhole package, and its theorems at concrete inputs.
use katzenpost_wt.Sphinx.Geometry.{Geometry, Scheme}
use katzenpost_wt.Pigeonhole.Geometry.{
  Sizes, PigeonholeGeometry, new_geometry, to_sphinx_geometry, new_geometry_from_sphinx,
  box_ciphertext_length, mkem_encryption_overhead,
}
use katzenpost_wt.Pigeonhole.Geometry.Inverse.{new_geometry_from_sphinx-to_sphinx_geometry}
use katzenpost_wt.Prelude.{
  ℕ, ◌+◌, ◌≤◌, ◌≡◌, refl, true, List, [], ◌∷◌, ◌++◌, some, ok, arith, length, replicate, All, none,
}
use katzenpost_wt.Prelude.Bytes.{put_u32}
use katzenpost_wt.Pigeonhole.Wire.{put_u16, put_u64}
use katzenpost_wt.Pigeonhole.Element.{
  CopyStreamElement, element_overhead, parse_element, marshal_element,
  parse_element-marshal_element,
}
use katzenpost_wt.Pigeonhole.Envelope.{CourierEnvelope, IsWellFormed, encode_envelope}
use katzenpost_wt.Pigeonhole.Query.{
  CopyCommand, CourierEnvelopeReply, CourierQueryReply, parse_query, marshal_query,
  parse_query_reply, marshal_query_reply,
}
use katzenpost_wt.Pigeonhole.Query.RoundTrip.{
  IsEnvelopeReply, of_copy_command, of_envelope_reply, parse_query-marshal_query,
  parse_query_reply-marshal_query_reply,
}
use katzenpost_wt.Pigeonhole.Inner.{
  ReplicaReadReply, ReplicaWrite, ReplicaInnerMessage, ReplicaMessageReplyInnerMessage, parse_inner,
  marshal_inner, encode_inner, parse_inner_reply, marshal_inner_reply, encode_inner_reply,
}
use katzenpost_wt.Pigeonhole.Inner.RoundTrip.{
  IsSized, of_write, of_read_reply, parse_inner-marshal_inner,
  parse_inner_reply-marshal_inner_reply,
}
use katzenpost_wt.Pigeonhole.Geometry.Lengths.{
  AreArrays, length-marshal_query, length-marshal_query_reply,
}
use katzenpost_wt.Pigeonhole.CopyStream.{
  diverges, new_envelope_decoder, add_box_data, decode_envelopes,
}
use katzenpost_wt.Pigeonhole.CopyStream.Ending.{decode_envelopes_ends}
use katzenpost_wt.Pigeonhole.CopyStream.Sending.{send_stream}
use katzenpost_wt.Pigeonhole.CopyStream.Delivery.{receive, between}
use katzenpost_wt.Pigeonhole.CopyStream.Couriers.{courier_format, Fits, courier_stream-delivers}

abbrev letter : CourierEnvelope
letter = record {
  intermediate_replicas = 0 ∷ 1 ∷ [];
  dek1 = replicate 60 2;
  dek2 = replicate 60 3;
  reply_index = 0;
  epoch = 9;
  sender_pubkey_len = 2;
  sender_pubkey = 4 ∷ 5 ∷ [];
  ciphertext_len = 3;
  ciphertext = 6 ∷ 7 ∷ 8 ∷ [];
}

letter-IsWellFormed : IsWellFormed letter
letter-IsWellFormed = omega arith

letter-Fits : Fits 200 letter
unfolding encode_envelope put_u64 put_u32 put_u16
letter-Fits = (letter-IsWellFormed, omega arith)

abbrev chunk : CopyStreamElement
chunk = record { flags = 3; envelope_len = 2; envelope_data = 6 ∷ 7 ∷ [] }

parse_element-marshal_element_example :
    (bytes : List ℕ) × (marshal_element chunk ≡ some bytes)
    × (length bytes ≡ element_overhead + 2)
    × (parse_element (bytes ++ 9 ∷ []) ≡ some (chunk, 9 ∷ []))
parse_element-marshal_element_example =
    parse_element-marshal_element chunk (9 ∷ []) refl (omega arith)

abbrev order : CopyCommand
order = record { write_cap_len = 2; write_cap = 7 ∷ 8 ∷ [] }

parse_query-marshal_query_example :
    (bytes : List ℕ) × (marshal_query
        (record { query_type = 1; envelope = none; copy_command = some order })
      ≡ some bytes)
    × (parse_query (bytes ++ 9 ∷ [])
        ≡ some (record { query_type = 1; envelope = none; copy_command = some order }, 9 ∷ []))
parse_query-marshal_query_example =
    parse_query-marshal_query
      (record { query_type = 1; envelope = none; copy_command = some order }) (9 ∷ [])
      (of_copy_command order (record { word = omega arith; size = refl }))

abbrev answer : CourierEnvelopeReply
answer = record {
  envelope_hash = replicate 32 1;
  reply_index = 1;
  reply_type = 0;
  payload_len = 159;
  payload = replicate 159 5;
  error_code = 0;
}

answer-IsEnvelopeReply : IsEnvelopeReply answer
answer-IsEnvelopeReply = record { hash = refl; kind = omega arith; word = omega arith; size = refl }

abbrev answered : CourierQueryReply
answered = record { reply_type = 0; envelope_reply = some answer; copy_command_reply = none }

parse_query_reply-marshal_query_reply_example :
    (bytes : List ℕ) × (marshal_query_reply answered ≡ some bytes)
    × (parse_query_reply (bytes ++ 9 ∷ []) ≡ some (answered, 9 ∷ []))
parse_query_reply-marshal_query_reply_example =
    parse_query_reply-marshal_query_reply answered (9 ∷ [])
      (of_envelope_reply answer answer-IsEnvelopeReply)

abbrev write : ReplicaWrite
write = record {
  box_id = replicate 32 1;
  signature = replicate 64 2;
  payload_len = 29;
  payload = replicate 29 3;
}

write-IsSized : IsSized write.box_id write.signature write.payload_len write.payload
write-IsSized = record { id = refl; sig = refl; word = omega arith; size = refl }

abbrev written : ReplicaInnerMessage
written = record { message_type = 1; read_msg = none; write_msg = some write }

parse_inner-marshal_inner_example :
    (bytes : List ℕ) × (marshal_inner written ≡ some bytes)
    × (parse_inner (bytes ++ 9 ∷ []) ≡ some (written, 9 ∷ []))
parse_inner-marshal_inner_example =
    parse_inner-marshal_inner written (9 ∷ []) (of_write write write-IsSized)

abbrev box_read : ReplicaReadReply
box_read = record {
  error_code = 0;
  box_id = replicate 32 1;
  signature = replicate 64 2;
  payload_len = 29;
  payload = replicate 29 3;
}

box_read-IsSized : IsSized box_read.box_id box_read.signature box_read.payload_len box_read.payload
box_read-IsSized = record { id = refl; sig = refl; word = omega arith; size = refl }

abbrev delivered : ReplicaMessageReplyInnerMessage
delivered = record { message_type = 0; read_reply = some box_read; write_reply = none }

parse_inner_reply-marshal_inner_reply_example :
    (bytes : List ℕ) × (marshal_inner_reply delivered ≡ some bytes)
    × (parse_inner_reply (bytes ++ 9 ∷ []) ≡ some (delivered, 9 ∷ []))
parse_inner_reply-marshal_inner_reply_example =
    parse_inner_reply-marshal_inner_reply delivered (9 ∷ [])
      (of_read_reply box_read box_read-IsSized)

courier_stream-delivers_example :
    (sent : List (List ℕ)) × (send_stream courier_format 30 (letter ∷ letter ∷ []) ≡ ok sent)
    × All (λ b. length b ≤ 30) sent
    × (receive courier_format 30 200 (new_envelope_decoder 30 200) sent
        ≡ ok (letter ∷ letter ∷ [], [], between 30 200 [] true))
courier_stream-delivers_example =
    courier_stream-delivers 200 (omega arith) 30 letter (letter ∷ []) (omega arith) (omega arith)
      (letter-Fits, (letter-Fits, tt))

decode_envelopes_ends_example : ¬ (
    (decode_envelopes courier_format
      (add_box_data (new_envelope_decoder 30 200) (2 ∷ 0 ∷ 0 ∷ 0 ∷ 1 ∷ 7 ∷ 8 ∷ []))).failure
    ≡ some diverges)
decode_envelopes_ends_example =
    decode_envelopes_ends courier_format
      (add_box_data (new_envelope_decoder 30 200) (2 ∷ 0 ∷ 0 ∷ 0 ∷ 1 ∷ 7 ∷ 8 ∷ []))

abbrev toy_sizes : Sizes
toy_sizes = record {
  box_id_size = 32;
  signature_size = 64;
  dek_size = 60;
  nonce_size = 12;
  overhead = 16;
}

abbrev toy_nike : Scheme
toy_nike = record { name = "toy"; size = 4 }

new_geometry_from_sphinx-to_sphinx_geometry_example :
    (g : PigeonholeGeometry) × (s : Geometry) × (new_geometry toy_sizes
        (λ name. some toy_nike)
        9
        toy_nike
      ≡ ok g)
    × (to_sphinx_geometry (λ name. some toy_nike) g 5 true ≡ ok s)
    × (new_geometry_from_sphinx toy_sizes (λ name. some toy_nike) s toy_nike ≡ ok g)
    × All
        (λ m. m ≤ s.user_forward_payload_length)
        (g.courier_query_read_length ∷ g.courier_query_write_length
          ∷ g.courier_query_reply_read_length ∷ g.courier_query_reply_write_length ∷ [])
new_geometry_from_sphinx-to_sphinx_geometry_example =
    new_geometry_from_sphinx-to_sphinx_geometry toy_sizes (λ name. some toy_nike) toy_nike 9 5 true
      refl (omega arith)

toy_sizes-AreArrays : AreArrays toy_sizes
toy_sizes-AreArrays = record { box_id = refl; signature = refl; dek = refl }

abbrev toy_geometry : PigeonholeGeometry
toy_geometry = record {
  max_plaintext_payload_length = 9;
  courier_query_read_length = 203;
  courier_query_write_length = 300;
  courier_query_reply_read_length = 154;
  courier_query_reply_write_length = 50;
  nike_name = "toy";
  signature_scheme_name = "Ed25519";
}

toy_geometry-made : new_geometry toy_sizes (λ name. some toy_nike) 9 toy_nike ≡ ok toy_geometry
unfolding new_geometry
toy_geometry-made = refl

abbrev sealed : CourierEnvelope
sealed = record {
  intermediate_replicas = 0 ∷ 1 ∷ [];
  dek1 = replicate 60 2;
  dek2 = replicate 60 3;
  reply_index = 0;
  epoch = 9;
  sender_pubkey_len = 4;
  sender_pubkey = 4 ∷ 5 ∷ 6 ∷ 7 ∷ [];
  ciphertext_len = 158;
  ciphertext = replicate 158 8;
}

sealed-IsWellFormed : IsWellFormed sealed
sealed-IsWellFormed = omega arith

length-marshal_query_example :
    (bytes : List ℕ) × (marshal_query
        (record { query_type = 0; envelope = some sealed; copy_command = none })
      ≡ some bytes)
    × (length bytes ≡ 300)
unfolding encode_inner box_ciphertext_length mkem_encryption_overhead put_u32
length-marshal_query_example =
    length-marshal_query toy_sizes (λ name. some toy_nike) 9 toy_nike toy_nike write sealed
      toy_geometry toy_sizes-AreArrays refl toy_geometry-made write-IsSized refl sealed-IsWellFormed
      refl refl

length-marshal_query_reply_example :
    (bytes : List ℕ) × (marshal_query_reply answered ≡ some bytes) × (length bytes ≡ 154 + 45)
unfolding encode_inner_reply box_ciphertext_length mkem_encryption_overhead put_u32
length-marshal_query_reply_example =
    length-marshal_query_reply toy_sizes (λ name. some toy_nike) 9 toy_nike toy_nike box_read answer
      toy_geometry toy_sizes-AreArrays refl toy_geometry-made box_read-IsSized refl
      answer-IsEnvelopeReply refl
