-- ===== src/Wire/Client.antt =====
-- The commands between clients, mix nodes and their listeners, as they are sent and read.
use katzenpost_wt.Prelude.{
  ℕ, ◌+◌, ◌<◌, ◌^◌, ◌≡◌, refl, ◌∙◌, true, false, List, [], ◌∷◌, ◌++◌, some, ok, arith, length,
  length-append, replicate, ◌==◌, length-replicate, ◌-◌,
}
use katzenpost_wt.Prelude.Bytes.{length-put_u32, put_u32, copy_array_self}
use katzenpost_wt.Sphinx.Geometry.{Geometry, surb_id_length}
use katzenpost_wt.Wire.Id.{CommandId}
use katzenpost_wt.Wire.Command.{Command, Commands, Hpqc}
use katzenpost_wt.Wire.Serialize.{
  message_msg_padding_length, message_empty_length, message_base_length, message_ack_length,
  message_msg_length,
}
use katzenpost_wt.Wire.Encode.{
  to_bytes, no_op_to_bytes, disconnect_to_bytes, send_packet_to_bytes,
  send_retrieve_packet_to_bytes, send_retrieve_packet_reply_to_bytes, retrieve_message_to_bytes,
  message_to_bytes, message_ack_to_bytes, message_empty_to_bytes,
}
use katzenpost_wt.Wire.Body.{message_type_from_bytes}
use katzenpost_wt.Wire.Parse.{dispatch, parse, no_payload}
use katzenpost_wt.Wire.Received.{received}
use katzenpost_wt.Wire.Reading.{
  send_retrieve_packet_reply_from_bytes-lem, retrieve_message_from_bytes-put_u32,
  message_ack_from_bytes-lem, message_message_from_bytes-lem, message_empty_from_bytes-lem,
  message_from_bytes-lem,
}
use katzenpost_wt.Wire.Sent.{IsSent, IsBody, to_parse, sent_padded}
use katzenpost_wt.Wire.Frame.{dispatch-parse_any}

module _ {Key : Type 0} (hpqc : Hpqc Key) (c : Commands Key) where
  pub sent_no_op : IsSent hpqc c Command.no_op
  unfolding to_bytes no_op_to_bytes put_u32 dispatch no_payload received
  sent_no_op =
      sent_padded hpqc c _ CommandId.no_op 0 [] true refl
        (record { size = refl; reads = λ spare. refl })

  pub sent_disconnect : IsSent hpqc c Command.disconnect
  unfolding to_bytes disconnect_to_bytes put_u32 dispatch no_payload received
  sent_disconnect =
      sent_padded hpqc c _ CommandId.disconnect 0 [] true refl
        (record { size = refl; reads = λ spare. refl })

  pub sent_packet : (packet : List ℕ) → IsSent hpqc c (Command.send_packet packet)
  unfolding to_bytes send_packet_to_bytes no_payload parse received
  sent_packet packet = sent_padded hpqc c _ _ (length packet) packet true refl (record {
    size = refl;
    reads =
        λ spare. dispatch-parse_any hpqc c CommandId.send_packet (length packet) packet spare refl;
  })

  pub sent_retrieve_packet :
      (packet : List ℕ) (g : Geometry)
      → c.geo ≡ some g
      → length packet ≡ g.packet_length
      → IsSent hpqc c (Command.send_retrieve_packet packet)
  unfolding to_bytes send_retrieve_packet_to_bytes no_payload parse received
  sent_retrieve_packet packet g geo size =
      let whole : (length packet == g.packet_length) ≡ true = ground arith in
      sent_padded hpqc c _ _ (length packet) packet true (rw (to_bytes, geo, whole)) (record {
        size = refl;
        reads = λ spare.
            dispatch-parse_any hpqc c CommandId.send_retrieve_packet (length packet) packet spare
              refl;
      })

  pub sent_reply :
      (surb_id payload : List ℕ)
      → length surb_id ≡ surb_id_length
      → IsSent hpqc c (Command.send_retrieve_packet_reply surb_id payload)
  unfolding to_bytes send_retrieve_packet_reply_to_bytes parse received
  sent_reply surb_id payload size =
      sent_padded hpqc c _ CommandId.send_retrieve_packet_reply (surb_id_length + length payload)
        (surb_id ++ payload) false (rw (to_bytes, copy_array_self surb_id_length surb_id size))
        (to_parse hpqc c _ _ _ _ (omega (arith, length-append surb_id payload)) (omega arith)
          (λ spare. send_retrieve_packet_reply_from_bytes-lem surb_id payload spare size))

  pub sent_retrieve_message :
      (sequence : ℕ) → sequence < 2 ^ 32 → IsSent hpqc c (Command.retrieve_message sequence)
  unfolding to_bytes retrieve_message_to_bytes parse received
  sent_retrieve_message sequence h =
      sent_padded hpqc c _ CommandId.retrieve_message 4 (put_u32 sequence) true refl (
        to_parse hpqc c _ _ _ _ (length-put_u32 sequence) (omega arith)
          (λ spare. retrieve_message_from_bytes-put_u32 sequence h))

  -- The body of a message: its type, the hint and the sequence number, before what is left.
  message-IsBody :
      {cmd : Command Key} (t hint sequence n m : ℕ) (rest : List ℕ)
      → m ≡ message_base_length + n
      → sequence < 2 ^ 32
      → length rest ≡ n
      → message_type_from_bytes c.geo t hint sequence rest ≡ ok (received cmd)
      → IsBody hpqc c cmd CommandId.message m (t ∷ hint ∷ (put_u32 sequence ++ rest))
  unfolding parse
  message-IsBody t hint sequence n m rest total h size reads =
      to_parse hpqc c _ _ _ _
        (omega (arith, length-append (put_u32 sequence) rest, length-put_u32 sequence))
        (omega arith) (λ spare. message_from_bytes-lem c.geo t hint sequence rest h ∙ reads)

  pub sent_message :
      (hint sequence : ℕ) (payload : List ℕ) (g : Geometry)
      → sequence < 2 ^ 32
      → c.geo ≡ some g
      → length payload ≡ g.user_forward_payload_length
      → IsSent hpqc c (Command.message hint sequence payload)
  unfolding to_bytes message_to_bytes received message_type_from_bytes message_msg_length
  sent_message hint sequence payload g h geo size =
      let n = message_msg_padding_length g in
      let whole : (length payload == g.user_forward_payload_length) ≡ true = ground arith in
      let total : length (payload ++ replicate n 0) ≡ n + length payload =
        omega (arith, length-append payload (replicate n 0), length-replicate {A = ℕ} n 0) in
      sent_padded hpqc c _ CommandId.message (message_msg_length g + length payload)
        (0 ∷ hint ∷ (put_u32 sequence ++ (payload ++ replicate n 0))) false
        (rw (to_bytes, geo, whole))
        (message-IsBody 0 hint sequence (n + length payload) _ (payload ++ replicate n 0)
          (omega arith) h total
          (rw (geo) (message_message_from_bytes-lem g hint sequence payload size)))

  pub sent_message_ack :
      (hint sequence : ℕ) (id payload : List ℕ) (g : Geometry)
      → sequence < 2 ^ 32
      → length id ≡ surb_id_length
      → c.geo ≡ some g
      → length payload ≡ g.payload_tag_length + g.forward_payload_length
      → IsSent hpqc c (Command.message_ack hint sequence id payload)
  unfolding to_bytes message_ack_to_bytes received message_type_from_bytes
  sent_message_ack hint sequence id payload g h size geo payload_size =
      let whole : (length payload == g.payload_tag_length + g.forward_payload_length) ≡ true =
        ground arith in
      sent_padded hpqc c _ CommandId.message (message_ack_length + length payload)
        (1 ∷ hint ∷ (put_u32 sequence ++ (id ++ payload))) false
        (rw (to_bytes, geo, whole, copy_array_self surb_id_length id size))
        (message-IsBody 1 hint sequence (surb_id_length + length payload) _ (id ++ payload)
          (omega arith) h (omega (arith, length-append id payload))
          (rw (geo) (message_ack_from_bytes-lem g hint sequence id payload size payload_size)))

  pub sent_message_empty :
      (sequence : ℕ) (g : Geometry)
      → sequence < 2 ^ 32
      → c.geo ≡ some g
      → IsSent hpqc c (Command.message_empty sequence)
  unfolding to_bytes message_empty_to_bytes received message_type_from_bytes message_empty_length
  sent_message_empty sequence g h geo =
      let n = message_empty_length g - message_base_length in
      sent_padded hpqc c _ CommandId.message (message_empty_length g)
        (2 ∷ 0 ∷ (put_u32 sequence ++ replicate n 0)) false (rw (to_bytes, geo))
        (message-IsBody 2 0 sequence n _ (replicate n 0) (omega arith) h (length-replicate n 0)
          (rw (geo) (message_empty_from_bytes-lem g 0 sequence)))
