-- ===== src/Courier/Tests.antt =====
-- Runs of the courier's copy command.
use katzenpost_wt.Prelude.{
  ℕ, ◌≡◌, ◌-◌, refl, Bool, if◌then◌else◌, ◌==◌, true, List, [], ◌∷◌, some, ok, arith, replicate,
}
use katzenpost_wt.Prelude.Bytes.{put_u32}
use katzenpost_wt.Pigeonhole.Wire.{put_u16, put_u64}
use katzenpost_wt.Pigeonhole.Envelope.{
  CourierEnvelope, IsWellFormed, encode_envelope, marshal_envelope,
}
use katzenpost_wt.Pigeonhole.Element.{marshal_element}
use katzenpost_wt.Pigeonhole.CopyStream.{
  new_encoder, add_envelope, flush, emit, flags_of, full_chunks, extract_elements,
}
use katzenpost_wt.Pigeonhole.CopyStream.Sending.{send_stream, add_each}
use katzenpost_wt.Pigeonhole.CopyStream.Couriers.{courier_format, Fits}
use katzenpost_wt.Courier.CopyCommand.{
  Read, unreadable, plaintext, process_copy_command, copy_succeeded_reply,
}
use katzenpost_wt.Courier.Delivery.{process_copy_command-delivers}

abbrev letter : CourierEnvelope
letter = record {
  intermediate_replicas = 0 ∷ 1 ∷ [];
  dek1 = replicate 60 2;
  dek2 = replicate 60 3;
  reply_index = 0;
  epoch = 9;
  sender_pubkey_len = 2;
  sender_pubkey = 4 ∷ 5 ∷ [];
  ciphertext_len = 3;
  ciphertext = 6 ∷ 7 ∷ 8 ∷ [];
}

letter-IsWellFormed : IsWellFormed letter
letter-IsWellFormed = omega arith

letter-Fits : Fits 200 letter
unfolding encode_envelope put_u64 put_u32 put_u16
letter-Fits = (letter-IsWellFormed, omega arith)

-- The whole envelope is in one element, which is the first and the last.
abbrev boxes : List (List ℕ)
boxes = (3 ∷ 0 ∷ 0 ∷ 0 ∷ 146 ∷ 0 ∷ 0 ∷ 0 ∷ 142 ∷ encode_envelope letter) ∷ []

boxes_sent : send_stream courier_format 200 (letter ∷ []) ≡ ok boxes
unfolding send_stream add_each new_encoder add_envelope flush emit flags_of full_chunks
    extract_elements marshal_envelope marshal_element encode_envelope put_u64 put_u32 put_u16
boxes_sent = refl

abbrev accepts : CourierEnvelope → Bool × ℕ
accepts e = (true, 0)

abbrev from_list : List (List ℕ) → ℕ → Read
from_list [] n = unreadable 1
from_list (b ∷ bs) n = if n == 0 then plaintext b else from_list bs (n - 1)

process_copy_command-delivers_example :
    process_copy_command courier_format accepts (some (from_list boxes)) 200 200
    ≡ record { dispatched = letter ∷ []; reply = copy_succeeded_reply }
process_copy_command-delivers_example =
    process_copy_command-delivers 200 200 letter [] boxes (from_list boxes) accepts (omega arith)
      (omega arith) (omega arith) (letter-Fits, tt) boxes_sent (omega arith) (omega arith)
      (refl, tt) (refl, tt)
