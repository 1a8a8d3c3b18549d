-- ===== src/Courier/CopyCommand.antt =====
-- `processCopyCommand` of courier/server/plugin.go, its loop over the boxes of the temporary stream.
-- The boxes that bacap names and the replicas return, and the dispatch of an envelope to the
-- replicas, are parameters. The tombstones that are written after the reply are left out.
use katzenpost_wt.Prelude.{
  ℕ, zero, suc, ◌+◌, ◌^◌, Bool, true, false, List, [], ◌∷◌, ◌++◌, Option, none, some, length, leb,
}
use katzenpost_wt.Pigeonhole.Query.{CourierQueryReply}
use katzenpost_wt.Pigeonhole.CopyStream.{
  Format, StreamError, EnvelopeDecoder, new_envelope_decoder, add_box_data, decode_envelopes,
}

abbrev pub copy_status_succeeded : ℕ
copy_status_succeeded = 0

abbrev pub copy_status_failed : ℕ
copy_status_failed = 2

abbrev pub max_copy_stream_boxes : ℕ
max_copy_stream_boxes = 2 ^ 16

abbrev pub max_copy_stream_envelopes : ℕ
max_copy_stream_envelopes = 2 ^ 16

abbrev pub copy_succeeded_reply : CourierQueryReply
copy_succeeded_reply = record {
  reply_type = 1;
  envelope_reply = none;
  copy_command_reply =
      some (record { status = copy_status_succeeded; error_code = 0; failed_envelope_index = 0 });
}

abbrev pub copy_failed_reply : ℕ → ℕ → CourierQueryReply
copy_failed_reply replica_err index = record {
  reply_type = 1;
  envelope_reply = none;
  copy_command_reply = some (record {
    status = copy_status_failed;
    error_code = replica_err;
    failed_envelope_index = index;
  });
}

-- What the courier gets for the next box: no name from bacap, the error of the replicas, or a
-- plaintext.
pub data Read : Type 0 where
  unnamed : Read
  unreadable : (replica_code : ℕ) → Read
  plaintext : (box : List ℕ) → Read

module _ (F : Format) where
  open F use {Envelope}

  -- The envelopes that went to their replicas, and the answer to the client.
  pub record Copied : Type 0 where
    pub dispatched : List Envelope
    pub reply : CourierQueryReply

  -- `dispatchCopyEnvelope` on the envelopes of a box: those that went out, and the replica's error
  -- where one did not.
  unfoldable pub dispatch_all : (Envelope → Bool × ℕ) → List Envelope → List Envelope × Option ℕ
  dispatch_all dispatch [] = ([], none)
  dispatch_all dispatch (e ∷ es) =
      let (ok_sent, replica_err) = dispatch e in
      elim ok_sent [
        | false ↦ ([], some replica_err)
        | true ↦ let (sent, stopped) = dispatch_all dispatch es in (e ∷ sent, stopped)
      ]

  unfoldable pub and_then : List Envelope → Copied → Copied
  and_then sent c = record c { dispatched = sent ++ c.dispatched }

  -- What follows the dispatch, where `go_on` is the rest of the loop.
  unfoldable pub after_dispatch :
      EnvelopeDecoder → ℕ → List Envelope × Option ℕ → (ℕ → EnvelopeDecoder → Copied) → Copied
  unfolding and_then
  after_dispatch state processed (sent, some replica_err) go_on = record {
    dispatched = sent;
    reply = copy_failed_reply replica_err (processed + length sent + 1);
  }
  after_dispatch state processed (sent, none) go_on = elim state.saw_final [
    | true ↦ record { dispatched = sent; reply = copy_succeeded_reply }
    | false ↦ and_then sent (go_on (processed + length sent) state)
  ]

  unfoldable pub after_decode :
      (Envelope → Bool × ℕ)
      → ℕ
      → List Envelope
      → EnvelopeDecoder
      → Option StreamError
      → (ℕ → EnvelopeDecoder → Copied)
      → Copied
  unfolding dispatch_all after_dispatch
  after_decode dispatch processed envelopes state (some e) go_on = record {
    dispatched = [];
    reply = copy_failed_reply 0 (processed + 1);
  }
  after_decode dispatch processed envelopes state none go_on =
      after_dispatch state processed (dispatch_all dispatch envelopes) go_on

  -- The loop. `room` is how many boxes it may still read, and `n` how many it has read.
  unfoldable pub copy_boxes :
      (Envelope → Bool × ℕ) → (ℕ → Read) → ℕ → ℕ → ℕ → EnvelopeDecoder → Copied
  unfolding after_decode
  copy_boxes dispatch reads zero n processed d = record {
    dispatched = [];
    reply = copy_failed_reply 0 (processed + 1);
  }
  copy_boxes dispatch reads (suc room) n processed d =
      elim (leb max_copy_stream_envelopes processed) [
        | true ↦ record { dispatched = []; reply = copy_failed_reply 0 (processed + 1) }
        | false ↦ elim (reads n) [
          | unnamed ↦ record { dispatched = []; reply = copy_failed_reply 0 (processed + 1) }
          | unreadable code ↦ record {
            dispatched = [];
            reply = copy_failed_reply code (processed + 1);
          }
          | plaintext box ↦
              let r = decode_envelopes F (add_box_data d box) in
              after_decode dispatch processed r.envelopes r.state r.failure
                (λ processed d. copy_boxes dispatch reads room (suc n) processed d)
        ]
      ]

  -- `processCopyCommand`, where the reader of the stream is `none` if bacap refuses the write
  -- capability or its reader; `max` and `limit` are those of the decoder's geometry.
  unfoldable pub process_copy_command : (Envelope → Bool × ℕ) → Option (ℕ → Read) → ℕ → ℕ → Copied
  unfolding copy_boxes
  process_copy_command dispatch none max limit = record {
    dispatched = [];
    reply = copy_failed_reply 0 0;
  }
  process_copy_command dispatch (some reads) max limit =
      copy_boxes dispatch reads max_copy_stream_boxes 0 0 (new_envelope_decoder max limit)
