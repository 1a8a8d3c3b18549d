-- ===== src/Pigeonhole/CopyStream/Couriers.antt =====
-- The copy stream of pigeonhole/copy_stream.go with the envelopes of pigeonhole/trunnel_messages.go.
use katzenpost_wt.Prelude.{
  ℕ, ◌^◌, ◌≤◌, ◌<◌, ◌≡◌, sym, ap, ◌∙◌, true, List, [], ◌∷◌, ok, arith, length, All,
}
use mathlib.Core.List.{append-nil}
use katzenpost_wt.Pigeonhole.Envelope.{
  CourierEnvelope, IsWellFormed, encode_envelope, parse_envelope, marshal_envelope,
  marshal_envelope-encode_envelope, parse_envelope-encode_envelope,
}
use katzenpost_wt.Pigeonhole.CopyStream.{Format, new_envelope_decoder}
use katzenpost_wt.Pigeonhole.CopyStream.Sending.{IsGood, bytes_of, send_stream}
use katzenpost_wt.Pigeonhole.CopyStream.Delivery.{receive, between, copy_stream-delivers}

abbrev pub courier_format : Format
courier_format = record {
  Envelope = CourierEnvelope;
  marshal = marshal_envelope;
  parse = parse_envelope;
}

-- An envelope that fits the courier's limit.
abbrev pub Fits : ℕ → CourierEnvelope → Type 0
Fits limit e = IsWellFormed e × (length (encode_envelope e) ≤ limit)

module _ (limit : ℕ) (word : limit < 2 ^ 32) where
  Fits-IsGood : (e : CourierEnvelope) → Fits limit e → IsGood courier_format limit e
  Fits-IsGood e (w, h) =
      let encodes = marshal_envelope-encode_envelope e w in
      let same : bytes_of courier_format e ≡ encode_envelope e = rw encodes in
      record {
        marshals = rw encodes;
        parses =
            ap parse_envelope (same ∙ sym (append-nil (encode_envelope e)))
            ∙ parse_envelope-encode_envelope e [] w;
        size = omega (arith, ap length same);
        accepted = omega (arith, ap length same);
      }

  All-IsGood :
      (es : List CourierEnvelope) → All (Fits limit) es → All (IsGood courier_format limit) es
  All-IsGood [] a = tt
  All-IsGood (e ∷ es) (f, a) = (Fits-IsGood e f, All-IsGood es a)

  -- The courier's decoder undoes the client's encoder. For one or more well-formed envelopes whose
  -- encodings are no longer than the decoder's limit, and boxes of more than five bytes, both below
  -- `2 ^ 32`: `AddEnvelope` on each envelope and `Flush` succeed, and no element is larger than a
  -- box. A decoder to which the elements are added one at a time, and which decodes after each until
  -- it sees the final one, gives the envelopes, all of them and in order, with no error, no element
  -- left unread, and both its buffers empty.
  pub courier_stream-delivers :
      (max : ℕ) (x : CourierEnvelope) (xs : List CourierEnvelope)
      → 5 < max
      → max < 2 ^ 32
      → All (Fits limit) (x ∷ xs)
      → (sent : List (List ℕ)) × (send_stream courier_format max (x ∷ xs) ≡ ok sent)
        × All (λ b. length b ≤ max) sent
        × (receive courier_format max limit (new_envelope_decoder max limit) sent
            ≡ ok (x ∷ xs, [], between max limit [] true))
  courier_stream-delivers max x xs room small fits =
      copy_stream-delivers courier_format max limit x xs room small (All-IsGood (x ∷ xs) fits)
