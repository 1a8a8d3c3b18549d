-- ===== src/Pigeonhole/CopyStream.antt =====
-- pigeonhole/copy_stream.go: the client's encoder, which frames envelopes and cuts the frames into
-- elements that fit a box, and the courier's decoders. An encoder or decoder is a record that each
-- method returns anew. The envelopes and their marshalling are a parameter, `Format`.
pub mod Chunks
pub mod Sending
pub mod Receiving
pub mod Delivery
pub mod Couriers
pub mod Ending
use Prim.Native.Nat.{min, bit_or}
use katzenpost_wt.Prelude.{
  ℕ, zero, suc, ◌+◌, ◌-◌, ◌%◌, ◌^◌, Bool, true, false, ◌&&◌, List, [], ◌∷◌, ◌++◌, Option, none,
  some, Run, ok, err, panic, ◌>>=◌, ltb, if◌then◌else◌, length, take, drop, or_fail,
}
use katzenpost_wt.Prelude.Bytes.{put_u32, get_u32}
use katzenpost_wt.Pigeonhole.Element.{
  CopyStreamElement, start_flag, final_flag, element_overhead, is_final, parse_element,
  marshal_element,
}

-- `diverges` stands for a Go loop that does not end.
pub data StreamError : Type 0 where
  bad_envelope oversized_element oversized_envelope trailing_bytes diverges : StreamError

-- `CourierEnvelope`, its `MarshalBinary` and its `Parse`.
pub record Format : Type 1 where
  pub Envelope : Type 0
  pub marshal : Envelope → Option (List ℕ)
  pub parse : List ℕ → Option (Envelope × List ℕ)

-- `maxChunkSize` is `none` if it is negative.
pub record Encoder : Type 0 where
  pub buffer : List ℕ
  pub max_chunk_size : Option ℕ
  pub is_first_chunk : Bool

-- The argument is the geometry's `MaxPlaintextPayloadLength`.
unfoldable pub new_encoder : ℕ → Encoder
new_encoder max = record {
  buffer = [];
  max_chunk_size = if ltb max element_overhead then none else some (max - element_overhead);
  is_first_chunk = true;
}

suppress_start : Encoder → Encoder
suppress_start e = record e { is_first_chunk = false }

-- `GetBuffer` and `SetBuffer`.
get_buffer : Encoder → List ℕ
get_buffer e = e.buffer

set_buffer : Encoder → Option (List ℕ) → Encoder
set_buffer e none = e
set_buffer e (some b) = record e { buffer = b }

-- The flags of an element.
unfoldable pub flags_of : Bool → Bool → ℕ
flags_of first final =
    let flags = if first then bit_or 0 start_flag else 0 in
    if final then bit_or flags final_flag else flags

-- Marshal an element and append it, or `continue` on an error.
unfoldable pub emit : ℕ → List ℕ → List (List ℕ) → List (List ℕ)
emit flags chunk later =
    elim (marshal_element
      (record { flags = flags; envelope_len = length chunk % 2 ^ 32; envelope_data = chunk })) [
        | none ↦ later
        | some bytes ↦ bytes ∷ later
      ]

-- What a loop leaves behind: the elements, the buffer and `isFirstChunk`.
pub record Extracted : Type 0 where
  pub elements : List (List ℕ)
  pub rest : List ℕ
  pub first : Bool

-- The loop `for len(e.buffer) > e.maxChunkSize`. Each round takes `n` bytes off the buffer: its
-- length is fuel enough, unless `n` is 0.
unfoldable pub full_chunks : ℕ → ℕ → Bool → List ℕ → Run StreamError Extracted
full_chunks zero n first buffer =
    if ltb n (length buffer)
    then err diverges
    else ok (record { elements = []; rest = buffer; first = first })
full_chunks (suc fuel) n first buffer =
    let more = full_chunks fuel n false (drop n buffer) in
    if ltb n (length buffer)
    then (do
      x ← more
      ok (record x { elements = emit (flags_of first false) (take n buffer) x.elements }))
    else ok (record { elements = []; rest = buffer; first = first })

-- With a negative size `make` panics in the first round.
unfoldable pub extract_elements : Encoder → Run StreamError Extracted
extract_elements e = elim e.max_chunk_size [
  | none ↦ panic
  | some n ↦ full_chunks (length e.buffer) n e.is_first_chunk e.buffer
]

unfoldable pub flush : Encoder → Run StreamError (List (List ℕ) × Encoder)
flush e =
    if ltb 0 (length e.buffer)
    then (do
      x ← extract_elements e
      let last = emit (flags_of x.first true) x.rest []
      ok (x.elements ++ last, record e { buffer = []; is_first_chunk = false }))
    else ok ([], e)

-- The loop of `FlushWithoutFinal`.
small_chunks : ℕ → ℕ → Bool → List ℕ → Run StreamError Extracted
small_chunks zero n first buffer =
    if ltb 0 (length buffer)
    then err diverges
    else ok (record { elements = []; rest = buffer; first = first })
small_chunks (suc fuel) n first buffer =
    let size = min n (length buffer) in
    let more = small_chunks fuel n false (drop size buffer) in
    if ltb 0 (length buffer)
    then (do
      x ← more
      ok (record x { elements = emit (flags_of first false) (take size buffer) x.elements }))
    else ok (record { elements = []; rest = buffer; first = first })

flush_without_final : Encoder → Run StreamError (List (List ℕ) × Encoder)
unfolding small_chunks
flush_without_final e =
    if ltb 0 (length e.buffer)
    then elim e.max_chunk_size [
      | none ↦ panic
      | some n ↦ do
        x ← small_chunks (length e.buffer) n e.is_first_chunk e.buffer
        ok (x.elements, record e { buffer = x.rest; is_first_chunk = x.first })
    ]
    else ok ([], e)

pub record Decoder : Type 0 where
  pub buffer : List ℕ
  pub max_element_size : ℕ

abbrev pub new_decoder : ℕ → Decoder
new_decoder max = record { buffer = []; max_element_size = max }

abbrev pub add_data : Decoder → List ℕ → Decoder
add_data d bytes = record d { buffer = d.buffer ++ bytes }

-- The answers of `DecodeAvailable`: no whole element in the buffer, an element with what is then
-- left in the buffer, or an error.
pub data Decoded : Type 0 where
  waiting : Decoded
  element : (elem : CopyStreamElement) (remaining : List ℕ) → Decoded
  refused : StreamError → Decoded

unfoldable pub decode_available : Decoder → Decoded
decode_available d =
    let total = element_overhead + get_u32 (take 4 (drop 1 d.buffer)) in
    if ltb (length d.buffer) element_overhead
    then waiting
    else if ltb 0 d.max_element_size && ltb d.max_element_size total
    then refused oversized_element
    else elim (parse_element d.buffer) [
      | none ↦ waiting
      | some (elem, remaining) ↦ element elem remaining
    ]

pub record EnvelopeDecoder : Type 0 where
  pub element_decoder : Decoder
  pub envelope_buffer : List ℕ
  pub saw_final : Bool
  pub max_envelope_size : ℕ

-- The arguments are the geometry's `MaxPlaintextPayloadLength` and `CourierQueryWriteLength`.
unfoldable pub new_envelope_decoder : ℕ → ℕ → EnvelopeDecoder
new_envelope_decoder max max_envelope = record {
  element_decoder = new_decoder max;
  envelope_buffer = [];
  saw_final = false;
  max_envelope_size = max_envelope;
}

unfoldable pub add_box_data : EnvelopeDecoder → List ℕ → EnvelopeDecoder
add_box_data d bytes = record d { element_decoder = add_data d.element_decoder bytes }

-- The first loop of `DecodeEnvelopes`. A round that goes on takes five bytes or more: one round
-- more than the buffer has bytes is enough.
unfoldable pub drain : ℕ → EnvelopeDecoder → EnvelopeDecoder × Option StreamError
drain zero d = (d, some diverges)
drain (suc fuel) d = elim (decode_available d.element_decoder) [
  | waiting ↦ (d, none)
  | refused e ↦ (d, some e)
  | element elem remaining ↦ drain fuel (record d {
    element_decoder = record d.element_decoder { buffer = remaining };
    envelope_buffer = d.envelope_buffer ++ elem.envelope_data;
    saw_final = if is_final elem then true else d.saw_final;
  })
]

module _ (F : Format) where
  open F use {Envelope, marshal, parse}

  -- `none` is a nil envelope.
  unfoldable pub add_envelope :
      Encoder → Option Envelope → Run StreamError (List (List ℕ) × Encoder)
  add_envelope e none = err bad_envelope
  add_envelope e (some envelope) = do
    bytes ← or_fail (marshal envelope) bad_envelope
    x ←
        extract_elements
          (record e { buffer = (e.buffer ++ put_u32 (length bytes % 2 ^ 32)) ++ bytes })
    ok (x.elements, record e { buffer = x.rest; is_first_chunk = x.first })

  -- The envelopes that the second loop of `DecodeEnvelopes` returns, the buffer that it leaves,
  -- and its error.
  pub record Parsed : Type 0 where
    pub envelopes : List Envelope
    pub rest : List ℕ
    pub failure : Option StreamError

  -- One round of that loop: it ends, with an error or without, or finds an envelope, with what is
  -- then left in the buffer.
  pub data Round : Type 0 where
    stop : Option StreamError → Round
    found : (envelope : Envelope) (rest : List ℕ) → Round

  unfoldable pub parse_round : ℕ → List ℕ → Round
  parse_round max buffer =
      let size = get_u32 (take 4 buffer) in
      if ltb (length buffer) 4
      then stop none
      else if ltb 0 max && ltb max size
      then stop (some oversized_envelope)
      else if ltb (length buffer) (4 + size)
      then stop none
      else elim (parse (take size (drop 4 buffer))) [
        | none ↦ stop (some bad_envelope)
        | some (envelope, []) ↦ found envelope (drop (4 + size) buffer)
        | some (envelope, x ∷ xs) ↦ stop (some trailing_bytes)
      ]

  -- A round that goes on takes four bytes or more: one round more than the buffer has bytes is
  -- enough.
  unfoldable pub parse_envelopes : ℕ → ℕ → List ℕ → Parsed
  parse_envelopes zero max buffer = record {
    envelopes = [];
    rest = buffer;
    failure = some diverges;
  }
  parse_envelopes (suc fuel) max buffer = elim (parse_round max buffer) [
    | stop e ↦ record { envelopes = []; rest = buffer; failure = e }
    | found envelope rest ↦
        let more = parse_envelopes fuel max rest in
        record more { envelopes = envelope ∷ more.envelopes }
  ]

  pub record Received : Type 0 where
    pub envelopes : List Envelope
    pub state : EnvelopeDecoder
    pub failure : Option StreamError

  -- The second loop, if the first had no error; one that had comes with no envelopes.
  abbrev pub parse_drained : EnvelopeDecoder × Option StreamError → Received
  parse_drained (d, some e) = record { envelopes = []; state = d; failure = some e }
  parse_drained (d, none) =
      let p =
        parse_envelopes (suc (length d.envelope_buffer)) d.max_envelope_size d.envelope_buffer in
      record {
        envelopes = p.envelopes;
        state = record d { envelope_buffer = p.rest };
        failure = p.failure;
      }

  unfoldable pub decode_envelopes : EnvelopeDecoder → Received
  decode_envelopes d = parse_drained (drain (suc (length d.element_decoder.buffer)) d)
