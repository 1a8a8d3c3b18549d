-- ===== src/Pigeonhole/CopyStream/Ending.antt =====
-- The loops of the courier's decoder in pigeonhole/copy_stream.go come to an end on any input.
use katzenpost_wt.Prelude.{
  ℕ, zero, suc, ◌+◌, ◌<◌, ◌≡◌, ◌⊎◌, inl, inr, ◌&&◌, List, [], ◌∷◌, Option, none, some, arith, ltb,
  length, length-drop, take, drop, Bool-cases, Option-cases,
}
use katzenpost_wt.Prelude.Bytes.{get_u32}
use katzenpost_wt.Pigeonhole.Element.{CopyStreamElement, parse_element, parse_element-rest}
use katzenpost_wt.Pigeonhole.CopyStream.{
  Format, StreamError, oversized_element, diverges, Decoder, EnvelopeDecoder, waiting, element,
  refused, decode_available, drain, stop, found, parse_round, parse_envelopes, parse_drained,
  decode_envelopes,
}
use katzenpost_wt.Pigeonhole.CopyStream.Delivery.{drain_goes_on, drain_waits}

decode_available-cases :
    (d : Decoder)
    → (decode_available d ≡ waiting)
      ⊎ (decode_available d ≡ refused oversized_element)
      ⊎ ((elem : CopyStreamElement) × (rest : List ℕ) × (decode_available d ≡ element elem rest)
          × (length rest < length d.buffer))
unfolding decode_available
decode_available-cases d =
    let total = 5 + get_u32 (take 4 (drop 1 d.buffer)) in
    elim (Bool-cases (ltb (length d.buffer) 5)) [
      | inl short ↦ inl (rw short)
      | inr long ↦ elim (Bool-cases (ltb 0 d.max_element_size && ltb d.max_element_size total)) [
        | inl large ↦ inr (inl (rw (long, large)))
        | inr fits ↦ elim (Option-cases (parse_element d.buffer)) [
          | inl part ↦ inl (rw (long, fits, part))
          | inr ((elem, rest), whole) ↦ inr (
              inr (elem, rest, rw (long, fits, whole), parse_element-rest d.buffer rest elem whole))
        ]
      ]
    ]

drain_refuses :
    (fuel : ℕ) (d : EnvelopeDecoder) (e : StreamError)
    → decode_available d.element_decoder ≡ refused e
    → drain (suc fuel) d ≡ (d, some e)
unfolding drain
drain_refuses fuel d e h = rw (drain, h)

drain_ends :
    (fuel : ℕ) (d : EnvelopeDecoder)
    → length d.element_decoder.buffer < fuel
    → ¬ ((drain fuel d).1 ≡ some diverges)
drain_ends zero d h = absurd (omega arith)
drain_ends (suc fuel) d h = elim (decode_available-cases d.element_decoder) [
  | inl waits ↦ rw (drain_waits fuel d waits) (λ e. cc)
  | inr (inl refuses) ↦ rw (drain_refuses fuel d oversized_element refuses) (λ e. cc)
  | inr (inr (elem, rest, goes_on, shorter)) ↦
      rw (drain_goes_on fuel d elem rest goes_on) (drain_ends fuel _ (omega arith))
]

module _ (F : Format) where
  open F use {Envelope, parse}

  parse_round-cases :
      (max : ℕ) (b : List ℕ)
      → ((e : Option StreamError) × (parse_round F max b ≡ stop e) × ¬ (e ≡ some diverges))
        ⊎ ((x : Envelope) × (rest : List ℕ) × (parse_round F max b ≡ found x rest)
            × (length rest < length b))
  unfolding parse_round
  parse_round-cases max b =
      let size = get_u32 (take 4 b) in
      elim (Bool-cases (ltb (length b) 4)) [
        | inl short ↦ inl (none, rw short, λ e. cc)
        | inr long ↦ elim (Bool-cases (ltb 0 max && ltb max size)) [
          | inl large ↦ inl (some StreamError.oversized_envelope, rw (long, large), λ e. cc)
          | inr fits ↦ elim (Bool-cases (ltb (length b) (4 + size))) [
            | inl part ↦ inl (none, rw (long, fits, part), λ e. cc)
            | inr all ↦ elim (Option-cases (parse (take size (drop 4 b)))) [
              | inl bad ↦ inl (some StreamError.bad_envelope, rw (long, fits, all, bad), λ e. cc)
              | inr ((x, []), whole) ↦ inr (
                x,
                drop (4 + size) b,
                rw (long, fits, all, whole),
                (let cut = length-drop (4 + size) b in ground arith),
              )
              | inr ((x, y ∷ ys), whole) ↦
                  inl (some StreamError.trailing_bytes, rw (long, fits, all, whole), λ e. cc)
            ]
          ]
        ]
      ]

  parse_envelopes_ends :
      (fuel max : ℕ) (b : List ℕ)
      → length b < fuel
      → ¬ ((parse_envelopes F fuel max b).failure ≡ some diverges)
  unfolding parse_envelopes
  parse_envelopes_ends zero max b h = absurd (omega arith)
  parse_envelopes_ends (suc fuel) max b h = elim (parse_round-cases max b) [
    | inl (e, stops, fine) ↦ rw (parse_envelopes, stops) fine
    | inr (x, rest, finds, shorter) ↦
        rw (parse_envelopes, finds) (parse_envelopes_ends fuel max rest (omega arith))
  ]

  parse_drained_ends :
      (p : EnvelopeDecoder × Option StreamError)
      → ¬ (p.1 ≡ some diverges)
      → ¬ ((parse_drained F p).failure ≡ some diverges)
  parse_drained_ends (d, some e) h = h
  parse_drained_ends (d, none) h =
      parse_envelopes_ends (suc (length d.envelope_buffer)) d.max_envelope_size d.envelope_buffer
        (omega arith)

  -- `DecodeEnvelopes` ends in every state of the decoder, whatever bytes its buffers hold: neither
  -- of its loops needs more rounds than one for each byte of its buffer and one more.
  pub decode_envelopes_ends :
      (d : EnvelopeDecoder) → ¬ ((decode_envelopes F d).failure ≡ some diverges)
  unfolding decode_envelopes
  decode_envelopes_ends d =
      parse_drained_ends (drain (suc (length d.element_decoder.buffer)) d)
        (drain_ends (suc (length d.element_decoder.buffer)) d (omega arith))
