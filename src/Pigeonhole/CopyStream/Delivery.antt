-- ===== src/Pigeonhole/CopyStream/Delivery.antt =====
-- A whole stream of pigeonhole/copy_stream.go, from the client's encoder to the courier's decoder.
use mathlib.Core.Path.{subst}
use katzenpost_wt.Prelude.{
  ℕ, suc, ◌+◌, ◌-◌, ◌^◌, ◌≤◌, ◌<◌, ◌≡◌, refl, sym, ap, ◌∙◌, Bool, true, false, ◌&&◌, List, [], ◌∷◌,
  ◌++◌, none, some, Run, ok, err, ◌>>=◌, arith, ltb, length, take, drop, All, if◌then◌else◌,
}
use mathlib.Core.List.{append_assoc, append-nil}
use katzenpost_wt.Prelude.Bytes.{get_u32}
use katzenpost_wt.Pigeonhole.Element.{
  CopyStreamElement, is_final, parse_element, length-encode_element, length_field,
  parse_element-encode_element,
}
use katzenpost_wt.Pigeonhole.CopyStream.{
  Format, StreamError, EnvelopeDecoder, new_decoder, new_envelope_decoder, add_box_data, waiting,
  element, decode_available, drain, parse_envelopes, Received, decode_envelopes, parse_drained,
  flags_of,
}
use katzenpost_wt.Pigeonhole.CopyStream.Chunks.{box, boxes, still_first, joined, element_of}
use katzenpost_wt.Pigeonhole.CopyStream.Sending.{framed, IsGood, send_stream, send_stream-Sent}
use katzenpost_wt.Pigeonhole.CopyStream.Receiving.{Progress, parse-Progress}

is_final-flags_of :
    (first final : Bool) (c : List ℕ) → is_final (element_of (flags_of first final) c) ≡ final
unfolding is_final flags_of
is_final-flags_of true true c = refl
is_final-flags_of true false c = refl
is_final-flags_of false true c = refl
is_final-flags_of false false c = refl

-- The courier's decoder between two boxes.
abbrev pub between : ℕ → ℕ → List ℕ → Bool → EnvelopeDecoder
between max limit kept seen = record {
  element_decoder = new_decoder max;
  envelope_buffer = kept;
  saw_final = seen;
  max_envelope_size = limit;
}

-- One round of `drain`.
pub drain_goes_on :
    (fuel : ℕ) (d : EnvelopeDecoder) (elem : CopyStreamElement) (remaining : List ℕ)
    → decode_available d.element_decoder ≡ element elem remaining
    → drain (suc fuel) d
      ≡ drain fuel (record d {
        element_decoder = record d.element_decoder { buffer = remaining };
        envelope_buffer = d.envelope_buffer ++ elem.envelope_data;
        saw_final = if is_final elem then true else d.saw_final;
      })
unfolding drain
drain_goes_on fuel d elem remaining h = rw (drain, h)

pub drain_waits :
    (fuel : ℕ) (d : EnvelopeDecoder)
    → decode_available d.element_decoder ≡ waiting
    → drain (suc fuel) d ≡ (d, none)
unfolding drain
drain_waits fuel d h = rw (drain, h)

module _ (max : ℕ) (flags : ℕ) (c : List ℕ) (small : length c < 2 ^ 32)
    (fits : 5 + length c ≤ max) where
  parsed : parse_element (box flags c) ≡ some (element_of flags c, [])
  parsed =
      ap parse_element (sym (append-nil (box flags c)))
      ∙ parse_element-encode_element (element_of flags c) refl [] small

  length-box : length (box flags c) ≡ 5 + length c
  length-box = length-encode_element (element_of flags c) refl

  decodes :
      decode_available (record (new_decoder max) { buffer = box flags c })
      ≡ element (element_of flags c) []
  unfolding decode_available
  decodes =
      let long : ltb (length (box flags c)) 5 ≡ false = ground (arith, length-box) in
      let value : get_u32 (take 4 (drop 1 (box flags c))) ≡ length c =
        length_field (element_of flags c) refl small in
      let legal : (ltb 0 max && ltb max (5 + length c)) ≡ false = ground arith in
      rw (long, value, legal, parsed)

  waits : decode_available (new_decoder max) ≡ waiting
  unfolding decode_available
  waits = refl

  drain-box :
      (limit : ℕ) (kept : List ℕ) (seen : Bool)
      → drain
          (suc (length (box flags c)))
          (add_box_data (between max limit kept seen) (box flags c))
        ≡ (
          between max limit (kept ++ c) (if is_final (element_of flags c) then true else seen),
          none,
        )
  unfolding add_box_data
  drain-box limit kept seen =
      let d = add_box_data (between max limit kept seen) (box flags c) in
      let bytes : length (box flags c) ≡ suc (4 + length c) = omega (arith, length-box) in
      ap (λ (k : ℕ). drain (suc k) d) bytes
      ∙ drain_goes_on (suc (4 + length c)) d (element_of flags c) [] decodes
      ∙ drain_waits (4 + length c) _ waits

All-right {ℓ κ} :
    {A : Type ℓ} (P : A → Type κ) (xs ys zs : List A) → zs ≡ xs ++ ys → All P zs → All P ys
All-right P [] ys zs e a = subst (All P) e a
All-right P (x ∷ xs) ys zs e a = All-right P xs ys (xs ++ ys) refl (subst (All P) e a).1

module _ (F : Format) (max limit : ℕ) where
  open F use {Envelope}

  abbrev pub Taken : Type 0
  Taken = List Envelope × List (List ℕ) × EnvelopeDecoder

  -- What one round makes of the answer to a box. `bs` are the boxes after it
  -- and `more` is what the rounds for them make.
  abbrev pub after_box : Received F → List (List ℕ) → Run StreamError Taken → Run StreamError Taken
  after_box r bs more = elim r.failure [
    | some e ↦ err e
    | none ↦
        if r.state.saw_final
        then ok (r.envelopes, bs, r.state)
        else more >>= λ (es, left, d). ok (r.envelopes ++ es, left, d)
  ]

  -- The decoder over the boxes of a stream, until it has seen the final element: the envelopes, the
  -- boxes that are not read, and the decoder.
  unfoldable pub receive : EnvelopeDecoder → List (List ℕ) → Run StreamError Taken
  receive d [] = ok ([], [], d)
  receive d (b ∷ bs) =
      let r = decode_envelopes F (add_box_data d b) in after_box r bs (receive r.state bs)

  decode_envelopes-ok :
      (d d' : EnvelopeDecoder) {done : List Envelope} {kept : List ℕ}
      → drain (suc (length d.element_decoder.buffer)) d ≡ (d', none)
      → parse_envelopes F (suc (length d'.envelope_buffer)) d'.max_envelope_size d'.envelope_buffer
        ≡ record { envelopes = done; rest = kept; failure = none }
      → decode_envelopes F d
        ≡ record { envelopes = done; state = record d' { envelope_buffer = kept }; failure = none }
  unfolding decode_envelopes
  decode_envelopes-ok d d' h1 h2 =
      ap (parse_drained F) h1
      ∙ ap
          (λ p. record {
            envelopes = p.envelopes;
            state = record d' { envelope_buffer = p.rest };
            failure = p.failure;
          })
          h2

  if_same : (b : Bool) → (if b then true else false) ≡ b
  if_same true = refl
  if_same false = refl

  -- One box.
  one_box :
      (first final : Bool) (c kept q : List ℕ) (todo : List Envelope)
      → length c < 2 ^ 32
      → 5 + length c ≤ max
      → (p : Progress F limit (suc (length (kept ++ c))) (kept ++ c) q todo)
      → decode_envelopes F
          (add_box_data (between max limit kept false) (box (flags_of first final) c))
        ≡ record { envelopes = p.done; state = between max limit p.kept final; failure = none }
  unfolding add_box_data
  one_box first final c kept q todo small fits p =
      let flags = flags_of first final in
      let seen : (if is_final (element_of flags c) then true else false) ≡ final =
        if_same _ ∙ is_final-flags_of first final c in
      decode_envelopes-ok (add_box_data (between max limit kept false) (box flags c))
        (between max limit (kept ++ c) final)
        (drain-box max flags c small fits limit kept false
          ∙ ap (λ b. (between max limit (kept ++ c) b, none)) seen)
        p.runs

  receive_goes_on :
      (d d' : EnvelopeDecoder) (b : List ℕ) (bs : List (List ℕ)) (done es : List Envelope)
      (left : List (List ℕ)) (end : EnvelopeDecoder)
      → decode_envelopes F (add_box_data d b)
        ≡ record { envelopes = done; state = d'; failure = none }
      → d'.saw_final ≡ false
      → receive d' bs ≡ ok (es, left, end)
      → receive d (b ∷ bs) ≡ ok (done ++ es, left, end)
  unfolding receive
  receive_goes_on d d' b bs done es left end h1 h2 h3 =
      ap (λ r. after_box r bs (receive r.state bs)) h1 ∙ rw (h3, h2)

  receive_ends :
      (d d' : EnvelopeDecoder) (b : List ℕ) (bs : List (List ℕ)) (done : List Envelope)
      → decode_envelopes F (add_box_data d b)
        ≡ record { envelopes = done; state = d'; failure = none }
      → d'.saw_final ≡ true
      → receive d (b ∷ bs) ≡ ok (done, bs, d')
  unfolding receive
  receive_ends d d' b bs done h1 h2 =
      ap (λ r. after_box r bs (receive r.state bs)) h1
      ∙ ap
          (λ t.
            if t
            then ok (done, bs, d')
            else receive d' bs >>= λ (es, left, d). ok (done ++ es, left, d))
          h2

  receive-boxes :
      (first : Bool) (cs : List (List ℕ)) (last kept : List ℕ) (todo : List Envelope)
      → kept ++ (joined cs ++ last) ≡ framed F todo
      → All (λ c. length c < 2 ^ 32 × (5 + length c ≤ max)) cs
      → length last < 2 ^ 32
      → 5 + length last ≤ max
      → All (IsGood F limit) todo
      → receive
          (between max limit kept false)
          (boxes first cs ++ box (flags_of (still_first first cs) true) last ∷ [])
        ≡ ok (todo, [], between max limit [] true)
  receive-boxes first [] last kept todo e sizes small fits good =
      let p =
        parse-Progress F limit (suc (length (kept ++ last))) todo (kept ++ last) [] (omega arith)
          (append-nil (kept ++ last) ∙ e) good in
      let all : p.done ≡ todo =
        sym (append-nil p.done) ∙ ap (λ t. p.done ++ t) (sym (p.end refl)) ∙ sym p.order in
      let none_kept : p.kept ≡ [] = sym (append-nil p.kept) ∙ p.next ∙ ap (framed F) (p.end refl) in
      receive_ends (between max limit kept false) (between max limit p.kept true)
        (box (flags_of first true) last) [] p.done
        (one_box first true last kept [] todo small fits p) refl
      ∙ ap (λ es. ok (es, [], between max limit p.kept true)) all
      ∙ ap (λ k. ok (todo, [], between max limit k true)) none_kept
  receive-boxes first (c ∷ cs) last kept todo e (size, sizes) small fits good =
      let q = joined cs ++ last in
      let whole : (kept ++ c) ++ q ≡ framed F todo =
        append_assoc kept c q ∙ ap (λ t. kept ++ t) (sym (append_assoc c (joined cs) last)) ∙ e in
      let p =
        parse-Progress F limit (suc (length (kept ++ c))) todo (kept ++ c) q (omega arith) whole
          good in
      let later =
        receive-boxes false cs last p.kept p.later p.next sizes small fits
          (All-right (IsGood F limit) p.done p.later todo p.order good) in
      let same : still_first false cs ≡ false = later_first cs in
      receive_goes_on (between max limit kept false) (between max limit p.kept false)
        (box (flags_of first false) c) _ p.done p.later [] (between max limit [] true)
        (one_box first false c kept q todo size.0 size.1 p) refl
        (ap
            (λ b.
              receive (between max limit p.kept false)
                (boxes false cs ++ box (flags_of b true) last ∷ []))
            (sym same)
          ∙ later)
      ∙ ap (λ es. ok (es, [], between max limit [] true)) (sym p.order)
    where
      later_first : (cs : List (List ℕ)) → still_first false cs ≡ false
      later_first [] = refl
      later_first (c ∷ cs) = refl

  boxes-fit :
      (n : ℕ) (first : Bool) (cs : List (List ℕ)) (flags : ℕ) (last : List ℕ)
      → 5 + n ≤ max
      → All (λ c. length c ≤ n) cs
      → length last ≤ n
      → All (λ b. length b ≤ max) (boxes first cs ++ box flags last ∷ [])
  boxes-fit n first [] flags last h sizes small =
      (omega (arith, length-encode_element (element_of flags last) refl), tt)
  boxes-fit n first (c ∷ cs) flags last h (size, sizes) small = (
    omega (arith, length-encode_element (element_of (flags_of first false) c) refl),
    boxes-fit n false cs flags last h sizes small,
  )

  sizes_allow :
      (n : ℕ) (cs : List (List ℕ))
      → 5 + n ≤ max
      → n < 2 ^ 32
      → All (λ c. length c ≤ n) cs
      → All (λ c. length c < 2 ^ 32 × (5 + length c ≤ max)) cs
  sizes_allow n [] h small sizes = tt
  sizes_allow n (c ∷ cs) h small (size, sizes) =
      ((omega arith, omega arith), sizes_allow n cs h small sizes)

  -- The whole stream, for envelopes that their format round trips.
  pub copy_stream-delivers :
      (x : Envelope) (xs : List Envelope)
      → 5 < max
      → max < 2 ^ 32
      → All (IsGood F limit) (x ∷ xs)
      → (sent : List (List ℕ)) × (send_stream F max (x ∷ xs) ≡ ok sent)
        × All (λ b. length b ≤ max) sent
        × (receive (new_envelope_decoder max limit) sent
            ≡ ok (x ∷ xs, [], between max limit [] true))
  unfolding new_envelope_decoder
  copy_stream-delivers x xs room small good =
      let n = max - 5 in
      let s = send_stream-Sent F n (omega arith) (omega arith) limit max x xs (omega arith) good in
      (
        boxes true s.chunks ++ box (flags_of (still_first true s.chunks) true) s.last ∷ [],
        s.runs,
        boxes-fit n true s.chunks _ s.last (omega arith) s.sizes s.last_size,
        receive-boxes true s.chunks s.last [] (x ∷ xs) s.whole
            (sizes_allow n s.chunks (omega arith) (omega arith) s.sizes)
            (omega (arith, s.last_size)) (omega (arith, s.last_size)) good,
      )
