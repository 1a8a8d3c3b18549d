-- ===== src/Pigeonhole/CopyStream/Chunks.antt =====
-- The encoder's loop of pigeonhole/copy_stream.go over a buffer: what the elements that it emits
-- hold, and what it leaves.
use katzenpost_wt.Prelude.{
  ℕ, zero, suc, ◌-◌, ◌%◌, ◌^◌, ◌≤◌, ◌<◌, ◌≡◌, refl, ap, ◌∙◌, Bool, false, inl, inr, List, [], ◌∷◌,
  ◌++◌, ok, arith, ltb, length, length-take, length-drop, take, drop, take-append-drop, All,
  Bool-cases, ltb→lt,
}
use mathlib.Core.List.{append_assoc}
use katzenpost_wt.Pigeonhole.Element.{CopyStreamElement, encode_element, marshal_element-fits}
use katzenpost_wt.Pigeonhole.CopyStream.{flags_of, emit, Extracted, full_chunks}

-- The element that holds a chunk, and its encoding.
abbrev pub element_of : ℕ → List ℕ → CopyStreamElement
element_of flags chunk = record {
  flags = flags;
  envelope_len = length chunk;
  envelope_data = chunk;
}

abbrev pub box : ℕ → List ℕ → List ℕ
box flags chunk = encode_element (element_of flags chunk)

-- The elements of chunks none of which is the final one, and whether the next is still the first.
abbrev pub boxes : Bool → List (List ℕ) → List (List ℕ)
boxes first [] = []
boxes first (c ∷ cs) = box (flags_of first false) c ∷ boxes false cs

abbrev pub still_first : Bool → List (List ℕ) → Bool
still_first first [] = first
still_first first (c ∷ cs) = false

abbrev pub joined : List (List ℕ) → List ℕ
joined [] = []
joined (c ∷ cs) = c ++ joined cs

pub emit-box :
    (flags : ℕ) (chunk : List ℕ) (later : List (List ℕ))
    → length chunk < 2 ^ 32
    → emit flags chunk later ≡ box flags chunk ∷ later
unfolding emit
emit-box flags chunk later h =
    let whole : length chunk % 2 ^ 32 ≡ length chunk = omega arith in
    rw (whole, emit, marshal_element-fits (element_of flags chunk) refl)

module _ (n : ℕ) (positive : 1 ≤ n) (small : n < 2 ^ 32) where
  -- The loop cut chunks off the front of `buffer`, and left some of it if there was any.
  pub record Cut (first : Bool) (buffer : List ℕ) (x : Extracted) : Type 0 where
    pub chunks : List (List ℕ)
    pub elements : x.elements ≡ boxes first chunks
    pub first_left : x.first ≡ still_first first chunks
    pub whole : joined chunks ++ x.rest ≡ buffer
    pub sizes : All (λ c. length c ≤ n) chunks
    pub rest_size : length x.rest ≤ n
    pub rest_left : 1 ≤ length buffer → 1 ≤ length x.rest

  nothing-Cut :
      (first : Bool) (buffer : List ℕ)
      → length buffer ≤ n
      → Cut first buffer (record { elements = []; rest = buffer; first = first })
  nothing-Cut first buffer h = record {
    chunks = [];
    elements = refl;
    first_left = refl;
    whole = refl;
    sizes = tt;
    rest_size = h;
    rest_left = λ l. l;
  }

  pub full_chunks-Cut :
      (fuel : ℕ) (first : Bool) (buffer : List ℕ)
      → length buffer ≤ fuel
      → (x : Extracted) × (full_chunks fuel n first buffer ≡ ok x) × Cut first buffer x
  unfolding full_chunks
  full_chunks-Cut zero first buffer h =
      let fits : ltb n (length buffer) ≡ false = ground arith in
      (_, rw fits, nothing-Cut first buffer (omega arith))
  full_chunks-Cut (suc fuel) first buffer h = elim (Bool-cases (ltb n (length buffer))) [
    | inr fits ↦ (_, rw fits, nothing-Cut first buffer (ground arith))
    | inl long ↦
        let more = drop n buffer in
        let chunk = take n buffer in
        let over : n < length buffer = ltb→lt n (length buffer) long in
        let more_length : length more ≡ length buffer - n = length-drop n buffer in
        let chunk_length : length chunk ≡ n = omega (arith, length-take n buffer) in
        let (x, runs, c) = full_chunks-Cut fuel false more (omega arith) in
        (
          record x { elements = emit (flags_of first false) chunk x.elements },
          rw (long, runs),
          record {
            chunks = chunk ∷ c.chunks;
            elements =
                emit-box (flags_of first false) chunk x.elements (omega arith)
                ∙ ap (λ t. box (flags_of first false) chunk ∷ t) c.elements;
            first_left = c.first_left ∙ settled c.chunks;
            whole =
                append_assoc chunk (joined c.chunks) x.rest
                ∙ ap (λ t. chunk ++ t) c.whole
                ∙ take-append-drop n buffer;
            sizes = (omega arith, c.sizes);
            rest_size = c.rest_size;
            rest_left = λ l. c.rest_left (omega arith);
          },
        )
  ]
    where
      settled : (cs : List (List ℕ)) → still_first false cs ≡ false
      settled [] = refl
      settled (c ∷ cs) = refl
