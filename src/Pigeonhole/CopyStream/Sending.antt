-- ===== src/Pigeonhole/CopyStream/Sending.antt =====
-- The encoder of pigeonhole/copy_stream.go over all the envelopes of a stream.
use katzenpost_wt.Prelude.{
  ℕ, ◌+◌, ◌-◌, ◌%◌, ◌^◌, ◌≤◌, ◌<◌, ◌≡◌, refl, sym, ap, ◌∙◌, Bool, true, false, List, [], ◌∷◌, ◌++◌,
  Option, none, some, Run, ok, ◌>>=◌, arith, ltb, length, length-append, All, All-append,
}
use mathlib.Core.List.{append_assoc, append-nil}
use katzenpost_wt.Prelude.Bytes.{put_u32, length-put_u32}
use katzenpost_wt.Pigeonhole.CopyStream.{
  Format, StreamError, Encoder, new_encoder, flags_of, extract_elements, flush, add_envelope,
}
use katzenpost_wt.Pigeonhole.CopyStream.Chunks.{
  box, boxes, still_first, joined, emit-box, full_chunks-Cut,
}

abbrev pub encoder : ℕ → List ℕ → Bool → Encoder
encoder n buffer first = record { buffer = buffer; max_chunk_size = some n; is_first_chunk = first }

pub boxes-append :
    (first : Bool) (cs ds : List (List ℕ))
    → boxes first (cs ++ ds) ≡ boxes first cs ++ boxes (still_first first cs) ds
boxes-append first [] ds = refl
boxes-append first (c ∷ cs) ds =
    ap (λ t. box (flags_of first false) c ∷ t) (boxes-append false cs ds ∙ same cs)
  where
    same :
        (cs : List (List ℕ))
        → boxes false cs ++ boxes (still_first false cs) ds ≡ boxes false cs ++ boxes false ds
    same [] = refl
    same (c ∷ cs) = refl

still_first-append :
    (first : Bool) (cs ds : List (List ℕ))
    → still_first first (cs ++ ds) ≡ still_first (still_first first cs) ds
still_first-append first [] ds = refl
still_first-append first (c ∷ cs) [] = refl
still_first-append first (c ∷ cs) (d ∷ ds) = refl

pub joined-append : (cs ds : List (List ℕ)) → joined (cs ++ ds) ≡ joined cs ++ joined ds
joined-append [] ds = refl
joined-append (c ∷ cs) ds =
    ap (λ t. c ++ t) (joined-append cs ds) ∙ sym (append_assoc c (joined cs) (joined ds))

module _ (F : Format) where
  open F use {Envelope, marshal, parse}

  -- The bytes of an envelope that has an encoding.
  abbrev or_nothing : Option (List ℕ) → List ℕ
  or_nothing none = []
  or_nothing (some bytes) = bytes

  abbrev pub bytes_of : Envelope → List ℕ
  bytes_of e = or_nothing (marshal e)

  -- The byte stream: each envelope with its length in front.
  abbrev pub framed : List Envelope → List ℕ
  framed [] = []
  framed (e ∷ es) = (put_u32 (length (bytes_of e)) ++ bytes_of e) ++ framed es

  -- An envelope that its codec round trips, within the courier's limit, where that is not 0.
  pub record IsGood (max_envelope : ℕ) (e : Envelope) : Type 0 where
    pub marshals : marshal e ≡ some (bytes_of e)
    pub parses : parse (bytes_of e) ≡ some (e, [])
    pub size : length (bytes_of e) < 2 ^ 32
    pub accepted : length (bytes_of e) ≤ max_envelope

  -- The client's calls of `AddEnvelope`, one after the other, and of `Flush` at the end.
  unfoldable pub add_each : Encoder → List Envelope → Run StreamError (List (List ℕ) × Encoder)
  add_each e [] = ok ([], e)
  add_each e (x ∷ xs) = do
    (els, e') ← add_envelope F e (some x)
    (more, e'') ← add_each e' xs
    ok (els ++ more, e'')

  unfoldable pub send_stream : ℕ → List Envelope → Run StreamError (List (List ℕ))
  send_stream max es = do
    (els, e) ← add_each (new_encoder max) es
    (last, done) ← flush e
    ok (els ++ last)

  module _ (n : ℕ) (positive : 1 ≤ n) (small : n < 2 ^ 32) (limit : ℕ) where
    record Added (es : List Envelope) (buffer : List ℕ) (first : Bool) : Type 0 where
      pub chunks : List (List ℕ)
      pub left : List ℕ
      pub runs :
          add_each (encoder n buffer first) es
          ≡ ok (boxes first chunks, encoder n left (still_first first chunks))
      pub whole : joined chunks ++ left ≡ buffer ++ framed es
      pub sizes : All (λ c. length c ≤ n) chunks
      pub left_over : 1 ≤ length buffer + length es → 1 ≤ length left

    some_bytes :
        (x : Envelope) (buffer : List ℕ)
        → 1 ≤ length ((buffer ++ put_u32 (length (bytes_of x))) ++ bytes_of x)
    some_bytes x buffer = omega (
      arith,
      length-append (buffer ++ put_u32 (length (bytes_of x))) (bytes_of x),
      length-append buffer (put_u32 (length (bytes_of x))),
      length-put_u32 (length (bytes_of x)),
    )

    add_one :
        (x : Envelope) (buffer : List ℕ) (first : Bool)
        → IsGood limit x
        → (cs : List (List ℕ)) × (left : List ℕ) × (add_envelope F (encoder n buffer first) (some x)
            ≡ ok (boxes first cs, encoder n left (still_first first cs)))
          × (joined cs ++ left ≡ (buffer ++ put_u32 (length (bytes_of x))) ++ bytes_of x)
          × All (λ c. length c ≤ n) cs
          × (1 ≤ length left)
    unfolding add_envelope extract_elements
    add_one x buffer first good =
        let full = (buffer ++ put_u32 (length (bytes_of x))) ++ bytes_of x in
        let size : length (bytes_of x) % 2 ^ 32 ≡ length (bytes_of x) = omega (arith, good.size) in
        let (r, runs, cut) =
          full_chunks-Cut n positive small (length full) first full (omega arith) in
        (
          cut.chunks,
          r.rest,
          rw (good.marshals, size, runs, cut.elements, cut.first_left),
          cut.whole,
          cut.sizes,
          cut.rest_left (some_bytes x buffer),
        )

    add_each-Added :
        (es : List Envelope) (buffer : List ℕ) (first : Bool)
        → All (IsGood limit) es
        → Added es buffer first
    unfolding add_each
    add_each-Added [] buffer first good = record {
      chunks = [];
      left = buffer;
      runs = refl;
      whole = sym (append-nil buffer);
      sizes = tt;
      left_over = λ h. omega arith;
    }
    add_each-Added (x ∷ xs) buffer first good =
        let (cs, left, runs, whole, sizes, some_left) = add_one x buffer first good.0 in
        let later = add_each-Added xs left (still_first first cs) good.1 in
        record {
          chunks = cs ++ later.chunks;
          left = later.left;
          runs = rw (
            runs,
            later.runs,
            boxes-append first cs later.chunks,
            still_first-append first cs later.chunks,
          );
          whole =
              ap (λ t. t ++ later.left) (joined-append cs later.chunks)
              ∙ append_assoc (joined cs) (joined later.chunks) later.left
              ∙ ap (λ t. joined cs ++ t) later.whole
              ∙ sym (append_assoc (joined cs) left (framed xs))
              ∙ ap (λ t. t ++ framed xs) whole
              ∙ simp append_assoc;
          sizes = All-append (λ c. length c ≤ n) cs later.chunks sizes later.sizes;
          left_over = λ h. later.left_over (omega arith);
        }

    pub record Sent (es : List Envelope) (sent : Run StreamError (List (List ℕ))) : Type 0 where
      pub chunks : List (List ℕ)
      pub last : List ℕ
      pub runs :
          sent ≡ ok (boxes true chunks ++ box (flags_of (still_first true chunks) true) last ∷ [])
      pub whole : joined chunks ++ last ≡ framed es
      pub sizes : All (λ c. length c ≤ n) chunks
      pub last_size : length last ≤ n

    -- `Flush` with something in the buffer.
    flush_left :
        (buffer : List ℕ) (first : Bool)
        → 1 ≤ length buffer
        → (cs : List (List ℕ)) × (last : List ℕ) × (e : Encoder) × (flush (encoder n buffer first)
            ≡ ok (boxes first cs ++ box (flags_of (still_first first cs) true) last ∷ [], e))
          × (joined cs ++ last ≡ buffer)
          × All (λ c. length c ≤ n) cs
          × (length last ≤ n)
    unfolding flush extract_elements
    flush_left buffer first h =
        let (r, runs, cut) =
          full_chunks-Cut n positive small (length buffer) first buffer (omega arith) in
        let some_left : ltb 0 (length buffer) ≡ true = ground arith in
        let final =
          emit-box (flags_of (still_first first cut.chunks) true) r.rest []
            (omega (arith, cut.rest_size)) in
        (
          cut.chunks,
          r.rest,
          encoder n [] false,
          rw (some_left, runs, cut.elements, cut.first_left, final),
          cut.whole,
          cut.sizes,
          cut.rest_size,
        )

    -- All the calls on a stream that has an envelope.
    pub send_stream-Sent :
        (max : ℕ) (x : Envelope) (xs : List Envelope)
        → max ≡ 5 + n
        → All (IsGood limit) (x ∷ xs)
        → Sent (x ∷ xs) (send_stream max (x ∷ xs))
    unfolding send_stream new_encoder
    send_stream-Sent max x xs h good =
        let fresh : new_encoder max ≡ encoder n [] true =
          unfold new_encoder in
          let room : ltb max 5 ≡ false = ground arith in
          let size : max - 5 ≡ n = omega arith in rw (room, size) in
        let a = add_each-Added (x ∷ xs) [] true good in
        let (cs, last, e, flushes, whole, sizes, last_size) =
          flush_left a.left (still_first true a.chunks) (a.left_over (omega arith)) in
        record {
          chunks = a.chunks ++ cs;
          last = last;
          runs =
              rw
                (
                  fresh,
                  a.runs,
                  flushes,
                  boxes-append true a.chunks cs,
                  still_first-append true a.chunks cs,
                )
                (ap ok (sym (append_assoc (boxes true a.chunks) _ _)));
          whole =
              ap (λ t. t ++ last) (joined-append a.chunks cs)
              ∙ append_assoc (joined a.chunks) (joined cs) last
              ∙ ap (λ t. joined a.chunks ++ t) whole
              ∙ a.whole;
          sizes = All-append (λ c. length c ≤ n) a.chunks cs a.sizes sizes;
          last_size = last_size;
        }
