-- ===== src/Pigeonhole/CopyStream/Receiving.antt =====
-- The decoders of pigeonhole/copy_stream.go over the boxes of a stream that the encoder made.
use katzenpost_wt.Prelude.{
  ℕ, zero, suc, ◌+◌, ◌^◌, ◌≤◌, ◌<◌, ◌≡◌, refl, sym, ap, ◌∙◌, true, false, inl, inr, ◌&&◌, List, [],
  ◌∷◌, ◌++◌, none, arith, ltb, length, length-append, take, drop, take-append, drop-append, All,
  Bool-cases, ltb→lt,
}
use mathlib.Core.List.{append_assoc, append-nil}
use katzenpost_wt.Prelude.Bytes.{put_u32, get_u32, length-put_u32, get_u32-put_u32}
use katzenpost_wt.Pigeonhole.CopyStream.{Format, stop, found, parse_round, parse_envelopes}
use katzenpost_wt.Pigeonhole.CopyStream.Sending.{bytes_of, framed, IsGood}

-- A list that is long enough has the other's first part in front.
pub split_prefix :
    (a p q b : List ℕ)
    → p ++ q ≡ a ++ b
    → length a ≤ length p
    → (c : List ℕ) × (p ≡ a ++ c) × (c ++ q ≡ b)
split_prefix [] p q b e h = (p, refl, e)
split_prefix (x ∷ a) [] q b e h = absurd (omega arith)
split_prefix (x ∷ a) (y ∷ p) q b e h =
    let (c, same, rest) = split_prefix a p q b (cc) (omega arith) in (c, cc, rest)

module _ (F : Format) (limit : ℕ) where
  open F use {Envelope, parse}

  -- What the courier makes of a part `p` of the byte stream of `todo`, which `q` completes: the
  -- envelopes that are whole in it, in order, and the bytes of the next one.
  pub record Progress (fuel : ℕ) (p q : List ℕ) (todo : List Envelope) : Type 0 where
    pub done : List Envelope
    pub later : List Envelope
    pub order : todo ≡ done ++ later
    pub kept : List ℕ
    pub runs :
        parse_envelopes F fuel limit p ≡ record { envelopes = done; rest = kept; failure = none }
    pub next : kept ++ q ≡ framed F later
    pub end : q ≡ [] → later ≡ []

  short_stops : (p : List ℕ) → length p < 4 → parse_round F limit p ≡ stop none
  unfolding parse_round
  short_stops p h = let short : ltb (length p) 4 ≡ true = ground arith in rw short

  -- A length prefix with too few bytes after it.
  part_stops :
      (n : ℕ) (c : List ℕ)
      → n < 2 ^ 32
      → n ≤ limit
      → length c < n
      → parse_round F limit (put_u32 n ++ c) ≡ stop none
  unfolding parse_round
  part_stops n c small allowed h =
      let size = length-append (put_u32 n) c in
      let prefix = length-put_u32 n in
      let long : ltb (length (put_u32 n ++ c)) 4 ≡ false = ground (arith, size, prefix) in
      let part : ltb (length (put_u32 n ++ c)) (4 + n) ≡ true = ground (arith, size, prefix) in
      let fits : (ltb 0 limit && ltb limit n) ≡ false = ground arith in
      let value : get_u32 (take 4 (put_u32 n ++ c)) ≡ n =
        ap get_u32 (take-append 4 (put_u32 n) c prefix ∙ sym (append-nil (put_u32 n)))
        ∙ get_u32-put_u32 n [] small in
      rw (value, long, fits, part)

  -- A whole envelope in front.
  whole_round :
      (e : Envelope) (c : List ℕ)
      → IsGood F limit e
      → parse_round F limit (put_u32 (length (bytes_of F e)) ++ (bytes_of F e ++ c)) ≡ found e c
  unfolding parse_round
  whole_round e c good =
      let bs = bytes_of F e in
      let n = length bs in
      let p = put_u32 n ++ (bs ++ c) in
      let prefix = length-put_u32 n in
      let size : length p ≡ 4 + n + length c =
        omega (arith, length-append (put_u32 n) (bs ++ c), length-append bs c, prefix) in
      let long : ltb (length p) 4 ≡ false = ground (arith, size) in
      let all : ltb (length p) (4 + n) ≡ false = ground (arith, size) in
      let fits : (ltb 0 limit && ltb limit n) ≡ false = ground (arith, good.accepted) in
      let value : get_u32 (take 4 p) ≡ n =
        ap get_u32 (take-append 4 (put_u32 n) (bs ++ c) prefix ∙ sym (append-nil (put_u32 n)))
        ∙ get_u32-put_u32 n [] good.size in
      let body : take n (drop 4 p) ≡ bs =
        ap (take n) (drop-append 4 (put_u32 n) (bs ++ c) prefix) ∙ take-append n bs c refl in
      let after : drop (4 + n) p ≡ c =
        ap (drop (4 + n)) (sym (append_assoc (put_u32 n) bs c))
        ∙ drop-append (4 + n) (put_u32 n ++ bs) c
            (omega (arith, length-append (put_u32 n) bs, prefix)) in
      rw (value, long, fits, all, body, good.parses) (rw (value, after))

  stop_ends :
      (fuel : ℕ) (p : List ℕ)
      → parse_round F limit p ≡ stop none
      → parse_envelopes F (suc fuel) limit p ≡ record { envelopes = []; rest = p; failure = none }
  unfolding parse_envelopes
  stop_ends fuel p h = rw (parse_envelopes, h)

  found_goes_on :
      (fuel : ℕ) (p c : List ℕ) (x : Envelope) {done : List Envelope} {kept : List ℕ}
      → parse_round F limit p ≡ found x c
      → parse_envelopes F fuel limit c ≡ record { envelopes = done; rest = kept; failure = none }
      → parse_envelopes F (suc fuel) limit p
        ≡ record { envelopes = x ∷ done; rest = kept; failure = none }
  unfolding parse_envelopes
  found_goes_on fuel p c x h more = rw (parse_envelopes, h, more)

  pub parse-Progress :
      (fuel : ℕ) (todo : List Envelope) (p q : List ℕ)
      → length p < fuel
      → p ++ q ≡ framed F todo
      → All (IsGood F limit) todo
      → Progress fuel p q todo
  parse-Progress zero todo p q h e good = absurd (omega arith)
  parse-Progress (suc fuel) [] [] q h e good = record {
    done = [];
    later = [];
    order = refl;
    kept = [];
    runs = stop_ends fuel [] (short_stops [] (omega arith));
    next = e;
    end = λ _. refl;
  }
  parse-Progress (suc fuel) [] (x ∷ p) q h e good = cc
  parse-Progress (suc fuel) (x ∷ xs) p q h e good =
      let bs = bytes_of F x in
      let n = length bs in
      let sizes : length p + length q ≡ 4 + n + length (framed F xs) = omega (
        arith,
        length-append p q,
        ap length e,
        length-append (put_u32 n ++ bs) (framed F xs),
        length-append (put_u32 n) bs,
        length-put_u32 n,
      ) in
      let waits : parse_round F limit p ≡ stop none
          → length p < 4 + n
          → Progress (suc fuel) p q (x ∷ xs) =
        λ stopped few. record {
          done = [];
          later = x ∷ xs;
          order = refl;
          kept = p;
          runs = stop_ends fuel p stopped;
          next = e;
          end = λ none_left. absurd (omega (arith, ap length none_left));
        } in
      elim (Bool-cases (ltb (length p) 4)) [
        | inl short ↦ waits (short_stops p (ltb→lt _ _ short)) (ground arith)
        | inr long ↦
            let (c, front, rest) =
              split_prefix (put_u32 n) p q (bs ++ framed F xs)
                (e ∙ append_assoc (put_u32 n) bs (framed F xs))
                (let four = length-put_u32 n in ground arith) in
            let count : length p ≡ 4 + length c =
              omega (arith, ap length front, length-append (put_u32 n) c, length-put_u32 n) in
            elim (Bool-cases (ltb (length c) n)) [
              | inl part ↦
                  waits
                    (ap (parse_round F limit) front
                      ∙ part_stops n c good.0.size good.0.accepted (ltb→lt _ _ part))
                    (ground arith)
              | inr enough ↦
                  let (c', front', rest') = split_prefix bs c q (framed F xs) rest (ground arith) in
                  let count' : length c ≡ n + length c' =
                    omega (arith, ap length front', length-append bs c') in
                  let r = parse-Progress fuel xs c' q (omega arith) rest' good.1 in
                  let opens : parse_round F limit p ≡ found x c' =
                    ap (parse_round F limit) (front ∙ ap (λ t. put_u32 n ++ t) front')
                    ∙ whole_round x c' good.0 in
                  record {
                    done = x ∷ r.done;
                    later = r.later;
                    order = ap (λ t. x ∷ t) r.order;
                    kept = r.kept;
                    runs = found_goes_on fuel p c' x opens r.runs;
                    next = r.next;
                    end = r.end;
                  }
            ]
      ]
