-- ===== src/Sphinx/Header/Streams.antt =====
-- The stream loop of `createHeader`: what each hop's key stream and padding undo.
use katzenpost_wt.Prelude.{
  ℕ, suc, ◌+◌, ◌-◌, ◌*◌, ◌≤◌, ◌≡◌, refl, sym, ap, ◌∙◌, false, List, [], ◌∷◌, ◌++◌, Option, none,
  some, ok, arith, length, take, drop, replicate, length-append, length-take, length-drop, ltb,
  length-replicate, take-append-drop,
}
use katzenpost_wt.Prelude.Xor.{
  xor_list, xor_list_comm, xor_list-append, xor_list-zeros, length-xor_list,
}
use katzenpost_wt.Sphinx.Geometry.{Geometry}
use katzenpost_wt.Sphinx.Crypto.{Primitives, IsCorrect, PacketKeys, xor_key_stream, key_stream}
use katzenpost_wt.Sphinx.Header.{
  xor_bytes, HopKeys, HopStream, mix_padding, padding_or_nil, hop_streams,
}

pub xor_bytes-ok : (a b : List ℕ) → length a ≡ length b → xor_bytes a b ≡ ok (xor_list a b)
unfolding xor_bytes
xor_bytes-ok a b h = ground arith

module _ (P : Primitives) (c : IsCorrect P) (g : Geometry) where
  open P use {ctr_stream}
  open g use {per_hop_routing_info_length as per_hop, routing_info_length}

  abbrev pub stream_of : PacketKeys P → List ℕ
  stream_of k =
      ctr_stream k.header_encryption k.header_encryption_iv (routing_info_length + per_hop)

  -- Hop `i`, which gets `before` as padding: its stream is the mask of the routing information and
  -- then that of `before` with a block of zeros, which it turns into the hop's own padding.
  pub record Unmasks (i : ℕ) (before : List ℕ) (k : PacketKeys P) (s : HopStream) : Type 0 where
    pub tail : List ℕ
    pub whole : stream_of k ≡ s.ri_key_stream ++ tail
    pub mask_length : length s.ri_key_stream + (i + 1) * per_hop ≡ routing_info_length + per_hop
    pub padding_length : length s.ri_padding ≡ (i + 1) * per_hop
    pub tail_length : length tail ≡ (i + 1) * per_hop
    pub next_padding : xor_list (before ++ replicate per_hop 0) tail ≡ s.ri_padding

  abbrev pub Layered : ℕ → List ℕ → List (HopKeys P) → List HopStream → Type 0
  Layered i before [] [] = Unit {0}
  Layered i before [] (s ∷ ss) = ⊥
  Layered i before (h ∷ hs) [] = ⊥
  Layered i before (h ∷ hs) (s ∷ ss) =
      Unmasks i before h.keys s × Layered (suc i) s.ri_padding hs ss

  key_stream-stream :
      (k : PacketKeys P)
      → key_stream P k.header_encryption k.header_encryption_iv (routing_info_length + per_hop)
        ≡ stream_of k
  unfolding key_stream xor_key_stream
  key_stream-stream k = rw length-replicate (xor_list-zeros _ _ (c.length-stream _ _ _))

  -- Mixing in the padding of the hop before.
  mix_padding-some :
      (before own : List ℕ)
      → length own ≡ length before + per_hop
      → mix_padding (some before) own ≡ ok (xor_list (before ++ replicate per_hop 0) own)
  unfolding mix_padding
  mix_padding-some before own h =
      let t = take (length before) own in
      let d = drop (length before) own in
      let t_length : length t ≡ length before = omega (arith, length-take (length before) own) in
      let d_length : length d ≡ per_hop = omega (arith, length-drop (length before) own) in
      let fits : ltb (length own) (length before) ≡ false = ground arith in
      let mixed : xor_list t before ++ d ≡ xor_list (before ++ replicate per_hop 0) own = sym (
        ap (xor_list (before ++ replicate per_hop 0)) (sym (take-append-drop (length before) own))
        ∙ xor_list-append before t (replicate per_hop 0) d (sym t_length)
        ∙ ap (λ z. xor_list before t ++ z) (xor_list-zeros per_hop d d_length)
        ∙ ap (λ z. z ++ d) (xor_list_comm before t)) in
      rw (fits, xor_bytes-ok t before t_length) (ap ok mixed)

  mix_padding-ok :
      (before : Option (List ℕ)) (own : List ℕ)
      → length own ≡ length (padding_or_nil before) + per_hop
      → mix_padding before own ≡ ok (xor_list (padding_or_nil before ++ replicate per_hop 0) own)
  mix_padding-ok none own h = unfold mix_padding in rw (xor_list-zeros per_hop own (omega arith))
  mix_padding-ok (some before) own h = mix_padding-some before own h

  -- If the hops fit into the routing information, the loop returns a stream and a padding for each
  -- hop, and the padding of hop `i` is `i + 1` blocks long.
  pub hop_streams-Layered :
      (hs : List (HopKeys P)) (i : ℕ) (before : Option (List ℕ))
      → length (padding_or_nil before) ≡ i * per_hop
      → (i + length hs) * per_hop ≤ routing_info_length
      → (ss : List HopStream) × (hop_streams P g i before hs ≡ ok ss)
        × Layered i (padding_or_nil before) hs ss
  unfolding hop_streams
  hop_streams-Layered [] i before hb fits = ([], refl, tt)
  hop_streams-Layered (h ∷ hs) i before hb fits =
      let k = h.keys in
      let stream = stream_of k in
      let whole : length stream ≡ routing_info_length + per_hop = c.length-stream _ _ _ in
      let cut = length stream - (i + 1) * per_hop in
      let tail = drop cut stream in
      let padding = xor_list (padding_or_nil before ++ replicate per_hop 0) tail in
      let room : (i + 1) * per_hop ≤ length stream = omega arith in
      let tail_length : length tail ≡ (i + 1) * per_hop = omega (arith, length-drop cut stream) in
      let own_length : length (padding_or_nil before ++ replicate per_hop 0) ≡ (i + 1) * per_hop =
        omega (
          arith,
          length-append (padding_or_nil before) (replicate per_hop 0),
          length-replicate {A = ℕ} per_hop 0,
        ) in
      let padding_length : length padding ≡ (i + 1) * per_hop =
        length-xor_list _ tail (omega (arith, own_length, tail_length)) ∙ own_length in
      let enough_stream : ltb (length stream) ((i + 1) * per_hop) ≡ false = ground arith in
      let (ss, runs, layers) =
        hop_streams-Layered hs (suc i) (some padding) (omega arith) (omega arith) in
      (
        record { ri_key_stream = take cut stream; ri_padding = padding } ∷ ss,
        rw (key_stream-stream k, enough_stream, mix_padding-ok before tail (omega arith), runs),
        (
          record {
            tail = tail;
            whole = sym (take-append-drop cut stream);
            mask_length = omega (arith, length-take cut stream);
            padding_length = padding_length;
            tail_length = tail_length;
            next_padding = refl;
          },
          layers,
        ),
      )
