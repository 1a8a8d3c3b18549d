-- ===== src/Sphinx/Surb/Reply.antt =====
-- A reply through a SURB of core/sphinx/surb.go comes back to its owner.
use katzenpost_wt.Prelude.{
  ℕ, suc, ◌+◌, ◌*◌, ◌/◌, ◌%◌, ◌≡◌, refl, sym, ap, ◌∙◌, true, false, List, [], ◌∷◌, ◌++◌, ok, arith,
  ltb, ◌==◌, length, take, drop, replicate, length-append, length-replicate, take-append,
  drop-append,
}
use mathlib.Core.List.{append_assoc}
use katzenpost_wt.Prelude.Bytes.{
  copy_array-append, copy_array_self, length-copy_array, ct_is_zero-replicate, overwrite_all,
}
use katzenpost_wt.Sphinx.Geometry.{Geometry}
use katzenpost_wt.Sphinx.Crypto.{
  Primitives, IsCorrect, sprp_encrypt, sprp_decrypt, packet_keys, keys_of_okm,
}
use katzenpost_wt.Sphinx.Header.{SprpKey, sprp_keys}
use katzenpost_wt.Sphinx.Header.Agreement.{keys_along}
use katzenpost_wt.Sphinx.Packet.{encrypt_layers}
use katzenpost_wt.Sphinx.Packet.Hop.{IsLaidOut}
use katzenpost_wt.Sphinx.Surb.{keys_blob, surb_rounds, decrypt_surb_payload, new_packet_from_surb}

module _ (P : Primitives) (c : IsCorrect P) where
  abbrev pub Sized : List (SprpKey P) → Type 0
  Sized [] = Unit {0}
  Sized (k ∷ ks) = (length k.key ≡ 48) × (length k.iv ≡ 16) × Sized ks

  pub keys_along-Sized :
      (xs : List P.PrivateKey) (e : P.PublicKey) → Sized (sprp_keys P (keys_along P e xs))
  unfolding packet_keys keys_of_okm
  keys_along-Sized [] e = tt
  keys_along-Sized (x ∷ xs) e =
      (length-copy_array 48 _, length-copy_array 16 _, keys_along-Sized xs _)

  length-keys_blob : (ks : List (SprpKey P)) → Sized ks → length (keys_blob P ks) ≡ length ks * 64
  unfolding keys_blob
  length-keys_blob [] s = refl
  length-keys_blob (k ∷ ks) s = omega (
    arith,
    length-append (keys_blob P ks) (k.key ++ k.iv),
    length-append k.key k.iv,
    length-keys_blob ks s.2,
  )

  -- One round that is not the last, on the key in front.
  round :
      (n : ℕ) (k : SprpKey P) (rest b : List ℕ)
      → length k.key ≡ 48
      → length k.iv ≡ 16
      → surb_rounds P (suc (suc n)) ((k.key ++ k.iv) ++ rest) b
        ≡ surb_rounds P (suc n) rest (sprp_encrypt P k.key k.iv b)
  unfolding surb_rounds
  round n k rest b hk hi = rw (
    drop-append 64 (k.key ++ k.iv) rest (omega (arith, length-append k.key k.iv)),
    append_assoc k.key k.iv rest,
    take-append 48 k.key (k.iv ++ rest) hk,
    drop-append 48 k.key (k.iv ++ rest) hk,
    copy_array_self 48 k.key hk,
    copy_array-append 16 k.iv rest hi,
  )

  -- The rounds before the last put the hops' layers back on.
  rounds-layers :
      (ks : List (SprpKey P)) (n : ℕ) (rest b : List ℕ)
      → Sized ks
      → surb_rounds P (length ks + suc n) (keys_blob P ks ++ rest) b
        ≡ surb_rounds P (suc n) rest (encrypt_layers P ks b)
  unfolding keys_blob encrypt_layers
  rounds-layers [] n rest b s = ap (λ m. surb_rounds P m rest b) (omega arith)
  rounds-layers (k ∷ ks) n rest b s =
      let count : suc (length ks) + suc n ≡ length ks + suc (suc n) = omega arith in
      ap (λ m. surb_rounds P m ((keys_blob P ks ++ (k.key ++ k.iv)) ++ rest) b) count
      ∙ ap (λ t. surb_rounds P (length ks + suc (suc n)) t b)
          (append_assoc (keys_blob P ks) (k.key ++ k.iv) rest)
      ∙ rounds-layers ks (suc n) ((k.key ++ k.iv) ++ rest) b s.2
      ∙ round n k rest (encrypt_layers P ks b) s.0 s.1

  module _ (g : Geometry) (layout : IsLaidOut g P.public_key_size) (key iv : List ℕ)
      (hk : length key ≡ 48) (hi : length iv ≡ 16) where
    abbrev tagged : List ℕ → List ℕ
    tagged payload = replicate g.payload_tag_length 0 ++ payload

    last_round : (m : List ℕ) → surb_rounds P 1 (key ++ iv) (sprp_encrypt P key iv m) ≡ ok m
    unfolding surb_rounds sprp_encrypt sprp_decrypt
    last_round m = rw (
      take-append 48 key iv hk,
      drop-append 48 key iv hk,
      copy_array_self 48 key hk,
      copy_array_self 16 iv hi,
      c.decrypt-encrypt key iv m,
    )

    -- The loop takes off the layer of the SURB's own key last.
    pub decrypt-reply :
        (ks : List (SprpKey P)) (inner payload : List ℕ)
        → Sized ks
        → length inner ≡ length (tagged payload)
        → encrypt_layers P ks inner ≡ sprp_encrypt P key iv (tagged payload)
        → decrypt_surb_payload P g inner (keys_blob P ks ++ (key ++ iv)) ≡ ok payload
    unfolding decrypt_surb_payload
    decrypt-reply ks inner payload s hl layers =
        let zeros : List ℕ = replicate g.payload_tag_length 0 in
        let zeros_size : length zeros ≡ g.payload_tag_length =
          length-replicate g.payload_tag_length 0 in
        let blob = keys_blob P ks ++ (key ++ iv) in
        let size : length blob ≡ (length ks + 1) * 64 = omega (
          arith,
          length-append (keys_blob P ks) (key ++ iv),
          length-append key iv,
          length-keys_blob ks s,
        ) in
        let whole : (length blob % 64 == 0) ≡ true = ground (arith, size) in
        let rounds : length blob / 64 ≡ length ks + 1 = omega (arith, size) in
        let some_rounds : ltb (length ks + 1) 1 ≡ false = ground arith in
        let long : ltb (length inner) g.payload_tag_length ≡ false =
          ground (arith, hl, length-append zeros payload, zeros_size) in
        let runs =
          rounds-layers ks 0 (key ++ iv) inner s
          ∙ ap (surb_rounds P 1 (key ++ iv)) layers
          ∙ last_round (tagged payload) in
        rw (whole, rounds, some_rounds, long, runs)
          (rw (
            take-append g.payload_tag_length zeros payload zeros_size,
            drop-append g.payload_tag_length zeros payload zeros_size,
            ct_is_zero-replicate g.payload_tag_length,
          ))

    -- The holder of a SURB sends the first hop a packet with one layer.
    pub from_surb :
        (hdr id payload : List ℕ)
        → length hdr ≡ g.header_length
        → length id ≡ 32
        → g.surb_length ≡ g.header_length + 32 + 64
        → new_packet_from_surb P g ((hdr ++ id) ++ (key ++ iv)) payload
          ≡ ok (hdr ++ sprp_encrypt P key iv (tagged payload), id)
    unfolding new_packet_from_surb
    from_surb hdr id payload hh hid hs =
        let surb = (hdr ++ id) ++ (key ++ iv) in
        let size : length surb ≡ g.header_length + 96 = omega (
          arith,
          length-append (hdr ++ id) (key ++ iv),
          length-append hdr id,
          length-append key iv,
        ) in
        let right : (length surb == g.surb_length) ≡ true = ground (arith, size) in
        let in_range : ltb (length surb) (g.header_length + 32 + 48) ≡ false =
          ground (arith, size) in
        let room : ltb g.per_hop_routing_info_length g.payload_tag_length ≡ false =
          ground (arith, layout.tag, layout.per_hop_room) in
        let cut : surb ≡ hdr ++ (id ++ (key ++ iv)) = append_assoc hdr id (key ++ iv) in
        let at_id : drop g.header_length surb ≡ id ++ (key ++ iv) =
          ap (drop g.header_length) cut ∙ drop-append g.header_length hdr (id ++ (key ++ iv)) hh in
        let at_key : drop (g.header_length + 32) surb ≡ key ++ iv =
          drop-append (g.header_length + 32) (hdr ++ id) (key ++ iv)
            (omega (arith, length-append hdr id)) in
        let at_iv : drop (g.header_length + 32 + 48) surb ≡ iv =
          ap (drop (g.header_length + 32 + 48)) (sym (append_assoc (hdr ++ id) key iv))
          ∙ drop-append (g.header_length + 32 + 48) ((hdr ++ id) ++ key) iv
              (omega (arith, length-append (hdr ++ id) key, length-append hdr id)) in
        let front : take g.header_length surb ≡ hdr =
          ap (take g.header_length) cut ∙ take-append g.header_length hdr (id ++ (key ++ iv)) hh in
        let same_length : length (sprp_encrypt P key iv (tagged payload))
            ≡ length (tagged payload) =
          unfold sprp_encrypt in c.length-encrypt key iv (tagged payload) in
        rw (right, in_range, room, front, at_id, at_key, at_iv)
          (rw (
            take-append 32 id (key ++ iv) hid,
            take-append 48 key iv hk,
            copy_array_self 32 id hid,
            copy_array_self 48 key hk,
            copy_array_self 16 iv hi,
            overwrite_all (tagged payload) (sprp_encrypt P key iv (tagged payload)) same_length,
          ))
