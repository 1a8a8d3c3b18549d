-- ===== src/Sphinx/Packet/Step.antt =====
-- How one call of `unwrapNike` ends: with the packet for the next hop, or with the payload.
use katzenpost_wt.Prelude.{
  ℕ, ◌+◌, ◌≤◌, ◌≡◌, refl, ◌∙◌, inl, inr, false, List, [], ◌∷◌, ◌++◌, Option, none, some, ok, arith,
  ltb, length, length-append, replicate, length-replicate, take-append, drop-append, if◌then◌else◌,
  Bool-cases,
}
use katzenpost_wt.Prelude.Bytes.{ct_is_zero-replicate}
use katzenpost_wt.Sphinx.Geometry.{Geometry}
use katzenpost_wt.Sphinx.Commands.{RoutingCommand}
use katzenpost_wt.Sphinx.Crypto.{Primitives, IsCorrect, PacketKeys, sprp_decrypt}
use katzenpost_wt.Sphinx.Header.{v0_ad}
use katzenpost_wt.Sphinx.Packet.{UnwrapError, sub_slice, forward_packet, final_payload, finish}
use katzenpost_wt.Sphinx.Packet.Parts
use katzenpost_wt.Sphinx.Packet.Parts.{assemble}
use katzenpost_wt.Sphinx.Packet.Hop.{IsLaidOut, packet_of, own_keys, mac_of}

empty_of_length : (xs : List ℕ) → length xs ≡ 0 → xs ≡ []
empty_of_length [] h = refl
empty_of_length (x ∷ xs) h = absurd (omega arith)

module _ (P : Primitives) (c : IsCorrect P) (g : Geometry) (layout : IsLaidOut g P.public_key_size)
    (x : P.PrivateKey) (e : P.PublicKey) (info body inner : List ℕ)
    (info_length : length info ≡ g.routing_info_length) where
  open P use {public_key_size, encode_key, blind, aez_decrypt, sha512_256}
  open g use {per_hop_routing_info_length as per_hop, routing_info_length}

  abbrev keys : PacketKeys P
  keys = own_keys P x e

  abbrev pkt : List ℕ
  pkt = packet_of P x e info body

  -- An empty body is not decrypted.
  decrypted :
      aez_decrypt keys.payload_encryption keys.header_encryption_iv body ≡ some inner
      → length inner ≡ length body
      → (if ltb 0 (length body)
          then sprp_decrypt P {E = UnwrapError} keys.payload_encryption keys.header_encryption_iv
              body
          else ok body)
        ≡ ok inner
  unfolding sprp_decrypt
  decrypted d h = elim (Bool-cases (ltb 0 (length body))) [
    | inl some_bytes ↦ rw (some_bytes, d)
    | inr no_bytes ↦
        let nothing : length body ≡ 0 = ground arith in
        rw (no_bytes, empty_of_length body nothing, empty_of_length inner (h ∙ nothing))
  ]

  abbrev mac : List ℕ
  mac = mac_of P x e info

  abbrev mac_length : length mac ≡ 32
  mac_length = c.length-hmac keys.header_mac (v0_ad ++ (encode_key e ++ info))

  body_found : sub_slice (2 + public_key_size + routing_info_length + 32) (length pkt) pkt ≡ ok body
  body_found =
      Parts.body_slice public_key_size routing_info_length (encode_key e) info mac body
        (c.length-encode e) info_length mac_length

  module _ (d : aez_decrypt keys.payload_encryption keys.header_encryption_iv body ≡ some inner)
      (same_length : length inner ≡ length body) (tag : List ℕ) where
    abbrev blinded : List ℕ
    blinded = encode_key (blind e keys.blinding_factor)

    forwarded :
        (new_info next_mac : List ℕ)
        → length new_info ≡ routing_info_length
        → length next_mac ≡ 32
        → forward_packet P
            (2 + public_key_size)
            (2 + public_key_size + routing_info_length)
            (2 + public_key_size + routing_info_length + 32)
            e
            keys.blinding_factor
            new_info
            next_mac
            inner
            pkt
          ≡ ok (assemble blinded new_info next_mac inner)
    unfolding forward_packet
    forwarded new_info next_mac hi hm =
        let n = public_key_size in
        let r = routing_info_length in
        let hn = c.length-encode e in
        let hb = c.length-encode (blind e keys.blinding_factor) in
        rw (
          c.blind_agrees e keys.blinding_factor,
          Parts.element_copy n r (encode_key e) info mac body hn info_length mac_length blinded hb,
          Parts.info_copy n r blinded info mac body hb info_length mac_length new_info hi,
          Parts.mac_copy n r blinded new_info mac body hb hi mac_length next_mac hm,
          Parts.body_copy n r blinded new_info next_mac body hb hi hm inner same_length,
        )

    -- With a next hop: the packet for it, with the element blinded and one layer less.
    pub finish-forward :
        (id next_mac new_info : List ℕ) (reply : Option (List ℕ)) (cmds : List RoutingCommand)
        → length new_info ≡ routing_info_length
        → length next_mac ≡ 32
        → finish P g keys e tag new_info
            (record { next_node = some (id, next_mac); surb_reply_id = reply; commands = cmds })
            pkt
          ≡ ok (record {
            payload = none;
            tag = tag;
            commands = cmds;
            packet = assemble blinded new_info next_mac inner;
          })
    unfolding finish
    finish-forward id next_mac new_info reply cmds hi hm =
        rw (body_found, decrypted d same_length, forwarded new_info next_mac hi hm)

    -- At the last hop of a forward packet: the payload behind a tag of zeros.
    pub finish-payload :
        (payload new_info : List ℕ) (cmds : List RoutingCommand)
        → inner ≡ replicate g.payload_tag_length 0 ++ payload
        → finish P g keys e tag new_info
            (record { next_node = none; surb_reply_id = none; commands = cmds })
            pkt
          ≡ ok (record { payload = some payload; tag = tag; commands = cmds; packet = pkt })
    unfolding finish final_payload
    finish-payload payload new_info cmds h =
        let t = g.payload_tag_length in
        let zeros : List ℕ = replicate t 0 in
        let size : length zeros ≡ t = length-replicate t 0 in
        let enough : ltb (length (zeros ++ payload)) t ≡ false =
          ground (arith, length-append zeros payload) in
        rw (body_found, decrypted d same_length, h, enough)
          (rw (
            take-append t zeros payload size,
            drop-append t zeros payload size,
            ct_is_zero-replicate t,
          ))

    -- At the last hop of a reply: the body as it is, for the holder of the keys.
    pub finish-reply :
        (id new_info : List ℕ) (cmds : List RoutingCommand)
        → g.payload_tag_length ≤ length inner
        → finish P g keys e tag new_info
            (record { next_node = none; surb_reply_id = some id; commands = cmds })
            pkt
          ≡ ok (record { payload = some inner; tag = tag; commands = cmds; packet = pkt })
    unfolding finish final_payload
    finish-reply id new_info cmds h =
        let enough : ltb (length inner) g.payload_tag_length ≡ false = ground arith in
        rw (body_found, decrypted d same_length, enough)
