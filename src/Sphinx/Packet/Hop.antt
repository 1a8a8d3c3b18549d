-- ===== src/Sphinx/Packet/Hop.antt =====
-- One call of `unwrapNike` on a packet that is known by its parts.
use katzenpost_wt.Prelude.{
  ℕ, suc, ◌+◌, ◌*◌, ◌≤◌, ◌≡◌, false, List, ◌++◌, ok, arith, ltb, length, replicate, take-append,
  drop-append,
}
use katzenpost_wt.Prelude.Bytes.{bytes_eq_refl}
use katzenpost_wt.Sphinx.Geometry.{Geometry}
use katzenpost_wt.Sphinx.Crypto.{
  Primitives, IsCorrect, PacketKeys, packet_keys, kdf-ok, xor_key_stream,
}
use katzenpost_wt.Sphinx.Header.{v0_ad}
use katzenpost_wt.Sphinx.Packet.{ParseState, parse_start, parse_commands, finish, unwrap_nike}
use katzenpost_wt.Sphinx.Packet.Parts
use katzenpost_wt.Sphinx.Packet.Parts.{assemble, length-assemble}

-- The fields of a NIKE geometry agree: what the constructor of core/sphinx/geo sets.
pub record IsLaidOut (g : Geometry) (public_key_size : ℕ) : Type 0 where
  pub next_node_hop : g.next_node_hop_length ≡ 65
  pub routing : g.routing_info_length ≡ g.per_hop_routing_info_length * g.nr_hops
  pub header : g.header_length ≡ 2 + public_key_size + g.routing_info_length + 32
  pub tag : g.payload_tag_length ≡ 32
  pub per_hop_room : 32 ≤ g.per_hop_routing_info_length

-- The parts of a packet that reaches the owner of `x` with the element `e`.
module _ (P : Primitives) (x : P.PrivateKey) (e : P.PublicKey) where
  open P use {encode_key, derive_secret, hmac}

  abbrev pub own_keys : PacketKeys P
  own_keys = packet_keys P (derive_secret x e)

  abbrev pub mac_of : List ℕ → List ℕ
  mac_of info = hmac own_keys.header_mac (v0_ad ++ (encode_key e ++ info))

  abbrev pub packet_of : List ℕ → List ℕ → List ℕ
  packet_of info body = assemble (encode_key e) info (mac_of info) body

module _ (P : Primitives) (c : IsCorrect P) (g : Geometry) (layout : IsLaidOut g P.public_key_size)
    (x : P.PrivateKey) (e : P.PublicKey) (info block new_info body : List ℕ)
    (info_length : length info ≡ g.routing_info_length)
    (block_length : length block ≡ g.per_hop_routing_info_length) where
  open P use {public_key_size, encode_key, decode_key, derive_secret, hmac, sha512_256}
  open g use {per_hop_routing_info_length as per_hop, routing_info_length}

  abbrev element : List ℕ
  element = encode_key e

  abbrev keys : PacketKeys P
  keys = own_keys P x e

  abbrev own_mac : List ℕ
  own_mac = mac_of P x e info

  abbrev packet : List ℕ
  packet = packet_of P x e info body

  abbrev mac_length-own : length own_mac ≡ 32
  mac_length-own = c.length-hmac keys.header_mac (v0_ad ++ (element ++ info))

  long_enough : ltb (length packet) g.header_length ≡ false
  long_enough = ground (
    arith,
    layout.header,
    length-assemble element info own_mac body,
    c.length-encode e,
    mac_length-own,
  )

  -- The header is accepted, and what is left is to act on the commands.
  pub unwrap-finish :
      (s : ParseState)
      → xor_key_stream P keys.header_encryption keys.header_encryption_iv
          (info ++ replicate per_hop 0)
        ≡ block ++ new_info
      → parse_commands (suc per_hop) g block parse_start ≡ ok s
      → unwrap_nike P g x packet ≡ finish P g keys e (sha512_256 element) new_info s packet
  unfolding unwrap_nike
  unwrap-finish s mask parsed = rw (
    long_enough,
    Parts.version_slice public_key_size routing_info_length element info own_mac body
        (c.length-encode e) info_length mac_length-own,
    bytes_eq_refl v0_ad,
    Parts.element_slice public_key_size routing_info_length element info own_mac body
        (c.length-encode e) info_length mac_length-own,
    c.decode-encode e,
    kdf-ok P c (derive_secret x e),
    Parts.covered_slice public_key_size routing_info_length element info own_mac body
        (c.length-encode e) info_length mac_length-own,
    Parts.mac_slice public_key_size routing_info_length element info own_mac body
        (c.length-encode e) info_length mac_length-own,
    bytes_eq_refl own_mac,
    Parts.info_slice public_key_size routing_info_length element info own_mac body
        (c.length-encode e) info_length mac_length-own,
    mask,
    take-append per_hop block new_info block_length,
    drop-append per_hop block new_info block_length,
    block_length,
    parsed,
  )
