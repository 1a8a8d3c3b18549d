-- ===== src/Sphinx/Header.antt =====
-- `createHeader` of core/sphinx/sphinx.go, for the NIKE variant. Its loops are functions of their
-- own: the key material by hop, the key streams and paddings by hop, and the routing information
-- from the last hop back to the first.
pub mod Agreement
pub mod Streams
use katzenpost_wt.Prelude.{
  ℕ, suc, ◌+◌, ◌-◌, ◌*◌, Bool, true, false, not, ◌&&◌, List, [], ◌∷◌, ◌++◌, Option, none, some, Run,
  ok, err, panic, ◌>>=◌, ◌>>◌, ltb, ◌==◌, if◌then◌else◌, length, take, drop, replicate, or_panic,
  or_fail, refuse_if,
}
use katzenpost_wt.Prelude.Bytes.{copy_array}
use katzenpost_wt.Prelude.Xor.{xor_list}
use katzenpost_wt.Sphinx.Geometry.{Geometry, node_id_length, mac_length}
use katzenpost_wt.Sphinx.Commands.{
  RoutingCommand, next_node_hop, recipient, surb_reply, node_delay, to_bytes,
}
use katzenpost_wt.Sphinx.Crypto.{
  Primitives, PacketKeys, kdf, key_stream, SphinxError, key_generation, entropy, invalid_path,
  next_node_hop_given, oversized, no_capacity,
}

abbrev pub v0_ad : List ℕ
v0_ad = 0x00 ∷ 0x00 ∷ []

-- `xorBytes` panics on slices of different lengths.
unfoldable pub xor_bytes : List ℕ → List ℕ → Run SphinxError (List ℕ)
xor_bytes a b = if length a == length b then ok (xor_list a b) else panic

unfoldable pub is_next_node_hop : RoutingCommand → Bool
is_next_node_hop (next_node_hop id mac) = true
is_next_node_hop (recipient id) = false
is_next_node_hop (surb_reply id) = false
is_next_node_hop (node_delay delay) = false

unfoldable pub serialize : List RoutingCommand → List ℕ → Run SphinxError (List ℕ)
serialize [] b = ok b
serialize (cmd ∷ cmds) b =
    let more = serialize cmds (to_bytes cmd b) in
    if is_next_node_hop cmd then err next_node_hop_given else more

-- The buffer's capacity is `PerHopRoutingInfoLength`: it has not grown when its length is at most
-- that.
unfoldable pub commands_to_bytes : Geometry → List RoutingCommand → Bool → Run SphinxError (List ℕ)
unfolding serialize is_next_node_hop
commands_to_bytes g cmds is_terminal = do
  b ← serialize cmds []
  refuse_if (ltb g.per_hop_routing_info_length (length b)) oversized
  refuse_if
      (not is_terminal && ltb (g.per_hop_routing_info_length - length b) g.next_node_hop_length)
      no_capacity
  ok b

-- `riKeyStream[i]` and `riPadding[i]`.
pub record HopStream : Type 0 where
  pub ri_key_stream : List ℕ
  pub ri_padding : List ℕ

-- The part of the stream past `ksLen`, with the previous hop's padding mixed into its front.
mix_padding : Option (List ℕ) → List ℕ → Run SphinxError (List ℕ)
mix_padding none own = ok own
mix_padding (some before) own = if ltb (length own) (length before) then panic else do
  front ← xor_bytes (take (length before) own) before
  ok (front ++ drop (length before) own)

-- `riPadding[i-1]`, written to the MAC if `i > 0`.
abbrev pub padding_or_nil : Option (List ℕ) → List ℕ
padding_or_nil none = []
padding_or_nil (some p) = p

module _ (P : Primitives) where
  open P use {
    PublicKey, PrivateKey, encode_key, decode_key, public_key, derive_secret, blind, blind_in_place,
    hmac,
  }

  pub record PathHop : Type 0 where
    pub id : List ℕ
    pub nike_public_key : PublicKey
    pub commands : List RoutingCommand

  -- What the random sources give: `GenerateKeyPair`, and `ReadFull` of so many bytes.
  pub record Entropy : Type 0 where
    pub key_pair : Option PrivateKey
    pub random : ℕ → Option (List ℕ)

  -- A hop's group element and keys.
  pub record HopKeys : Type 0 where
    pub element : PublicKey
    pub keys : PacketKeys P

  -- The inner loop over `j`: blind the secret by every earlier factor.
  blind_secret : List ℕ → List PrivateKey → Run SphinxError (List ℕ)
  blind_secret secret [] = ok secret
  blind_secret secret (f ∷ fs) = do
    pub_key ← or_panic (decode_key secret)
    blind_secret (encode_key (blind pub_key f)) fs

  -- The loop over the hops after the first. `factors` are those of the hops so far, in order, and
  -- `last` is the latest.
  later_keys :
      PrivateKey
      → PublicKey
      → List PrivateKey
      → PrivateKey
      → List PathHop
      → Run SphinxError (List HopKeys)
  later_keys client pub_key factors last [] = ok []
  later_keys client pub_key factors last (hop ∷ hops) = do
    secret ← blind_secret (derive_secret client hop.nike_public_key) factors
    keys ← kdf P secret
    blinded ← or_panic (blind_in_place pub_key last)
    element ← or_panic (decode_key (encode_key blinded))
    let factor = keys.blinding_factor
    more ← later_keys client blinded (factors ++ factor ∷ []) factor hops
    ok (record { element = element; keys = keys } ∷ more)

  -- `path[0]` panics on an empty path.
  unfoldable pub hop_keys : PrivateKey → List PathHop → Run SphinxError (List HopKeys)
  unfolding blind_secret later_keys
  hop_keys client [] = panic
  hop_keys client (hop ∷ hops) = do
    keys ← kdf P (derive_secret client hop.nike_public_key)
    element ← or_panic (decode_key (encode_key (public_key client)))
    let factor = keys.blinding_factor
    more ← later_keys client (public_key client) (factor ∷ []) factor hops
    ok (record { element = element; keys = keys } ∷ more)

  -- Round `i` and those after it.
  unfoldable pub hop_streams :
      Geometry → ℕ → Option (List ℕ) → List HopKeys → Run SphinxError (List HopStream)
  unfolding mix_padding
  hop_streams g i before [] = ok []
  hop_streams g i before (h ∷ hs) =
      let per_hop = g.per_hop_routing_info_length in
      let stream =
        key_stream P h.keys.header_encryption h.keys.header_encryption_iv
          (g.routing_info_length + per_hop) in
      let cut = length stream - (i + 1) * per_hop in
      if ltb (length stream) ((i + 1) * per_hop) then panic else do
        padding ← mix_padding before (drop cut stream)
        more ← hop_streams g (suc i) (some padding) hs
        ok (record { ri_key_stream = take cut stream; ri_padding = padding } ∷ more)

  -- The commands of one hop, with `NextNodeHop` unless the hop is the last, padded with zeros.
  unfoldable pub hop_fragment :
      Geometry → PathHop → Option PathHop → List ℕ → Run SphinxError (List ℕ)
  hop_fragment g hop none mac = do
    b ← commands_to_bytes g hop.commands true
    ok (b ++ replicate (g.per_hop_routing_info_length - length b) 0)
  hop_fragment g hop (some next) mac = do
    b ← commands_to_bytes g hop.commands false
    let id = copy_array node_id_length next.id
    let full = to_bytes (next_node_hop id (copy_array mac_length mac)) b
    ok (full ++ replicate (g.per_hop_routing_info_length - length full) 0)

  abbrev pub next_hop : List PathHop → Option PathHop
  next_hop [] = none
  next_hop (h ∷ hs) = some h

  -- The loop from the last hop down: its result is the routing information and the MAC of the
  -- first of the hops. Hops, keys and streams are lists of one length.
  unfoldable pub routing :
      Geometry
      → List ℕ
      → Option (List ℕ)
      → List PathHop
      → List HopKeys
      → List HopStream
      → Run SphinxError (List ℕ × List ℕ)
  routing g filler before (hop ∷ hops) (k ∷ ks) (s ∷ ss) = do
    (info, mac) ← routing g filler (some s.ri_padding) hops ks ss
    fragment ← hop_fragment g hop (next_hop hops) mac
    mixed ← xor_bytes (fragment ++ info) s.ri_key_stream
    let covered = ((v0_ad ++ encode_key k.element) ++ mixed) ++ padding_or_nil before
    ok (mixed, hmac k.keys.header_mac covered)
  routing g filler before _ _ _ = ok (filler, [])

  -- `sprpKey`, the payload key and IV of a hop.
  pub record SprpKey : Type 0 where
    pub key : List ℕ
    pub iv : List ℕ

  abbrev pub sprp_key : HopKeys → SprpKey
  sprp_key h = record { key = h.keys.payload_encryption; iv = h.keys.header_encryption_iv }

  abbrev pub sprp_keys : List HopKeys → List SprpKey
  sprp_keys [] = []
  sprp_keys (h ∷ hs) = sprp_key h ∷ sprp_keys hs

  -- The random stand-in for the hops that the path does not use.
  unfoldable pub filler_of : Geometry → Entropy → ℕ → Run SphinxError (List ℕ)
  filler_of g source used =
      let skipped = g.nr_hops - used in
      if ltb 0 skipped
      then or_fail (source.random (skipped * g.per_hop_routing_info_length)) entropy
      else ok []

  abbrev pub first_element : List HopKeys → List ℕ
  first_element [] = []
  first_element (h ∷ hs) = encode_key h.element

  unfoldable pub create_header :
      Geometry → Entropy → List PathHop → Run SphinxError (List ℕ × List SprpKey)
  unfolding hop_fragment routing filler_of
  create_header g source path = do
    refuse_if (ltb g.nr_hops (length path)) invalid_path
    client ← or_fail source.key_pair key_generation
    keys ← hop_keys client path
    streams ← hop_streams g 0 none keys
    filler ← filler_of g source (length path)
    (info, mac) ← routing g filler none path keys streams
    ok (((v0_ad ++ first_element keys) ++ info) ++ mac, sprp_keys keys)
