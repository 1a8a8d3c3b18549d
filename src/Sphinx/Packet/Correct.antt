-- ===== src/Sphinx/Packet/Correct.antt =====
-- The forward packets of core/sphinx/sphinx.go: made for every path whose commands fit, and
-- delivered by the mixes on it.
use katzenpost_wt.Prelude.{
  ℕ, suc, ◌+◌, ◌-◌, ◌*◌, ◌≤◌, ◌≡◌, refl, ap, ◌∙◌, inl, true, false, List, [], ◌∷◌, ◌++◌, none, some,
  ok, arith, ltb, ◌==◌, length, length-append, length-replicate, replicate, All, Bool-cases, inr,
}
use mathlib.Core.List.{append_assoc, append-nil}
use katzenpost_wt.Prelude.Bytes.{overwrite_all}
use katzenpost_wt.Sphinx.Geometry.{Geometry}
use katzenpost_wt.Sphinx.Commands.{RoutingCommand}
use katzenpost_wt.Sphinx.Crypto.{Primitives, IsCorrect, sprp_encrypt}
use katzenpost_wt.Sphinx.Header.{
  PathHop, HopStream, Entropy, v0_ad, SprpKey, HopKeys, sprp_keys, first_element, hop_keys,
  hop_streams, routing, filler_of, create_header,
}
use katzenpost_wt.Sphinx.Header.Agreement.{Owns, keys_along, hop_keys_agree}
use katzenpost_wt.Sphinx.Header.Streams.{hop_streams-Layered}
use katzenpost_wt.Sphinx.Packet.{new_nike_packet, encrypt_layers}
use katzenpost_wt.Sphinx.Packet.Parts.{assemble}
use katzenpost_wt.Sphinx.Packet.Parsing.{reply_ids}
use katzenpost_wt.Sphinx.Packet.Hop.{IsLaidOut, mac_of}
use katzenpost_wt.Sphinx.Packet.Delivery.{deliver, Found, FitsPath, Ends}
use katzenpost_wt.Sphinx.Packet.Route.{layers, route}

module _ (P : Primitives) (c : IsCorrect P) (g : Geometry)
    (layout : IsLaidOut g P.public_key_size) where
  open P use {PrivateKey, public_key, encode_key}
  open g use {per_hop_routing_info_length as per_hop, routing_info_length}

  -- The random source works: it has a key pair, and as many bytes as are asked for.
  pub record Works (source : Entropy P) : Type 0 where
    pub client : PrivateKey
    pub pair : source.key_pair ≡ some client
    pub bytes : (n : ℕ) → (b : List ℕ) × (source.random n ≡ some b) × (length b ≡ n)

  filler-ok :
      (source : Entropy P) (w : Works source) (used : ℕ)
      → used ≤ g.nr_hops
      → (filler : List ℕ) × (filler_of P g source used ≡ ok filler)
        × (length filler + used * per_hop ≡ routing_info_length)
  unfolding filler_of
  filler-ok source w used h =
      let skipped = g.nr_hops - used in
      let total : skipped * per_hop + used * per_hop ≡ routing_info_length =
        let whole : skipped + used ≡ g.nr_hops = omega arith in
        omega (arith, layout.routing, ap (λ (t : ℕ). t * per_hop) whole) in
      elim (Bool-cases (ltb 0 skipped)) [
        | inl some_left ↦
            let (b, given, size) = w.bytes (skipped * per_hop) in
            (b, rw (some_left, given), omega (arith, size, total))
        | inr none_left ↦ (
          [],
          rw none_left,
          (let nothing : skipped ≡ 0 = ground arith in
              omega (arith, total, ap (λ (t : ℕ). t * per_hop) nothing)),
        )
      ]

  length-keys_along :
      (hops : List (PathHop P)) (xs : List PrivateKey) (e : P.PublicKey)
      → Owns P hops xs
      → length (keys_along P e xs) ≡ length hops
  length-keys_along [] [] e o = refl
  length-keys_along [] (x ∷ xs) e o = absurd o
  length-keys_along (hop ∷ hops) [] e o = absurd o
  length-keys_along (hop ∷ hops) (x ∷ xs) e o = ap suc (length-keys_along hops xs _ o.1)

  -- A path with its owners, that fits the geometry.
  pub record IsPath (hop : PathHop P) (hops : List (PathHop P)) (x : PrivateKey)
      (xs : List PrivateKey) : Type 0 where
    pub owners : Owns P (hop ∷ hops) (x ∷ xs)
    pub short : length (hop ∷ hops) ≤ g.nr_hops
    pub fits : FitsPath P c g (hop ∷ hops)

  -- The header, with what the mixes make of a packet that has it.
  pub record Headed (source : Entropy P) (w : Works source) (hop : PathHop P)
      (hops : List (PathHop P)) (x : PrivateKey) (xs : List PrivateKey) : Type 0 where
    pub info : List ℕ
    pub info_length : length info ≡ routing_info_length
    pub header : List ℕ
    pub made :
        create_header P g source (hop ∷ hops)
        ≡ ok (header, sprp_keys P (keys_along P (public_key w.client) (x ∷ xs)))
    pub header_length : length header ≡ g.header_length
    pub shape :
        (body : List ℕ)
        → header ++ body
          ≡ assemble
              (encode_key (public_key w.client))
              info
              (mac_of P x (public_key w.client) info)
              body
    pub found : List (List RoutingCommand)
    pub arrives :
        (inner result : List ℕ)
        → Ends P c g (hop ∷ hops) inner result
        → deliver P c g
            (x ∷ xs)
            (header ++ layers P c g layout (public_key w.client) (x ∷ xs) inner)
          ≡ ok (found, some result)
    pub finds : Found P c g (hop ∷ hops) found

  -- The steps of `createHeader`, where each of them succeeds.
  create_header_runs :
      (source : Entropy P) (path : List (PathHop P)) (client : PrivateKey) (keys : List (HopKeys P))
      (ss : List HopStream) (filler info mac : List ℕ)
      → ltb g.nr_hops (length path) ≡ false
      → source.key_pair ≡ some client
      → hop_keys P client path ≡ ok keys
      → hop_streams P g 0 none keys ≡ ok ss
      → filler_of P g source (length path) ≡ ok filler
      → routing P g filler none path keys ss ≡ ok (info, mac)
      → create_header P g source path
        ≡ ok (((v0_ad ++ first_element P keys) ++ info) ++ mac, sprp_keys P keys)
  unfolding create_header
  create_header_runs source path client keys ss filler info mac h1 h2 h3 h4 h5 h6 =
      rw (h1, h2, h3, h4, h5, h6)

  pub create_header-ok :
      (source : Entropy P) (w : Works source) (hop : PathHop P) (hops : List (PathHop P))
      (x : PrivateKey) (xs : List PrivateKey)
      → IsPath hop hops x xs
      → Headed source w hop hops x xs
  create_header-ok source w hop hops x xs p =
      let e = public_key w.client in
      let (filler, fills, filler_size) = filler-ok source w (length (hop ∷ hops)) p.short in
      let counted = length-keys_along (hop ∷ hops) (x ∷ xs) e p.owners in
      let (ss, streams, layered) =
        hop_streams-Layered P c g (keys_along P e (x ∷ xs)) 0 none (omega arith)
          (omega (arith, ap (λ (t : ℕ). t * per_hop) counted, filler_size)) in
      let r =
        route P c g layout hops hop xs x e 0 none ss filler p.owners layered (omega arith)
          (omega (arith, filler_size)) p.fits in
      let mac = mac_of P x e (r.info ++ []) in
      let mac_size : length mac ≡ 32 = c.length-hmac _ _ in
      let header = ((v0_ad ++ encode_key e) ++ r.info) ++ mac in
      let shape : (body : List ℕ)
          → header ++ body ≡ assemble (encode_key e) (r.info ++ []) mac body =
        λ body. simp (append_assoc, append-nil) in
      let legal : ltb g.nr_hops (length (hop ∷ hops)) ≡ false = ground (arith, p.short) in
      record {
        info = r.info ++ [];
        info_length = omega (arith, length-append r.info [], r.info_length);
        header = header;
        made =
            create_header_runs source (hop ∷ hops) w.client _ ss filler r.info mac legal w.pair
              (hop_keys_agree P c w.client hop hops (x ∷ xs) p.owners) streams fills r.made;
        header_length = omega (
          arith,
          layout.header,
          length-append ((v0_ad ++ encode_key e) ++ r.info) mac,
          length-append (v0_ad ++ encode_key e) r.info,
          c.length-encode e,
          r.info_length,
          mac_size,
        );
        shape = shape;
        found = r.found;
        arrives = λ inner result ends.
            ap (deliver P c g (x ∷ xs)) (shape (layers P c g layout e (x ∷ xs) inner))
            ∙ r.arrives inner result ends;
        finds = r.finds;
      }

  length-encrypt_layers :
      (ks : List (SprpKey P)) (b : List ℕ) → length (encrypt_layers P ks b) ≡ length b
  unfolding encrypt_layers sprp_encrypt
  length-encrypt_layers [] b = refl
  length-encrypt_layers (k ∷ ks) b =
      c.length-encrypt k.key k.iv (encrypt_layers P ks b) ∙ length-encrypt_layers ks b

  -- No hop has a SURB reply: the end of the path is a payload.
  NoReply-Ends :
      (hops : List (PathHop P)) (hop : PathHop P) (payload : List ℕ)
      → All (λ h. reply_ids h.commands ≡ []) (hop ∷ hops)
      → Ends P c g (hop ∷ hops) (replicate g.payload_tag_length 0 ++ payload) payload
  NoReply-Ends [] hop payload a = inl (a.0, refl)
  NoReply-Ends (next ∷ hops) hop payload a = NoReply-Ends hops next payload a.1

  -- `NewPacket` succeeds on every path that fits the geometry, with a working random source and a
  -- payload of the geometry's length. The packet has the geometry's length. When the mixes on the
  -- path unwrap it in turn, each the packet that the one before it produced, every mix finds the
  -- commands that the sender meant for it and, unless it is the last, the next hop's id; and the
  -- last mix returns the payload. No hop has a SURB reply among its commands.
  pub new_nike_packet-delivers :
      (source : Entropy P) (hop : PathHop P) (hops : List (PathHop P)) (x : PrivateKey)
      (xs : List PrivateKey) (payload : List ℕ)
      → Works source
      → IsPath hop hops x xs
      → All (λ h. reply_ids h.commands ≡ []) (hop ∷ hops)
      → length payload ≡ g.forward_payload_length
      → (pkt : List ℕ) × (found : List (List RoutingCommand)) × (new_nike_packet P g source
            (hop ∷ hops)
            payload
          ≡ ok pkt)
        × (length pkt ≡ g.header_length + g.payload_tag_length + g.forward_payload_length)
        × (deliver P c g (x ∷ xs) pkt ≡ ok (found, some payload))
        × Found P c g (hop ∷ hops) found
  unfolding new_nike_packet
  new_nike_packet-delivers source hop hops x xs payload w p none_replies size =
      let h = create_header-ok source w hop hops x xs p in
      let e = public_key w.client in
      let keys = sprp_keys P (keys_along P e (x ∷ xs)) in
      let body = replicate g.payload_tag_length 0 ++ payload in
      let same_length = length-encrypt_layers keys body in
      let room : ltb per_hop g.payload_tag_length ≡ false =
        ground (arith, layout.tag, layout.per_hop_room) in
      let right_size : (length payload == g.forward_payload_length) ≡ true = ground arith in
      (
        h.header ++ encrypt_layers P keys body,
        h.found,
        rw (right_size, h.made, room, overwrite_all body (encrypt_layers P keys body) same_length),
        omega (
          arith,
          length-append h.header (encrypt_layers P keys body),
          same_length,
          h.header_length,
          length-append (replicate {A = ℕ} g.payload_tag_length 0) payload,
          length-replicate {A = ℕ} g.payload_tag_length 0,
        ),
        h.arrives body payload (NoReply-Ends hops hop payload none_replies),
        h.finds,
      )
