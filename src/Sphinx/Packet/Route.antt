-- ===== src/Sphinx/Packet/Route.antt =====
-- The loop of `createHeader` from the last hop down, against the mixes in turn.
use katzenpost_wt.Prelude.{
  ℕ, suc, ◌+◌, ◌*◌, ◌≡◌, refl, sym, inl, inr, List, [], ◌∷◌, ◌++◌, Option, none, some, ok, arith,
  length,
}
use katzenpost_wt.Sphinx.Geometry.{Geometry}
use katzenpost_wt.Sphinx.Commands.{RoutingCommand, next_node_hop}
use katzenpost_wt.Sphinx.Crypto.{Primitives, IsCorrect, sprp_encrypt}
use katzenpost_wt.Sphinx.Header.{PathHop, HopStream, sprp_keys, padding_or_nil, routing}
use katzenpost_wt.Sphinx.Header.Agreement.{Owns, keys_along}
use katzenpost_wt.Sphinx.Header.Streams.{Unmasks, Layered}
use katzenpost_wt.Sphinx.Packet.{encrypt_layers, finish}
use katzenpost_wt.Sphinx.Packet.Parsing.{reply_ids, first_of}
use katzenpost_wt.Sphinx.Packet.Fragment.{Fits, final-Block, forward-Block}
use katzenpost_wt.Sphinx.Packet.Hop.{IsLaidOut, own_keys, mac_of, packet_of}
use katzenpost_wt.Sphinx.Packet.Step.{finish-forward, finish-payload, finish-reply}
use katzenpost_wt.Sphinx.Packet.Layer
use katzenpost_wt.Sphinx.Packet.Layer.{Block-final, Block-forward}
use katzenpost_wt.Sphinx.Packet.Delivery.{deliver, Found, FitsPath, Ends}

module _ (P : Primitives) (c : IsCorrect P) (g : Geometry)
    (layout : IsLaidOut g P.public_key_size) where
  open P use {PrivateKey, PublicKey, encode_key, blind, sha512_256}
  open g use {per_hop_routing_info_length as per_hop, routing_info_length}

  abbrev pub layers : PublicKey → List PrivateKey → List ℕ → List ℕ
  layers e xs inner = encrypt_layers P (sprp_keys P (keys_along P e xs)) inner

  -- The header from these hops on, and the whole way of the packet through them.
  pub record Routed (hops : List (PathHop P)) (x : PrivateKey) (xs : List PrivateKey)
      (e : PublicKey) (i : ℕ) (before : Option (List ℕ)) (ss : List HopStream) (filler : List ℕ)
      : Type 0 where
    pub info : List ℕ
    pub made :
        routing P g filler before hops (keys_along P e (x ∷ xs)) ss
        ≡ ok (info, mac_of P x e (info ++ padding_or_nil before))
    pub info_length : length info + i * per_hop ≡ routing_info_length
    pub found : List (List RoutingCommand)
    pub arrives :
        (inner result : List ℕ)
        → Ends P c g hops inner result
        → deliver P c g
            (x ∷ xs)
            (packet_of P x e (info ++ padding_or_nil before) (layers e (x ∷ xs) inner))
          ≡ ok (found, some result)
    pub finds : Found P c g hops found

  final_result :
      (x : PrivateKey) (e : PublicKey) (hop : PathHop P) (info new_info inner result : List ℕ)
      → length info ≡ routing_info_length
      → Ends P c g (hop ∷ []) inner result
      → finish P g
          (own_keys P x e)
          e
          (sha512_256 (encode_key e))
          new_info
          (record {
            next_node = none;
            surb_reply_id = first_of (reply_ids hop.commands);
            commands = hop.commands;
          })
          (packet_of P x e info (layers e (x ∷ []) inner))
        ≡ ok (record {
          payload = some result;
          tag = sha512_256 (encode_key e);
          commands = hop.commands;
          packet = packet_of P x e info (layers e (x ∷ []) inner);
        })
  unfolding encrypt_layers sprp_encrypt
  final_result x e hop info new_info inner result hi (inl (no_reply, shape)) = rw no_reply (
      finish-payload P c g layout x e info _ inner hi (c.decrypt-encrypt _ _ inner)
        (sym (c.length-encrypt _ _ inner)) _ result new_info hop.commands shape)
  final_result x e hop info new_info inner result hi (inr (id, one, same, long)) =
      rw (one, ← same)
        (finish-reply P c g layout x e info _ inner hi (c.decrypt-encrypt _ _ inner)
          (sym (c.length-encrypt _ _ inner)) _ id new_info hop.commands long)

  route_final :
      (hop : PathHop P) (x : PrivateKey) (e : PublicKey) (i : ℕ) (before : Option (List ℕ))
      (s : HopStream) (filler : List ℕ)
      → Unmasks P c g i (padding_or_nil before) (own_keys P x e) s
      → length (padding_or_nil before) ≡ i * per_hop
      → length filler + (i + 1) * per_hop ≡ routing_info_length
      → Fits g 0 hop.commands
      → Routed (hop ∷ []) x [] e i before (s ∷ []) filler
  route_final hop x e i before s filler u hb hf fits =
      let (block, makes, shape) = final-Block P g layout.next_node_hop hop [] fits in
      let pad = padding_or_nil before in
      let info = Layer.mixed P c g layout x e i pad filler block [] s u hb hf shape.full in
      let info_whole =
        Layer.length-info P c g layout x e i pad filler block [] s u hb hf shape.full in
      record {
        info = info;
        made =
            unfold routing in
            rw (
              makes,
              Layer.mixed-ok P c g layout x e i pad filler block [] s u hb hf shape.full,
              Layer.covered P c g layout x e i pad filler block [] s u hb hf shape.full,
            );
        info_length =
            Layer.length-mixed P c g layout x e i pad filler block [] s u hb hf shape.full;
        found = hop.commands ∷ [];
        arrives = λ inner result ends.
            unfold deliver in
            rw (
              Layer.unwrap-layer P c g layout x e i pad filler block (layers e (x ∷ []) inner) s u
                  hb hf shape.full _
                  (Block-final g layout.next_node_hop hop.commands block P fits shape),
              final_result x e hop (info ++ pad) (filler ++ s.ri_padding) inner result info_whole
                  ends,
            );
        finds = refl;
      }

  -- What is known of a hop that is not the last, and of the header after it.
  route_forward :
      (hop next : PathHop P) (hops : List (PathHop P)) (x y : PrivateKey) (xs : List PrivateKey)
      (e : PublicKey) (i : ℕ) (before : Option (List ℕ)) (s : HopStream) (ss : List HopStream)
      (filler : List ℕ)
      → Unmasks P c g i (padding_or_nil before) (own_keys P x e) s
      → length (padding_or_nil before) ≡ i * per_hop
      → Fits g 65 hop.commands
      → length next.id ≡ 32
      → Routed
          (next ∷ hops)
          y
          xs
          (blind e (own_keys P x e).blinding_factor)
          (suc i)
          (some s.ri_padding)
          ss
          filler
      → Routed (hop ∷ next ∷ hops) x (y ∷ xs) e i before (s ∷ ss) filler
  unfolding encrypt_layers sprp_encrypt
  route_forward hop next hops x y xs e i before s ss filler u hb fits hid r =
      let keys = own_keys P x e in
      let e' = blind e keys.blinding_factor in
      let pad = padding_or_nil before in
      let mac = mac_of P y e' (r.info ++ s.ri_padding) in
      let mac_length : length mac ≡ 32 = c.length-hmac _ _ in
      let (block, makes, shape) =
        forward-Block P g layout.next_node_hop hop next mac fits hid mac_length in
      let hf : length r.info + (i + 1) * per_hop ≡ routing_info_length =
        omega (arith, r.info_length) in
      let info = Layer.mixed P c g layout x e i pad r.info block [] s u hb hf shape.full in
      let info_whole =
        Layer.length-info P c g layout x e i pad r.info block [] s u hb hf shape.full in
      record {
        info = info;
        made =
            unfold routing in
            rw (
              r.made,
              makes,
              Layer.mixed-ok P c g layout x e i pad r.info block [] s u hb hf shape.full,
              Layer.covered P c g layout x e i pad r.info block [] s u hb hf shape.full,
            );
        info_length =
            Layer.length-mixed P c g layout x e i pad r.info block [] s u hb hf shape.full;
        found = (hop.commands ++ next_node_hop next.id mac ∷ []) ∷ r.found;
        arrives = λ inner result ends.
            unfold deliver in
            rw (
              Layer.unwrap-layer P c g layout x e i pad r.info block (layers e (x ∷ y ∷ xs) inner) s
                  u hb hf shape.full _
                  (Block-forward g layout.next_node_hop hop.commands block P next.id mac fits hid
                    mac_length shape),
              finish-forward P c g layout x e (info ++ pad) (layers e (x ∷ y ∷ xs) inner)
                  (layers e' (y ∷ xs) inner) info_whole
                  (c.decrypt-encrypt _ _ (layers e' (y ∷ xs) inner))
                  (sym (c.length-encrypt _ _ (layers e' (y ∷ xs) inner))) _ next.id mac
                  (r.info ++ s.ri_padding) _ _
                  (Layer.new_info_length P c g layout x e i pad r.info block [] s u hb hf
                    shape.full)
                  mac_length,
              r.arrives inner result ends,
            );
        finds = ((mac, refl), r.finds);
      }

  pub route :
      (hops : List (PathHop P)) (hop : PathHop P) (xs : List PrivateKey) (x : PrivateKey)
      (e : PublicKey) (i : ℕ) (before : Option (List ℕ)) (ss : List HopStream) (filler : List ℕ)
      → Owns P (hop ∷ hops) (x ∷ xs)
      → Layered P c g i (padding_or_nil before) (keys_along P e (x ∷ xs)) ss
      → length (padding_or_nil before) ≡ i * per_hop
      → length filler + (i + length (hop ∷ hops)) * per_hop ≡ routing_info_length
      → FitsPath P c g (hop ∷ hops)
      → Routed (hop ∷ hops) x xs e i before ss filler
  route hops hop xs x e i before [] filler o l hb hf fits = absurd l
  route [] hop [] x e i before (s ∷ []) filler o l hb hf fits =
      route_final hop x e i before s filler l.0 hb hf fits
  route [] hop [] x e i before (s ∷ s' ∷ ss) filler o l hb hf fits = absurd l.1
  route [] hop (y ∷ xs) x e i before (s ∷ ss) filler o l hb hf fits = absurd o.1
  route (next ∷ hops) hop [] x e i before (s ∷ ss) filler o l hb hf fits = absurd o.1
  route (next ∷ hops) hop (y ∷ xs) x e i before (s ∷ ss) filler o l hb hf fits =
      let e' = blind e (own_keys P x e).blinding_factor in
      let rest =
        route hops next xs y e' (suc i) (some s.ri_padding) ss filler o.1 l.1
          (omega (arith, l.0.padding_length)) (omega arith) fits.2 in
      route_forward hop next hops x y xs e i before s ss filler l.0 hb fits.0 fits.1 rest
