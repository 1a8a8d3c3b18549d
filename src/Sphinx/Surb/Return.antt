-- ===== src/Sphinx/Surb/Return.antt =====
-- The life of a single use reply block: core/sphinx/surb.go with the mixes of sphinx.go.
use katzenpost_wt.Prelude.{
  ℕ, ◌+◌, ◌≤◌, ◌≡◌, refl, sym, ap, ◌∙◌, inr, List, [], ◌∷◌, ◌++◌, Option, some, ok, arith, length,
  take, drop, length-append, length-take, length-drop, length-replicate, replicate,
  take-append-drop,
}
use katzenpost_wt.Sphinx.Geometry.{Geometry}
use katzenpost_wt.Sphinx.Commands.{RoutingCommand}
use katzenpost_wt.Sphinx.Crypto.{Primitives, IsCorrect, sprp_encrypt}
use katzenpost_wt.Sphinx.Header.{PathHop, Entropy, SprpKey, sprp_keys, create_header}
use katzenpost_wt.Sphinx.Header.Agreement.{keys_along}
use katzenpost_wt.Sphinx.Packet.{encrypt_layers}
use katzenpost_wt.Sphinx.Packet.Parsing.{reply_ids}
use katzenpost_wt.Sphinx.Packet.Hop.{IsLaidOut}
use katzenpost_wt.Sphinx.Packet.Delivery.{deliver, Found, Ends}
use katzenpost_wt.Sphinx.Packet.Correct.{Works, IsPath, create_header-ok}
use katzenpost_wt.Sphinx.Surb.{keys_blob, new_nike_surb, new_packet_from_surb, decrypt_surb_payload}
use katzenpost_wt.Sphinx.Surb.Reply.{keys_along-Sized, decrypt-reply, from_surb}

module _ (P : Primitives) (c : IsCorrect P) (g : Geometry)
    (layout : IsLaidOut g P.public_key_size) where
  -- Any body is the encryption, by all layers, of what the mixes make of it.
  peeled :
      (ks : List (SprpKey P)) (b : List ℕ)
      → (inner : List ℕ) × (encrypt_layers P ks inner ≡ b) × (length inner ≡ length b)
  unfolding encrypt_layers sprp_encrypt
  peeled [] b = (b, refl, refl)
  peeled (k ∷ ks) b =
      let (m, _, back) = c.encrypt-decrypt k.key k.iv b in
      let (inner, layers, size) = peeled ks m in
      (
        inner,
        ap (P.aez_encrypt k.key k.iv) layers ∙ back,
        size ∙ sym (c.length-encrypt k.key k.iv m) ∙ ap length back,
      )

  surb_made :
      (source : Entropy P) (reader : ℕ → Option (List ℕ)) (kp : List ℕ) (hop : PathHop P)
      (hops : List (PathHop P)) (header : List ℕ) (ks : List (SprpKey P))
      → reader 64 ≡ some kp
      → create_header P g source (hop ∷ hops) ≡ ok (header, ks)
      → new_nike_surb P g source reader (hop ∷ hops)
        ≡ ok ((header ++ hop.id) ++ kp, keys_blob P ks ++ kp)
  unfolding new_nike_surb
  surb_made source reader kp hop hops header ks given made = rw (given, made)

  -- The last hop has exactly this SURB reply.
  abbrev pub Replies : List (PathHop P) → List ℕ → Type 0
  Replies [] id = ⊥
  Replies (hop ∷ []) id = reply_ids hop.commands ≡ id ∷ []
  Replies (hop ∷ next ∷ hops) id = Replies (next ∷ hops) id

  Replies-Ends :
      (hops : List (PathHop P)) (hop : PathHop P) (id inner : List ℕ)
      → Replies (hop ∷ hops) id
      → g.payload_tag_length ≤ length inner
      → Ends P c g (hop ∷ hops) inner inner
  Replies-Ends [] hop id inner r h = inr (id, r, refl, h)
  Replies-Ends (next ∷ hops) hop id inner r h = Replies-Ends hops next id inner r h

  -- The life of a SURB, for a path that fits the geometry and whose last hop has one SURB reply.
  -- `NewSURB` succeeds. Its holder makes a packet with any payload, addressed to the path's first
  -- hop. When the mixes on the path unwrap it in turn, each finds the commands that the owner of
  -- the SURB meant for it, and the last returns a body from which the owner, with the keys that
  -- `NewSURB` gave, gets back exactly the holder's payload.
  pub surb-comes_back :
      (source : Entropy P) (reader : ℕ → Option (List ℕ)) (key_payload : List ℕ) (hop : PathHop P)
      (hops : List (PathHop P)) (x : P.PrivateKey) (xs : List P.PrivateKey) (id payload : List ℕ)
      → Works P c g layout source
      → reader 64 ≡ some key_payload
      → length key_payload ≡ 64
      → IsPath P c g layout hop hops x xs
      → length hop.id ≡ 32
      → Replies (hop ∷ hops) id
      → g.surb_length ≡ g.header_length + 32 + 64
      → (surb : List ℕ) × (keys : List ℕ) × (pkt : List ℕ) × (reply : List ℕ) × (found : List
          (List RoutingCommand))
        × (new_nike_surb P g source reader (hop ∷ hops) ≡ ok (surb, keys))
        × (length surb ≡ g.surb_length)
        × (new_packet_from_surb P g surb payload ≡ ok (pkt, hop.id))
        × (deliver P c g (x ∷ xs) pkt ≡ ok (found, some reply))
        × Found P c g (hop ∷ hops) found
        × (decrypt_surb_payload P g reply keys ≡ ok payload)
  surb-comes_back source reader kp hop hops x xs id payload w given size p hid r hs =
      let h = create_header-ok P c g layout source w hop hops x xs p in
      let ks = sprp_keys P (keys_along P (P.public_key w.client) (x ∷ xs)) in
      let key = take 48 kp in
      let iv = drop 48 kp in
      let hk : length key ≡ 48 = omega (arith, length-take 48 kp) in
      let hi : length iv ≡ 16 = omega (arith, length-drop 48 kp) in
      let whole : key ++ iv ≡ kp = take-append-drop 48 kp in
      let body = replicate g.payload_tag_length 0 ++ payload in
      let (inner, layers, inner_size) = peeled ks (sprp_encrypt P key iv body) in
      let same : length inner ≡ length body =
        inner_size ∙ unfold sprp_encrypt in c.length-encrypt key iv body in
      let sized = keys_along-Sized P c (x ∷ xs) (P.public_key w.client) in
      let long : g.payload_tag_length ≤ length inner = omega (
        arith,
        same,
        length-append (replicate {A = ℕ} g.payload_tag_length 0) payload,
        length-replicate {A = ℕ} g.payload_tag_length 0,
      ) in
      (
        (h.header ++ hop.id) ++ kp,
        keys_blob P ks ++ kp,
        h.header ++ sprp_encrypt P key iv body,
        inner,
        h.found,
        surb_made source reader kp hop hops h.header ks given h.made,
        omega (
          arith,
          length-append (h.header ++ hop.id) kp,
          length-append h.header hop.id,
          h.header_length,
        ),
        ap (λ t. new_packet_from_surb P g ((h.header ++ hop.id) ++ t) payload) (sym whole)
            ∙ from_surb P c g layout key iv hk hi h.header hop.id payload h.header_length hid hs,
        ap (λ t. deliver P c g (x ∷ xs) (h.header ++ t)) (sym layers)
            ∙ h.arrives inner inner (Replies-Ends hops hop id inner r long),
        h.finds,
        ap (λ t. decrypt_surb_payload P g inner (keys_blob P ks ++ t)) (sym whole)
            ∙ decrypt-reply P c g layout key iv hk hi ks inner payload sized same layers,
      )
