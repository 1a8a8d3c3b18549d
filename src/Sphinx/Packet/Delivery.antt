-- ===== src/Sphinx/Packet/Delivery.antt =====
-- A packet along its whole path: each mix unwraps what the mix before it forwards.
use katzenpost_wt.Prelude.{
  ℕ, ◌+◌, ◌*◌, ◌≤◌, ◌≡◌, ◌∙◌, ◌⊎◌, List, [], ◌∷◌, ◌++◌, Option, none, Run, ok, ◌>>=◌, arith, length,
  length-append, replicate, length-replicate,
}
use mathlib.Core.List.{append_assoc}
use katzenpost_wt.Prelude.Xor.{xor_list, xor_list-append, xor_list_cancel, length-xor_list}
use katzenpost_wt.Sphinx.Geometry.{Geometry}
use katzenpost_wt.Sphinx.Commands.{RoutingCommand, next_node_hop}
use katzenpost_wt.Sphinx.Crypto.{Primitives, IsCorrect, PacketKeys, xor_key_stream}
use katzenpost_wt.Sphinx.Packet.{UnwrapError, unwrap_nike}
use katzenpost_wt.Sphinx.Packet.Parsing.{reply_ids}
use katzenpost_wt.Sphinx.Packet.Fragment.{Fits}
use katzenpost_wt.Sphinx.Header.{PathHop, HopStream}
use katzenpost_wt.Sphinx.Header.Streams.{Unmasks}

module _ (P : Primitives) (c : IsCorrect P) (g : Geometry) where
  open g use {per_hop_routing_info_length as per_hop, routing_info_length}

  -- The hop's key stream takes the mask off its block and the next hop's routing information, and
  -- turns the padding before it into the next padding.
  pub unmask :
      (i : ℕ) (before block info : List ℕ) (k : PacketKeys P) (s : HopStream)
      → Unmasks P c g i before k s
      → length (block ++ info) ≡ length s.ri_key_stream
      → length before ≡ i * per_hop
      → xor_key_stream P k.header_encryption k.header_encryption_iv
          ((xor_list (block ++ info) s.ri_key_stream ++ before) ++ replicate per_hop 0)
        ≡ block ++ (info ++ s.ri_padding)
  unfolding xor_key_stream
  unmask i before block info k s u h hb =
      let mixed = xor_list (block ++ info) s.ri_key_stream in
      let zeros : List ℕ = replicate per_hop 0 in
      let mixed_length : length mixed ≡ length s.ri_key_stream =
        length-xor_list (block ++ info) s.ri_key_stream h ∙ h in
      let size : length ((mixed ++ before) ++ zeros) ≡ routing_info_length + per_hop = omega (
        arith,
        length-append (mixed ++ before) zeros,
        length-append mixed before,
        length-replicate {A = ℕ} per_hop 0,
        u.mask_length,
      ) in
      rw
        (
          size,
          u.whole,
          append_assoc mixed before zeros,
          xor_list-append mixed s.ri_key_stream (before ++ zeros) u.tail mixed_length,
          u.next_padding,
          xor_list_cancel (block ++ info) s.ri_key_stream h,
        )
        (append_assoc block info s.ri_padding)

  -- The mixes in turn: the commands that each of them finds, and what the last one returns.
  unfoldable pub deliver :
      List P.PrivateKey → List ℕ → Run UnwrapError (List (List RoutingCommand) × Option (List ℕ))
  deliver [] pkt = ok ([], none)
  deliver (x ∷ []) pkt = do u ← unwrap_nike P g x pkt; ok (u.commands ∷ [], u.payload)
  deliver (x ∷ y ∷ xs) pkt = do
    u ← unwrap_nike P g x pkt
    (found, payload) ← deliver (y ∷ xs) u.packet
    ok (u.commands ∷ found, payload)

  -- Each mix finds the hop's commands, and all but the last also the next hop.
  abbrev pub Found : List (PathHop P) → List (List RoutingCommand) → Type 0
  Found (hop ∷ []) (cmds ∷ []) = cmds ≡ hop.commands
  Found (hop ∷ next ∷ hops) (cmds ∷ rest) =
      ((mac : List ℕ) × (cmds ≡ hop.commands ++ next_node_hop next.id mac ∷ []))
      × Found (next ∷ hops) rest
  Found _ _ = ⊥

  -- Every hop's commands fit into its block, with `NextNodeHop` on all but the last.
  abbrev pub FitsPath : List (PathHop P) → Type 0
  FitsPath [] = ⊥
  FitsPath (hop ∷ []) = Fits g 0 hop.commands
  FitsPath (hop ∷ next ∷ hops) =
      Fits g 65 hop.commands × (length next.id ≡ 32) × FitsPath (next ∷ hops)

  -- What the last hop makes of the decrypted body: a payload behind the tag, or a reply.
  abbrev pub Ends : List (PathHop P) → List ℕ → List ℕ → Type 0
  Ends [] inner result = ⊥
  Ends (hop ∷ []) inner result =
      ((reply_ids hop.commands ≡ []) × (inner ≡ replicate g.payload_tag_length 0 ++ result))
      ⊎ ((id : List ℕ) × (reply_ids hop.commands ≡ id ∷ [])
          × (inner ≡ result)
          × (g.payload_tag_length ≤ length inner))
  Ends (hop ∷ next ∷ hops) inner result = Ends (next ∷ hops) inner result
