-- ===== src/Sphinx/Packet/Fragment.antt =====
-- The block of routing information that `createHeader` makes for one hop.
use katzenpost_wt.Prelude.{
  ℕ, ◌+◌, ◌-◌, ◌≤◌, ◌≡◌, refl, sym, ap, ◌∙◌, true, false, List, [], ◌∷◌, ◌++◌, none, some, ok,
  arith, ltb, length, length-append, replicate, length-replicate, All,
}
use mathlib.Core.List.{append-nil}
use katzenpost_wt.Prelude.Bytes.{copy_array_self}
use katzenpost_wt.Sphinx.Geometry.{Geometry}
use katzenpost_wt.Sphinx.Commands.{RoutingCommand, next_node_hop, IsWellFormed, to_bytes}
use katzenpost_wt.Sphinx.Commands.RoundTrip.{to_bytes-append}
use katzenpost_wt.Sphinx.Crypto.{Primitives}
use katzenpost_wt.Sphinx.Header.{commands_to_bytes, PathHop, hop_fragment}
use katzenpost_wt.Sphinx.Packet.Parsing.{
  encoded, encoded-append, serialize-ok, NoNextHop, reply_ids,
}

-- What the sender must respect: the commands are well formed, hold no `NextNodeHop` and one SURB
-- reply at most, and leave `room` bytes of the block.
pub record Fits (g : Geometry) (room : ℕ) (cmds : List RoutingCommand) : Type 0 where
  pub well_formed : All IsWellFormed cmds
  pub no_next : NoNextHop cmds
  pub one_reply : length (reply_ids cmds) ≤ 1
  pub size : length (encoded cmds) + room ≤ g.per_hop_routing_info_length

module _ (g : Geometry) (hg : g.next_node_hop_length ≡ 65) where
  open g use {per_hop_routing_info_length as per_hop}

  final-ok :
      (cmds : List RoutingCommand)
      → Fits g 0 cmds
      → commands_to_bytes g cmds true ≡ ok (encoded cmds)
  unfolding commands_to_bytes
  final-ok cmds f =
      let fits : ltb per_hop (length (encoded cmds)) ≡ false = ground arith in
      rw (serialize-ok cmds [] f.no_next, fits)

  forward-ok :
      (cmds : List RoutingCommand)
      → Fits g 65 cmds
      → commands_to_bytes g cmds false ≡ ok (encoded cmds)
  unfolding commands_to_bytes
  forward-ok cmds f =
      let fits : ltb per_hop (length (encoded cmds)) ≡ false = ground arith in
      let room : ltb (per_hop - length (encoded cmds)) 65 ≡ false = ground arith in
      rw (serialize-ok cmds [] f.no_next, fits, hg, room)

module _ (P : Primitives) (g : Geometry) (hg : g.next_node_hop_length ≡ 65) where
  open g use {per_hop_routing_info_length as per_hop}

  -- A block: the encoded commands, and zeros up to the size.
  pub record Block (cmds : List RoutingCommand) (block : List ℕ) : Type 0 where
    pub zeros : ℕ
    pub shape : block ≡ encoded cmds ++ replicate zeros 0
    pub full : length block ≡ per_hop

  pad-Block :
      (cmds : List RoutingCommand)
      → length (encoded cmds) ≤ per_hop
      → Block cmds (encoded cmds ++ replicate (per_hop - length (encoded cmds)) 0)
  pad-Block cmds h = record {
    zeros = per_hop - length (encoded cmds);
    shape = refl;
    full = omega (
      arith,
      length-append (encoded cmds) (replicate (per_hop - length (encoded cmds)) 0),
      length-replicate {A = ℕ} (per_hop - length (encoded cmds)) 0,
    );
  }

  -- `NextNodeHop` takes 65 bytes.
  with_next :
      (cmds : List RoutingCommand) (id mac : List ℕ)
      → length id ≡ 32
      → length mac ≡ 32
      → length (encoded (cmds ++ next_node_hop id mac ∷ [])) ≡ length (encoded cmds) + 65
  unfolding to_bytes
  with_next cmds id mac hi hm =
      ap length (encoded-append cmds (next_node_hop id mac ∷ []))
      ∙ omega (
        arith,
        length-append (encoded cmds) (encoded (next_node_hop id mac ∷ [])),
        length-append (id ++ mac) [],
        length-append id mac,
      )

  pub final-Block :
      (hop : PathHop P) (mac : List ℕ)
      → Fits g 0 hop.commands
      → (block : List ℕ) × (hop_fragment P g hop none mac ≡ ok block) × Block hop.commands block
  unfolding hop_fragment
  final-Block hop mac f =
      (_, rw (final-ok g hg hop.commands f), pad-Block hop.commands (omega arith))

  pub forward-Block :
      (hop next : PathHop P) (mac : List ℕ)
      → Fits g 65 hop.commands
      → length next.id ≡ 32
      → length mac ≡ 32
      → (block : List ℕ) × (hop_fragment P g hop (some next) mac ≡ ok block)
        × Block (hop.commands ++ next_node_hop next.id mac ∷ []) block
  unfolding hop_fragment
  forward-Block hop next mac f hi hm =
      let cmd = next_node_hop next.id mac in
      let all = hop.commands ++ cmd ∷ [] in
      let whole : to_bytes cmd (encoded hop.commands) ≡ encoded all =
        to_bytes-append cmd (encoded hop.commands)
        ∙ sym (
            encoded-append hop.commands (cmd ∷ [])
            ∙ ap (λ z. encoded hop.commands ++ z) (append-nil _)) in
      (
        _,
        rw (
          forward-ok g hg hop.commands f,
          copy_array_self 32 next.id hi,
          copy_array_self 32 mac hm,
          whole,
        ),
        pad-Block all (omega (arith, with_next hop.commands next.id mac hi hm)),
      )
