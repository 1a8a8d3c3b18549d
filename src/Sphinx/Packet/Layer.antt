-- ===== src/Sphinx/Packet/Layer.antt =====
-- One layer of the header: what `createHeader` adds for a hop, and what the hop takes off.
use katzenpost_wt.Prelude.{
  ℕ, suc, ◌+◌, ◌*◌, ◌≡◌, ap, ◌∙◌, List, [], ◌∷◌, ◌++◌, none, some, ok, arith, length, length-append,
}
use mathlib.Core.List.{append_assoc}
use katzenpost_wt.Prelude.Xor.{xor_list, length-xor_list}
use katzenpost_wt.Sphinx.Geometry.{Geometry}
use katzenpost_wt.Sphinx.Commands.{RoutingCommand, next_node_hop}
use katzenpost_wt.Sphinx.Crypto.{Primitives, IsCorrect}
use katzenpost_wt.Sphinx.Header.{v0_ad, HopStream, xor_bytes}
use katzenpost_wt.Sphinx.Header.Streams.{Unmasks, xor_bytes-ok}
use katzenpost_wt.Sphinx.Packet.{ParseState, parse_start, parse_commands, finish, unwrap_nike}
use katzenpost_wt.Sphinx.Packet.Parsing.{
  length-le-encoded, parse_final, parse_forward, reply_ids, first_of,
}
use katzenpost_wt.Sphinx.Packet.Fragment.{Fits, Block}
use katzenpost_wt.Sphinx.Packet.Hop.{IsLaidOut, own_keys, mac_of, packet_of, unwrap-finish}
use katzenpost_wt.Sphinx.Packet.Delivery.{unmask}

module _ (P : Primitives) (c : IsCorrect P) (g : Geometry) (layout : IsLaidOut g P.public_key_size)
    (x : P.PrivateKey) (e : P.PublicKey) (i : ℕ) (before info block body : List ℕ) (s : HopStream)
    (u : Unmasks P c g i before (own_keys P x e) s)
    (before_length : length before ≡ i * g.per_hop_routing_info_length)
    (info_length : length info + (i + 1) * g.per_hop_routing_info_length ≡ g.routing_info_length)
    (block_length : length block ≡ g.per_hop_routing_info_length) where
  open P use {encode_key, hmac, sha512_256}
  open g use {per_hop_routing_info_length as per_hop, routing_info_length}

  abbrev pub mixed : List ℕ
  mixed = xor_list (block ++ info) s.ri_key_stream

  same_length : length (block ++ info) ≡ length s.ri_key_stream
  same_length = omega (arith, length-append block info, u.mask_length)

  pub mixed-ok : xor_bytes (block ++ info) s.ri_key_stream ≡ ok mixed
  mixed-ok = xor_bytes-ok (block ++ info) s.ri_key_stream same_length

  pub length-mixed : length mixed + i * per_hop ≡ routing_info_length
  length-mixed =
      omega (
        arith,
        length-xor_list (block ++ info) s.ri_key_stream same_length,
        length-append block info,
      )

  pub covered :
      hmac (own_keys P x e).header_mac (((v0_ad ++ encode_key e) ++ mixed) ++ before)
      ≡ mac_of P x e (mixed ++ before)
  covered =
      ap (λ t. hmac (own_keys P x e).header_mac (v0_ad ++ t))
        (append_assoc (encode_key e) mixed before)

  pub length-info : length (mixed ++ before) ≡ routing_info_length
  length-info = omega (arith, length-append mixed before, length-mixed)

  pub new_info_length : length (info ++ s.ri_padding) ≡ routing_info_length
  new_info_length = omega (arith, length-append info s.ri_padding, u.padding_length)

  pub unwrap-layer :
      (t : ParseState)
      → parse_commands (suc per_hop) g block parse_start ≡ ok t
      → unwrap_nike P g x (packet_of P x e (mixed ++ before) body)
        ≡ finish P g
            (own_keys P x e)
            e
            (sha512_256 (encode_key e))
            (info ++ s.ri_padding)
            t
            (packet_of P x e (mixed ++ before) body)
  unwrap-layer t parsed =
      unwrap-finish P c g layout x e (mixed ++ before) block (info ++ s.ri_padding) body length-info
        block_length t
        (unmask P c g i before block info (own_keys P x e) s u same_length before_length) parsed

-- The loop over a hop's block.
module _ (g : Geometry) (hg : g.next_node_hop_length ≡ 65) (cmds : List RoutingCommand)
    (block : List ℕ) where
  open g use {per_hop_routing_info_length as per_hop}

  pub Block-final :
      (P : Primitives)
      → Fits g 0 cmds
      → Block P g hg cmds block
      → parse_commands (suc per_hop) g block parse_start
        ≡ ok (record {
          next_node = none;
          surb_reply_id = first_of (reply_ids cmds);
          commands = cmds;
        })
  Block-final P f b =
      ap (λ t. parse_commands (suc per_hop) g t parse_start) b.shape
      ∙ parse_final g cmds (suc per_hop) b.zeros hg f.well_formed f.no_next f.one_reply
          (omega (arith, length-le-encoded cmds, f.size))

  pub Block-forward :
      (P : Primitives) (id mac : List ℕ)
      → Fits g 65 cmds
      → length id ≡ 32
      → length mac ≡ 32
      → Block P g hg (cmds ++ next_node_hop id mac ∷ []) block
      → parse_commands (suc per_hop) g block parse_start
        ≡ ok (record {
          next_node = some (id, mac);
          surb_reply_id = first_of (reply_ids cmds);
          commands = cmds ++ next_node_hop id mac ∷ [];
        })
  Block-forward P id mac f hi hm b =
      ap (λ t. parse_commands (suc per_hop) g t parse_start) b.shape
      ∙ parse_forward g cmds (suc per_hop) b.zeros hg f.well_formed f.no_next f.one_reply id mac hi
          hm (omega (arith, length-le-encoded cmds, f.size))
