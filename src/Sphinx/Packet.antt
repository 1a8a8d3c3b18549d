-- ===== src/Sphinx/Packet.antt =====
-- `newNikePacket` and `unwrapNike` of core/sphinx/sphinx.go. `Unwrap` transforms the packet in
-- place: the new packet is a part of the result.
pub mod Parsing
pub mod Step
pub mod Hop
pub mod Slicing
pub mod Correct
pub mod Route
pub mod Layer
pub mod Delivery
pub mod Parts
pub mod Fragment
pub mod Fuel
use katzenpost_wt.Prelude.{
  ℕ, zero, suc, ◌+◌, ◌-◌, not, ◌&&◌, List, [], ◌∷◌, ◌++◌, Option, none, some, Run, ok, err, panic,
  ◌>>=◌, ◌>>◌, ltb, leb, ◌==◌, if◌then◌else◌, length, take, drop, replicate, or_panic, or_fail,
  refuse_if,
}
use katzenpost_wt.Prelude.Bytes.{ct_is_zero, overwrite, bytes_eq}
use katzenpost_wt.Sphinx.Geometry.{Geometry, mac_length}
use katzenpost_wt.Sphinx.Commands.{
  RoutingCommand, next_node_hop, recipient, surb_reply, node_delay, from_bytes,
}
use katzenpost_wt.Sphinx.Crypto.{
  Primitives, PacketKeys, kdf, xor_key_stream, sprp_encrypt, sprp_decrypt, SphinxError,
  payload_length,
}
use katzenpost_wt.Sphinx.Header.{v0_ad, PathHop, Entropy, SprpKey, create_header}

-- Why a packet was not unwrapped.
pub data Reason : Type 0 where
  truncated unknown_version bad_element mac_mismatch bad_command null_with_rest : Reason
  two_next_nodes two_surb_replies truncated_payload invalid_tag out_of_fuel : Reason

-- The error, with the replay tag if it was computed before.
pub data UnwrapError : Type 0 where
  failed : (tag : Option (List ℕ)) → Reason → UnwrapError

-- `b[lo:hi]`, and `copy(b[lo:hi], src)`; out of range they panic.
unfoldable pub sub_slice : ℕ → ℕ → List ℕ → Run UnwrapError (List ℕ)
sub_slice lo hi b =
    if leb lo hi && leb hi (length b) then ok (take (hi - lo) (drop lo b)) else panic

unfoldable pub copy_at : ℕ → ℕ → List ℕ → List ℕ → Run UnwrapError (List ℕ)
copy_at lo hi src b =
    if leb lo hi && leb hi (length b)
    then ok (take lo b ++ (overwrite (take (hi - lo) (drop lo b)) src ++ drop hi b))
    else panic

-- The variables of the loop that parses commands.
pub record ParseState : Type 0 where
  pub next_node : Option (List ℕ × List ℕ)
  pub surb_reply_id : Option (List ℕ)
  pub commands : List RoutingCommand

abbrev pub parse_start : ParseState
parse_start = record { next_node = none; surb_reply_id = none; commands = [] }

-- The `switch` on the command, and the `append`.
pub note_command : RoutingCommand → ParseState → Run Reason ParseState
note_command (next_node_hop id mac) s = elim s.next_node [
  | none ↦
      ok (record s {
        next_node = some (id, mac);
        commands = s.commands ++ next_node_hop id mac ∷ [];
      })
  | some _ ↦ err two_next_nodes
]
note_command (surb_reply id) s = elim s.surb_reply_id [
  | none ↦ ok (record s { surb_reply_id = some id; commands = s.commands ++ surb_reply id ∷ [] })
  | some _ ↦ err two_surb_replies
]
note_command (recipient id) s = ok (record s { commands = s.commands ++ recipient id ∷ [] })
note_command (node_delay d) s = ok (record s { commands = s.commands ++ node_delay d ∷ [] })

-- Each command takes a byte at least: one more round than the buffer has bytes is enough fuel.
-- A `nil` rest is an empty buffer for the next round.
unfoldable pub parse_commands : ℕ → Geometry → List ℕ → ParseState → Run Reason ParseState
unfolding note_command
parse_commands zero g buf s = err out_of_fuel
parse_commands (suc fuel) g buf s = elim (from_bytes buf g) [
  | err e ↦ err bad_command
  | panic ↦ panic
  | ok (none, none) ↦ ok s
  | ok (none, some rest) ↦ err null_with_rest
  | ok (some cmd, none) ↦ note_command cmd s >>= parse_commands fuel g []
  | ok (some cmd, some rest) ↦ note_command cmd s >>= parse_commands fuel g rest
]

unfoldable pub tagged {ℓ} : {A : Type ℓ} → List ℕ → Run Reason A → Run UnwrapError A
tagged tag (ok a) = ok a
tagged tag (err r) = err (failed (some tag) r)
tagged tag panic = panic

pub record Unwrapped : Type 0 where
  pub payload : Option (List ℕ)
  pub tag : List ℕ
  pub commands : List RoutingCommand
  pub packet : List ℕ

module _ (P : Primitives) where
  open P use {
    PublicKey, PrivateKey, public_key_size, encode_key, decode_key, derive_secret, blind_in_place,
    hmac, sha512_256,
  }

  unfoldable pub encrypt_layers : List (SprpKey P) → List ℕ → List ℕ
  encrypt_layers [] b = b
  encrypt_layers (k ∷ ks) b = sprp_encrypt P k.key k.iv (encrypt_layers ks b)

  -- `zeroBytes[:PayloadTagLength]` panics if a hop's routing information is shorter.
  unfoldable pub new_nike_packet :
      Geometry → Entropy P → List (PathHop P) → List ℕ → Run SphinxError (List ℕ)
  unfolding encrypt_layers
  new_nike_packet g source path payload = do
    refuse_if (not (length payload == g.forward_payload_length)) payload_length
    (hdr, keys) ← create_header P g source path
    let body = replicate g.payload_tag_length 0 ++ payload
    if ltb g.per_hop_routing_info_length g.payload_tag_length
        then panic
        else ok (hdr ++ overwrite body (encrypt_layers keys body))

  -- The transformation for the next mix.
  unfoldable pub forward_packet :
      ℕ
      → ℕ
      → ℕ
      → PublicKey
      → PrivateKey
      → List ℕ
      → List ℕ
      → List ℕ
      → List ℕ
      → Run UnwrapError (List ℕ)
  forward_packet ri_off mac_off payload_off element factor info mac payload pkt = do
    blinded ← or_panic (blind_in_place element factor)
    pkt1 ← copy_at 2 ri_off (encode_key blinded) pkt
    pkt2 ← copy_at ri_off mac_off info pkt1
    pkt3 ← copy_at mac_off payload_off mac pkt2
    copy_at payload_off (length pkt3) payload pkt3

  -- The end of a packet that stops here.
  unfoldable pub final_payload :
      Geometry → List ℕ → Option (List ℕ) → List ℕ → Run UnwrapError (List ℕ)
  final_payload g tag surb payload = do
    refuse_if (ltb (length payload) g.payload_tag_length) (failed (some tag) truncated_payload)
    elim surb [
      | some id ↦ ok payload
      | none ↦ do
        refuse_if (not (ct_is_zero (take g.payload_tag_length payload)))
            (failed (some tag) invalid_tag)
        ok (drop g.payload_tag_length payload)
    ]

  -- What follows the parsed commands: the payload, and the packet for the next hop or the end.
  unfoldable pub finish :
      Geometry
      → PacketKeys P
      → PublicKey
      → List ℕ
      → List ℕ
      → ParseState
      → List ℕ
      → Run UnwrapError Unwrapped
  unfolding forward_packet final_payload
  finish g keys element tag new_info s pkt =
      let ri_off = 2 + public_key_size in
      let mac_off = ri_off + g.routing_info_length in
      let payload_off = mac_off + mac_length in
      do
        body ← sub_slice payload_off (length pkt) pkt
        payload ←
            if ltb 0 (length body)
            then sprp_decrypt P keys.payload_encryption keys.header_encryption_iv body
            else ok body
        elim s.next_node [
          | some (id, mac) ↦ do
            next ←
                forward_packet ri_off mac_off payload_off element keys.blinding_factor new_info mac
                  payload pkt
            ok (record { payload = none; tag = tag; commands = s.commands; packet = next })
          | none ↦ do
            final ← final_payload g tag s.surb_reply_id payload
            ok (record { payload = some final; tag = tag; commands = s.commands; packet = pkt })
        ]

  unfoldable pub unwrap_nike : Geometry → PrivateKey → List ℕ → Run UnwrapError Unwrapped
  unfolding tagged
  unwrap_nike g private_key pkt =
      let ri_off = 2 + public_key_size in
      let mac_off = ri_off + g.routing_info_length in
      let payload_off = mac_off + mac_length in
      do
        refuse_if (ltb (length pkt) g.header_length) (failed none truncated)
        version ← sub_slice 0 2 pkt
        refuse_if (not (bytes_eq v0_ad version)) (failed none unknown_version)
        element_bytes ← sub_slice 2 ri_off pkt
        element ← or_fail (decode_key element_bytes) (failed none bad_element)
        let tag = sha512_256 (encode_key element)
        keys ← kdf P (derive_secret private_key element)
        covered ← sub_slice 0 mac_off pkt
        mac ← sub_slice mac_off payload_off pkt
        refuse_if (not (bytes_eq mac (hmac keys.header_mac covered)))
            (failed (some tag) mac_mismatch)
        info ← sub_slice ri_off mac_off pkt
        let b =
            xor_key_stream P keys.header_encryption keys.header_encryption_iv
              (info ++ replicate g.per_hop_routing_info_length 0)
        let buf = take g.per_hop_routing_info_length b
        s ← tagged tag (parse_commands (suc (length buf)) g buf parse_start)
        finish g keys element tag (drop g.per_hop_routing_info_length b) s pkt
