-- ===== src/Server/Packet.antt =====
-- server/internal/packet/packet.go: a packet, its commands and its payload. Times and durations are
-- in nanoseconds; a Go `nil` is `none`. The buffer pools are left out.
use katzenpost_wt.Prelude.{
  ℕ, ◌+◌, Bool, true, false, not, ◌&&◌, List, [], ◌∷◌, Option, none, some, Run, ok, err, refuse_if,
  panic_unless, ◌>>=◌, ◌>>◌, length, take, drop, get_or, ltb, ◌==◌, if◌then◌else◌,
}
use katzenpost_wt.Sphinx.Geometry.{Geometry}
use katzenpost_wt.Sphinx.Commands.{RoutingCommand, next_node_hop, node_delay, recipient, surb_reply}

pub record Packet : Type 0 where
  pub raw : List ℕ
  pub payload : Option (List ℕ)
  pub next_hop : Option (List ℕ × List ℕ)
  pub delay_command : Option ℕ
  pub recipient_id : Option (List ℕ)
  pub surb_id : Option (List ℕ)
  pub id : ℕ
  pub delay : ℕ
  pub recv_at : ℕ
  pub dispatch_at : ℕ
  pub must_forward : Bool
  pub must_terminate : Bool

abbrev pub is_set {ℓ} : {A : Type ℓ} → Option A → Bool
is_set none = false
is_set (some a) = true

-- One round of the loop of `splitCommands`: `none` for a redundant command.
unfoldable pub split_command : Packet → RoutingCommand → Option Packet
split_command pkt (next_node_hop id mac) =
    if is_set pkt.next_hop then none else some (record pkt { next_hop = some (id, mac) })
split_command pkt (node_delay delay) =
    if is_set pkt.delay_command then none else some (record pkt { delay_command = some delay })
split_command pkt (recipient id) =
    if is_set pkt.recipient_id then none else some (record pkt { recipient_id = some id })
split_command pkt (surb_reply id) =
    if is_set pkt.surb_id then none else some (record pkt { surb_id = some id })

-- What the packet holds at the end, and whether every command went in.
unfoldable pub split_commands : Packet → List RoutingCommand → Packet × Bool
unfolding split_command
split_commands pkt [] = (pkt, true)
split_commands pkt (cmd ∷ cmds) = elim (split_command pkt cmd) [
  | none ↦ (pkt, false)
  | some next ↦ split_commands next cmds
]

-- `Packet.Set`, with what `Unwrap` has left in the raw packet.
unfoldable pub set_unwrapped :
    Packet → List ℕ → Option (List ℕ) → List RoutingCommand → Packet × Bool
unfolding split_commands
set_unwrapped pkt raw payload cmds =
    split_commands (record pkt { raw = raw; payload = payload }) cmds

unfoldable pub is_forward : Packet → Bool
is_forward pkt =
    is_set pkt.next_hop
    && is_set pkt.delay_command
    && not (is_set pkt.recipient_id)
    && not (is_set pkt.surb_id)

unfoldable pub is_to_user : Packet → Bool
is_to_user pkt =
    not (is_set pkt.next_hop)
    && is_set pkt.delay_command
    && is_set pkt.recipient_id
    && not (is_set pkt.surb_id)

unfoldable pub is_surb_reply : Packet → Bool
is_surb_reply pkt =
    not (is_set pkt.next_hop)
    && not (is_set pkt.delay_command)
    && is_set pkt.recipient_id
    && is_set pkt.surb_id

pub data ForwardError : Type 0 where
  invalid_length truncated_block invalid_reserved invalid_flags mis_sized : ForwardError

-- The payload of a forward packet, with a SURB where the flags say so.
forward_surb : Geometry → ℕ → List ℕ → Run ForwardError (Option (List ℕ))
forward_surb g hdr_length b =
    if get_or b 0 0 == 0
    then ok none
    else (if get_or b 0 0 == 1
        then ok (some (drop g.sphinx_plaintext_header_length (take hdr_length b)))
        else err invalid_flags)

unfoldable pub parse_forward_packet :
    Geometry → List ℕ → Run ForwardError (List ℕ × Option (List ℕ))
unfolding forward_surb
parse_forward_packet g b =
    let hdr_length = g.sphinx_plaintext_header_length + g.surb_length in
    do
      refuse_if (not (length b == g.forward_payload_length)) invalid_length
      refuse_if (ltb (length b) hdr_length) truncated_block
      panic_unless (ltb 1 (length b))
      refuse_if (not (get_or b 1 0 == 0)) invalid_reserved
      surb ← forward_surb g hdr_length b
      let ct = drop hdr_length b
      refuse_if (not (length ct == g.user_forward_payload_length)) mis_sized
      ok (ct, surb)
