-- ===== src/Sphinx/Commands.antt =====
-- core/sphinx/commands/commands.go: the per-hop routing commands and their encoding.
-- A fixed-size array is a list, whose length `IsWellFormed` states.
pub mod RoundTrip
pub mod Canonical
use katzenpost_wt.Prelude.{
  ℕ, ◌-◌, ◌<◌, ◌≡◌, Bool, List, [], ◌∷◌, ◌++◌, Option, none, some, Run, ok, err, panic, ◌>>=◌, ◌>>◌,
  ◌==◌, ltb, leb, if◌then◌else◌, refuse_if, length, take, drop, ◌^◌,
}
use katzenpost_wt.Prelude.Bytes.{put_u32, get_u32, copy_array, ct_is_zero}
use katzenpost_wt.Sphinx.Geometry.{
  Geometry, node_id_length, recipient_id_length, surb_id_length, mac_length,
}

abbrev null_id : ℕ
null_id = 0x00

abbrev pub next_node_hop_id : ℕ
next_node_hop_id = 0x01

abbrev recipient_id : ℕ
recipient_id = 0x02

abbrev surb_reply_id : ℕ
surb_reply_id = 0x03

abbrev node_delay_id : ℕ
node_delay_id = 0x80

pub data RoutingCommand : Type 0 where
  next_node_hop : (id mac : List ℕ) → RoutingCommand
  recipient : (id : List ℕ) → RoutingCommand
  surb_reply : (id : List ℕ) → RoutingCommand
  node_delay : (delay : ℕ) → RoutingCommand

-- The sizes that the types of the Go fields give.
abbrev pub IsWellFormed : RoutingCommand → Type 0
IsWellFormed (next_node_hop id mac) = (length id ≡ node_id_length) × (length mac ≡ mac_length)
IsWellFormed (recipient id) = length id ≡ recipient_id_length
IsWellFormed (surb_reply id) = length id ≡ surb_id_length
IsWellFormed (node_delay delay) = delay < 2 ^ 32

pub data CommandError : Type 0 where
  invalid_command : CommandError

-- `ToBytes` appends to its argument.
unfoldable pub to_bytes : RoutingCommand → List ℕ → List ℕ
to_bytes (next_node_hop id mac) b = ((b ++ next_node_hop_id ∷ []) ++ id) ++ mac
to_bytes (recipient id) b = (b ++ recipient_id ∷ []) ++ id
to_bytes (surb_reply id) b = (b ++ surb_reply_id ∷ []) ++ id
to_bytes (node_delay delay) b = (b ++ node_delay_id ∷ []) ++ put_u32 delay

-- The results `cmd` and `rest` of a parser; `none` is Go's `nil`.
abbrev pub Parsed : Type 0
Parsed = Option RoutingCommand × Option (List ℕ)

-- `b[:n]` and `b[n:]`; past the length of `b` they panic.
abbrev slice_to : ℕ → List ℕ → Run CommandError (List ℕ)
slice_to n b = if leb n (length b) then ok (take n b) else panic

abbrev slice_from : ℕ → List ℕ → Run CommandError (List ℕ)
slice_from n b = if leb n (length b) then ok (drop n b) else panic

-- The slice bound `g.NextNodeHopLength-1` is negative at 0, and panics.
pub next_node_hop_from_bytes : List ℕ → Geometry → Run CommandError Parsed
next_node_hop_from_bytes b g = if g.next_node_hop_length == 0 then panic else do
  refuse_if (ltb (length b) (g.next_node_hop_length - 1)) invalid_command
  rest ← slice_from (g.next_node_hop_length - 1) b
  id ← slice_to node_id_length b
  mac ← slice_from node_id_length b
  ok (some (next_node_hop (copy_array node_id_length id) (copy_array mac_length mac)), some rest)

pub recipient_from_bytes : List ℕ → Run CommandError Parsed
recipient_from_bytes b = do
  refuse_if (ltb (length b) recipient_id_length) invalid_command
  rest ← slice_from recipient_id_length b
  id ← slice_to recipient_id_length b
  ok (some (recipient (copy_array recipient_id_length id)), some rest)

pub surb_reply_from_bytes : List ℕ → Run CommandError Parsed
surb_reply_from_bytes b = do
  refuse_if (ltb (length b) surb_id_length) invalid_command
  rest ← slice_from surb_id_length b
  id ← slice_to surb_id_length b
  ok (some (surb_reply (copy_array surb_id_length id)), some rest)

pub node_delay_from_bytes : List ℕ → Run CommandError Parsed
node_delay_from_bytes b = do
  refuse_if (ltb (length b) 4) invalid_command
  rest ← slice_from 4 b
  delay ← slice_to 4 b
  ok (some (node_delay (get_u32 delay)), some rest)

unfoldable pub from_bytes : List ℕ → Geometry → Run CommandError Parsed
unfolding next_node_hop_from_bytes recipient_from_bytes surb_reply_from_bytes node_delay_from_bytes
from_bytes [] g = ok (none, none)
from_bytes (id ∷ []) g = if id == null_id then ok (none, none) else err invalid_command
from_bytes (id ∷ x ∷ xs) g =
    let b = x ∷ xs in
    if id == null_id
    then (if ct_is_zero b then ok (none, none) else err invalid_command)
    else if id == next_node_hop_id
    then next_node_hop_from_bytes b g
    else if id == recipient_id
    then recipient_from_bytes b
    else if id == surb_reply_id
    then surb_reply_from_bytes b
    else if id == node_delay_id
    then node_delay_from_bytes b
    else err invalid_command
