-- ===== src/Sphinx/Commands/RoundTrip.antt =====
-- Encoding and decoding the routing commands of core/sphinx/commands/commands.go.
use katzenpost_wt.Prelude.{
  ℕ, zero, suc, ◌^◌, ◌<◌, ◌≡◌, refl, Bool, true, List, [], ◌∷◌, ◌++◌, none, some, Run, ok, arith,
  ltb, leb, length, length-append, take-append, drop-append, replicate,
}
use mathlib.Core.List.{append_assoc}
use katzenpost_wt.Prelude.Bytes.{
  put_u32, get_u32, copy_array_self, copy_array-append, length-put_u32, ct_is_zero-replicate,
}
use katzenpost_wt.Sphinx.Geometry.{Geometry}
use katzenpost_wt.Sphinx.Commands.{
  RoutingCommand, next_node_hop, recipient, surb_reply, node_delay, IsWellFormed, CommandError,
  Parsed, to_bytes, next_node_hop_from_bytes, recipient_from_bytes, surb_reply_from_bytes,
  node_delay_from_bytes, from_bytes,
}

-- A slice at a known boundary.
cut-left : (n : ℕ) (xs ys : List ℕ) → length xs ≡ n → leb n (length (xs ++ ys)) ≡ true
cut-left n xs ys h = ground (arith, length-append xs ys)

enough : (n : ℕ) (xs ys : List ℕ) → length xs ≡ n → ltb (length (xs ++ ys)) n ≡ Bool.false
enough n xs ys h = ground (arith, length-append xs ys)

module _ (id rest : List ℕ) where
  pub recipient_parses :
      length id ≡ 32 → recipient_from_bytes (id ++ rest) ≡ ok (some (recipient id), some rest)
  unfolding recipient_from_bytes
  recipient_parses h = rw (
    enough 32 id rest h,
    cut-left 32 id rest h,
    take-append 32 id rest h,
    drop-append 32 id rest h,
    copy_array_self 32 id h,
  )

  pub surb_reply_parses :
      length id ≡ 16 → surb_reply_from_bytes (id ++ rest) ≡ ok (some (surb_reply id), some rest)
  unfolding surb_reply_from_bytes
  surb_reply_parses h = rw (
    enough 16 id rest h,
    cut-left 16 id rest h,
    take-append 16 id rest h,
    drop-append 16 id rest h,
    copy_array_self 16 id h,
  )

  pub next_node_hop_parses :
      (g : Geometry) (mac : List ℕ)
      → g.next_node_hop_length ≡ 65
      → length id ≡ 32
      → length mac ≡ 32
      → next_node_hop_from_bytes ((id ++ mac) ++ rest) g
        ≡ ok (some (next_node_hop id mac), some rest)
  unfolding next_node_hop_from_bytes
  next_node_hop_parses g mac hg hi hm =
      let both : length (id ++ mac) ≡ 64 = omega (arith, length-append id mac) in
      rw (hg, enough 64 (id ++ mac) rest both, cut-left 64 (id ++ mac) rest both)
        (rw (drop-append 64 (id ++ mac) rest both, append_assoc id mac rest)
          (rw
            (
              cut-left 32 id (mac ++ rest) hi,
              take-append 32 id (mac ++ rest) hi,
              drop-append 32 id (mac ++ rest) hi,
              copy_array_self 32 id hi,
            )
            (rw (copy_array-append 32 mac rest hm))))

pub node_delay_parses :
    (delay : ℕ) (rest : List ℕ)
    → delay < 2 ^ 32
    → node_delay_from_bytes (put_u32 delay ++ rest) ≡ ok (some (node_delay delay), some rest)
unfolding node_delay_from_bytes
node_delay_parses delay rest h =
    let size = length-put_u32 delay in
    rw
      (
        enough 4 (put_u32 delay) rest size,
        cut-left 4 (put_u32 delay) rest size,
        take-append 4 (put_u32 delay) rest size,
        drop-append 4 (put_u32 delay) rest size,
      )
      (value size)
  where
    value :
        length (put_u32 delay) ≡ 4
        → ◌≡◌ {A = Run CommandError Parsed}
            (ok (some (node_delay (get_u32 (put_u32 delay))), some rest))
            (ok (some (node_delay delay), some rest))
    value size =
        let whole : get_u32 (put_u32 delay) ≡ delay = unfold put_u32 get_u32 in omega arith in
        rw whole

-- `FromBytes` reads back a command that `ToBytes` wrote, and hands over the bytes that follow it.
-- Its `NextNodeHopLength` is what both geometry constructors set.
pub from_bytes-to_bytes :
    (g : Geometry) (cmd : RoutingCommand) (rest : List ℕ)
    → g.next_node_hop_length ≡ 65
    → IsWellFormed cmd
    → from_bytes (to_bytes cmd [] ++ rest) g ≡ ok (some cmd, some rest)
unfolding from_bytes to_bytes
from_bytes-to_bytes g (next_node_hop [] mac) rest hg (hi, hm) = absurd (omega arith)
from_bytes-to_bytes g (next_node_hop (x ∷ id) mac) rest hg (hi, hm) =
    next_node_hop_parses (x ∷ id) rest g mac hg hi hm
from_bytes-to_bytes g (recipient []) rest hg h = absurd (omega arith)
from_bytes-to_bytes g (recipient (x ∷ id)) rest hg h = recipient_parses (x ∷ id) rest h
from_bytes-to_bytes g (surb_reply []) rest hg h = absurd (omega arith)
from_bytes-to_bytes g (surb_reply (x ∷ id)) rest hg h = surb_reply_parses (x ∷ id) rest h
from_bytes-to_bytes g (node_delay delay) rest hg h =
    unfold put_u32 in node_delay_parses delay rest h

-- `ToBytes` only appends.
pub to_bytes-append : (cmd : RoutingCommand) (b : List ℕ) → to_bytes cmd b ≡ b ++ to_bytes cmd []
unfolding to_bytes
to_bytes-append (next_node_hop id mac) b = simp append_assoc
to_bytes-append (recipient id) b = simp append_assoc
to_bytes-append (surb_reply id) b = simp append_assoc
to_bytes-append (node_delay delay) b = simp append_assoc

-- A block of zeros, of any length, is the terminal null command.
pub from_bytes-zeros : (n : ℕ) (g : Geometry) → from_bytes (replicate n 0) g ≡ ok (none, none)
unfolding from_bytes
from_bytes-zeros zero g = refl
from_bytes-zeros (suc zero) g = refl
from_bytes-zeros (suc (suc n)) g = rw (ct_is_zero-replicate (suc n))
