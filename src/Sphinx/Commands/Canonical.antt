-- ===== src/Sphinx/Commands/Canonical.antt =====
-- Every block that the decoder of core/sphinx/commands/commands.go accepts has one encoding.
use katzenpost_wt.Prelude.{
  ℕ, ◌^◌, ◌<◌, ◌≡◌, refl, sym, ap, ◌∙◌, ◌⊎◌, inl, inr, Bool, true, false, List, [], ◌∷◌, ◌++◌,
  Option, none, some, Run, ok, err, arith, ltb, length, take, drop, length-take, length-drop,
  take-append-drop, Bool-cases, All, ◌==◌, ==_iff, if◌then◌else◌,
}
use mathlib.Core.Path.{subst}
use katzenpost_wt.Prelude.Bytes.{put_u32, get_u32, ct_is_zero}
use katzenpost_wt.Sphinx.Geometry.{Geometry}
use katzenpost_wt.Sphinx.Commands.{
  RoutingCommand, next_node_hop, recipient, surb_reply, node_delay, IsWellFormed, CommandError,
  invalid_command, Parsed, to_bytes, next_node_hop_from_bytes, recipient_from_bytes,
  surb_reply_from_bytes, node_delay_from_bytes, from_bytes,
}
use katzenpost_wt.Sphinx.Commands.RoundTrip.{
  recipient_parses, surb_reply_parses, node_delay_parses, next_node_hop_parses,
}

-- A slice is cut at `n`, or is shorter.
cut :
    (n : ℕ) (b : List ℕ)
    → (ltb (length b) n ≡ true) ⊎ ((xs : List ℕ) × (ys : List ℕ) × (length xs ≡ n) × (b ≡ xs ++ ys))
cut n b = elim (Bool-cases (ltb (length b) n)) [
  | inl short ↦ inl short
  | inr long ↦ inr (take n b, drop n b, ground (arith, length-take n b), sym (take-append-drop n b))
]

-- What the decoder answers on `b`: the command and the rest are an encoding of `b`.
abbrev pub Decodes : List ℕ → Run CommandError Parsed → Type 0
Decodes b r =
    (cmd : RoutingCommand) (rest? : Option (List ℕ))
    → r ≡ ok (some cmd, rest?)
    → (rest : List ℕ) × (rest? ≡ some rest) × IsWellFormed cmd × (to_bytes cmd [] ++ rest ≡ b)

known :
    (b : List ℕ) (c cmd : RoutingCommand) (r : List ℕ) (rest? : Option (List ℕ))
    → ◌≡◌ {A = Run CommandError Parsed} (ok (some c, some r)) (ok (some cmd, rest?))
    → IsWellFormed c
    → to_bytes c [] ++ r ≡ b
    → (rest : List ℕ) × (rest? ≡ some rest) × IsWellFormed cmd × (to_bytes cmd [] ++ rest ≡ b)
known b c cmd r rest? e w h =
    let same : c ≡ cmd = cc in
    (r, cc, subst IsWellFormed same w, subst (λ x. to_bytes x [] ++ r ≡ b) same h)

recipient-Decodes : (b : List ℕ) → Decodes (2 ∷ b) (recipient_from_bytes b)
unfolding to_bytes
recipient-Decodes b cmd rest? e = elim (cut 32 b) [
  | inl short ↦ unfold recipient_from_bytes in absurd (ground arith)
  | inr (xs, ys, h, split) ↦
      known (2 ∷ b) (recipient xs) cmd ys rest?
        (sym (recipient_parses xs ys h) ∙ ap recipient_from_bytes (sym split) ∙ e) h
        (ap (◌∷◌ 2) (sym split))
]

surb_reply-Decodes : (b : List ℕ) → Decodes (3 ∷ b) (surb_reply_from_bytes b)
unfolding to_bytes
surb_reply-Decodes b cmd rest? e = elim (cut 16 b) [
  | inl short ↦ unfold surb_reply_from_bytes in absurd (ground arith)
  | inr (xs, ys, h, split) ↦
      known (3 ∷ b) (surb_reply xs) cmd ys rest?
        (sym (surb_reply_parses xs ys h) ∙ ap surb_reply_from_bytes (sym split) ∙ e) h
        (ap (◌∷◌ 3) (sym split))
]

next_node_hop-Decodes :
    (g : Geometry) (b : List ℕ)
    → g.next_node_hop_length ≡ 65
    → Decodes (1 ∷ b) (next_node_hop_from_bytes b g)
unfolding to_bytes
next_node_hop-Decodes g b hg cmd rest? e = elim (cut 64 b) [
  | inl short ↦ unfold next_node_hop_from_bytes in absurd (ground arith)
  | inr (xs, ys, h, split) ↦
      let front : length (take 32 xs) ≡ 32 = omega (arith, length-take 32 xs) in
      let back : length (drop 32 xs) ≡ 32 = omega (arith, length-drop 32 xs) in
      let joined : (take 32 xs ++ drop 32 xs) ++ ys ≡ b = rw (take-append-drop 32 xs) (sym split) in
      known (1 ∷ b) (next_node_hop (take 32 xs) (drop 32 xs)) cmd ys rest?
        (sym (next_node_hop_parses (take 32 xs) ys g (drop 32 xs) hg front back)
          ∙ ap (λ x. next_node_hop_from_bytes x g) joined
          ∙ e)
        (front, back) (ap (◌∷◌ 1) joined)
]

-- Four bytes are the big-endian encoding of their value.
put_u32-get_u32 :
    (xs : List ℕ)
    → length xs ≡ 4
    → All (λ x. x < 256) xs
    → (get_u32 xs < 2 ^ 32) × (put_u32 (get_u32 xs) ≡ xs)
unfolding put_u32 get_u32
put_u32-get_u32 (a ∷ b ∷ c ∷ d ∷ []) h w = (omega arith, ground arith)
put_u32-get_u32 xs h w = absurd (omega arith)

All-append_left : (xs ys : List ℕ) → All (λ x. x < 256) (xs ++ ys) → All (λ x. x < 256) xs
All-append_left [] ys h = tt
All-append_left (x ∷ xs) ys h = (h.0, All-append_left xs ys h.1)

node_delay-Decodes :
    (b : List ℕ) → All (λ x. x < 256) b → Decodes (128 ∷ b) (node_delay_from_bytes b)
unfolding to_bytes
node_delay-Decodes b bytes cmd rest? e = elim (cut 4 b) [
  | inl short ↦ unfold node_delay_from_bytes in absurd (ground arith)
  | inr (xs, ys, h, split) ↦
      let (fits, whole) =
        put_u32-get_u32 xs h (All-append_left xs ys (subst (All (λ x. x < 256)) split bytes)) in
      let joined : put_u32 (get_u32 xs) ++ ys ≡ b = rw whole (sym split) in
      known (128 ∷ b) (node_delay (get_u32 xs)) cmd ys rest?
        (sym (node_delay_parses (get_u32 xs) ys fits) ∙ ap node_delay_from_bytes joined ∙ e) fits
        (ap (◌∷◌ 128) joined)
]

Decodes-if :
    (b : List ℕ) (t : Bool) {r s : Run CommandError Parsed}
    → (t ≡ true → Decodes b r)
    → (t ≡ false → Decodes b s)
    → Decodes b (if t then r else s)
Decodes-if b true p q = p refl
Decodes-if b false p q = q refl

-- One arm of the `switch` on the command's id.
branch :
    (id k : ℕ) (b : List ℕ) {r s : Run CommandError Parsed}
    → Decodes (k ∷ b) r
    → Decodes (id ∷ b) s
    → Decodes (id ∷ b) (if id == k then r else s)
branch id k b {r} p q =
    Decodes-if (id ∷ b) (id == k) (λ e. subst (λ i. Decodes (i ∷ b) r) (sym ((==_iff id k).0 e)) p)
      (λ _. q)

null_is_no_command :
    (b : List ℕ) (cmd : RoutingCommand) (rest? : Option (List ℕ))
    → let answer : Run CommandError Parsed =
        if ct_is_zero b then ok (none, none) else err invalid_command in
      ¬ (answer ≡ ok (some cmd, rest?))
null_is_no_command b cmd rest? e = ground arith

from_bytes-Decodes :
    (g : Geometry) (b : List ℕ)
    → g.next_node_hop_length ≡ 65
    → All (λ x. x < 256) b
    → Decodes b (from_bytes b g)
unfolding from_bytes
from_bytes-Decodes g [] hg bytes = λ cmd rest? e. cc
from_bytes-Decodes g (id ∷ []) hg bytes = λ cmd rest? e. absurd (ground arith)
from_bytes-Decodes g (id ∷ x ∷ xs) hg bytes =
    let b = x ∷ xs in
    Decodes-if (id ∷ b) (id == 0) (λ _ cmd rest? e. absurd (null_is_no_command b cmd rest? e))
      (λ _. branch id 1 b (next_node_hop-Decodes g b hg) (
        branch id 2 b (recipient-Decodes b) (
          branch id 3 b (surb_reply-Decodes b)
            (branch id 128 b (node_delay-Decodes b bytes.1) (λ cmd rest? e. cc)))))

-- Whatever `FromBytes` accepts as a command, on a block of bytes under a geometry with the
-- constructors' `NextNodeHopLength`, is the encoding that `ToBytes` gives of it followed by the
-- rest that it returns, and the command's arrays and delay have their sizes.
pub from_bytes-canonical :
    (g : Geometry) (b : List ℕ) (cmd : RoutingCommand) (rest? : Option (List ℕ))
    → g.next_node_hop_length ≡ 65
    → All (λ x. x < 256) b
    → from_bytes b g ≡ ok (some cmd, rest?)
    → (rest : List ℕ) × (rest? ≡ some rest) × IsWellFormed cmd × (to_bytes cmd [] ++ rest ≡ b)
from_bytes-canonical g b cmd rest? hg bytes e = from_bytes-Decodes g b hg bytes cmd rest? e
