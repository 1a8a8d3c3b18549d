-- ===== src/Sphinx/Packet/Fuel.antt =====
-- The loop of `unwrapNike` in core/sphinx/sphinx.go over the commands of a block comes to an end.
use mathlib.Core.Path.{subst}
use katzenpost_wt.Prelude.{
  ℕ, zero, suc, ◌<◌, ◌≡◌, refl, sym, inl, inr, List, [], ◌∷◌, ◌++◌, none, some, Run, ok, err, panic,
  ◌>>=◌, arith, length, length-append, All, Option-cases,
}
use katzenpost_wt.Sphinx.Geometry.{Geometry}
use katzenpost_wt.Sphinx.Commands.{
  RoutingCommand, next_node_hop, recipient, surb_reply, node_delay, CommandError, Parsed, to_bytes,
  from_bytes,
}
use katzenpost_wt.Sphinx.Commands.Canonical.{from_bytes-canonical}
use katzenpost_wt.Sphinx.Packet.{Reason, ParseState, note_command, parse_commands, out_of_fuel}

abbrev IsByte : ℕ → Type 0
IsByte x = x < 256

All-right : (xs ys : List ℕ) → All IsByte (xs ++ ys) → All IsByte ys
All-right [] ys a = a
All-right (x ∷ xs) ys a = All-right xs ys a.1

to_bytes-some :
    (cmd : RoutingCommand) (rest : List ℕ) → length rest < length (to_bytes cmd [] ++ rest)
unfolding to_bytes
to_bytes-some (next_node_hop id mac) rest = omega (arith, length-append (id ++ mac) rest)
to_bytes-some (recipient id) rest = omega (arith, length-append id rest)
to_bytes-some (surb_reply id) rest = omega (arith, length-append id rest)
to_bytes-some (node_delay delay) rest =
    omega (arith, length-append (to_bytes (node_delay delay) []) rest)

-- Noting a command is no reason to run out of fuel.
note_command_goes_on :
    (cmd : RoutingCommand) (s : ParseState) (f : ParseState → Run Reason ParseState)
    → ((s' : ParseState) → ¬ (f s' ≡ err out_of_fuel))
    → ¬ ((note_command cmd s >>= f) ≡ err out_of_fuel)
unfolding note_command
note_command_goes_on (recipient id) s f go = go _
note_command_goes_on (node_delay delay) s f go = go _
note_command_goes_on (next_node_hop id mac) s f go = elim (Option-cases s.next_node) [
  | inl e ↦ rw e (go _)
  | inr (a, e) ↦ rw e (λ h. cc)
]
note_command_goes_on (surb_reply id) s f go = elim (Option-cases s.surb_reply_id) [
  | inl e ↦ rw e (go _)
  | inr (a, e) ↦ rw e (λ h. cc)
]

module _ (g : Geometry) (hg : g.next_node_hop_length ≡ 65) where
  -- One round, by what `FromBytes` answers.
  round_ends :
      (fuel : ℕ) (buf : List ℕ) (s : ParseState) (r : Run CommandError Parsed)
      → from_bytes buf g ≡ r
      → All IsByte buf
      → ((rest : List ℕ) (s' : ParseState)
          → length rest < length buf
          → All IsByte rest
          → ¬ (parse_commands fuel g rest s' ≡ err out_of_fuel))
      → ¬ (parse_commands (suc fuel) g buf s ≡ err out_of_fuel)
  unfolding parse_commands
  round_ends fuel buf s (err e) answer bytes go = rw (parse_commands, answer) (λ h. cc)
  round_ends fuel buf s panic answer bytes go = rw (parse_commands, answer) (λ h. cc)
  round_ends fuel buf s (ok (none, none)) answer bytes go = rw (parse_commands, answer) (λ h. cc)
  round_ends fuel buf s (ok (none, some rest)) answer bytes go =
      rw (parse_commands, answer) (λ h. cc)
  round_ends fuel buf s (ok (some cmd, none)) answer bytes go =
      let (rest, same, formed, whole) = from_bytes-canonical g buf cmd none hg bytes answer in
      absurd (cc)
  round_ends fuel buf s (ok (some cmd, some rest)) answer bytes go =
      let (rest', same, formed, whole) =
        from_bytes-canonical g buf cmd (some rest) hg bytes answer in
      let this : rest' ≡ rest = cc in
      let whole' : to_bytes cmd [] ++ rest ≡ buf =
        subst (λ t. to_bytes cmd [] ++ t ≡ buf) this whole in
      let shorter : length rest < length buf =
        subst (λ t. length rest < length t) whole' (to_bytes-some cmd rest) in
      let left : All IsByte rest =
        All-right (to_bytes cmd []) rest (subst (All IsByte) (sym whole') bytes) in
      rw (parse_commands, answer)
        (note_command_goes_on cmd s (parse_commands fuel g rest) (λ s'. go rest s' shorter left))

  ends :
      (fuel : ℕ) (buf : List ℕ) (s : ParseState)
      → length buf < fuel
      → All IsByte buf
      → ¬ (parse_commands fuel g buf s ≡ err out_of_fuel)
  ends zero buf s h bytes = absurd (omega arith)
  ends (suc fuel) buf s h bytes =
      round_ends fuel buf s (from_bytes buf g) refl bytes
        (λ rest s' shorter left. ends fuel rest s' (omega arith) left)

  -- On every block of bytes, under a geometry with the constructors' `NextNodeHopLength`, the loop
  -- over the commands ends within the rounds that `unwrapNike` is given: one more than the block
  -- has bytes.
  pub parse_commands_ends :
      (buf : List ℕ) (s : ParseState)
      → All (λ x. x < 256) buf
      → ¬ (parse_commands (suc (length buf)) g buf s ≡ err out_of_fuel)
  parse_commands_ends buf s bytes = ends (suc (length buf)) buf s (omega arith) bytes
