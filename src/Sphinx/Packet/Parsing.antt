-- ===== src/Sphinx/Packet/Parsing.antt =====
-- The loop of `unwrapNike` over a hop's commands, against the commands that were encoded.
use katzenpost_wt.Prelude.{
  ℕ, zero, suc, ◌+◌, ◌≤◌, ◌<◌, ◌≡◌, refl, ap, ◌∙◌, false, List, [], ◌∷◌, ◌++◌, Option, none, some,
  Run, ok, err, ◌>>=◌, >>=-cong, arith, length, length-append, replicate, All, All-append,
}
use mathlib.Core.List.{append_assoc, append-nil}
use katzenpost_wt.Prelude.Bytes.{put_u32}
use katzenpost_wt.Sphinx.Geometry.{Geometry}
use katzenpost_wt.Sphinx.Commands.{
  RoutingCommand, next_node_hop, recipient, surb_reply, node_delay, IsWellFormed, to_bytes,
}
use katzenpost_wt.Sphinx.Commands.RoundTrip.{from_bytes-to_bytes, to_bytes-append, from_bytes-zeros}
use katzenpost_wt.Sphinx.Header.{is_next_node_hop, serialize}
use katzenpost_wt.Sphinx.Packet.{Reason, ParseState, parse_start, note_command, parse_commands}

-- The encodings of the commands, one after the other.
abbrev pub encoded : List RoutingCommand → List ℕ
encoded [] = []
encoded (cmd ∷ cmds) = to_bytes cmd [] ++ encoded cmds

-- The loop without the decoding: what it does with each command.
abbrev note_all : List RoutingCommand → ParseState → Run Reason ParseState
note_all [] s = ok s
note_all (cmd ∷ cmds) s = note_command cmd s >>= note_all cmds

parse_commands-encoded :
    (cmds : List RoutingCommand) (fuel n : ℕ) (g : Geometry) (s : ParseState)
    → g.next_node_hop_length ≡ 65
    → All IsWellFormed cmds
    → length cmds < fuel
    → parse_commands fuel g (encoded cmds ++ replicate n 0) s ≡ note_all cmds s
unfolding parse_commands
parse_commands-encoded [] zero n g s hg w h = absurd (omega arith)
parse_commands-encoded [] (suc fuel) n g s hg w h = rw (from_bytes-zeros n g, parse_commands)
parse_commands-encoded (cmd ∷ cmds) zero n g s hg w h = absurd (omega arith)
parse_commands-encoded (cmd ∷ cmds) (suc fuel) n g s hg w h =
    let rest = encoded cmds ++ replicate n 0 in
    let split : (to_bytes cmd [] ++ encoded cmds) ++ replicate n 0 ≡ to_bytes cmd [] ++ rest =
      append_assoc (to_bytes cmd []) (encoded cmds) (replicate n 0) in
    ap (λ b. parse_commands (suc fuel) g b s) split
    ∙ rw (from_bytes-to_bytes g cmd rest hg w.0, parse_commands)
        (>>=-cong (note_command cmd s) _ _
          λ t. parse_commands-encoded cmds fuel n g t hg w.1 (omega arith))

abbrev pub NoNextHop : List RoutingCommand → Type 0
NoNextHop = All (λ cmd. is_next_node_hop cmd ≡ false)

-- The SURB ids among the commands, and the one that the loop holds at the end.
abbrev pub reply_ids : List RoutingCommand → List (List ℕ)
reply_ids [] = []
reply_ids (surb_reply id ∷ cmds) = id ∷ reply_ids cmds
reply_ids (next_node_hop id mac ∷ cmds) = reply_ids cmds
reply_ids (recipient id ∷ cmds) = reply_ids cmds
reply_ids (node_delay d ∷ cmds) = reply_ids cmds

abbrev held : Option (List ℕ) → List (List ℕ)
held none = []
held (some id) = id ∷ []

abbrev pub first_of : List (List ℕ) → Option (List ℕ)
first_of [] = none
first_of (id ∷ ids) = some id

abbrev state : Option (List ℕ × List ℕ) → Option (List ℕ) → List RoutingCommand → ParseState
state n o cs = record { next_node = n; surb_reply_id = o; commands = cs }

note_all-ok :
    (cmds done : List RoutingCommand) (n : Option (List ℕ × List ℕ)) (o : Option (List ℕ))
    → NoNextHop cmds
    → length (held o ++ reply_ids cmds) ≤ 1
    → note_all cmds (state n o done)
      ≡ ok (state n (first_of (held o ++ reply_ids cmds)) (done ++ cmds))
unfolding note_command is_next_node_hop
note_all-ok [] done n none p h = rw append-nil
note_all-ok [] done n (some id) p h = rw append-nil
note_all-ok (next_node_hop id mac ∷ cmds) done n o p h = cc
note_all-ok (surb_reply id ∷ cmds) done n none p h =
    rw (note_all-ok cmds (done ++ surb_reply id ∷ []) n (some id) p.1 h) (rw append_assoc)
note_all-ok (surb_reply id ∷ cmds) done n (some id') p h = absurd (omega arith)
note_all-ok (recipient id ∷ cmds) done n o p h =
    rw (note_all-ok cmds (done ++ recipient id ∷ []) n o p.1 h, append_assoc)
note_all-ok (node_delay d ∷ cmds) done n o p h =
    rw (note_all-ok cmds (done ++ node_delay d ∷ []) n o p.1 h, append_assoc)

-- The same with the `NextNodeHop` that the sender appends.
note_all-next :
    (cmds : List RoutingCommand) (s : ParseState) (id mac : List ℕ)
    → note_all (cmds ++ next_node_hop id mac ∷ []) s
      ≡ (note_all cmds s >>= λ t. note_command (next_node_hop id mac) t >>= ok)
note_all-next [] s id mac = refl
note_all-next (cmd ∷ cmds) s id mac =
    >>=-cong (note_command cmd s) _ _ (λ t. note_all-next cmds t id mac)
    ∙ assoc (note_command cmd s)
  where
    assoc :
        (m : Run Reason ParseState)
        → (m >>= λ t. note_all cmds t >>= λ u. note_command (next_node_hop id mac) u >>= ok)
          ≡ ((m >>= note_all cmds) >>= λ u. note_command (next_node_hop id mac) u >>= ok)
    assoc (ok t) = refl
    assoc (err e) = refl
    assoc Run.panic = refl

pub length-le-encoded : (cmds : List RoutingCommand) → length cmds ≤ length (encoded cmds)
unfolding to_bytes
length-le-encoded [] = omega arith
length-le-encoded (next_node_hop id mac ∷ cmds) =
    omega (arith, length-append (id ++ mac) (encoded cmds), length-le-encoded cmds)
length-le-encoded (recipient id ∷ cmds) =
    omega (arith, length-append id (encoded cmds), length-le-encoded cmds)
length-le-encoded (surb_reply id ∷ cmds) =
    omega (arith, length-append id (encoded cmds), length-le-encoded cmds)
length-le-encoded (node_delay d ∷ cmds) =
    omega (arith, length-append (put_u32 d) (encoded cmds), length-le-encoded cmds)

module _ (g : Geometry) (cmds : List RoutingCommand) (fuel n : ℕ) (hg : g.next_node_hop_length ≡ 65)
    (w : All IsWellFormed cmds) (no_next : NoNextHop cmds)
    (one_reply : length (reply_ids cmds) ≤ 1) where
  -- On the last hop's block the loop returns the commands, and their SURB id if there is one.
  pub parse_final :
      length cmds < fuel
      → parse_commands fuel g (encoded cmds ++ replicate n 0) parse_start
        ≡ ok (record {
          next_node = none;
          surb_reply_id = first_of (reply_ids cmds);
          commands = cmds;
        })
  parse_final h =
      parse_commands-encoded cmds fuel n g parse_start hg w h
      ∙ note_all-ok cmds [] none none no_next one_reply

  -- On another hop's block it also returns the next hop.
  pub parse_forward :
      (id mac : List ℕ)
      → length id ≡ 32
      → length mac ≡ 32
      → length cmds + 1 < fuel
      → parse_commands fuel g
          (encoded (cmds ++ next_node_hop id mac ∷ []) ++ replicate n 0)
          parse_start
        ≡ ok (record {
          next_node = some (id, mac);
          surb_reply_id = first_of (reply_ids cmds);
          commands = cmds ++ next_node_hop id mac ∷ [];
        })
  unfolding note_command
  parse_forward id mac hi hm h =
      let all = cmds ++ next_node_hop id mac ∷ [] in
      parse_commands-encoded all fuel n g parse_start hg
        (All-append IsWellFormed cmds _ w ((hi, hm), tt))
        (omega (arith, length-append cmds (next_node_hop id mac ∷ [])))
      ∙ note_all-next cmds parse_start id mac
      ∙ rw (note_all-ok cmds [] none none no_next one_reply)

pub serialize-ok :
    (cmds : List RoutingCommand) (b : List ℕ)
    → NoNextHop cmds
    → serialize cmds b ≡ ok (b ++ encoded cmds)
unfolding serialize
serialize-ok [] b p = rw append-nil
serialize-ok (cmd ∷ cmds) b p =
    rw (p.0, serialize-ok cmds (to_bytes cmd b) p.1, to_bytes-append cmd b, append_assoc)

pub encoded-append : (xs ys : List RoutingCommand) → encoded (xs ++ ys) ≡ encoded xs ++ encoded ys
encoded-append [] ys = refl
encoded-append (x ∷ xs) ys = rw (encoded-append xs ys, append_assoc)
