-- ===== src/Wire/Frame.antt =====
-- The frame that every command of core/wire/commands has: its header, its body, and zeros.
use katzenpost_wt.Prelude.{
  ℕ, ◌+◌, ◌-◌, ◌<◌, ◌%◌, ◌^◌, ◌≡◌, refl, sym, Bool, true, false, List, ◌++◌, arith, length,
  length-append, length-replicate, take-append, drop-append, replicate, ltb, Bool-cases, inl, inr,
  none, if◌then◌else◌, leb, ◌==◌, drop, get_or,
}
use mathlib.Core.List.{append-nil}
use katzenpost_wt.Prelude.Bytes.{get_u32-put_u32, ct_is_zero-replicate, get_u32, put_u32}
use katzenpost_wt.Wire.Id.{CommandId, byte, command_id-byte}
use katzenpost_wt.Wire.Command.{Commands, Hpqc}
use katzenpost_wt.Wire.Serialize.{header, pad_to_max_command_size}
use katzenpost_wt.Wire.Parse.{dispatch, from_bytes, parse, no_payload}

module _ {Key : Type 0} (c : Commands Key) where
  -- Padding only ever appends zeros.
  pub pad-append :
      (out : List ℕ) (is_upstream : Bool)
      → (k : ℕ) × (pad_to_max_command_size c out is_upstream ≡ out ++ replicate k 0)
  unfolding pad_to_max_command_size
  pad-append out is_upstream =
      let limit =
        if is_upstream
        then c.max_message_len_client_to_server
        else c.max_message_len_server_to_client in
      elim (Bool-cases (limit == 0)) [
        | inl unset ↦ (0, rw unset (sym (append-nil out)))
        | inr set ↦ elim (Bool-cases (leb limit (length out))) [
          | inl full ↦ (0, rw (set, full) (sym (append-nil out)))
          | inr room ↦ (limit - length out, rw (set, room))
        ]
      ]

module _ {Key : Type 0} (hpqc : Hpqc Key) (c : Commands Key) where
  -- A command with a body goes to its parser.
  pub dispatch-parse :
      (id : CommandId) (n : ℕ) (b spare : List ℕ)
      → 0 < n
      → dispatch hpqc c id n b spare ≡ parse hpqc c id b spare
  unfolding dispatch
  dispatch-parse id n b spare h = let set : (n == 0) ≡ false = ground arith in rw (dispatch, set)

  -- Four commands go to their parser even with no body.
  pub dispatch-parse_any :
      (id : CommandId) (n : ℕ) (b spare : List ℕ)
      → no_payload hpqc id ≡ none
      → dispatch hpqc c id n b spare ≡ parse hpqc c id b spare
  unfolding dispatch
  dispatch-parse_any id n b spare h = elim (Bool-cases (n == 0)) [
    | inl zero_length ↦ rw (dispatch, zero_length, h)
    | inr set ↦ rw (dispatch, set)
  ]

  from_bytes-parts :
      (id : CommandId) (b body : List ℕ) (k : ℕ)
      → ltb (length b) 6 ≡ false
      → get_or b 1 0 ≡ 0
      → get_or b 0 0 ≡ byte id
      → get_u32 (drop 2 b) ≡ length body
      → drop 6 b ≡ body ++ replicate k 0
      → length body + k < 2 ^ 32
      → from_bytes hpqc c b ≡ dispatch hpqc c id (length body) body (replicate k 0)
  unfolding from_bytes dispatch
  from_bytes-parts id b body k enough reserved first word tail h =
      let size : length (body ++ replicate k 0) ≡ length body + k =
        omega (arith, length-append body (replicate k 0), length-replicate {A = ℕ} k 0) in
      let whole : ltb (length (body ++ replicate k 0) % 2 ^ 32) (length body) ≡ false =
        ground arith in
      let header_room : leb 6 (length b) ≡ true = ground arith in
      let body_room : leb (length body) (length (body ++ replicate k 0)) ≡ true = ground arith in
      rw (
        from_bytes,
        enough,
        header_room,
        reserved,
        first,
        word,
        tail,
        whole,
        body_room,
        drop-append (length body) body (replicate k 0) refl,
        take-append (length body) body (replicate k 0) refl,
        ct_is_zero-replicate k,
        command_id-byte id,
      )

  -- A frame of less than `2 ^ 32` bytes is read back, and its body goes on to the switches.
  pub from_bytes-frame :
      (id : CommandId) (body : List ℕ) (k : ℕ)
      → length body + k < 2 ^ 32
      → from_bytes hpqc c ((header id (length body) ++ body) ++ replicate k 0)
        ≡ dispatch hpqc c id (length body) body (replicate k 0)
  unfolding header put_u32
  from_bytes-frame id body k h =
      let word = get_u32-put_u32 (length body) (body ++ replicate k 0) (omega arith) in
      from_bytes-parts id _ body k (ground arith) refl refl word refl h
