-- ===== src/Pigeonhole/Query/RoundTrip.antt =====
-- The round trips of `CourierQuery` and `CourierQueryReply`.
use katzenpost_wt.Prelude.{
  ℕ, ◌<◌, ◌^◌, ◌≡◌, refl, true, List, ◌∷◌, ◌++◌, none, some, arith, length, take, take_all, if_true,
}
use mathlib.Core.List.{append_assoc}
use katzenpost_wt.Prelude.Bytes.{put_u32}
use katzenpost_wt.Pigeonhole.Wire.{read_u8, read_bytes-append, read_u32-put_u32, read_u64-put_u64}
use katzenpost_wt.Pigeonhole.Envelope.{
  CourierEnvelope, IsWellFormed, validate_envelope-IsWellFormed, parse_envelope-encode_envelope,
}
use katzenpost_wt.Pigeonhole.Query.{
  CopyCommand, CopyCommandReply, CourierEnvelopeReply, CourierQuery, CourierQueryReply,
  parse_copy_command, encode_copy_command, validate_copy_command, parse_copy_command_reply,
  encode_copy_command_reply, is_type, parse_envelope_reply, encode_envelope_reply,
  validate_envelope_reply, parse_query, parse_query_of, marshal_query, encode_query, validate_query,
  encoded, validated, parse_query_reply, parse_query_reply_of, marshal_query_reply,
  encode_query_reply, validate_query_reply,
}

-- The sizes that the Go types give, and what `validate` checks.
pub record IsCopyCommand (c : CopyCommand) : Type 0 where
  pub word : c.write_cap_len < 2 ^ 32
  pub size : length c.write_cap ≡ c.write_cap_len

pub record IsEnvelopeReply (c : CourierEnvelopeReply) : Type 0 where
  pub hash : length c.envelope_hash ≡ 32
  pub kind : c.reply_type < 2
  pub word : c.payload_len < 2 ^ 32
  pub size : length c.payload ≡ c.payload_len

-- A query has the part that its type names, and no other.
pub data IsQuery : CourierQuery → Type 0 where
  of_envelope :
      (e : CourierEnvelope)
      → IsWellFormed e
      → IsQuery (record { query_type = 0; envelope = some e; copy_command = none })
  of_copy_command :
      (c : CopyCommand)
      → IsCopyCommand c
      → IsQuery (record { query_type = 1; envelope = none; copy_command = some c })

pub data IsQueryReply : CourierQueryReply → Type 0 where
  of_envelope_reply :
      (e : CourierEnvelopeReply)
      → IsEnvelopeReply e
      → IsQueryReply (record { reply_type = 0; envelope_reply = some e; copy_command_reply = none })
  of_copy_command_reply :
      (c : CopyCommandReply)
      → c.failed_envelope_index < 2 ^ 64
      → IsQueryReply (record { reply_type = 1; envelope_reply = none; copy_command_reply = some c })

parse_copy_command-encode_copy_command :
    (c : CopyCommand) (rest : List ℕ)
    → IsCopyCommand c
    → parse_copy_command (encode_copy_command c ++ rest) ≡ some (c, rest)
unfolding parse_copy_command encode_copy_command
parse_copy_command-encode_copy_command c rest w = rw (
  append_assoc (put_u32 c.write_cap_len) (take c.write_cap_len c.write_cap) rest,
  take_all c.write_cap_len c.write_cap w.size,
  read_u32-put_u32 c.write_cap_len _ w.word,
  read_bytes-append c.write_cap_len c.write_cap _ w.size,
)

validate_copy_command-IsCopyCommand :
    (c : CopyCommand) → IsCopyCommand c → validate_copy_command c ≡ true
unfolding validate_copy_command
validate_copy_command-IsCopyCommand c w = ground (arith, w)

is_type-below_two : (n : ℕ) → n < 2 → is_type n ≡ true
unfolding is_type
is_type-below_two n h = ground arith

encode_envelope_reply-append :
    (c : CourierEnvelopeReply) (rest : List ℕ)
    → encode_envelope_reply c ++ rest
      ≡ c.envelope_hash
        ++ (c.reply_index
            ∷ c.reply_type
            ∷ (put_u32 c.payload_len ++ (take c.payload_len c.payload ++ (c.error_code ∷ rest))))
unfolding encode_envelope_reply
encode_envelope_reply-append c rest = simp append_assoc

parse_envelope_reply-encode_envelope_reply :
    (c : CourierEnvelopeReply) (rest : List ℕ)
    → IsEnvelopeReply c
    → parse_envelope_reply (encode_envelope_reply c ++ rest) ≡ some (c, rest)
unfolding parse_envelope_reply read_u8
parse_envelope_reply-encode_envelope_reply c rest w = rw (
  encode_envelope_reply-append c rest,
  take_all c.payload_len c.payload w.size,
  read_bytes-append 32 c.envelope_hash _ w.hash,
  is_type-below_two c.reply_type w.kind,
  read_u32-put_u32 c.payload_len _ w.word,
  read_bytes-append c.payload_len c.payload _ w.size,
)

pub validate_envelope_reply-IsEnvelopeReply :
    (c : CourierEnvelopeReply) → IsEnvelopeReply c → validate_envelope_reply c ≡ true
unfolding validate_envelope_reply
validate_envelope_reply-IsEnvelopeReply c w =
    let typed = is_type-below_two c.reply_type w.kind in ground (arith, w)

parse_copy_command_reply-encode_copy_command_reply :
    (c : CopyCommandReply) (rest : List ℕ)
    → c.failed_envelope_index < 2 ^ 64
    → parse_copy_command_reply (encode_copy_command_reply c ++ rest) ≡ some (c, rest)
unfolding parse_copy_command_reply encode_copy_command_reply read_u8
parse_copy_command_reply-encode_copy_command_reply c rest word =
    rw (read_u64-put_u64 c.failed_envelope_index rest word)

-- A query with the part that its type names, in the sizes of the Go types and with the lengths that
-- `validate` checks, is marshalled, and parsing the bytes, whatever follows them, gives the query
-- and what follows.
pub parse_query-marshal_query :
    (q : CourierQuery) (rest : List ℕ)
    → IsQuery q
    → (bytes : List ℕ) × (marshal_query q ≡ some bytes)
      × (parse_query (bytes ++ rest) ≡ some (q, rest))
unfolding parse_query parse_query_of read_u8 marshal_query encode_query validate_query encoded
    validated
parse_query-marshal_query _ rest (of_envelope e w) = (
  _,
  if_true _ _ (validate_envelope-IsWellFormed e w),
  rw (parse_envelope-encode_envelope e rest w),
)
parse_query-marshal_query _ rest (of_copy_command c w) = (
  _,
  if_true _ _ (validate_copy_command-IsCopyCommand c w),
  rw (parse_copy_command-encode_copy_command c rest w),
)

-- A courier's reply with the part that its type names, in the sizes of the Go types and with what
-- `validate` checks, is marshalled, and parsing the bytes, whatever follows them, gives the reply
-- and what follows.
pub parse_query_reply-marshal_query_reply :
    (q : CourierQueryReply) (rest : List ℕ)
    → IsQueryReply q
    → (bytes : List ℕ) × (marshal_query_reply q ≡ some bytes)
      × (parse_query_reply (bytes ++ rest) ≡ some (q, rest))
unfolding parse_query_reply parse_query_reply_of read_u8 marshal_query_reply encode_query_reply
    validate_query_reply encoded validated is_type
parse_query_reply-marshal_query_reply _ rest (of_envelope_reply e w) = (
  _,
  if_true _ _ (validate_envelope_reply-IsEnvelopeReply e w),
  rw (parse_envelope_reply-encode_envelope_reply e rest w),
)
parse_query_reply-marshal_query_reply _ rest (of_copy_command_reply c word) =
    (_, refl, rw (parse_copy_command_reply-encode_copy_command_reply c rest word))
