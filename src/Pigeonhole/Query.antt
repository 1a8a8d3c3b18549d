-- ===== src/Pigeonhole/Query.antt =====
-- What clients and couriers send each other: `CopyCommand`, `CopyCommandReply`,
-- `CourierEnvelopeReply`, `CourierQuery` and `CourierQueryReply` of
-- pigeonhole/trunnel_messages.go. A pointer that may be nil is an Option.
use katzenpost_wt.Prelude.{
  ℕ, ◌<◌, ◌^◌, ◌≡◌, refl, Bool, true, false, ◌&&◌, ◌||◌, List, [], ◌∷◌, ◌++◌, Option, none, some,
  arith, length, take, take_all, ◌==◌, if◌then◌else◌, if_true,
}
use mathlib.Core.List.{append_assoc}
use katzenpost_wt.Prelude.Bytes.{put_u32}
use katzenpost_wt.Pigeonhole.Wire.{
  then_read, read_bytes, read_u8, read_u32, read_u64, put_u64, read_bytes-append, read_u32-put_u32,
  read_u64-put_u64,
}
use katzenpost_wt.Pigeonhole.Envelope.{
  CourierEnvelope, IsWellFormed, parse_envelope, encode_envelope, validate_envelope,
  validate_envelope-IsWellFormed, parse_envelope-encode_envelope,
}
pub mod RoundTrip

pub record CopyCommand : Type 0 where
  pub write_cap_len : ℕ
  pub write_cap : List ℕ

unfoldable pub parse_copy_command : List ℕ → Option (CopyCommand × List ℕ)
parse_copy_command bytes = then_read (read_u32 bytes) (λ n cur.
    then_read (read_bytes n cur)
      (λ cap cur. some (record { write_cap_len = n; write_cap = cap }, cur)))

unfoldable pub encode_copy_command : CopyCommand → List ℕ
encode_copy_command c = put_u32 c.write_cap_len ++ take c.write_cap_len c.write_cap

unfoldable pub validate_copy_command : CopyCommand → Bool
validate_copy_command c = length c.write_cap == c.write_cap_len

pub record CopyCommandReply : Type 0 where
  pub status : ℕ
  pub error_code : ℕ
  pub failed_envelope_index : ℕ

unfoldable pub parse_copy_command_reply : List ℕ → Option (CopyCommandReply × List ℕ)
parse_copy_command_reply bytes = then_read (read_u8 bytes) (λ status cur.
    then_read (read_u8 cur) (λ code cur. then_read (read_u64 cur) (λ index cur.
      some (record { status = status; error_code = code; failed_envelope_index = index }, cur))))

unfoldable pub encode_copy_command_reply : CopyCommandReply → List ℕ
encode_copy_command_reply c = c.status ∷ c.error_code ∷ put_u64 c.failed_envelope_index

pub record CourierEnvelopeReply : Type 0 where
  pub envelope_hash : List ℕ
  pub reply_index : ℕ
  pub reply_type : ℕ
  pub payload_len : ℕ
  pub payload : List ℕ
  pub error_code : ℕ

-- The integers that a type may have.
unfoldable pub is_type : ℕ → Bool
is_type n = n == 0 || n == 1

unfoldable pub parse_envelope_reply : List ℕ → Option (CourierEnvelopeReply × List ℕ)
unfolding is_type
parse_envelope_reply bytes = then_read (read_bytes 32 bytes) (λ hash cur.
    then_read (read_u8 cur) (λ index cur. then_read (read_u8 cur) (λ kind cur.
      if is_type kind
      then then_read (read_u32 cur) (λ n cur. then_read (read_bytes n cur) (λ payload cur.
        then_read (read_u8 cur) (λ code cur. some (
          record {
            envelope_hash = hash;
            reply_index = index;
            reply_type = kind;
            payload_len = n;
            payload = payload;
            error_code = code;
          },
          cur,
        ))))
      else none)))

unfoldable pub encode_envelope_reply : CourierEnvelopeReply → List ℕ
encode_envelope_reply c =
    c.envelope_hash
    ++ (c.reply_index
        ∷ c.reply_type
        ∷ (put_u32 c.payload_len ++ (take c.payload_len c.payload ++ c.error_code ∷ [])))

unfoldable pub validate_envelope_reply : CourierEnvelopeReply → Bool
unfolding is_type
validate_envelope_reply c = is_type c.reply_type && length c.payload == c.payload_len

pub record CourierQuery : Type 0 where
  pub query_type : ℕ
  pub envelope : Option CourierEnvelope
  pub copy_command : Option CopyCommand

-- The type is checked before the switch on it, which has a case for each.
unfoldable pub parse_query_of : ℕ → List ℕ → Option (CourierQuery × List ℕ)
unfolding parse_envelope parse_copy_command
parse_query_of kind cur =
    if kind == 0
    then then_read (parse_envelope cur)
        (λ e cur. some (record { query_type = kind; envelope = some e; copy_command = none }, cur))
    else (if kind == 1
        then then_read (parse_copy_command cur) (λ c cur.
          some (record { query_type = kind; envelope = none; copy_command = some c }, cur))
        else none)

unfoldable pub parse_query : List ℕ → Option (CourierQuery × List ℕ)
unfolding parse_query_of
parse_query bytes = then_read (read_u8 bytes) parse_query_of

-- What a nil pointer adds to the encoding, and that it is valid.
unfoldable pub encoded {ℓ} : {A : Type ℓ} → (A → List ℕ) → Option A → List ℕ
encoded encode none = []
encoded encode (some a) = encode a

unfoldable pub validated {ℓ} : {A : Type ℓ} → (A → Bool) → Option A → Bool
validated validate none = true
validated validate (some a) = validate a

unfoldable pub encode_query : CourierQuery → List ℕ
unfolding encoded encode_envelope encode_copy_command
encode_query q =
    q.query_type
    ∷ (if q.query_type == 0
        then encoded encode_envelope q.envelope
        else (if q.query_type == 1 then encoded encode_copy_command q.copy_command else []))

unfoldable pub validate_query : CourierQuery → Bool
unfolding validated validate_envelope validate_copy_command
validate_query q =
    if q.query_type == 0
    then validated validate_envelope q.envelope
    else (if q.query_type == 1 then validated validate_copy_command q.copy_command else false)

unfoldable pub marshal_query : CourierQuery → Option (List ℕ)
unfolding validate_query encode_query
marshal_query q = if validate_query q then some (encode_query q) else none

pub record CourierQueryReply : Type 0 where
  pub reply_type : ℕ
  pub envelope_reply : Option CourierEnvelopeReply
  pub copy_command_reply : Option CopyCommandReply

unfoldable pub parse_query_reply_of : ℕ → List ℕ → Option (CourierQueryReply × List ℕ)
unfolding parse_envelope_reply parse_copy_command_reply
parse_query_reply_of kind cur =
    if kind == 0
    then then_read (parse_envelope_reply cur) (λ e cur.
      some (record { reply_type = kind; envelope_reply = some e; copy_command_reply = none }, cur))
    else (if kind == 1
        then then_read (parse_copy_command_reply cur) (λ c cur.
          some
            (record { reply_type = kind; envelope_reply = none; copy_command_reply = some c }, cur))
        else none)

unfoldable pub parse_query_reply : List ℕ → Option (CourierQueryReply × List ℕ)
unfolding parse_query_reply_of
parse_query_reply bytes = then_read (read_u8 bytes) parse_query_reply_of

unfoldable pub encode_query_reply : CourierQueryReply → List ℕ
unfolding encoded encode_envelope_reply encode_copy_command_reply
encode_query_reply q =
    q.reply_type
    ∷ (if q.reply_type == 0
        then encoded encode_envelope_reply q.envelope_reply
        else (if q.reply_type == 1
            then encoded encode_copy_command_reply q.copy_command_reply
            else []))

-- `validate`; a `CopyCommandReply` is always valid.
unfoldable pub validate_query_reply : CourierQueryReply → Bool
unfolding validated validate_envelope_reply is_type
validate_query_reply q =
    if q.reply_type == 0
    then validated validate_envelope_reply q.envelope_reply
    else is_type q.reply_type

unfoldable pub marshal_query_reply : CourierQueryReply → Option (List ℕ)
unfolding validate_query_reply encode_query_reply
marshal_query_reply q = if validate_query_reply q then some (encode_query_reply q) else none
