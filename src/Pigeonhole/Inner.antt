-- ===== src/Pigeonhole/Inner.antt =====
-- What clients and replicas put into envelopes, and what a replica stores: `ReplicaRead`,
-- `ReplicaReadReply`, `ReplicaWrite`, `ReplicaWriteReply`, `ReplicaInnerMessage`,
-- `ReplicaMessageReplyInnerMessage` and `Box` of pigeonhole/trunnel_messages.go.
use katzenpost_wt.Prelude.{
  ℕ, Bool, true, false, List, [], ◌∷◌, ◌++◌, Option, none, some, length, take, ◌==◌, if◌then◌else◌,
}
use katzenpost_wt.Prelude.Bytes.{put_u32}
use katzenpost_wt.Pigeonhole.Wire.{then_read, read_bytes, read_u8, read_u32}
use katzenpost_wt.Pigeonhole.Query.{is_type, encoded, validated}
pub mod RoundTrip

pub record ReplicaRead : Type 0 where
  pub box_id : List ℕ

unfoldable pub parse_replica_read : List ℕ → Option (ReplicaRead × List ℕ)
parse_replica_read bytes =
    then_read (read_bytes 32 bytes) (λ id cur. some (record { box_id = id }, cur))

unfoldable pub encode_replica_read : ReplicaRead → List ℕ
encode_replica_read r = r.box_id

pub record ReplicaReadReply : Type 0 where
  pub error_code : ℕ
  pub box_id : List ℕ
  pub signature : List ℕ
  pub payload_len : ℕ
  pub payload : List ℕ

unfoldable pub parse_replica_read_reply : List ℕ → Option (ReplicaReadReply × List ℕ)
parse_replica_read_reply bytes = then_read (read_u8 bytes) (λ code cur.
    then_read (read_bytes 32 cur) (λ id cur. then_read (read_bytes 64 cur) (λ sig cur.
      then_read (read_u32 cur) (λ n cur. then_read (read_bytes n cur) (λ payload cur. some (
        record {
          error_code = code;
          box_id = id;
          signature = sig;
          payload_len = n;
          payload = payload;
        },
        cur,
      ))))))

unfoldable pub encode_replica_read_reply : ReplicaReadReply → List ℕ
encode_replica_read_reply r =
    r.error_code
    ∷ (r.box_id ++ (r.signature ++ (put_u32 r.payload_len ++ take r.payload_len r.payload)))

unfoldable pub validate_replica_read_reply : ReplicaReadReply → Bool
validate_replica_read_reply r = length r.payload == r.payload_len

pub record ReplicaWrite : Type 0 where
  pub box_id : List ℕ
  pub signature : List ℕ
  pub payload_len : ℕ
  pub payload : List ℕ

unfoldable pub parse_replica_write : List ℕ → Option (ReplicaWrite × List ℕ)
parse_replica_write bytes = then_read (read_bytes 32 bytes) (λ id cur.
    then_read (read_bytes 64 cur) (λ sig cur. then_read (read_u32 cur) (λ n cur.
      then_read (read_bytes n cur) (λ payload cur.
        some (record { box_id = id; signature = sig; payload_len = n; payload = payload }, cur)))))

unfoldable pub encode_replica_write : ReplicaWrite → List ℕ
encode_replica_write r =
    r.box_id ++ (r.signature ++ (put_u32 r.payload_len ++ take r.payload_len r.payload))

unfoldable pub validate_replica_write : ReplicaWrite → Bool
validate_replica_write r = length r.payload == r.payload_len

pub record ReplicaWriteReply : Type 0 where
  pub error_code : ℕ

unfoldable pub parse_replica_write_reply : List ℕ → Option (ReplicaWriteReply × List ℕ)
parse_replica_write_reply bytes =
    then_read (read_u8 bytes) (λ code cur. some (record { error_code = code }, cur))

unfoldable pub encode_replica_write_reply : ReplicaWriteReply → List ℕ
encode_replica_write_reply r = r.error_code ∷ []

pub record Box : Type 0 where
  pub box_id : List ℕ
  pub payload_len : ℕ
  pub payload : List ℕ
  pub signature : List ℕ

unfoldable pub parse_box : List ℕ → Option (Box × List ℕ)
parse_box bytes = then_read (read_bytes 32 bytes) (λ id cur. then_read (read_u32 cur) (λ n cur.
    then_read (read_bytes n cur) (λ payload cur. then_read (read_bytes 64 cur) (λ sig cur.
      some (record { box_id = id; payload_len = n; payload = payload; signature = sig }, cur)))))

unfoldable pub encode_box : Box → List ℕ
encode_box b = b.box_id ++ (put_u32 b.payload_len ++ (take b.payload_len b.payload ++ b.signature))

-- `Box.MarshalBinary`
unfoldable pub marshal_box : Box → Option (List ℕ)
unfolding encode_box
marshal_box b = if length b.payload == b.payload_len then some (encode_box b) else none

pub record ReplicaInnerMessage : Type 0 where
  pub message_type : ℕ
  pub read_msg : Option ReplicaRead
  pub write_msg : Option ReplicaWrite

unfoldable pub parse_inner_of : ℕ → List ℕ → Option (ReplicaInnerMessage × List ℕ)
unfolding parse_replica_read parse_replica_write
parse_inner_of kind cur =
    if kind == 0
    then then_read (parse_replica_read cur)
        (λ r cur. some (record { message_type = kind; read_msg = some r; write_msg = none }, cur))
    else (if kind == 1
        then then_read (parse_replica_write cur) (λ w cur.
          some (record { message_type = kind; read_msg = none; write_msg = some w }, cur))
        else none)

unfoldable pub parse_inner : List ℕ → Option (ReplicaInnerMessage × List ℕ)
unfolding parse_inner_of
parse_inner bytes = then_read (read_u8 bytes) parse_inner_of

unfoldable pub encode_inner : ReplicaInnerMessage → List ℕ
unfolding encoded encode_replica_read encode_replica_write
encode_inner m =
    m.message_type
    ∷ (if m.message_type == 0
        then encoded encode_replica_read m.read_msg
        else (if m.message_type == 1 then encoded encode_replica_write m.write_msg else []))

-- `validate`; a `ReplicaRead` is always valid.
unfoldable pub validate_inner : ReplicaInnerMessage → Bool
unfolding validated validate_replica_write
validate_inner m =
    if m.message_type == 0
    then true
    else (if m.message_type == 1 then validated validate_replica_write m.write_msg else false)

unfoldable pub marshal_inner : ReplicaInnerMessage → Option (List ℕ)
unfolding validate_inner encode_inner
marshal_inner m = if validate_inner m then some (encode_inner m) else none

pub record ReplicaMessageReplyInnerMessage : Type 0 where
  pub message_type : ℕ
  pub read_reply : Option ReplicaReadReply
  pub write_reply : Option ReplicaWriteReply

unfoldable pub parse_inner_reply_of : ℕ → List ℕ → Option (ReplicaMessageReplyInnerMessage × List ℕ)
unfolding parse_replica_read_reply parse_replica_write_reply
parse_inner_reply_of kind cur =
    if kind == 0
    then then_read (parse_replica_read_reply cur) (λ r cur.
      some (record { message_type = kind; read_reply = some r; write_reply = none }, cur))
    else (if kind == 1
        then then_read (parse_replica_write_reply cur) (λ w cur.
          some (record { message_type = kind; read_reply = none; write_reply = some w }, cur))
        else none)

unfoldable pub parse_inner_reply : List ℕ → Option (ReplicaMessageReplyInnerMessage × List ℕ)
unfolding parse_inner_reply_of
parse_inner_reply bytes = then_read (read_u8 bytes) parse_inner_reply_of

unfoldable pub encode_inner_reply : ReplicaMessageReplyInnerMessage → List ℕ
unfolding encoded encode_replica_read_reply encode_replica_write_reply
encode_inner_reply m =
    m.message_type
    ∷ (if m.message_type == 0
        then encoded encode_replica_read_reply m.read_reply
        else (if m.message_type == 1 then encoded encode_replica_write_reply m.write_reply else []))

-- `validate`; a `ReplicaWriteReply` is always valid.
unfoldable pub validate_inner_reply : ReplicaMessageReplyInnerMessage → Bool
unfolding validated validate_replica_read_reply is_type
validate_inner_reply m =
    if m.message_type == 0
    then validated validate_replica_read_reply m.read_reply
    else is_type m.message_type

unfoldable pub marshal_inner_reply : ReplicaMessageReplyInnerMessage → Option (List ℕ)
unfolding validate_inner_reply encode_inner_reply
marshal_inner_reply m = if validate_inner_reply m then some (encode_inner_reply m) else none
