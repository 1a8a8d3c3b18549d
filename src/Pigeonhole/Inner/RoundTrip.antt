-- ===== src/Pigeonhole/Inner/RoundTrip.antt =====
-- The round trips of `ReplicaInnerMessage`, `ReplicaMessageReplyInnerMessage` and `Box`.
use katzenpost_wt.Prelude.{
  ℕ, ◌<◌, ◌^◌, ◌≡◌, refl, true, List, ◌++◌, none, some, arith, length, take, take_all, if_true,
}
use mathlib.Core.List.{append_assoc}
use katzenpost_wt.Prelude.Bytes.{put_u32}
use katzenpost_wt.Pigeonhole.Wire.{read_u8, read_bytes-append, read_u32-put_u32}
use katzenpost_wt.Pigeonhole.Query.{is_type, encoded, validated}
use katzenpost_wt.Pigeonhole.Inner.{
  ReplicaRead, ReplicaReadReply, ReplicaWrite, ReplicaWriteReply, Box, ReplicaInnerMessage,
  ReplicaMessageReplyInnerMessage, parse_replica_read, encode_replica_read,
  parse_replica_read_reply, encode_replica_read_reply, validate_replica_read_reply,
  parse_replica_write, encode_replica_write, validate_replica_write, parse_replica_write_reply,
  encode_replica_write_reply, parse_box, encode_box, marshal_box, parse_inner, parse_inner_of,
  encode_inner, validate_inner, marshal_inner, parse_inner_reply, parse_inner_reply_of,
  encode_inner_reply, validate_inner_reply, marshal_inner_reply,
}

-- The sizes that the Go types give, and the length that `validate` checks.
pub record IsSized (box_id signature : List ℕ) (payload_len : ℕ) (payload : List ℕ) : Type 0 where
  pub id : length box_id ≡ 32
  pub sig : length signature ≡ 64
  pub word : payload_len < 2 ^ 32
  pub size : length payload ≡ payload_len

-- A message has the part that its type names, and no other.
pub data IsInner : ReplicaInnerMessage → Type 0 where
  of_read :
      (r : ReplicaRead)
      → length r.box_id ≡ 32
      → IsInner (record { message_type = 0; read_msg = some r; write_msg = none })
  of_write :
      (w : ReplicaWrite)
      → IsSized w.box_id w.signature w.payload_len w.payload
      → IsInner (record { message_type = 1; read_msg = none; write_msg = some w })

pub data IsInnerReply : ReplicaMessageReplyInnerMessage → Type 0 where
  of_read_reply :
      (r : ReplicaReadReply)
      → IsSized r.box_id r.signature r.payload_len r.payload
      → IsInnerReply (record { message_type = 0; read_reply = some r; write_reply = none })
  of_write_reply :
      (w : ReplicaWriteReply)
      → IsInnerReply (record { message_type = 1; read_reply = none; write_reply = some w })

-- The fields that writes and the replies to reads share.
append-fields :
    (id sig : List ℕ) (n : ℕ) (payload rest : List ℕ)
    → (id ++ (sig ++ (put_u32 n ++ take n payload))) ++ rest
      ≡ id ++ (sig ++ (put_u32 n ++ (take n payload ++ rest)))
append-fields id sig n payload rest = simp append_assoc

parse_replica_read-encode_replica_read :
    (r : ReplicaRead) (rest : List ℕ)
    → length r.box_id ≡ 32
    → parse_replica_read (encode_replica_read r ++ rest) ≡ some (r, rest)
unfolding parse_replica_read encode_replica_read
parse_replica_read-encode_replica_read r rest id = rw (read_bytes-append 32 r.box_id rest id)

parse_replica_read_reply-encode_replica_read_reply :
    (r : ReplicaReadReply) (rest : List ℕ)
    → IsSized r.box_id r.signature r.payload_len r.payload
    → parse_replica_read_reply (encode_replica_read_reply r ++ rest) ≡ some (r, rest)
unfolding parse_replica_read_reply encode_replica_read_reply read_u8
parse_replica_read_reply-encode_replica_read_reply r rest s = rw (
  append-fields r.box_id r.signature r.payload_len r.payload rest,
  take_all r.payload_len r.payload s.size,
  read_bytes-append 32 r.box_id _ s.id,
  read_bytes-append 64 r.signature _ s.sig,
  read_u32-put_u32 r.payload_len _ s.word,
  read_bytes-append r.payload_len r.payload rest s.size,
)

parse_replica_write-encode_replica_write :
    (w : ReplicaWrite) (rest : List ℕ)
    → IsSized w.box_id w.signature w.payload_len w.payload
    → parse_replica_write (encode_replica_write w ++ rest) ≡ some (w, rest)
unfolding parse_replica_write encode_replica_write
parse_replica_write-encode_replica_write w rest s = rw (
  append-fields w.box_id w.signature w.payload_len w.payload rest,
  take_all w.payload_len w.payload s.size,
  read_bytes-append 32 w.box_id _ s.id,
  read_bytes-append 64 w.signature _ s.sig,
  read_u32-put_u32 w.payload_len _ s.word,
  read_bytes-append w.payload_len w.payload rest s.size,
)

validate_replica_write-IsSized :
    (w : ReplicaWrite)
    → IsSized w.box_id w.signature w.payload_len w.payload
    → validate_replica_write w ≡ true
unfolding validate_replica_write
validate_replica_write-IsSized w s = ground (arith, s)

validate_replica_read_reply-IsSized :
    (r : ReplicaReadReply)
    → IsSized r.box_id r.signature r.payload_len r.payload
    → validate_replica_read_reply r ≡ true
unfolding validate_replica_read_reply
validate_replica_read_reply-IsSized r s = ground (arith, s)

-- A message to a replica with the part that its type names, in the sizes of the Go types and with the
-- length that `validate` checks, is marshalled, and parsing the bytes, whatever follows them, gives
-- the message and what follows.
pub parse_inner-marshal_inner :
    (m : ReplicaInnerMessage) (rest : List ℕ)
    → IsInner m
    → (bytes : List ℕ) × (marshal_inner m ≡ some bytes)
      × (parse_inner (bytes ++ rest) ≡ some (m, rest))
unfolding parse_inner parse_inner_of read_u8 marshal_inner encode_inner validate_inner encoded
    validated
parse_inner-marshal_inner _ rest (of_read r id) =
    (_, refl, rw (parse_replica_read-encode_replica_read r rest id))
parse_inner-marshal_inner _ rest (of_write w s) = (
  _,
  if_true _ _ (validate_replica_write-IsSized w s),
  rw (parse_replica_write-encode_replica_write w rest s),
)

-- A replica's reply with the part that its type names, in the sizes of the Go types and with the
-- length that `validate` checks, is marshalled, and parsing the bytes, whatever follows them, gives
-- the reply and what follows.
pub parse_inner_reply-marshal_inner_reply :
    (m : ReplicaMessageReplyInnerMessage) (rest : List ℕ)
    → IsInnerReply m
    → (bytes : List ℕ) × (marshal_inner_reply m ≡ some bytes)
      × (parse_inner_reply (bytes ++ rest) ≡ some (m, rest))
unfolding parse_inner_reply parse_inner_reply_of read_u8 marshal_inner_reply encode_inner_reply
    validate_inner_reply encoded validated is_type parse_replica_write_reply
    encode_replica_write_reply
parse_inner_reply-marshal_inner_reply _ rest (of_read_reply r s) = (
  _,
  if_true _ _ (validate_replica_read_reply-IsSized r s),
  rw (parse_replica_read_reply-encode_replica_read_reply r rest s),
)
parse_inner_reply-marshal_inner_reply _ rest (of_write_reply w) = (_, refl, refl)

append-box :
    (id : List ℕ) (n : ℕ) (payload sig rest : List ℕ)
    → (id ++ (put_u32 n ++ (take n payload ++ sig))) ++ rest
      ≡ id ++ (put_u32 n ++ (take n payload ++ (sig ++ rest)))
append-box id n payload sig rest = simp append_assoc

parse_box-encode_box :
    (b : Box) (rest : List ℕ)
    → IsSized b.box_id b.signature b.payload_len b.payload
    → parse_box (encode_box b ++ rest) ≡ some (b, rest)
unfolding parse_box encode_box
parse_box-encode_box b rest s = rw (
  append-box b.box_id b.payload_len b.payload b.signature rest,
  take_all b.payload_len b.payload s.size,
  read_bytes-append 32 b.box_id _ s.id,
  read_u32-put_u32 b.payload_len _ s.word,
  read_bytes-append b.payload_len b.payload _ s.size,
  read_bytes-append 64 b.signature rest s.sig,
)

-- A box whose payload has the length it names is marshalled, and parsing the bytes, whatever
-- follows them, gives the box and what follows.
pub parse_box-marshal_box :
    (b : Box) (rest : List ℕ)
    → IsSized b.box_id b.signature b.payload_len b.payload
    → (bytes : List ℕ) × (marshal_box b ≡ some bytes) × (parse_box (bytes ++ rest) ≡ some (b, rest))
unfolding marshal_box
parse_box-marshal_box b rest s = (encode_box b, ground (arith, s), parse_box-encode_box b rest s)
