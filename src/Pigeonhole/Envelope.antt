-- ===== src/Pigeonhole/Envelope.antt =====
-- `CourierEnvelope` and its encoding, of pigeonhole/trunnel_messages.go.
use katzenpost_wt.Prelude.{
  ℕ, ◌<◌, ◌^◌, ◌≡◌, Bool, true, if_true, ◌&&◌, List, ◌∷◌, ◌++◌, Option, none, some, arith, length,
  take, take_all, ◌==◌, if◌then◌else◌,
}
use mathlib.Core.List.{append_assoc}
use katzenpost_wt.Prelude.Bytes.{put_u32}
use katzenpost_wt.Pigeonhole.Wire.{
  read_bytes, read_u8, read_u16, read_u32, read_u64, put_u16, put_u64, then_read, read_bytes-append,
  read_u16-put_u16, read_u32-put_u32, read_u64-put_u64,
}

pub record CourierEnvelope : Type 0 where
  pub intermediate_replicas : List ℕ
  pub dek1 : List ℕ
  pub dek2 : List ℕ
  pub reply_index : ℕ
  pub epoch : ℕ
  pub sender_pubkey_len : ℕ
  pub sender_pubkey : List ℕ
  pub ciphertext_len : ℕ
  pub ciphertext : List ℕ

unfoldable pub parse_envelope : List ℕ → Option (CourierEnvelope × List ℕ)
parse_envelope bytes = then_read (read_bytes 2 bytes) (λ replicas cur.
    then_read (read_bytes 60 cur) (λ dek1 cur. then_read (read_bytes 60 cur) (λ dek2 cur.
      then_read (read_u8 cur) (λ index cur. then_read (read_u64 cur) (λ epoch cur.
        then_read (read_u16 cur) (λ n cur. then_read (read_bytes n cur) (λ pubkey cur.
          then_read (read_u32 cur) (λ m cur. then_read (read_bytes m cur) (λ ciphertext cur. some (
            record {
              intermediate_replicas = replicas;
              dek1 = dek1;
              dek2 = dek2;
              reply_index = index;
              epoch = epoch;
              sender_pubkey_len = n;
              sender_pubkey = pubkey;
              ciphertext_len = m;
              ciphertext = ciphertext;
            },
            cur,
          ))))))))))

unfoldable pub encode_envelope : CourierEnvelope → List ℕ
encode_envelope e =
    e.intermediate_replicas
    ++ (e.dek1
        ++ (e.dek2
            ++ (e.reply_index
                ∷ (put_u64 e.epoch
                    ++ (put_u16 e.sender_pubkey_len
                        ++ (take e.sender_pubkey_len e.sender_pubkey
                            ++ (put_u32 e.ciphertext_len
                                ++ take e.ciphertext_len e.ciphertext)))))))

-- `validate`; the fixed arrays have their lengths.
unfoldable pub validate_envelope : CourierEnvelope → Bool
validate_envelope e =
    length e.sender_pubkey == e.sender_pubkey_len && length e.ciphertext == e.ciphertext_len

-- `MarshalBinary`, with `none` for the errors of `validate`.
unfoldable pub marshal_envelope : CourierEnvelope → Option (List ℕ)
unfolding validate_envelope
marshal_envelope e = if validate_envelope e then some (encode_envelope e) else none

-- The sizes that the Go types give, and the lengths that `validate` checks.
pub record IsWellFormed (e : CourierEnvelope) : Type 0 where
  pub replicas : length e.intermediate_replicas ≡ 2
  pub first_key : length e.dek1 ≡ 60
  pub second_key : length e.dek2 ≡ 60
  pub epoch_word : e.epoch < 2 ^ 64
  pub pubkey_word : e.sender_pubkey_len < 2 ^ 16
  pub ciphertext_word : e.ciphertext_len < 2 ^ 32
  pub pubkey : length e.sender_pubkey ≡ e.sender_pubkey_len
  pub text : length e.ciphertext ≡ e.ciphertext_len

encode_envelope-append :
    (e : CourierEnvelope) (rest : List ℕ)
    → encode_envelope e ++ rest
      ≡ e.intermediate_replicas
        ++ (e.dek1
            ++ (e.dek2
                ++ (e.reply_index
                    ∷ (put_u64 e.epoch
                        ++ (put_u16 e.sender_pubkey_len
                            ++ (take e.sender_pubkey_len e.sender_pubkey
                                ++ (put_u32 e.ciphertext_len
                                    ++ (take e.ciphertext_len e.ciphertext ++ rest))))))))
unfolding encode_envelope
encode_envelope-append e rest = simp append_assoc

pub parse_envelope-encode_envelope :
    (e : CourierEnvelope) (rest : List ℕ)
    → IsWellFormed e
    → parse_envelope (encode_envelope e ++ rest) ≡ some (e, rest)
unfolding parse_envelope read_u8
parse_envelope-encode_envelope e rest w = rw (
  encode_envelope-append e rest,
  take_all e.sender_pubkey_len e.sender_pubkey w.pubkey,
  take_all e.ciphertext_len e.ciphertext w.text,
  read_bytes-append 2 e.intermediate_replicas _ w.replicas,
  read_bytes-append 60 e.dek1 _ w.first_key,
  read_bytes-append 60 e.dek2 _ w.second_key,
  read_u64-put_u64 e.epoch _ w.epoch_word,
  read_u16-put_u16 e.sender_pubkey_len _ w.pubkey_word,
  read_bytes-append e.sender_pubkey_len e.sender_pubkey _ w.pubkey,
  read_u32-put_u32 e.ciphertext_len _ w.ciphertext_word,
  read_bytes-append e.ciphertext_len e.ciphertext _ w.text,
)

pub validate_envelope-IsWellFormed :
    (e : CourierEnvelope) → IsWellFormed e → validate_envelope e ≡ true
unfolding validate_envelope
validate_envelope-IsWellFormed e w = ground (arith, w)

pub marshal_envelope-encode_envelope :
    (e : CourierEnvelope) → IsWellFormed e → marshal_envelope e ≡ some (encode_envelope e)
unfolding marshal_envelope
marshal_envelope-encode_envelope e w = if_true _ _ (validate_envelope-IsWellFormed e w)

-- A well-formed envelope is encoded, and parsing the encoding, whatever follows it, gives the
-- envelope and what follows.
pub parse_envelope-marshal_envelope :
    (e : CourierEnvelope) (rest : List ℕ)
    → IsWellFormed e
    → (bytes : List ℕ) × (marshal_envelope e ≡ some bytes)
      × (parse_envelope (bytes ++ rest) ≡ some (e, rest))
parse_envelope-marshal_envelope e rest w = (
  encode_envelope e,
  marshal_envelope-encode_envelope e w,
  parse_envelope-encode_envelope e rest w,
)
