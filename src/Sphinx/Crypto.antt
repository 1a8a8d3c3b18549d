-- ===== src/Sphinx/Crypto.antt =====
-- core/sphinx/internal/crypto/crypto.go over the libraries that it calls. The NIKE scheme (hpqc),
-- HKDF, HMAC, AES-CTR, AEZ and SHA-512/256 are parameters, and `IsCorrect` is what the packet
-- format relies on. Clearing secrets after use is left out.
use katzenpost_wt.Prelude.{
  ℕ, ◌+◌, ◌≡◌, List, Option, some, Run, ok, panic, ◌==◌, if◌then◌else◌, length, take, drop,
  replicate, or_panic,
}
use katzenpost_wt.Prelude.Bytes.{copy_array}
use katzenpost_wt.Prelude.Xor.{xor_list}
use katzenpost_wt.Sphinx.Geometry.{mac_length, stream_iv_length, sprp_key_length}

pub record Primitives : Type 1 where
  pub PublicKey : Type 0
  pub PrivateKey : Type 0
  pub public_key_size : ℕ
  -- `Bytes()`, and `UnmarshalBinaryPublicKey` or `FromBytes`, with `none` for an error.
  pub encode_key : PublicKey → List ℕ
  pub decode_key : List ℕ → Option PublicKey
  -- The public half of a key pair.
  pub public_key : PrivateKey → PublicKey
  pub derive_secret : PrivateKey → PublicKey → List ℕ
  -- The scheme's `Blind`, and the key's own `Blind`, with `none` for an error.
  pub blind : PublicKey → PrivateKey → PublicKey
  pub blind_in_place : PublicKey → PrivateKey → Option PublicKey
  -- `GeneratePrivateKey` over a deterministic reader with this seed.
  pub private_key_of_seed : List ℕ → PrivateKey
  -- The bytes that one `Read` of this size obtains.
  pub hkdf_expand : List ℕ → ℕ → List ℕ
  pub hmac : List ℕ → List ℕ → List ℕ
  -- So many bytes of the key stream for a key and an IV.
  pub ctr_stream : List ℕ → List ℕ → ℕ → List ℕ
  pub aez_encrypt : List ℕ → List ℕ → List ℕ → List ℕ
  pub aez_decrypt : List ℕ → List ℕ → List ℕ → Option (List ℕ)
  pub sha512_256 : List ℕ → List ℕ

-- What the libraries document. A shared secret of a blindable NIKE is itself a public key's
-- encoding, and blinding a peer's key blinds the secret shared with it. AEZ with no expansion is a
-- permutation of the messages of each length.
pub record IsCorrect (P : Primitives) : Type 0 where
  pub decode-encode : (k : P.PublicKey) → P.decode_key (P.encode_key k) ≡ some k
  pub length-encode : (k : P.PublicKey) → length (P.encode_key k) ≡ P.public_key_size
  pub secrets_agree :
      (x y : P.PrivateKey) → P.derive_secret x (P.public_key y) ≡ P.derive_secret y (P.public_key x)
  pub secret_of_blinded :
      (x : P.PrivateKey) (k : P.PublicKey) (f : P.PrivateKey)
      → (s : P.PublicKey) × (P.decode_key (P.derive_secret x k) ≡ some s)
        × (P.derive_secret x (P.blind k f) ≡ P.encode_key (P.blind s f))
  pub blind_agrees :
      (k : P.PublicKey) (f : P.PrivateKey) → P.blind_in_place k f ≡ some (P.blind k f)
  pub length-hkdf : (ikm : List ℕ) (n : ℕ) → length (P.hkdf_expand ikm n) ≡ n
  pub length-hmac : (key m : List ℕ) → length (P.hmac key m) ≡ mac_length
  pub length-stream : (key iv : List ℕ) (n : ℕ) → length (P.ctr_stream key iv n) ≡ n
  pub length-encrypt : (key iv m : List ℕ) → length (P.aez_encrypt key iv m) ≡ length m
  pub decrypt-encrypt : (key iv m : List ℕ) → P.aez_decrypt key iv (P.aez_encrypt key iv m) ≡ some m
  pub encrypt-decrypt :
      (key iv c : List ℕ)
      → (m : List ℕ) × (P.aez_decrypt key iv c ≡ some m) × (P.aez_encrypt key iv m ≡ c)

pub data SphinxError : Type 0 where
  key_generation entropy invalid_path next_node_hop_given oversized no_capacity : SphinxError
  payload_length surb_length bad_surb_keys truncated_payload invalid_tag : SphinxError

abbrev mac_key_length : ℕ
mac_key_length = 32

abbrev stream_key_length : ℕ
stream_key_length = 32

abbrev private_key_seed_size : ℕ
private_key_seed_size = 32

module _ (P : Primitives) where
  open P use {PrivateKey, private_key_of_seed, hkdf_expand, ctr_stream, aez_encrypt, aez_decrypt}

  pub record PacketKeys : Type 0 where
    pub header_mac : List ℕ
    pub header_encryption : List ℕ
    pub header_encryption_iv : List ℕ
    pub payload_encryption : List ℕ
    pub blinding_factor : PrivateKey

  abbrev okm_length : ℕ
  okm_length =
      mac_key_length + stream_key_length + stream_iv_length + sprp_key_length
      + private_key_seed_size

  -- The cutting up of the key material.
  unfoldable pub keys_of_okm : List ℕ → PacketKeys
  keys_of_okm okm =
      let ptr1 = drop mac_key_length okm in
      let ptr2 = drop stream_key_length ptr1 in
      let ptr3 = drop stream_iv_length ptr2 in
      let ptr4 = drop sprp_key_length ptr3 in
      record {
        header_mac = copy_array mac_key_length (take mac_key_length okm);
        header_encryption = copy_array stream_key_length (take stream_key_length ptr1);
        header_encryption_iv = copy_array stream_iv_length (take stream_iv_length ptr2);
        payload_encryption = copy_array sprp_key_length (take sprp_key_length ptr3);
        blinding_factor = private_key_of_seed (take private_key_seed_size ptr4);
      }

  -- `KDF` for a NIKE scheme. A short read panics.
  unfoldable pub kdf : {E : Type 0} → List ℕ → Run E PacketKeys
  kdf ikm =
      let okm = hkdf_expand ikm okm_length in
      if length okm == okm_length then ok (keys_of_okm okm) else panic

  -- The keys for a secret, where the read is not short.
  unfoldable pub packet_keys : List ℕ → PacketKeys
  packet_keys ikm = keys_of_okm (hkdf_expand ikm okm_length)

  pub kdf-ok : {E : Type 0} → IsCorrect P → (ikm : List ℕ) → kdf {E = E} ikm ≡ ok (packet_keys ikm)
  unfolding kdf packet_keys
  kdf-ok c ikm = rw (c.length-hkdf ikm okm_length)

  -- `XORKeyStream` on a new stream, and `KeyStream`, which clears its buffer first.
  unfoldable pub xor_key_stream : List ℕ → List ℕ → List ℕ → List ℕ
  xor_key_stream key iv b = xor_list b (ctr_stream key iv (length b))

  unfoldable pub key_stream : List ℕ → List ℕ → ℕ → List ℕ
  unfolding xor_key_stream
  key_stream key iv n = xor_key_stream key iv (replicate n 0)

  unfoldable pub sprp_encrypt : List ℕ → List ℕ → List ℕ → List ℕ
  sprp_encrypt key iv msg = aez_encrypt key iv msg

  unfoldable pub sprp_decrypt : {E : Type 0} → List ℕ → List ℕ → List ℕ → Run E (List ℕ)
  sprp_decrypt key iv msg = or_panic (aez_decrypt key iv msg)
