-- ===== src/Pigeonhole/Geometry.antt =====
-- pigeonhole/geo/geometry.go: the lengths of the Pigeonhole messages, from the payload of a box. The
-- array sizes of bacap and mkem, the AEAD's overhead and the registry of NIKE schemes belong to
-- other libraries. Lengths are unbounded numbers.
pub mod Inverse
pub mod Lengths
use Prim.Native.String.{String}
use text.Mathlib.Text.{◌==◌ as str_eq}
use katzenpost_wt.Prelude.{
  ℕ, ◌+◌, ◌-◌, Bool, not, List, [], ◌∷◌, Option, Run, ok, ◌>>=◌, ◌>>◌, or_panic, refuse_if, ltb,
  leb, ◌==◌, if◌then◌else◌,
}
use katzenpost_wt.Sphinx.Geometry.{Scheme, geometry_from_user_forward_payload_length, GeometryError}
use katzenpost_wt.Sphinx.Geometry as Sphinx

-- `bacap.BoxIDSize`, `bacap.SignatureSize`, `mkem.DEKSize`, and the lengths of a ChaCha20-Poly1305
-- nonce and tag.
pub record Sizes : Type 0 where
  pub box_id_size : ℕ
  pub signature_size : ℕ
  pub dek_size : ℕ
  pub nonce_size : ℕ
  pub overhead : ℕ

pub record PigeonholeGeometry : Type 0 where
  pub max_plaintext_payload_length : ℕ
  pub courier_query_read_length : ℕ
  pub courier_query_write_length : ℕ
  pub courier_query_reply_read_length : ℕ
  pub courier_query_reply_write_length : ℕ
  pub nike_name : String
  pub signature_scheme_name : String

pub data PigeonholeError : Type 0 where
  too_small no_payload_length no_nike_name bad_signature_scheme : PigeonholeError

abbrev pub bacap_encryption_overhead : ℕ
bacap_encryption_overhead = 16

abbrev pub length_prefix_size : ℕ
length_prefix_size = 4

abbrev signature_scheme_name : String
signature_scheme_name = "Ed25519"

abbrev pub message_type_size : ℕ
message_type_size = 1

abbrev error_code_field_size : ℕ
error_code_field_size = 1

abbrev success_field_size : ℕ
success_field_size = 1

abbrev payload_len_field_size : ℕ
payload_len_field_size = 4

abbrev write_reply_len_field_size : ℕ
write_reply_len_field_size = 4

abbrev minimal_ok_reply_size : ℕ
minimal_ok_reply_size = 2

abbrev error_len_field_size : ℕ
error_len_field_size = 2

abbrev timestamp_field_size : ℕ
timestamp_field_size = 8

abbrev ciphertext_len_field_size : ℕ
ciphertext_len_field_size = 4

abbrev intermediate_replicas_size : ℕ
intermediate_replicas_size = 2

abbrev reply_index_size : ℕ
reply_index_size = 1

abbrev epoch_size : ℕ
epoch_size = 8

abbrev sender_pubkey_len_size : ℕ
sender_pubkey_len_size = 2

abbrev query_type_size : ℕ
query_type_size = 1

unfoldable pub padded_payload_length : PigeonholeGeometry → ℕ
padded_payload_length g = g.max_plaintext_payload_length + length_prefix_size

unfoldable pub box_ciphertext_length : PigeonholeGeometry → ℕ
box_ciphertext_length g =
    g.max_plaintext_payload_length + length_prefix_size + bacap_encryption_overhead

max_from : ℕ → List ℕ → ℕ
max_from most [] = most
max_from most (v ∷ values) = max_from (if ltb most v then v else most) values

-- `maxInt`
unfoldable pub max_int : List ℕ → ℕ
unfolding max_from
max_int [] = 0
max_int (v ∷ values) = max_from v values

module _ (sizes : Sizes) where
  unfoldable pub mkem_encryption_overhead : ℕ
  mkem_encryption_overhead = sizes.nonce_size + sizes.overhead

  unfoldable pub replica_write_fixed_overhead : ℕ
  replica_write_fixed_overhead = sizes.box_id_size + sizes.signature_size + payload_len_field_size

  unfoldable pub courier_envelope_overhead : ℕ → ℕ
  courier_envelope_overhead sender_pubkey_size =
      intermediate_replicas_size + sizes.dek_size + sizes.dek_size + reply_index_size + epoch_size
      + sender_pubkey_len_size + ciphertext_len_field_size + sender_pubkey_size

  unfoldable pub envelope_ciphertext_size_read : ℕ
  unfolding mkem_encryption_overhead
  envelope_ciphertext_size_read = message_type_size + sizes.box_id_size + mkem_encryption_overhead

  unfoldable pub envelope_ciphertext_size_write : PigeonholeGeometry → ℕ
  unfolding mkem_encryption_overhead replica_write_fixed_overhead box_ciphertext_length
  envelope_ciphertext_size_write g =
      message_type_size
      + (replica_write_fixed_overhead + box_ciphertext_length g)
      + mkem_encryption_overhead

  unfoldable pub envelope_reply_size_read : PigeonholeGeometry → ℕ
  unfolding box_ciphertext_length
  envelope_reply_size_read g =
      message_type_size
      + (error_code_field_size
          + sizes.box_id_size
          + sizes.signature_size
          + payload_len_field_size
          + box_ciphertext_length g)
      + (sizes.nonce_size + sizes.overhead)

  unfoldable pub envelope_reply_size_write : ℕ
  envelope_reply_size_write =
      message_type_size + error_code_field_size + (sizes.nonce_size + sizes.overhead)

  unfoldable pub inner_message_write_size : PigeonholeGeometry → ℕ
  unfolding replica_write_fixed_overhead box_ciphertext_length
  inner_message_write_size g =
      message_type_size + (replica_write_fixed_overhead + box_ciphertext_length g)

  unfoldable pub reply_inner_message_read_size : PigeonholeGeometry → ℕ
  unfolding box_ciphertext_length
  reply_inner_message_read_size g =
      message_type_size
      + (error_code_field_size
          + sizes.box_id_size
          + sizes.signature_size
          + payload_len_field_size
          + box_ciphertext_length g)

  -- The four lengths of queries and replies; `n` is `MaxPlaintextPayloadLength`.
  calculate_query_read : Scheme → ℕ
  unfolding mkem_encryption_overhead courier_envelope_overhead
  calculate_query_read nike =
      courier_envelope_overhead nike.size
      + (message_type_size + sizes.box_id_size + mkem_encryption_overhead)
      + query_type_size

  calculate_query_write : Scheme → ℕ → ℕ
  unfolding mkem_encryption_overhead courier_envelope_overhead replica_write_fixed_overhead
  calculate_query_write nike n =
      courier_envelope_overhead nike.size
      + (message_type_size
          + (replica_write_fixed_overhead + (n + length_prefix_size + bacap_encryption_overhead))
          + mkem_encryption_overhead)
      + query_type_size

  calculate_reply_read : ℕ → ℕ
  unfolding mkem_encryption_overhead
  calculate_reply_read n =
      error_len_field_size
      + (success_field_size
          + timestamp_field_size
          + ciphertext_len_field_size
          + (message_type_size
              + (sizes.box_id_size + success_field_size + payload_len_field_size
                  + sizes.signature_size + n)
              + mkem_encryption_overhead))

  calculate_reply_write : ℕ
  unfolding mkem_encryption_overhead
  calculate_reply_write =
      error_len_field_size
      + (success_field_size
          + timestamp_field_size
          + ciphertext_len_field_size
          + (message_type_size
              + (write_reply_len_field_size + minimal_ok_reply_size)
              + mkem_encryption_overhead))

  -- The lengths, with the scheme that the registry gives.
  filled : ℕ → Scheme → String → PigeonholeGeometry
  unfolding calculate_query_read calculate_query_write calculate_reply_read calculate_reply_write
  filled box_payload_length nike nike_name = record {
    max_plaintext_payload_length = box_payload_length;
    courier_query_read_length = calculate_query_read nike;
    courier_query_write_length = calculate_query_write nike box_payload_length;
    courier_query_reply_read_length = calculate_reply_read box_payload_length;
    courier_query_reply_write_length = calculate_reply_write;
    nike_name = nike_name;
    signature_scheme_name = signature_scheme_name;
  }

  -- `NewGeometry`, with `schemes.ByName`, whose nil the lengths of the queries answer with `panic`.
  unfoldable pub new_geometry :
      (String → Option Scheme) → ℕ → Scheme → Run PigeonholeError PigeonholeGeometry
  unfolding filled
  new_geometry by_name box_payload_length nike_scheme = do
    nike ← or_panic (by_name nike_scheme.name)
    ok (filled box_payload_length nike nike_scheme.name)

  -- The layers that `NewGeometryFromSphinx` takes off.
  total_overhead : Scheme → ℕ
  unfolding mkem_encryption_overhead courier_envelope_overhead replica_write_fixed_overhead
  total_overhead nike_scheme =
      query_type_size
      + courier_envelope_overhead nike_scheme.size
      + mkem_encryption_overhead
      + message_type_size
      + replica_write_fixed_overhead
      + bacap_encryption_overhead
      + length_prefix_size

  unfoldable pub new_geometry_from_sphinx :
      (String → Option Scheme) → Sphinx.Geometry → Scheme → Run PigeonholeError PigeonholeGeometry
  unfolding total_overhead new_geometry
  new_geometry_from_sphinx by_name sphinx_geo nike_scheme = do
    let target_size = sphinx_geo.user_forward_payload_length
    refuse_if (leb target_size (total_overhead nike_scheme)) too_small
    new_geometry by_name (target_size - total_overhead nike_scheme) nike_scheme

-- `ToSphinxGeometry`
unfoldable pub to_sphinx_geometry :
    (String → Option Scheme) → PigeonholeGeometry → ℕ → Bool → Run GeometryError Sphinx.Geometry
unfolding max_int
to_sphinx_geometry by_name g nr_hops with_surb = do
  nike ← or_panic (by_name g.nike_name)
  geometry_from_user_forward_payload_length nike
      (max_int (
        g.courier_query_read_length ∷ g.courier_query_write_length
        ∷ g.courier_query_reply_read_length ∷ g.courier_query_reply_write_length ∷ []))
      with_surb nr_hops

-- `Validate`, where the registry answers an unknown name with a panic.
unfoldable pub validate :
    (String → Option Scheme) → PigeonholeGeometry → Run PigeonholeError (Unit {0})
validate by_name g = do
  refuse_if (g.max_plaintext_payload_length == 0) no_payload_length
  refuse_if (str_eq g.nike_name "") no_nike_name
  nike ← or_panic (by_name g.nike_name)
  refuse_if (not (str_eq g.signature_scheme_name signature_scheme_name)) bad_signature_scheme
