-- ===== src/Sphinx/Tests.antt =====
-- Runs of the model of core/sphinx, and its theorems at concrete inputs, over a toy group of two
-- elements.
use katzenpost_wt.Prelude.{
  ℕ, ◌+◌, ◌≡◌, refl, sym, ap, Bool, true, false, ◌&&◌, List, [], ◌∷◌, ◌++◌, Option, none, some, Run,
  ok, err, arith, ◌==◌, length, replicate, length-replicate, ◌>>=◌,
}
use katzenpost_wt.Prelude.Bytes.{copy_array, overwrite, bytes_eq, ct_is_zero, put_u32, get_u32}
use katzenpost_wt.Prelude.Xor.{xor_list, xor_list_cancel, length-xor_list}
use katzenpost_wt.Sphinx.Geometry.{
  Geometry, Scheme, geometry_from_user_forward_payload_length,
  kem_geometry_from_user_forward_payload_length, validate,
}
use katzenpost_wt.Sphinx.Geometry.Derived.{
  IsDerived, geometry_from-IsDerived, kem_geometry_from-IsDerived, validate-geometry_from,
}
use katzenpost_wt.Sphinx.Commands.{
  RoutingCommand, recipient, surb_reply, node_delay, IsWellFormed, to_bytes, from_bytes,
}
use katzenpost_wt.Sphinx.Commands.RoundTrip.{from_bytes-to_bytes}
use katzenpost_wt.Sphinx.Commands.Canonical.{from_bytes-canonical}
use katzenpost_wt.Sphinx.Crypto.{
  Primitives, IsCorrect, kdf, keys_of_okm, key_stream, xor_key_stream, sprp_encrypt, sprp_decrypt,
}
use katzenpost_wt.Sphinx.Header.{
  PathHop, Entropy, is_next_node_hop, create_header, hop_keys, hop_streams, xor_bytes,
  commands_to_bytes,
}
use katzenpost_wt.Sphinx.Header.Agreement.{keys_along, hop_keys_agree}
use katzenpost_wt.Sphinx.Packet.{
  UnwrapError, sub_slice, copy_at, parse_start, out_of_fuel, parse_commands, finish, unwrap_nike,
  new_nike_packet,
}
use katzenpost_wt.Sphinx.Packet.Delivery.{deliver, Found}
use katzenpost_wt.Sphinx.Packet.Fuel.{parse_commands_ends}
use katzenpost_wt.Sphinx.Packet.Hop.{IsLaidOut}
use katzenpost_wt.Sphinx.Packet.Correct.{Works, IsPath, new_nike_packet-delivers}
use katzenpost_wt.Sphinx.Surb.{new_nike_surb, new_packet_from_surb, decrypt_surb_payload}
use katzenpost_wt.Sphinx.Surb.Return.{surb-comes_back}

abbrev encode : Bool → List ℕ
encode true = 1 ∷ []
encode false = 0 ∷ []

abbrev decode : List ℕ → Option Bool
decode (x ∷ []) = some (x == 1)
decode _ = none

abbrev mask : List ℕ → List ℕ
mask m = xor_list m (replicate (length m) 85)

abbrev pub toy : Primitives
toy = record {
  PublicKey = Bool;
  PrivateKey = Bool;
  public_key_size = 1;
  encode_key = encode;
  decode_key = decode;
  public_key = λ x. x;
  derive_secret = λ x k. encode (x && k);
  blind = λ k f. k && f;
  blind_in_place = λ k f. some (k && f);
  private_key_of_seed = λ s. true;
  hkdf_expand = λ ikm n. replicate n 5;
  hmac = λ key m. replicate 32 (length m);
  ctr_stream = λ key iv n. replicate n 9;
  aez_encrypt = λ key iv m. mask m;
  aez_decrypt = λ key iv m. some (mask m);
  sha512_256 = λ m. replicate 32 (length m);
}

mask-mask : (m : List ℕ) → (mask (mask m) ≡ m) × (length (mask m) ≡ length m)
mask-mask m =
    let key : List ℕ = replicate (length m) 85 in
    let same : length m ≡ length key = sym (length-replicate (length m) 85) in
    let size = length-xor_list m key same in (rw size (xor_list_cancel m key same), size)

decode-encode_lem : (k : Bool) → decode (encode k) ≡ some k
decode-encode_lem true = refl
decode-encode_lem false = refl

blinded_lem :
    (x k f : Bool)
    → (s : Bool) × (decode (encode (x && k)) ≡ some s) × (encode (x && (k && f)) ≡ encode (s && f))
blinded_lem true k f = (k, decode-encode_lem k, refl)
blinded_lem false k f = (false, refl, refl)

agree_lem : (x y : Bool) → encode (x && y) ≡ encode (y && x)
agree_lem true true = refl
agree_lem true false = refl
agree_lem false true = refl
agree_lem false false = refl

size_lem : (k : Bool) → length (encode k) ≡ 1
size_lem true = refl
size_lem false = refl

abbrev toy-IsCorrect : IsCorrect toy
toy-IsCorrect = record {
  decode-encode = decode-encode_lem;
  length-encode = size_lem;
  secrets_agree = agree_lem;
  secret_of_blinded = blinded_lem;
  blind_agrees = λ k f. refl;
  length-hkdf = λ ikm n. length-replicate n 5;
  length-hmac = λ key m. refl;
  length-stream = λ key iv n. length-replicate n 9;
  length-encrypt = λ key iv m. (mask-mask m).1;
  decrypt-encrypt = λ key iv m. ap some (mask-mask m).0;
  encrypt-decrypt = λ key iv m. (mask m, refl, (mask-mask m).0);
}

-- Three hops of 82-byte blocks, and payloads of four bytes.
abbrev pub small : Geometry
small = record {
  packet_length = 2 + 1 + 246 + 32 + 32 + 4;
  nr_hops = 3;
  header_length = 2 + 1 + 246 + 32;
  routing_info_length = 246;
  per_hop_routing_info_length = 82;
  surb_length = 2 + 1 + 246 + 32 + 32 + 64;
  sphinx_plaintext_header_length = 2;
  payload_tag_length = 32;
  forward_payload_length = 4;
  user_forward_payload_length = 4;
  next_node_hop_length = 65;
  sprp_key_material_length = 64;
  nike_name = "toy";
  kem_name = "";
}

abbrev scheme : Scheme
scheme = record { name = "toy"; size = 1 }

small_made : geometry_from_user_forward_payload_length scheme 4 false 3 ≡ ok small
unfolding geometry_from_user_forward_payload_length
small_made = refl

small-IsLaidOut : IsLaidOut small 1
small-IsLaidOut = omega arith

abbrev first_hop : PathHop toy
first_hop = record { id = replicate 32 1; nike_public_key = true; commands = node_delay 7 ∷ [] }

abbrev last_hop : PathHop toy
last_hop = record {
  id = replicate 32 2;
  nike_public_key = false;
  commands = recipient (replicate 32 3) ∷ [];
}

abbrev source : Entropy toy
source = record { key_pair = some true; random = λ n. some (replicate n 6) }

source-Works : Works toy toy-IsCorrect small small-IsLaidOut source
source-Works = record {
  client = true;
  pair = refl;
  bytes = λ n. (replicate n 6, refl, length-replicate n 6);
}

two_hops-IsPath :
    IsPath toy toy-IsCorrect small small-IsLaidOut first_hop (last_hop ∷ []) true (false ∷ [])
unfolding is_next_node_hop to_bytes put_u32
two_hops-IsPath = record {
  owners = (refl, (refl, tt));
  short = omega arith;
  fits = (
    record {
      well_formed = (omega arith, tt);
      no_next = (refl, tt);
      one_reply = omega arith;
      size = omega arith;
    },
    refl,
    record {
      well_formed = (refl, tt);
      no_next = (refl, tt);
      one_reply = omega arith;
      size = omega arith;
    },
  );
}

abbrev reply_hop : PathHop toy
reply_hop = record {
  id = replicate 32 2;
  nike_public_key = false;
  commands = recipient (replicate 32 3) ∷ surb_reply (replicate 16 4) ∷ [];
}

reply_hops-IsPath :
    IsPath toy toy-IsCorrect small small-IsLaidOut first_hop (reply_hop ∷ []) true (false ∷ [])
unfolding is_next_node_hop to_bytes put_u32
reply_hops-IsPath = record {
  owners = (refl, (refl, tt));
  short = omega arith;
  fits = (
    record {
      well_formed = (omega arith, tt);
      no_next = (refl, tt);
      one_reply = omega arith;
      size = omega arith;
    },
    refl,
    record {
      well_formed = (refl, (refl, tt));
      no_next = (refl, (refl, tt));
      one_reply = omega arith;
      size = omega arith;
    },
  );
}

abbrev message : List ℕ
message = 10 ∷ 20 ∷ 30 ∷ 40 ∷ []

sent : List ℕ
unfolding new_nike_packet
sent = elim (new_nike_packet toy small source (first_hop ∷ last_hop ∷ []) message) [
  | ok pkt ↦ pkt
  | _ ↦ []
]

sent_size : length sent ≡ 317
unfolding sent create_header hop_keys hop_streams kdf keys_of_okm copy_array key_stream xor_bytes
    commands_to_bytes to_bytes overwrite sprp_encrypt put_u32
sent_size = refl

-- What the last of the two mixes returns.
returned : Run UnwrapError (Option (List ℕ))
unfolding deliver
returned =
    deliver toy toy-IsCorrect small (true ∷ false ∷ []) sent >>= λ (found, payload). ok payload

last_mix_result : returned ≡ ok (some message)
unfolding returned sent create_header hop_keys hop_streams kdf keys_of_okm copy_array key_stream
    xor_bytes commands_to_bytes to_bytes overwrite sprp_encrypt put_u32 unwrap_nike sub_slice
    bytes_eq xor_key_stream parse_commands from_bytes finish copy_at get_u32 ct_is_zero sprp_decrypt
last_mix_result = refl

validate-geometry_from_example :
    (geometry_from_user_forward_payload_length scheme 4 true 5
      >>= validate (λ _. some scheme) (λ _. none))
    ≡ ok tt
validate-geometry_from_example =
    validate-geometry_from (λ _. some scheme) (λ _. none) scheme 4 true 5 refl refl

geometry_from-IsDerived_example :
    (g : Geometry) × (geometry_from_user_forward_payload_length scheme 4 true 5 ≡ ok g)
    × IsDerived g 1 0 4 true 5
geometry_from-IsDerived_example = geometry_from-IsDerived scheme 4 true 5

from_bytes-to_bytes_example :
    from_bytes (to_bytes (node_delay 0x01020304) [] ++ 9 ∷ []) small
    ≡ ok (some (node_delay 0x01020304), some (9 ∷ []))
from_bytes-to_bytes_example =
    from_bytes-to_bytes small (node_delay 0x01020304) (9 ∷ []) refl (omega arith)

from_bytes-canonical_example :
    (rest : List ℕ) × (some (9 ∷ []) ≡ some rest)
    × IsWellFormed (node_delay 0x01020304)
    × (to_bytes (node_delay 0x01020304) [] ++ rest ≡ 0x80 ∷ 1 ∷ 2 ∷ 3 ∷ 4 ∷ 9 ∷ [])
unfolding from_bytes get_u32
from_bytes-canonical_example =
    from_bytes-canonical small (0x80 ∷ 1 ∷ 2 ∷ 3 ∷ 4 ∷ 9 ∷ []) (node_delay 0x01020304)
      (some (9 ∷ [])) refl (omega arith) refl

new_nike_packet-delivers_example :
    (pkt : List ℕ) × (found : List (List RoutingCommand)) × (new_nike_packet toy small source
        (first_hop ∷ last_hop ∷ [])
        message
      ≡ ok pkt)
    × (length pkt ≡ 281 + 32 + 4)
    × (deliver toy toy-IsCorrect small (true ∷ false ∷ []) pkt ≡ ok (found, some message))
    × Found toy toy-IsCorrect small (first_hop ∷ last_hop ∷ []) found
new_nike_packet-delivers_example =
    new_nike_packet-delivers toy toy-IsCorrect small small-IsLaidOut source first_hop
      (last_hop ∷ []) true (false ∷ []) message source-Works two_hops-IsPath (refl, (refl, tt)) refl

surb-comes_back_example :
    (surb : List ℕ) × (keys : List ℕ) × (pkt : List ℕ) × (reply : List ℕ) × (found : List
      (List RoutingCommand))
    × (new_nike_surb toy small source (λ n. some (replicate n 8)) (first_hop ∷ reply_hop ∷ [])
        ≡ ok (surb, keys))
    × (length surb ≡ 377)
    × (new_packet_from_surb toy small surb message ≡ ok (pkt, replicate 32 1))
    × (deliver toy toy-IsCorrect small (true ∷ false ∷ []) pkt ≡ ok (found, some reply))
    × Found toy toy-IsCorrect small (first_hop ∷ reply_hop ∷ []) found
    × (decrypt_surb_payload toy small reply keys ≡ ok message)
surb-comes_back_example =
    surb-comes_back toy toy-IsCorrect small small-IsLaidOut source (λ n. some (replicate n 8))
      (replicate 64 8) first_hop (reply_hop ∷ []) true (false ∷ []) (replicate 16 4) message
      source-Works refl refl reply_hops-IsPath refl refl refl

kem_geometry_from-IsDerived_example :
    (g : Geometry) × (kem_geometry_from_user_forward_payload_length scheme 4 true 5 ≡ ok g)
    × IsDerived g 1 1 4 true 5
kem_geometry_from-IsDerived_example = kem_geometry_from-IsDerived scheme 4 true 5

hop_keys_agree_example :
    hop_keys toy true (first_hop ∷ last_hop ∷ []) ≡ ok (keys_along toy true (true ∷ false ∷ []))
hop_keys_agree_example =
    hop_keys_agree toy toy-IsCorrect true first_hop (last_hop ∷ []) (true ∷ false ∷ [])
      (refl, (refl, tt))

parse_commands_ends_example :
    ¬ (parse_commands 7 small (0x80 ∷ 1 ∷ 2 ∷ 3 ∷ 4 ∷ 0 ∷ []) parse_start ≡ err out_of_fuel)
parse_commands_ends_example =
    parse_commands_ends small refl (0x80 ∷ 1 ∷ 2 ∷ 3 ∷ 4 ∷ 0 ∷ []) parse_start (omega arith)
