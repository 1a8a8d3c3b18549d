-- ===== src/Wire/Tests.antt =====
-- Runs of the wire commands over small settings.
use Prim.Native.String.{String}
use katzenpost_wt.Prelude.{
  ℕ, ◌≡◌, refl, true, List, [], ◌∷◌, ◌++◌, Option, none, some, ok, panic, arith, length, replicate,
  leb, if◌then◌else◌,
}
use katzenpost_wt.Prelude.Bytes.{put_u32}
use katzenpost_wt.Pigeonhole.Wire.{put_u64}
use katzenpost_wt.Sphinx.Geometry.{Geometry, Scheme}
use katzenpost_wt.Wire.Id.{CommandId, byte}
use katzenpost_wt.Wire.Command.{Command, Commands, Hpqc, SignScheme}
use katzenpost_wt.Wire.Serialize.{header, signed_to_bytes, key_overhead}
use katzenpost_wt.Wire.Encode.{to_bytes}
use katzenpost_wt.Wire.Parse.{from_bytes}
use katzenpost_wt.Wire.Received.{received, Fits}
use katzenpost_wt.Wire.Settings.{new_mixnet_commands}
use katzenpost_wt.Wire.RoundTrip.{from_bytes-Fits}
use katzenpost_wt.Wire.Uniform.{IsUpstream, to_bytes-IsUpstream}
use katzenpost_wt.Wire.Safety.{from_bytes-short_consensus2, from_bytes-short_reply}

abbrev unmarshal_byte : List ℕ → Option ℕ
unmarshal_byte (key ∷ []) = some key
unmarshal_byte _ = none

abbrev byte_scheme : SignScheme ℕ
byte_scheme = record { public_key_size = 1; unmarshal = unmarshal_byte }

abbrev byte_keys : Hpqc ℕ
byte_keys = record {
  sizes = record {
    box_id_size = 32;
    signature_size = 64;
    dek_size = 60;
    nonce_size = 12;
    overhead = 16;
  };
  key_size = λ key. 1;
  marshal = λ key. some (key ∷ []);
}

abbrev nike : Scheme
nike = record { name = "toy"; size = 4 }

abbrev tiny : Geometry
tiny = record {
  packet_length = 1298;
  nr_hops = 3;
  header_length = 284;
  routing_info_length = 246;
  per_hop_routing_info_length = 82;
  surb_length = 380;
  sphinx_plaintext_header_length = 2;
  payload_tag_length = 32;
  forward_payload_length = 982;
  user_forward_payload_length = 600;
  next_node_hop_length = 65;
  sprp_key_material_length = 64;
  nike_name = "toy";
  kem_name = "";
}

abbrev anything : Commands ℕ
anything = record {
  geo = some tiny;
  pki_signature_scheme = some byte_scheme;
  replica_nike_scheme = some 4;
  client_to_server_commands = [];
  server_to_client_commands = [];
  max_message_len_server_to_client = 30;
  max_message_len_client_to_server = 40;
  should_pad = true;
}

abbrev ballot : Command ℕ
ballot = Command.vote 7 5 (1 ∷ 2 ∷ [])

ballot-Fits : Fits byte_keys anything ballot
unfolding Fits
ballot-Fits = (
  omega arith,
  record {
    scheme = byte_scheme;
    blob = 5 ∷ [];
    configured = refl;
    size = refl;
    marshalled = refl;
    blob_size = refl;
    unmarshalled = refl;
  },
)

abbrev ballot_bytes : List ℕ
ballot_bytes = 22 ∷ 0 ∷ 0 ∷ 0 ∷ 0 ∷ 11 ∷ 0 ∷ 0 ∷ 0 ∷ 0 ∷ 0 ∷ 0 ∷ 0 ∷ 7 ∷ 5 ∷ 1 ∷ 2 ∷ []

ballot_written : to_bytes byte_keys (some anything) ballot ≡ ok ballot_bytes
unfolding to_bytes signed_to_bytes key_overhead header byte put_u64 put_u32
ballot_written = refl

from_bytes-Fits_example : from_bytes byte_keys anything ballot_bytes ≡ ok (received ballot)
from_bytes-Fits_example =
    from_bytes-Fits byte_keys anything ballot ballot_bytes ballot-Fits ballot_written (omega arith)

from_bytes-short_consensus2_example :
    from_bytes byte_keys anything ((header CommandId.consensus2 1 ++ (9 ∷ [])) ++ replicate 3 0)
    ≡ (if leb 8 3 then ok (Command.consensus2 9 0 0 []) else panic)
from_bytes-short_consensus2_example =
    from_bytes-short_consensus2 byte_keys anything 9 3 (omega arith)

from_bytes-short_reply_example :
    from_bytes byte_keys anything
      ((header CommandId.send_retrieve_packet_reply 2 ++ (9 ∷ 8 ∷ [])) ++ replicate 100 0)
    ≡ panic
from_bytes-short_reply_example =
    from_bytes-short_reply byte_keys anything (9 ∷ 8 ∷ []) 100 (omega arith) (omega arith)

abbrev truncated : List ℕ
truncated = 4 ∷ 0 ∷ 0 ∷ 0 ∷ 0 ∷ 0 ∷ []

mixnet_settings : (c : Commands ℕ) × (new_mixnet_commands byte_keys tiny ≡ ok c)
unfolding new_mixnet_commands
mixnet_settings = (_, refl)

to_bytes-IsUpstream_example :
    (bytes : List ℕ) × (to_bytes byte_keys (some mixnet_settings.0) (Command.get_consensus2 3)
      ≡ ok bytes)
    × (length bytes ≡ mixnet_settings.0.max_message_len_client_to_server)
to_bytes-IsUpstream_example =
    to_bytes-IsUpstream byte_keys tiny mixnet_settings.0 (Command.get_consensus2 3)
      mixnet_settings.1 (IsUpstream.get_consensus2 3)

abbrev by_name : String → Option Scheme
by_name name = some nike
