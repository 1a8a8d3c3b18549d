-- ===== src/Sphinx/Geometry.antt =====
-- core/sphinx/geo/geo.go and the length constants that it reads, of core/sphinx/constants and
-- core/sphinx/internal/crypto. Lengths are unbounded numbers; a scheme is seen through its name
-- and its key or ciphertext size.
pub mod Derived
use Prim.Native.String.{String}
use text.Mathlib.Text.{◌==◌ as str_eq}
use katzenpost_wt.Prelude.{
  ℕ, ◌+◌, ◌*◌, Bool, not, ◌&&◌, Option, none, some, Run, ok, err, panic, ◌>>=◌, ◌>>◌, ◌==◌,
  if◌then◌else◌, refuse_if,
}

abbrev pub node_id_length : ℕ
node_id_length = 32

abbrev pub recipient_id_length : ℕ
recipient_id_length = 32

abbrev pub surb_id_length : ℕ
surb_id_length = 16

abbrev pub command_tag_length : ℕ
command_tag_length = 1

abbrev pub mac_length : ℕ
mac_length = 32

abbrev pub sprp_key_length : ℕ
sprp_key_length = 48

abbrev pub stream_iv_length : ℕ
stream_iv_length = 16

abbrev pub sprp_iv_length : ℕ
sprp_iv_length = stream_iv_length

abbrev pub surb_reply_length : ℕ
surb_reply_length = command_tag_length + surb_id_length

abbrev pub sphinx_plaintext_header_length : ℕ
sphinx_plaintext_header_length = 1 + 1

abbrev pub ad_length : ℕ
ad_length = 2

abbrev pub payload_tag_length : ℕ
payload_tag_length = 32

pub record Geometry : Type 0 where
  pub packet_length : ℕ
  pub nr_hops : ℕ
  pub header_length : ℕ
  pub routing_info_length : ℕ
  pub per_hop_routing_info_length : ℕ
  pub surb_length : ℕ
  pub sphinx_plaintext_header_length : ℕ
  pub payload_tag_length : ℕ
  pub forward_payload_length : ℕ
  pub user_forward_payload_length : ℕ
  pub next_node_hop_length : ℕ
  pub sprp_key_material_length : ℕ
  pub nike_name : String
  pub kem_name : String

-- A NIKE or KEM scheme of the hpqc library: `Name()`, and `PublicKeySize()` or `CiphertextSize()`.
pub record Scheme : Type 0 where
  pub name : String
  pub size : ℕ

pub record GeometryFactory : Type 0 where
  pub nike : Option Scheme
  pub kem : Option Scheme
  pub nr_hops : ℕ
  pub forward_payload_length : ℕ
  pub sprp_key_material_length : ℕ
  pub sphinx_plaintext_header_length : ℕ
  pub next_node_hop_length : ℕ

pub data GeometryError : Type 0 where
  no_scheme both_schemes bad_nike bad_kem no_packet_length no_hops no_header_length : GeometryError
  no_routing_info_length no_per_hop_length : GeometryError

pub per_hop_routing_info_length : GeometryFactory → Run GeometryError ℕ
per_hop_routing_info_length f = elim f.nike [
  | none ↦ elim f.kem [
    | none ↦ panic
    | some k ↦ ok (f.next_node_hop_length + surb_reply_length + k.size)
  ]
  | some n ↦ ok (f.next_node_hop_length + surb_reply_length)
]

pub routing_info_length : GeometryFactory → Run GeometryError ℕ
routing_info_length f = do per_hop ← per_hop_routing_info_length f; ok (per_hop * f.nr_hops)

pub header_length : GeometryFactory → Run GeometryError ℕ
header_length f = elim f.nike [
  | none ↦ elim f.kem [
    | none ↦ panic
    | some k ↦ do routing ← routing_info_length f; ok (ad_length + k.size + routing + mac_length)
  ]
  | some n ↦ elim f.kem [
    | none ↦ do routing ← routing_info_length f; ok (ad_length + n.size + routing + mac_length)
    | some k ↦ panic
  ]
]

pub packet_length : GeometryFactory → Run GeometryError ℕ
packet_length f = do
  header ← header_length f
  ok (header + payload_tag_length + f.forward_payload_length)

pub surb_length : GeometryFactory → Run GeometryError ℕ
surb_length f = do
  header ← header_length f
  ok (header + node_id_length + f.sprp_key_material_length)

pub derive_forward_payload_length : GeometryFactory → ℕ → Run GeometryError ℕ
derive_forward_payload_length f user = do
  surb ← surb_length f
  ok (user + (sphinx_plaintext_header_length + surb))

-- What both constructors do once the factory has its scheme.
build : GeometryFactory → ℕ → Bool → String → String → Run GeometryError Geometry
build start user with_surb nike_name kem_name = do
  forward ← if with_surb then derive_forward_payload_length start user else ok user
  let f = record start { forward_payload_length = forward }
  header ← header_length f
  packet ← packet_length f
  surb ← surb_length f
  routing ← routing_info_length f
  per_hop ← per_hop_routing_info_length f
  ok (record {
    packet_length = packet;
    nr_hops = f.nr_hops;
    header_length = header;
    routing_info_length = routing;
    per_hop_routing_info_length = per_hop;
    surb_length = surb;
    sphinx_plaintext_header_length = sphinx_plaintext_header_length;
    payload_tag_length = payload_tag_length;
    forward_payload_length = forward;
    user_forward_payload_length = user;
    next_node_hop_length = f.next_node_hop_length;
    sprp_key_material_length = f.sprp_key_material_length;
    nike_name = nike_name;
    kem_name = kem_name;
  })

factory : Option Scheme → Option Scheme → ℕ → GeometryFactory
factory nike kem nr_hops = record {
  nike = nike;
  kem = kem;
  nr_hops = nr_hops;
  forward_payload_length = 0;
  sprp_key_material_length = sprp_key_length + sprp_iv_length;
  sphinx_plaintext_header_length = sphinx_plaintext_header_length;
  next_node_hop_length = command_tag_length + node_id_length + mac_length;
}

unfoldable pub geometry_from_user_forward_payload_length :
    Scheme → ℕ → Bool → ℕ → Run GeometryError Geometry
unfolding build factory per_hop_routing_info_length routing_info_length header_length packet_length
    surb_length derive_forward_payload_length
geometry_from_user_forward_payload_length nike user with_surb nr_hops =
    build (factory (some nike) none nr_hops) user with_surb nike.name ""

unfoldable pub kem_geometry_from_user_forward_payload_length :
    Scheme → ℕ → Bool → ℕ → Run GeometryError Geometry
unfolding build factory per_hop_routing_info_length routing_info_length header_length packet_length
    surb_length derive_forward_payload_length
kem_geometry_from_user_forward_payload_length kem user with_surb nr_hops =
    build (factory none (some kem) nr_hops) user with_surb "" kem.name

-- The scheme lookups of `Validate`, over the registries of hpqc (`schemes.ByName`).
scheme_known :
    (String → Option Scheme) → (String → Option Scheme) → Geometry → Run GeometryError (Unit {0})
scheme_known nike_by_name kem_by_name g =
    if not (str_eq g.nike_name "")
    then elim (nike_by_name g.nike_name) [ none ↦ err bad_nike | some n ↦ ok tt ]
    else elim (kem_by_name g.kem_name) [ none ↦ err bad_kem | some k ↦ ok tt ]

unfoldable pub validate :
    (String → Option Scheme) → (String → Option Scheme) → Geometry → Run GeometryError (Unit {0})
unfolding scheme_known
validate nike_by_name kem_by_name g = do
  refuse_if (str_eq g.nike_name "" && str_eq g.kem_name "") no_scheme
  refuse_if (not (str_eq g.nike_name "") && not (str_eq g.kem_name "")) both_schemes
  scheme_known nike_by_name kem_by_name g
  refuse_if (g.packet_length == 0) no_packet_length
  refuse_if (g.nr_hops == 0) no_hops
  refuse_if (g.header_length == 0) no_header_length
  refuse_if (g.routing_info_length == 0) no_routing_info_length
  refuse_if (g.per_hop_routing_info_length == 0) no_per_hop_length
