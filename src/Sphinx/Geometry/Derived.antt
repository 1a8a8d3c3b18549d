-- ===== src/Sphinx/Geometry/Derived.antt =====
-- The lengths that the constructors of core/sphinx/geo/geo.go derive.
use Prim.Native.String.{String}
use text.Mathlib.Text.{◌==◌ as str_eq}
use katzenpost_wt.Prelude.{
  ℕ, ◌+◌, ◌*◌, ◌≡◌, refl, Bool, true, false, Option, some, ok, err, arith, ◌>>=◌, ◌==◌,
  if◌then◌else◌,
}
use katzenpost_wt.Sphinx.Geometry.{
  Geometry, Scheme, geometry_from_user_forward_payload_length,
  kem_geometry_from_user_forward_payload_length, validate, no_hops,
}

-- The fields of `g` agree, for a header with `element` bytes of key material and per-hop blocks
-- that have `extra` bytes beside the commands.
pub record IsDerived (g : Geometry) (element extra user : ℕ) (with_surb : Bool) (nr_hops : ℕ)
    : Type 0 where
  pub hops : g.nr_hops ≡ nr_hops
  pub next_node_hop : g.next_node_hop_length ≡ 65
  pub per_hop : g.per_hop_routing_info_length ≡ 65 + 17 + extra
  pub routing : g.routing_info_length ≡ g.per_hop_routing_info_length * nr_hops
  pub header : g.header_length ≡ 2 + element + g.routing_info_length + 32
  pub plaintext_header : g.sphinx_plaintext_header_length ≡ 2
  pub tag : g.payload_tag_length ≡ 32
  pub packet : g.packet_length ≡ g.header_length + g.payload_tag_length + g.forward_payload_length
  pub surb : g.surb_length ≡ g.header_length + 32 + g.sprp_key_material_length
  pub keys : g.sprp_key_material_length ≡ 64
  pub forward : g.forward_payload_length ≡ (if with_surb then user + (2 + g.surb_length) else user)
  pub user_length : g.user_forward_payload_length ≡ user

-- The NIKE constructor never panics, and its lengths agree. With `withSURB` the payload has room for
-- the user's bytes, the two bytes of the plaintext header and a SURB.
pub geometry_from-IsDerived :
    (nike : Scheme) (user : ℕ) (with_surb : Bool) (nr_hops : ℕ)
    → (g : Geometry) × (geometry_from_user_forward_payload_length nike user with_surb nr_hops
        ≡ ok g)
      × IsDerived g nike.size 0 user with_surb nr_hops
unfolding geometry_from_user_forward_payload_length
geometry_from-IsDerived nike user true nr_hops = (_, refl, ground arith)
geometry_from-IsDerived nike user false nr_hops = (_, refl, ground arith)

-- The KEM constructor never panics, and its lengths agree. Its per-hop blocks have room for one
-- ciphertext more than those of the NIKE constructor.
pub kem_geometry_from-IsDerived :
    (kem : Scheme) (user : ℕ) (with_surb : Bool) (nr_hops : ℕ)
    → (g : Geometry) × (kem_geometry_from_user_forward_payload_length kem user with_surb nr_hops
        ≡ ok g)
      × IsDerived g kem.size kem.size user with_surb nr_hops
unfolding kem_geometry_from_user_forward_payload_length
kem_geometry_from-IsDerived kem user true nr_hops = (_, refl, ground arith)
kem_geometry_from-IsDerived kem user false nr_hops = (_, refl, ground arith)

-- `Validate` accepts what the NIKE constructor makes for a registered scheme with a name, unless
-- the number of hops is zero, which it reports as such.
pub validate-geometry_from :
    (nike_by_name kem_by_name : String → Option Scheme) (nike : Scheme) (user : ℕ)
    (with_surb : Bool) (nr_hops : ℕ)
    → str_eq nike.name "" ≡ false
    → nike_by_name nike.name ≡ some nike
    → (geometry_from_user_forward_payload_length nike user with_surb nr_hops
        >>= validate nike_by_name kem_by_name)
      ≡ (if nr_hops == 0 then err no_hops else ok tt)
unfolding geometry_from_user_forward_payload_length validate
validate-geometry_from nike_by_name kem_by_name nike user true nr_hops named known =
    rw (named, known) (ground arith)
validate-geometry_from nike_by_name kem_by_name nike user false nr_hops named known =
    rw (named, known) (ground arith)
