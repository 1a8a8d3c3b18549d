-- ===== src/Pigeonhole/Geometry/Inverse.antt =====
-- The geometry that pigeonhole/geo/geometry.go derives from a Sphinx geometry, and back.
use Prim.Native.String.{String}
use katzenpost_wt.Prelude.{
  ℕ, ◌+◌, ◌-◌, ◌≤◌, ◌<◌, ◌≡◌, All, Bool, false, Option, some, ok, arith, leb, ◌∷◌, [],
}
use katzenpost_wt.Sphinx.Geometry.{Scheme, Geometry}
use katzenpost_wt.Sphinx.Geometry.Derived.{geometry_from-IsDerived}
use katzenpost_wt.Pigeonhole.Geometry.{
  Sizes, PigeonholeGeometry, new_geometry, new_geometry_from_sphinx, to_sphinx_geometry, max_int,
  total_overhead, calculate_query_read, calculate_query_write, calculate_reply_read,
  calculate_reply_write, courier_envelope_overhead, replica_write_fixed_overhead,
  mkem_encryption_overhead, max_from, filled,
}

-- Of the four messages the query with a write is the longest.
max_int-query_write :
    (sizes : Sizes) (nike : Scheme) (n : ℕ)
    → max_int (
        calculate_query_read sizes nike
        ∷ calculate_query_write sizes nike n
        ∷ calculate_reply_read sizes n
        ∷ calculate_reply_write sizes
        ∷ [])
      ≡ total_overhead sizes nike + n
unfolding max_int max_from calculate_query_read calculate_query_write calculate_reply_read
    calculate_reply_write courier_envelope_overhead replica_write_fixed_overhead
    mkem_encryption_overhead total_overhead
max_int-query_write sizes nike n = ground arith

within_query_write :
    (sizes : Sizes) (nike : Scheme) (n limit : ℕ)
    → total_overhead sizes nike + n ≤ limit
    → All
        (λ m. m ≤ limit)
        (calculate_query_read sizes nike
          ∷ calculate_query_write sizes nike n
          ∷ calculate_reply_read sizes n
          ∷ calculate_reply_write sizes
          ∷ [])
unfolding calculate_query_read calculate_query_write calculate_reply_read calculate_reply_write
    courier_envelope_overhead replica_write_fixed_overhead mkem_encryption_overhead total_overhead
within_query_write sizes nike n limit h =
    (omega arith, (omega arith, (omega arith, (omega arith, tt))))

-- A payload length above zero gives a Pigeonhole geometry; the Sphinx geometry made for that one
-- has room in its payload for each of the four messages, and gives the Pigeonhole geometry back,
-- whatever the number of hops, and with or without a SURB.
pub new_geometry_from_sphinx-to_sphinx_geometry :
    (sizes : Sizes) (by_name : String → Option Scheme) (nike : Scheme) (n nr_hops : ℕ)
    (with_surb : Bool)
    → by_name nike.name ≡ some nike
    → 0 < n
    → (g : PigeonholeGeometry) × (s : Geometry) × (new_geometry sizes by_name n nike ≡ ok g)
      × (to_sphinx_geometry by_name g nr_hops with_surb ≡ ok s)
      × (new_geometry_from_sphinx sizes by_name s nike ≡ ok g)
      × All
          (λ m. m ≤ s.user_forward_payload_length)
          (g.courier_query_read_length ∷ g.courier_query_write_length
            ∷ g.courier_query_reply_read_length ∷ g.courier_query_reply_write_length ∷ [])
unfolding filled new_geometry to_sphinx_geometry new_geometry_from_sphinx
new_geometry_from_sphinx-to_sphinx_geometry sizes by_name nike n nr_hops with_surb known h =
    let (s, made, derived) =
      geometry_from-IsDerived nike (total_overhead sizes nike + n) with_surb nr_hops in
    let room : leb s.user_forward_payload_length (total_overhead sizes nike) ≡ false =
      ground (arith, derived.user_length) in
    let left : s.user_forward_payload_length - total_overhead sizes nike ≡ n =
      omega (arith, derived.user_length) in
    (
      filled sizes n nike nike.name,
      s,
      rw (new_geometry, known),
      rw (to_sphinx_geometry, known, max_int-query_write sizes nike n) made,
      rw (new_geometry_from_sphinx, room, left, known),
      within_query_write sizes nike n s.user_forward_payload_length
          (omega (arith, derived.user_length)),
    )
