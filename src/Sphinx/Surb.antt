-- ===== src/Sphinx/Surb.antt =====
-- core/sphinx/surb.go: single use reply blocks, for the NIKE variant. The keys that
-- `DecryptSURBPayload` clears are left as they are.
pub mod Reply
pub mod Return
use katzenpost_wt.Prelude.{
  ℕ, zero, suc, ◌+◌, ◌-◌, ◌*◌, ◌/◌, ◌%◌, Bool, not, ◌||◌, List, [], ◌∷◌, ◌++◌, Option, none, some,
  Run, ok, err, panic, ◌>>=◌, ◌>>◌, ltb, leb, ◌==◌, if◌then◌else◌, length, take, drop, replicate,
  or_fail, refuse_if,
}
use katzenpost_wt.Prelude.Bytes.{copy_array, ct_is_zero, overwrite}
use katzenpost_wt.Sphinx.Geometry.{Geometry, node_id_length, sprp_key_length, sprp_iv_length}
use katzenpost_wt.Sphinx.Crypto.{
  Primitives, sprp_encrypt, sprp_decrypt, SphinxError, entropy, surb_length, bad_surb_keys,
  truncated_payload, invalid_tag,
}
use katzenpost_wt.Sphinx.Header.{PathHop, Entropy, SprpKey, create_header}

abbrev pub sprp_key_material_length : ℕ
sprp_key_material_length = sprp_key_length + sprp_iv_length

module _ (P : Primitives) where
  -- The keys of the hops, from the last to the first.
  unfoldable pub keys_blob : List (SprpKey P) → List ℕ
  keys_blob [] = []
  keys_blob (k ∷ ks) = keys_blob ks ++ (k.key ++ k.iv)

  unfoldable pub first_id : List (PathHop P) → Run SphinxError (List ℕ)
  first_id [] = panic
  first_id (hop ∷ hops) = ok hop.id

  -- `newNikeSURB`; `reader` is its entropy source. The results are the SURB and the keys.
  unfoldable pub new_nike_surb :
      Geometry
      → Entropy P
      → (ℕ → Option (List ℕ))
      → List (PathHop P)
      → Run SphinxError (List ℕ × List ℕ)
  unfolding keys_blob first_id
  new_nike_surb g source reader path = do
    key_payload ← or_fail (reader sprp_key_material_length) entropy
    (hdr, keys) ← create_header P g source path
    id ← first_id path
    ok ((hdr ++ id) ++ key_payload, keys_blob keys ++ key_payload)

  -- `NewPacketFromSURB`, with the packet and the id of the first hop. The offsets are in range if
  -- the last of them is.
  unfoldable pub new_packet_from_surb :
      Geometry → List ℕ → List ℕ → Run SphinxError (List ℕ × List ℕ)
  new_packet_from_surb g surb payload =
      let id_off = g.header_length in
      let key_off = id_off + node_id_length in
      let iv_off = key_off + sprp_key_length in
      let hdr = take g.header_length surb in
      let node_id = copy_array node_id_length (take node_id_length (drop id_off surb)) in
      let key = copy_array sprp_key_length (take sprp_key_length (drop key_off surb)) in
      let iv = copy_array sprp_iv_length (drop iv_off surb) in
      let body = replicate g.payload_tag_length 0 ++ payload in
      do
        refuse_if (not (length surb == g.surb_length)) surb_length
        if ltb (length surb) iv_off || ltb g.per_hop_routing_info_length g.payload_tag_length
            then panic
            else ok (hdr ++ overwrite body (sprp_encrypt P key iv body), node_id)

  -- The loop of `DecryptSURBPayload`, by the rounds that are left.
  surb_rounds : ℕ → List ℕ → List ℕ → Run SphinxError (List ℕ)
  surb_rounds zero k b = ok b
  surb_rounds (suc zero) k b =
      sprp_decrypt P (copy_array sprp_key_length (take sprp_key_length k))
        (copy_array sprp_iv_length (drop sprp_key_length k)) b
  surb_rounds (suc (suc n)) k b = surb_rounds (suc n) (drop sprp_key_material_length k) (
      sprp_encrypt P (copy_array sprp_key_length (take sprp_key_length k))
        (copy_array sprp_iv_length (drop sprp_key_length k)) b)

  unfoldable pub decrypt_surb_payload : Geometry → List ℕ → List ℕ → Run SphinxError (List ℕ)
  unfolding surb_rounds
  decrypt_surb_payload g payload keys = do
    refuse_if
        (not (length keys % sprp_key_material_length == 0)
          || ltb (length keys / sprp_key_material_length) 1)
        bad_surb_keys
    refuse_if (ltb (length payload) g.payload_tag_length) truncated_payload
    b ← surb_rounds (length keys / sprp_key_material_length) keys payload
    refuse_if (not (ct_is_zero (take g.payload_tag_length b))) invalid_tag
    ok (drop g.payload_tag_length b)
