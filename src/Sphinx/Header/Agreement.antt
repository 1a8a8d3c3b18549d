-- ===== src/Sphinx/Header/Agreement.antt =====
-- The key loops of `createHeader`: the sender's keys are those that each mix derives.
use katzenpost_wt.Prelude.{◌≡◌, refl, sym, ap, ◌∙◌, List, [], ◌∷◌, ◌++◌, ok}
use katzenpost_wt.Sphinx.Crypto.{Primitives, IsCorrect, packet_keys, kdf-ok}
use katzenpost_wt.Sphinx.Header.{PathHop, HopKeys, blind_secret, later_keys, hop_keys}

module _ (P : Primitives) where
  open P use {
    PublicKey, PrivateKey, encode_key, decode_key, public_key, derive_secret, blind, blind_in_place,
  }

  -- The path's public keys belong to these private keys, hop by hop.
  abbrev pub Owns : List (PathHop P) → List PrivateKey → Type 0
  Owns [] [] = Unit {0}
  Owns [] (x ∷ xs) = ⊥
  Owns (hop ∷ hops) [] = ⊥
  Owns (hop ∷ hops) (x ∷ xs) = (hop.nike_public_key ≡ public_key x) × Owns hops xs

  -- The elements and keys that these private keys find, from the element `e` on: each hop derives
  -- its keys from the element, and blinds it for the next hop.
  abbrev pub keys_along : PublicKey → List PrivateKey → List (HopKeys P)
  keys_along e [] = []
  keys_along e (x ∷ xs) =
      let keys = packet_keys P (derive_secret x e) in
      record { element = e; keys = keys } ∷ keys_along (blind e keys.blinding_factor) xs

  abbrev blinded_by : PublicKey → List PrivateKey → PublicKey
  blinded_by k [] = k
  blinded_by k (f ∷ fs) = blinded_by (blind k f) fs

  blinded_by-append :
      (k : PublicKey) (fs : List PrivateKey) (f : PrivateKey)
      → blinded_by k (fs ++ f ∷ []) ≡ blind (blinded_by k fs) f
  blinded_by-append k [] f = refl
  blinded_by-append k (g ∷ fs) f = blinded_by-append (blind k g) fs f

  module _ (c : IsCorrect P) where
    blind_secret-ok :
        (x : PrivateKey) (k : PublicKey) (fs : List PrivateKey)
        → blind_secret P (derive_secret x k) fs ≡ ok (derive_secret x (blinded_by k fs))
    unfolding blind_secret
    blind_secret-ok x k [] = refl
    blind_secret-ok x k (f ∷ fs) =
        let (s, decodes, blinds) = c.secret_of_blinded x k f in
        rw decodes (ap (λ t. blind_secret P t fs) (sym blinds) ∙ blind_secret-ok x (blind k f) fs)

    -- The sender's blinded secret with a hop is the hop's secret with the blinded element.
    shared_secret :
        (client x : PrivateKey) (hop : PathHop P) (fs : List PrivateKey)
        → hop.nike_public_key ≡ public_key x
        → blind_secret P (derive_secret client hop.nike_public_key) fs
          ≡ ok (derive_secret x (blinded_by (public_key client) fs))
    shared_secret client x hop fs o =
        ap (λ t. blind_secret P (derive_secret client t) fs) o
        ∙ ap (λ t. blind_secret P t fs) (c.secrets_agree client x)
        ∙ blind_secret-ok x (public_key client) fs

    later_keys_agree :
        (client : PrivateKey) (pub_key : PublicKey) (fs : List PrivateKey) (last : PrivateKey)
        (hops : List (PathHop P)) (xs : List PrivateKey)
        → Owns hops xs
        → blind pub_key last ≡ blinded_by (public_key client) fs
        → later_keys P client pub_key fs last hops ≡ ok (keys_along (blind pub_key last) xs)
    unfolding later_keys
    later_keys_agree client pub_key fs last [] [] o e = refl
    later_keys_agree client pub_key fs last [] (x ∷ xs) o e = absurd o
    later_keys_agree client pub_key fs last (hop ∷ hops) [] o e = absurd o
    later_keys_agree client pub_key fs last (hop ∷ hops) (x ∷ xs) o e =
        let element = blind pub_key last in
        let factor = (packet_keys P (derive_secret x element)).blinding_factor in
        let blinds =
          ap (λ t. blind t factor) e ∙ sym (blinded_by-append (public_key client) fs factor) in
        let runs = later_keys_agree client element (fs ++ factor ∷ []) factor hops xs o.1 blinds in
        let secret = shared_secret client x hop fs o.0 ∙ ap (λ t. ok (derive_secret x t)) (sym e) in
        rw (secret, kdf-ok P c (derive_secret x element), c.blind_agrees pub_key last)
          (rw (c.decode-encode element, runs))

    -- For a path of at least one hop whose public keys belong to the private keys `xs`, the key
    -- loops return for each hop the group element that reaches it and the very keys that the mix
    -- there derives from that element.
    pub hop_keys_agree :
        (client : PrivateKey) (hop : PathHop P) (hops : List (PathHop P)) (xs : List PrivateKey)
        → Owns (hop ∷ hops) xs
        → hop_keys P client (hop ∷ hops) ≡ ok (keys_along (public_key client) xs)
    unfolding hop_keys
    hop_keys_agree client hop hops [] o = absurd o
    hop_keys_agree client hop hops (x ∷ xs) o =
        let element = public_key client in
        let factor = (packet_keys P (derive_secret x element)).blinding_factor in
        let runs = later_keys_agree client element (factor ∷ []) factor hops xs o.1 refl in
        let same = ap (derive_secret client) o.0 ∙ c.secrets_agree client x in
        rw (same, kdf-ok P c (derive_secret x element), c.decode-encode element, runs)
