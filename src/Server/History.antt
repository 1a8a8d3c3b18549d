-- ===== src/Server/History.antt =====
-- No replay is accepted by the workers of server/internal/cryptoworker/crypto_worker.go, in any
-- order of their packets.
use mathlib.Core.Path.{subst}
use katzenpost_wt.Prelude.{
  ℕ, ◌≡◌, ◌≢◌, sym, ap, ◌∙◌, true, List, [], ◌∷◌, ◌++◌, some, get_elem?, All, All-append,
}
use katzenpost_wt.Sphinx.Geometry.{Geometry}
use katzenpost_wt.Sphinx.Crypto.{Primitives}
use katzenpost_wt.Server.Packet.{Packet}
use katzenpost_wt.Server.MixKey.{Bloom, IsBloom, MixKey}
use katzenpost_wt.Server.CryptoWorker.{
  Outcome, Now, accepted, refused, crashed, do_unwrap, entries, history,
}
use katzenpost_wt.Server.Marks.{IsMarked, step-IsMarked, get_elem?-set-some}
use katzenpost_wt.Server.Replay.{IsStep, refuses, crashes, malformed, seen, takes, do_unwrap-IsStep}

-- No entry stands twice.
abbrev pub Distinct {ℓ} : {A : Type ℓ} → List A → Type ℓ
Distinct [] = Unit
Distinct (x ∷ xs) = All (λ y. x ≢ y) xs × Distinct xs

module _ (P : Primitives) (B : Bloom) (bloom : IsBloom B) where
  -- A marked tag is not accepted.
  entries-fresh :
      {g : Geometry} {mix_keys : List (ℕ × ℕ)} {now : Now} {pkt : Packet}
      {store next : List (MixKey P B)} {outcome : Outcome} (key : ℕ) (tag : List ℕ)
      → IsStep P B g mix_keys now pkt store next outcome
      → IsMarked P B store key tag
      → All (λ e. (key, tag) ≢ e) (entries outcome)
  unfolding entries IsMarked
  entries-fresh key tag (refuses reason q r) m = tt
  entries-fresh key tag (crashes c) m = tt
  entries-fresh key tag (malformed other k u q opens loads odd) m = tt
  entries-fresh key tag (seen other k u q opens loads size old) m = tt
  entries-fresh {store = store} key tag (takes other k u q opens loads size new)
        (m, there, marked) =
      (
        λ same.
            let key_same : key ≡ other = ap (λ e. e.0) same in
            let tag_same : tag ≡ u.tag = ap (λ e. e.1) same in
            let found : some m ≡ some k = sym there ∙ ap (get_elem? store) key_same ∙ opens.there in
            let m_same : m ≡ k = cc in
            let twice : (B.test_and_set k.filter u.tag).0 ≡ true =
              subst (λ x. (B.test_and_set k.filter x).0 ≡ true) tag_same
                (subst (λ x. (B.test_and_set x.filter tag).0 ≡ true) m_same marked) in
            cc,
        tt,
      )

  -- What is accepted is marked.
  entries-IsMarked :
      {g : Geometry} {mix_keys : List (ℕ × ℕ)} {now : Now} {pkt : Packet}
      {store next : List (MixKey P B)} {outcome : Outcome}
      → IsStep P B g mix_keys now pkt store next outcome
      → All (λ e. IsMarked P B next e.0 e.1) (entries outcome)
  unfolding entries IsMarked
  entries-IsMarked (refuses reason q r) = tt
  entries-IsMarked (crashes c) = tt
  entries-IsMarked (malformed other k u q opens loads odd) = tt
  entries-IsMarked (seen other k u q opens loads size old) = tt
  entries-IsMarked {store = store} (takes other k u q opens loads size new) =
      ((_, get_elem?-set-some store other _ opens.there, bloom.found k.filter u.tag), tt)

  history-fresh :
      (g : Geometry) (store : List (MixKey P B)) (events : List (List (ℕ × ℕ) × Now × Packet))
      (key : ℕ) (tag : List ℕ)
      → IsMarked P B store key tag
      → All (λ e. (key, tag) ≢ e) (history P B g store events)
  unfolding history
  history-fresh g store [] key tag m = tt
  history-fresh g store ((mix_keys, now, pkt) ∷ events) key tag m =
      let step = do_unwrap-IsStep P B g mix_keys now pkt store in
      All-append {A = ℕ × List ℕ} (λ e. (key, tag) ≢ e) _ _ (entries-fresh key tag step m)
        (history-fresh g (do_unwrap P B g store mix_keys now pkt).0 events key tag
          (step-IsMarked P B bloom key tag step m))

  entries-Distinct :
      (outcome : Outcome) (rest : List (ℕ × List ℕ))
      → All (λ e. All (λ y. (e.0, e.1) ≢ y) rest) (entries outcome)
      → Distinct rest
      → Distinct (entries outcome ++ rest)
  unfolding entries
  entries-Distinct (accepted key tag pkt) rest fresh distinct = (fresh.0, distinct)
  entries-Distinct (refused reason pkt) rest fresh distinct = distinct
  entries-Distinct crashed rest fresh distinct = distinct

  marked_entries-fresh :
      (g : Geometry) (next : List (MixKey P B)) (outcome : Outcome)
      (events : List (List (ℕ × ℕ) × Now × Packet))
      → All (λ e. IsMarked P B next e.0 e.1) (entries outcome)
      → All (λ e. All (λ y. (e.0, e.1) ≢ y) (history P B g next events)) (entries outcome)
  unfolding entries
  marked_entries-fresh g next (accepted key tag pkt) events m =
      (history-fresh g next events key tag m.0, tt)
  marked_entries-fresh g next (refused reason pkt) events m = tt
  marked_entries-fresh g next crashed events m = tt

  -- With a filter that keeps what a Bloom filter promises: in a run of the workers, with packets,
  -- times and maps of keys that are arbitrary, no tag is accepted twice under the same key.
  pub history-Distinct :
      (g : Geometry) (store : List (MixKey P B)) (events : List (List (ℕ × ℕ) × Now × Packet))
      → Distinct (history P B g store events)
  unfolding history
  history-Distinct g store [] = tt
  history-Distinct g store ((mix_keys, now, pkt) ∷ events) =
      let step = do_unwrap-IsStep P B g mix_keys now pkt store in
      entries-Distinct _ _ (marked_entries-fresh g _ _ events (entries-IsMarked step))
        (history-Distinct g (do_unwrap P B g store mix_keys now pkt).0 events)
