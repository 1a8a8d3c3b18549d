-- ===== src/Server/Marks.antt =====
-- The tags that the filters of server/internal/mixkey/mixkey.go have.
use mathlib.Core.Path.{subst}
use katzenpost_wt.Prelude.{
  ℕ, zero, suc, ◌≡◌, ◌≢◌, refl, sym, ap, ◌∙◌, true, List, [], ◌∷◌, some, get_elem?,
  get_elem?-set_ne, set, arith, ◌==◌, Bool-cases, inl, inr,
}
use katzenpost_wt.Sphinx.Geometry.{Geometry}
use katzenpost_wt.Sphinx.Crypto.{Primitives}
use katzenpost_wt.Server.Packet.{Packet}
use katzenpost_wt.Server.MixKey.{Bloom, IsBloom, MixKey}
use katzenpost_wt.Server.CryptoWorker.{Outcome, Now}
use katzenpost_wt.Server.Replay.{IsStep, refuses, crashes, malformed, seen, takes}

pub get_elem?-set-some {ℓ} :
    {A : Type ℓ} (xs : List A) (i : ℕ) {a : A} (v : A)
    → get_elem? xs i ≡ some a
    → get_elem? (set xs i v) i ≡ some v
get_elem?-set-some [] i v h = cc
get_elem?-set-some (x ∷ xs) zero v h = refl
get_elem?-set-some (x ∷ xs) (suc i) v h = get_elem?-set-some xs i v h

module _ (P : Primitives) (B : Bloom) where
  -- The filter of a key has the tag.
  unfoldable pub IsMarked : List (MixKey P B) → ℕ → List ℕ → Type 0
  IsMarked store key tag =
      (k : MixKey P B) × (get_elem? store key ≡ some k) × ((B.test_and_set k.filter tag).0 ≡ true)

  module _ (bloom : IsBloom B) where
    set-IsMarked :
        (store : List (MixKey P B)) (key other : ℕ) (tag : List ℕ) (k next : MixKey P B)
        → IsMarked store key tag
        → get_elem? store other ≡ some k
        → ((B.test_and_set k.filter tag).0 ≡ true → (B.test_and_set next.filter tag).0 ≡ true)
        → IsMarked (set store other next) key tag
    unfolding IsMarked
    set-IsMarked store key other tag k next (m, there, marked) h kept =
        elim (Bool-cases (other == key)) [
          | inl same ↦
              let e : other ≡ key = ground arith in
              let found : some m ≡ some k = sym there ∙ ap (get_elem? store) (sym e) ∙ h in
              let same_key : m ≡ k = cc in
              (
                next,
                ap (get_elem? (set store other next)) (sym e)
                    ∙ get_elem?-set-some store other next h,
                kept (subst (λ x. (B.test_and_set x.filter tag).0 ≡ true) same_key marked),
              )
          | inr differ ↦
              let ne : other ≢ key = λ e. ground arith in
              (m, get_elem?-set_ne store next ne ∙ there, marked)
        ]

    -- A step takes no tag out of a filter.
    pub step-IsMarked :
        {g : Geometry} {mix_keys : List (ℕ × ℕ)} {now : Now} {pkt : Packet}
        {store next : List (MixKey P B)} {outcome : Outcome} (key : ℕ) (tag : List ℕ)
        → IsStep P B g mix_keys now pkt store next outcome
        → IsMarked store key tag
        → IsMarked next key tag
    step-IsMarked key tag (refuses reason q r) m = m
    step-IsMarked key tag (crashes c) m = m
    step-IsMarked key tag (malformed other k u q opens loads odd) m =
        set-IsMarked _ key other tag k k m opens.there (λ marked. marked)
    step-IsMarked key tag (seen other k u q opens loads size old) m =
        set-IsMarked _ key other tag k _ m opens.there
          (λ marked. bloom.kept k.filter tag u.tag marked)
    step-IsMarked key tag (takes other k u q opens loads size new) m =
        set-IsMarked _ key other tag k _ m opens.there
          (λ marked. bloom.kept k.filter tag u.tag marked)
