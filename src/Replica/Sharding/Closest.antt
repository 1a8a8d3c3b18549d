-- ===== src/Replica/Sharding/Closest.antt =====
-- What `Shard2` of replica/common/shard.go finds.
use mathlib.Core.List.{Perm}
use mathlib.Core.List.Perm
use katzenpost_wt.Prelude.{
  ℕ, ◌<◌, ◌≡◌, refl, ap, ◌∙◌, false, inl, inr, List, [], ◌∷◌, ◌++◌, none, some, if◌then◌else◌,
  arith, length, All, Bool-cases,
}
use katzenpost_wt.Replica.Sharding.{
  is_below, max_hash, Nearest, nearest_start, distance, note_key, note_keys, shard2,
}
use katzenpost_wt.Replica.Sharding.Order.{
  is_below_irrefl, is_below_trans, is_below_asym, max-is_below,
}

module _ (sum256 : List ℕ → List ℕ) (box_id : List ℕ) where
  -- The key `a` is no farther from the box than `b`.
  abbrev pub Near : List ℕ → List ℕ → Type 0
  Near a b = is_below (distance sum256 box_id b) (distance sum256 box_id a) ≡ false

  abbrev pub found : List ℕ → List ℕ → Nearest
  found a b = record {
    hash0 = distance sum256 box_id a;
    hash1 = distance sum256 box_id b;
    key0 = some a;
    key1 = some b;
  }

  -- `m0` and `m1` are the nearest of these keys, in this order, and `rest` the others.
  pub record AreNearest (m0 m1 : List ℕ) (keys : List (List ℕ)) : Type 0 where
    pub rest : List (List ℕ)
    pub all : Perm keys (m0 ∷ m1 ∷ rest)
    pub order : Near m0 m1
    pub others : All (Near m1) rest

  record Kept (k0 k1 : List ℕ) (keys : List (List ℕ)) : Type 0 where
    pub m0 : List ℕ
    pub m1 : List ℕ
    pub runs : note_keys sum256 box_id keys (found k0 k1) ≡ found m0 m1
    pub near : AreNearest m0 m1 (k0 ∷ k1 ∷ keys)
    pub nearer : Near m1 k1

  rotate : (a b c : List ℕ) (l : List (List ℕ)) → Perm (a ∷ b ∷ c ∷ l) (b ∷ c ∷ a ∷ l)
  rotate a b c l = Perm.trans (Perm.swap b a (c ∷ l)) (Perm.cons b (Perm.swap c a l))

  -- A round that keeps `m0` and `m1` and drops `d` puts `d` among the others.
  drops :
      (k0 k1 x d a b : List ℕ) (keys : List (List ℕ)) (later : Kept a b keys)
      → Perm (k0 ∷ k1 ∷ x ∷ keys) (d ∷ a ∷ b ∷ keys)
      → Near later.m1 d
      → AreNearest later.m0 later.m1 (k0 ∷ k1 ∷ x ∷ keys)
  drops k0 k1 x d a b keys later p near = record {
    rest = d ∷ later.near.rest;
    all =
        Perm.trans p
          (Perm.trans (Perm.cons d later.near.all) (rotate d later.m0 later.m1 later.near.rest));
    order = later.near.order;
    others = (near, later.near.others);
  }

  note_keys-Kept : (k0 k1 : List ℕ) (keys : List (List ℕ)) → Near k0 k1 → Kept k0 k1 keys
  unfolding note_keys note_key
  note_keys-Kept k0 k1 [] near = record {
    m0 = k0;
    m1 = k1;
    runs = refl;
    near = record { rest = []; all = Perm.refl (k0 ∷ k1 ∷ []); order = near; others = tt };
    nearer = is_below_irrefl (distance sum256 box_id k1);
  }
  note_keys-Kept k0 k1 (x ∷ keys) near =
      let hash = distance sum256 box_id in
      elim (Bool-cases (is_below (hash k1) (hash x))) [
        | inl far ↦
            let later = note_keys-Kept k0 k1 keys near in
            let beyond = is_below_asym (hash k1) (hash x) far in
            record {
              m0 = later.m0;
              m1 = later.m1;
              runs = rw far later.runs;
              near =
                  drops k0 k1 x x k0 k1 keys later (Perm.symm (rotate x k0 k1 keys))
                    (is_below_trans (hash later.m1) (hash k1) (hash x) later.nearer beyond);
              nearer = later.nearer;
            }
        | inr close ↦ elim (Bool-cases (is_below (hash k0) (hash x))) [
          | inl second ↦
              let later = note_keys-Kept k0 x keys (is_below_asym (hash k0) (hash x) second) in
              let past = is_below_trans (hash later.m1) (hash x) (hash k1) later.nearer close in
              record {
                m0 = later.m0;
                m1 = later.m1;
                runs = rw (close, second) later.runs;
                near = drops k0 k1 x k1 k0 x keys later (Perm.swap k1 k0 (x ∷ keys)) past;
                nearer = past;
              }
          | inr first ↦
              let later = note_keys-Kept x k0 keys first in
              let past = is_below_trans (hash later.m1) (hash k0) (hash k1) later.nearer near in
              record {
                m0 = later.m0;
                m1 = later.m1;
                runs = rw (close, first) later.runs;
                near = drops k0 k1 x k1 x k0 keys later (rotate k0 k1 x keys) past;
                nearer = past;
              }
        ]
      ]

  one_key : List ℕ → Nearest
  one_key a = record {
    hash0 = distance sum256 box_id a;
    hash1 = max_hash;
    key0 = some a;
    key1 = none;
  }

  -- No hash is above `maxHash`.
  abbrev BelowMax : List ℕ → Type 0
  BelowMax a = is_below max_hash (distance sum256 box_id a) ≡ false

  first_key : (a : List ℕ) → BelowMax a → note_key sum256 box_id a nearest_start ≡ one_key a
  unfolding note_key one_key
  first_key a top = rw top

  second_key :
      (a b : List ℕ)
      → BelowMax b
      → note_key sum256 box_id b (one_key a) ≡ (
          if is_below (distance sum256 box_id a) (distance sum256 box_id b)
          then found a b
          else found b a)
  unfolding note_key one_key
  second_key a b top = ground (arith, top)

  two_keys :
      (a b : List ℕ) (keys : List (List ℕ)) {s : Nearest} {m0 m1 : List ℕ}
      → BelowMax a
      → note_key sum256 box_id b (one_key a) ≡ s
      → note_keys sum256 box_id keys s ≡ found m0 m1
      → shard2 sum256 box_id (a ∷ b ∷ keys) ≡ some m0 ∷ some m1 ∷ []
  unfolding shard2 note_keys
  two_keys a b keys top h1 h2 =
      ap (λ s. s.key0 ∷ s.key1 ∷ [])
        (ap (λ s. note_keys sum256 box_id keys (note_key sum256 box_id b s)) (first_key a top)
          ∙ ap (note_keys sum256 box_id keys) h1
          ∙ h2)

  -- Where the hash gives 32 bytes and there are two or more keys, `Shard2` returns two of them, the
  -- nearer one first, and none of the others is nearer to the box than either.
  pub shard2-AreNearest :
      ((m : List ℕ) → (length (sum256 m) ≡ 32) × All (λ x. x < 256) (sum256 m))
      → (a b : List ℕ) (keys : List (List ℕ))
      → (k0 : List ℕ) × (k1 : List ℕ) × (shard2 sum256 box_id (a ∷ b ∷ keys)
          ≡ some k0 ∷ some k1 ∷ [])
        × AreNearest k0 k1 (a ∷ b ∷ keys)
  shard2-AreNearest bytes a b keys =
      let hash = distance sum256 box_id in
      let below_max : (k : List ℕ) → is_below max_hash (hash k) ≡ false =
        λ k. let (size, small) = bytes (k ++ box_id) in max-is_below 32 (hash k) size small in
      elim (Bool-cases (is_below (hash a) (hash b))) [
        | inl second ↦
            let r = note_keys-Kept a b keys (is_below_asym (hash a) (hash b) second) in
            (
              r.m0,
              r.m1,
              two_keys a b keys (below_max a) (second_key a b (below_max b) ∙ rw second) r.runs,
              r.near,
            )
        | inr first ↦
            let r = note_keys-Kept b a keys first in
            (
              r.m0,
              r.m1,
              two_keys a b keys (below_max a) (second_key a b (below_max b) ∙ rw first) r.runs,
              record {
                rest = r.near.rest;
                all = Perm.trans (Perm.swap b a keys) r.near.all;
                order = r.near.order;
                others = r.near.others;
              },
            )
      ]
