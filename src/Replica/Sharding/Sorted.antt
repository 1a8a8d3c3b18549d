-- ===== src/Replica/Sharding/Sorted.antt =====
-- What `Shard` of replica/common/shard.go finds.
use mathlib.Core.List.{Perm}
use mathlib.Core.List.Perm
use katzenpost_wt.Prelude.{
  ℕ, suc, ◌≡◌, refl, ap, inl, inr, List, [], ◌∷◌, ok, arith, length, All, Bool-cases,
}
use katzenpost_wt.Replica.Sharding.{is_below, distance, insert_key, sort_keys, shard}
use katzenpost_wt.Replica.Sharding.Order.{is_below_trans, is_below_asym}
use katzenpost_wt.Replica.Sharding.Closest.{Near, AreNearest}

module _ (sum256 : List ℕ → List ℕ) (box_id : List ℕ) where
  abbrev Nearer : List ℕ → List ℕ → Type 0
  Nearer = Near sum256 box_id

  abbrev IsSorted : List (List ℕ) → Type 0
  IsSorted [] = Unit {0}
  IsSorted (k ∷ ks) = All (Nearer k) ks × IsSorted ks

  record Inserted (key : List ℕ) (ks : List (List ℕ)) : Type 0 where
    pub perm : Perm (key ∷ ks) (insert_key sum256 box_id key ks)
    pub size : length (insert_key sum256 box_id key ks) ≡ suc (length ks)
    pub every :
        (a : List ℕ)
        → Nearer a key
        → All (Nearer a) ks
        → All (Nearer a) (insert_key sum256 box_id key ks)
    pub sorted : IsSorted ks → IsSorted (insert_key sum256 box_id key ks)

  farther : (a b : List ℕ) (ks : List (List ℕ)) → Nearer a b → All (Nearer b) ks → All (Nearer a) ks
  farther a b [] h all = tt
  farther a b (k ∷ ks) h (first, all) = (
    is_below_trans (distance sum256 box_id a) (distance sum256 box_id b) (distance sum256 box_id k)
        h first,
    farther a b ks h all,
  )

  insert_key-Inserted : (key : List ℕ) (ks : List (List ℕ)) → Inserted key ks
  unfolding insert_key
  insert_key-Inserted key [] = record {
    perm = Perm.refl (key ∷ []);
    size = refl;
    every = λ a h all. (h, tt);
    sorted = λ s. (tt, tt);
  }
  insert_key-Inserted key (k ∷ ks) =
      let hash = distance sum256 box_id in
      let later = insert_key-Inserted key ks in
      elim (Bool-cases (is_below (hash k) (hash key))) [
        | inl below ↦ record {
          perm = rw below (Perm.trans (Perm.swap k key ks) (Perm.cons k later.perm));
          size = rw below (ap suc later.size);
          every = λ a h all. rw below (all.0, later.every a h all.1);
          sorted = λ s.
              rw below
                (later.every k (is_below_asym (hash k) (hash key) below) s.0, later.sorted s.1);
        }
        | inr upto ↦ record {
          perm = rw upto (Perm.refl (key ∷ k ∷ ks));
          size = rw upto;
          every = λ a h all. rw upto (h, all);
          sorted = λ s. rw upto ((upto, farther key k ks upto s.0), s);
        }
      ]

  sort_keys-IsSorted :
      (keys : List (List ℕ))
      → Perm keys (sort_keys sum256 box_id keys)
        × (length (sort_keys sum256 box_id keys) ≡ length keys)
        × IsSorted (sort_keys sum256 box_id keys)
  unfolding sort_keys
  sort_keys-IsSorted [] = (Perm.refl [], refl, tt)
  sort_keys-IsSorted (k ∷ ks) =
      let (perm, size, sorted) = sort_keys-IsSorted ks in
      let i = insert_key-Inserted k (sort_keys sum256 box_id ks) in
      (Perm.trans (Perm.cons k perm) i.perm, omega (arith, i.size, size), i.sorted sorted)

  shard-ok :
      (keys sorted : List (List ℕ)) (m0 m1 : List ℕ)
      → sort_keys sum256 box_id keys ≡ m0 ∷ m1 ∷ sorted
      → shard sum256 box_id keys ≡ ok (m0 ∷ m1 ∷ [])
  unfolding shard
  shard-ok keys sorted m0 m1 h = rw (shard, h)

  first_two :
      (keys sorted : List (List ℕ)) (n : ℕ)
      → sort_keys sum256 box_id keys ≡ sorted
      → Perm keys sorted
      → length sorted ≡ suc (suc n)
      → IsSorted sorted
      → (k0 : List ℕ) × (k1 : List ℕ) × (shard sum256 box_id keys ≡ ok (k0 ∷ k1 ∷ []))
        × AreNearest sum256 box_id k0 k1 keys
  first_two keys [] n e p h s = absurd (omega arith)
  first_two keys (a ∷ []) n e p h s = absurd (omega arith)
  first_two keys (a ∷ b ∷ ks) n e p h s =
      (a, b, shard-ok keys ks a b e, record { rest = ks; all = p; order = s.0.0; others = s.1.0 })

  -- With two or more keys `Shard` does not panic and returns two of them, the nearer one first, and
  -- none of the others is nearer to the box than either.
  pub shard-AreNearest :
      (a b : List ℕ) (keys : List (List ℕ))
      → (k0 : List ℕ) × (k1 : List ℕ) × (shard sum256 box_id (a ∷ b ∷ keys) ≡ ok (k0 ∷ k1 ∷ []))
        × AreNearest sum256 box_id k0 k1 (a ∷ b ∷ keys)
  shard-AreNearest a b keys =
      let (perm, size, sorted) = sort_keys-IsSorted (a ∷ b ∷ keys) in
      first_two (a ∷ b ∷ keys) (sort_keys sum256 box_id (a ∷ b ∷ keys)) (length keys) refl perm size
        sorted
