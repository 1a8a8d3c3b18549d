-- ===== src/Replica/Sharding.antt =====
-- replica/common/shard.go: the two replicas that store a box. BLAKE2b-256 is a parameter, and a
-- replica's descriptor is seen through its identity key.
pub mod Order
pub mod Closest
pub mod Sorted
use katzenpost_wt.Prelude.{
  ℕ, ◌+◌, ◌-◌, ◌≡◌, ◌<◌, Bool, true, false, not, List, [], ◌∷◌, ◌++◌, Option, none, some, Run, ok,
  err, panic, ◌>>=◌, ltb, if◌then◌else◌, length, replicate,
}
use katzenpost_wt.Prelude.Bytes.{bytes_eq}

abbrev pub shards_per_box : ℕ
shards_per_box = 2

pub data ShardError : Type 0 where
  no_configured_keys too_few_keys none_online : ShardError

-- `slices.Compare(a, b) == -1`.
unfoldable pub is_below : List ℕ → List ℕ → Bool
is_below [] [] = false
is_below [] (y ∷ ys) = true
is_below (x ∷ xs) [] = false
is_below (x ∷ xs) (y ∷ ys) = if ltb x y then true else if ltb y x then false else is_below xs ys

abbrev pub max_hash : List ℕ
max_hash = replicate 32 0xff

-- `hashes` and `keys`, the nearest first; `none` is a nil key.
pub record Nearest : Type 0 where
  pub hash0 : List ℕ
  pub hash1 : List ℕ
  pub key0 : Option (List ℕ)
  pub key1 : Option (List ℕ)

abbrev pub nearest_start : Nearest
nearest_start = record { hash0 = max_hash; hash1 = max_hash; key0 = none; key1 = none }

-- `doc.ConfiguredReplicaIdentityKeys` (`none` is nil), the identity keys of the descriptors in
-- `doc.StorageReplicas`, and `GetReplicaNodeByKeyHash`.
unfoldable pub configured_replica_keys : Option (List (List ℕ)) → Run ShardError (List (List ℕ))
configured_replica_keys none = err no_configured_keys
configured_replica_keys (some keys) =
    if ltb (length keys) shards_per_box then err too_few_keys else ok keys

module _ (sum256 : List ℕ → List ℕ) (box_id : List ℕ) where
  abbrev pub distance : List ℕ → List ℕ
  distance key = sum256 (key ++ box_id)

  -- One round of the loop. The index `cmpidx` is 1 if the nearer hash is below the new one, and 0
  -- otherwise.
  unfoldable pub note_key : List ℕ → Nearest → Nearest
  note_key key s =
      let hash = distance key in
      if is_below s.hash1 hash
      then s
      else if is_below s.hash0 hash
      then record s { hash1 = hash; key1 = some key }
      else record { hash0 = hash; hash1 = s.hash0; key0 = some key; key1 = s.key0 }

  unfoldable pub note_keys : List (List ℕ) → Nearest → Nearest
  unfolding note_key
  note_keys [] s = s
  note_keys (key ∷ keys) s = note_keys keys (note_key key s)

  unfoldable pub shard2 : List (List ℕ) → List (Option (List ℕ))
  unfolding note_keys
  shard2 keys = let s = note_keys keys nearest_start in s.key0 ∷ s.key1 ∷ []

  -- `SortFunc` by the hash.
  insert_key : List ℕ → List (List ℕ) → List (List ℕ)
  insert_key key [] = key ∷ []
  insert_key key (k ∷ ks) =
      let rest = insert_key key ks in
      if is_below (distance k) (distance key) then k ∷ rest else key ∷ k ∷ ks

  sort_keys : List (List ℕ) → List (List ℕ)
  sort_keys [] = []
  sort_keys (k ∷ ks) = insert_key k (sort_keys ks)

  -- With fewer than two keys the index `servers[i]` panics.
  unfoldable pub shard : List (List ℕ) → Run ShardError (List (List ℕ))
  unfolding sort_keys insert_key
  shard keys = elim (sort_keys keys) [ [] ↦ panic | a ∷ [] ↦ panic | a ∷ b ∷ ks ↦ ok (a ∷ b ∷ []) ]

  -- The loop of `GetShards`: `online` is the descriptor for the hash of a key.
  unfoldable pub online_shards {ℓ} :
      {Descriptor : Type ℓ}
      → (List ℕ → Option Descriptor)
      → List (Option (List ℕ))
      → List Descriptor
  online_shards online [] = []
  online_shards online (key ∷ keys) =
      let rest = online_shards online keys in
      let bytes : List ℕ = elim key [ none ↦ [] | some k ↦ k ] in
      elim (online (sum256 bytes)) [ none ↦ rest | some d ↦ d ∷ rest ]

  unfoldable pub get_shards {ℓ} :
      {Descriptor : Type ℓ}
      → Option (List (List ℕ))
      → (List ℕ → Option Descriptor)
      → Run ShardError (List Descriptor)
  get_shards configured online = do
    keys ← configured_replica_keys configured
    let shards = online_shards online (shard2 keys)
    elim shards [ [] ↦ err none_online | d ∷ ds ↦ ok (d ∷ ds) ]

  -- The loop of `GetRemoteShards`, which skips the replica's own descriptor.
  others {ℓ} :
      {Descriptor : Type ℓ} → (Descriptor → List ℕ) → List ℕ → List Descriptor → List Descriptor
  others identity_key own [] = []
  others identity_key own (d ∷ ds) =
      let rest = others identity_key own ds in
      if bytes_eq (identity_key d) own then rest else d ∷ rest

  unfoldable pub get_remote_shards {ℓ} :
      {Descriptor : Type ℓ}
      → (Descriptor → List ℕ)
      → List ℕ
      → Option (List (List ℕ))
      → (List ℕ → Option Descriptor)
      → Run ShardError (List Descriptor)
  unfolding others
  get_remote_shards identity_key own configured online = do
    shards ← get_shards configured online
    ok (others identity_key own shards)
