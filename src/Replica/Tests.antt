-- ===== src/Replica/Tests.antt =====
-- Runs of the model of the replicas and the courier, and its theorems at concrete inputs.
use katzenpost_wt.Prelude.{
  ℕ, zero, suc, ◌%◌, ◌<◌, ◌≡◌, ◌↔◌, true, refl, List, [], ◌∷◌, Option, none, some, ok, arith, ◌==◌,
  if◌then◌else◌, length, replicate, length-replicate, All,
}
use katzenpost_wt.Replica.Sharding.{is_below, shard2, shard}
use katzenpost_wt.Replica.Sharding.Sorted.{shard-AreNearest}
use katzenpost_wt.Replica.Sharding.Closest.{AreNearest, shard2-AreNearest}
use katzenpost_wt.Replica.Epochs.{is_envelope_epoch_acceptable, try_decapsulate_across_epoch_window}
use katzenpost_wt.Replica.Epochs.Window.{Opened, accepted-Opened, acceptable_iff}

-- A stand-in for the hash, which sees the length of its input.
abbrev size_hash : List ℕ → List ℕ
size_hash m = replicate 32 (length m % 256)

All-replicate : (n x : ℕ) → x < 256 → All (λ y. y < 256) (replicate n x)
All-replicate zero x h = tt
All-replicate (suc n) x h = (h, All-replicate n x h)

size_hash_bytes : (m : List ℕ) → (length (size_hash m) ≡ 32) × All (λ x. x < 256) (size_hash m)
size_hash_bytes m = (length-replicate 32 (length m % 256), All-replicate 32 _ (omega arith))

abbrev long_key : List ℕ
long_key = 7 ∷ 7 ∷ 7 ∷ []

two_shortest :
    shard2 size_hash [] (long_key ∷ (5 ∷ []) ∷ (6 ∷ 6 ∷ []) ∷ [])
    ≡ some (5 ∷ []) ∷ some (6 ∷ 6 ∷ []) ∷ []
unfolding shard2 is_below
two_shortest = refl

shard2-AreNearest_example :
    (k0 : List ℕ) × (k1 : List ℕ) × (shard2 size_hash [] (long_key ∷ (5 ∷ []) ∷ (6 ∷ 6 ∷ []) ∷ [])
      ≡ some k0 ∷ some k1 ∷ [])
    × AreNearest size_hash [] k0 k1 (long_key ∷ (5 ∷ []) ∷ (6 ∷ 6 ∷ []) ∷ [])
shard2-AreNearest_example =
    shard2-AreNearest size_hash [] size_hash_bytes long_key (5 ∷ []) ((6 ∷ 6 ∷ []) ∷ [])

-- The replica holds the keypair of one epoch only, the one after the current.
abbrev only_key : ℕ → Option ℕ
only_key epoch = if epoch == 5 then some 1 else none

accepted-Opened_example :
    Opened only_key
      (λ k (c : ℕ). some (k ∷ c ∷ []))
      9
      (try_decapsulate_across_epoch_window only_key (λ k (c : ℕ). some (k ∷ c ∷ [])) 9 4)
unfolding is_envelope_epoch_acceptable
accepted-Opened_example =
    accepted-Opened only_key (λ k (c : ℕ). some (k ∷ c ∷ [])) 9 4 5 1 (1 ∷ 9 ∷ []) (omega arith)
      refl refl refl

only_key-single : (e other : ℕ) → only_key e ≡ some other → e ≡ 5
only_key-single e other h = ground arith

acceptable_iff_example :
    (is_envelope_epoch_acceptable 5 4 ≡ true)
    ↔ Opened only_key
        (λ k (c : ℕ). some (k ∷ c ∷ []))
        9
        (try_decapsulate_across_epoch_window only_key (λ k (c : ℕ). some (k ∷ c ∷ [])) 9 4)
acceptable_iff_example =
    acceptable_iff only_key (λ k (c : ℕ). some (k ∷ c ∷ [])) 9 4 5 1 (1 ∷ 9 ∷ []) (omega arith)
      (omega arith) refl only_key-single refl

shard-AreNearest_example :
    (k0 : List ℕ) × (k1 : List ℕ) × (shard size_hash [] (long_key ∷ (5 ∷ []) ∷ (6 ∷ 6 ∷ []) ∷ [])
      ≡ ok (k0 ∷ k1 ∷ []))
    × AreNearest size_hash [] k0 k1 (long_key ∷ (5 ∷ []) ∷ (6 ∷ 6 ∷ []) ∷ [])
shard-AreNearest_example = shard-AreNearest size_hash [] long_key (5 ∷ []) ((6 ∷ 6 ∷ []) ∷ [])
