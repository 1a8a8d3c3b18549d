-- ===== src/Server/Candidates.antt =====
-- The keys that `doUnwrap` of server/internal/cryptoworker/crypto_worker.go tries.
use katzenpost_wt.Prelude.{
  ℕ, ◌+◌, ◌-◌, ◌%◌, ◌^◌, ◌<◌, ◌≤◌, ◌≡◌, none, ltb, true, false, List, [], ◌∷◌, some, arith,
  Bool-cases, inl, inr, ◌⊎◌,
}
use katzenpost_wt.Server.CryptoWorker.{Now, find_key, other_key, grace_period}

-- The keys that a packet may be for: that of the current epoch, and within the grace period that of
-- the epoch before, or else of the one after.
pub data IsCandidate (now : Now) (mix_keys : List (ℕ × ℕ)) (key : ℕ) : Type 0 where
  at_present : find_key now.epoch mix_keys ≡ some key → IsCandidate now mix_keys key
  just_before :
      (first epoch : ℕ)
      → find_key now.epoch mix_keys ≡ some first
      → now.elapsed < grace_period
      → epoch < 2 ^ 64
      → (epoch + 1) % 2 ^ 64 ≡ now.epoch % 2 ^ 64
      → find_key epoch mix_keys ≡ some key
      → IsCandidate now mix_keys key
  just_after :
      (first : ℕ)
      → find_key now.epoch mix_keys ≡ some first
      → grace_period ≤ now.elapsed
      → now.till < grace_period
      → find_key ((now.epoch + 1) % 2 ^ 64) mix_keys ≡ some key
      → IsCandidate now mix_keys key

abbrev pub Among : ℕ → List ℕ → Type 0
Among key [] = ⊥
Among key (x ∷ xs) = (key ≡ x) ⊎ Among key xs

pub other_key-IsCandidate :
    (now : Now) (mix_keys : List (ℕ × ℕ)) (first key : ℕ)
    → find_key now.epoch mix_keys ≡ some first
    → other_key now mix_keys ≡ some key
    → IsCandidate now mix_keys key
unfolding other_key
other_key-IsCandidate now mix_keys first key found h =
    elim (Bool-cases (ltb now.elapsed grace_period)) [
      | inl early ↦
          just_before first ((now.epoch + (2 ^ 64 - 1)) % 2 ^ 64) found (ground arith) (omega arith)
            (omega arith) (rw (other_key, early) at h)
      | inr late ↦ elim (Bool-cases (ltb now.till grace_period)) [
        | inl ends ↦
            just_after first found (ground arith) (ground arith) (rw (other_key, late, ends) at h)
        | inr amid ↦ let e : none ≡ some key = rw (other_key, late, amid) at h in absurd (cc)
      ]
    ]

pub IsCandidate-other_key :
    (now : Now) (mix_keys : List (ℕ × ℕ)) (first key : ℕ)
    → find_key now.epoch mix_keys ≡ some first
    → IsCandidate now mix_keys key
    → (key ≡ first) ⊎ (other_key now mix_keys ≡ some key)
unfolding other_key
IsCandidate-other_key now mix_keys first key found (at_present is_first) = inl (cc)
IsCandidate-other_key now mix_keys first key found (just_before _ epoch _ early word before has) =
    let is_early : ltb now.elapsed grace_period ≡ true = ground arith in
    let same : (now.epoch + (2 ^ 64 - 1)) % 2 ^ 64 ≡ epoch = omega arith in
    inr (rw (is_early, same) has)
IsCandidate-other_key now mix_keys first key found (just_after _ _ late ends has) =
    let is_late : ltb now.elapsed grace_period ≡ false = ground arith in
    let at_end : ltb now.till grace_period ≡ true = ground arith in inr (rw (is_late, at_end) has)
