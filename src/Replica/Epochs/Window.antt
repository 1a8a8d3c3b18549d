-- ===== src/Replica/Epochs/Window.antt =====
-- The replica can open what the courier forwards: courier/server/envelope_epoch.go against
-- replica/envelope_epoch.go.
use mathlib.Core.Path.{subst}
use katzenpost_wt.Prelude.{
  ℕ, ◌+◌, ◌-◌, ◌%◌, ◌^◌, ◌<◌, ◌≡◌, ◌⊎◌, ◌↔◌, none, inl, inr, true, false, List, [], ◌∷◌, Option,
  some, Run, ok, arith, ltb, Option-cases, Bool-cases, ap, ◌∙◌, ◌==◌,
}
use katzenpost_wt.Replica.Epochs.{
  is_envelope_epoch_acceptable, Delta, before, same, after, epoch_at, EpochError, try_deltas,
  try_decapsulate_across_epoch_window,
}

-- The loop tries this epoch in one of its rounds.
abbrev pub Tries : ℕ → ℕ → List Delta → Type 0
Tries current epoch [] = ⊥
Tries current epoch (d ∷ ds) = (epoch_at current d ≡ some epoch) ⊎ Tries current epoch ds

acceptable-Tries :
    (epoch current : ℕ)
    → epoch < 2 ^ 64
    → is_envelope_epoch_acceptable epoch current ≡ true
    → Tries current epoch (before ∷ same ∷ after ∷ [])
unfolding is_envelope_epoch_acceptable epoch_at
acceptable-Tries epoch current small h = elim (Bool-cases (ltb current epoch)) [
  | inl above ↦
      let next : (current + 1) % 2 ^ 64 ≡ epoch = ground arith in inr (inr (inl (ap some next)))
  | inr upto ↦ elim (Bool-cases (epoch == current)) [
    | inl equal ↦ let this : current ≡ epoch = ground arith in inr (inl (ap some this))
    | inr below ↦
        let previous : current - 1 ≡ epoch = ground arith in
        let exists : ltb current 1 ≡ false = ground arith in inl (rw exists (ap some previous))
  ]
]

Tries-acceptable :
    (epoch current : ℕ)
    → current + 1 < 2 ^ 64
    → Tries current epoch (before ∷ same ∷ after ∷ [])
    → is_envelope_epoch_acceptable epoch current ≡ true
unfolding is_envelope_epoch_acceptable epoch_at
Tries-acceptable epoch current small (inl previous) = elim (Bool-cases (ltb current 1)) [
  | inl first ↦ let e : none ≡ some epoch = rw first at previous in absurd (cc)
  | inr later ↦
      let e : some (current - 1) ≡ some epoch = rw later at previous in
      let this : current - 1 ≡ epoch = cc in ground arith
]
Tries-acceptable epoch current small (inr (inl e)) = let this : current ≡ epoch = cc in ground arith
Tries-acceptable epoch current small (inr (inr (inl e))) =
    let this : (current + 1) % 2 ^ 64 ≡ epoch = cc in ground arith
Tries-acceptable epoch current small (inr (inr (inr x))) = absurd x

module _ {ℓ} {Keypair Ciphertext : Type ℓ} (keypair : ℕ → Option Keypair)
    (decapsulate : Keypair → Ciphertext → Option (List ℕ)) (ct : Ciphertext) where
  -- The loop returned a plaintext.
  abbrev pub Opened : Run EpochError (List ℕ × Keypair × ℕ) → Type ℓ
  Opened r =
      (plaintext : List ℕ) × (k : Keypair) × (epoch : ℕ) × (r ≡ ok (plaintext, k, epoch))
      × (keypair epoch ≡ some k)
      × (decapsulate k ct ≡ some plaintext)

  try_deltas-Opened :
      (current epoch : ℕ) (ds : List Delta) (failure : EpochError) (k : Keypair)
      (plaintext : List ℕ)
      → Tries current epoch ds
      → keypair epoch ≡ some k
      → decapsulate k ct ≡ some plaintext
      → Opened (try_deltas keypair decapsulate ct current ds failure)
  unfolding try_deltas
  try_deltas-Opened current epoch [] failure k plaintext t has opens = absurd t
  try_deltas-Opened current epoch (d ∷ ds) failure k plaintext (inl this) has opens =
      (plaintext, k, epoch, rw (this, try_deltas, has, opens), has, opens)
  try_deltas-Opened current epoch (d ∷ ds) failure k plaintext (inr later) has opens =
      let on : (f : EpochError) → Opened (try_deltas keypair decapsulate ct current ds f) =
        λ f. try_deltas-Opened current epoch ds f k plaintext later has opens in
      elim (Option-cases (epoch_at current d)) [
        | inl skipped ↦ rw (skipped, try_deltas) (on failure)
        | inr (e, there) ↦ elim (Option-cases (keypair e)) [
          | inl missing ↦ rw (there, try_deltas, missing) (on failure)
          | inr (k', found) ↦ elim (Option-cases (decapsulate k' ct)) [
            | inl fails ↦ rw (there, try_deltas, found, fails) (on EpochError.decapsulation_failed)
            | inr (text, succeeds) ↦
                (text, k', e, rw (there, try_deltas, found, succeeds), found, succeeds)
          ]
        ]
      ]

  -- The replica opens what the courier forwards. If the courier accepts the envelope's epoch while
  -- the replica's clock shows the same current epoch, and the replica holds the keypair of the
  -- envelope's epoch, with which the ciphertext decapsulates, then the loop over the window returns
  -- a plaintext, from a keypair that it holds and that decapsulates the ciphertext to it.
  pub accepted-Opened :
      (current epoch : ℕ) (k : Keypair) (plaintext : List ℕ)
      → epoch < 2 ^ 64
      → is_envelope_epoch_acceptable epoch current ≡ true
      → keypair epoch ≡ some k
      → decapsulate k ct ≡ some plaintext
      → Opened (try_decapsulate_across_epoch_window keypair decapsulate ct current)
  unfolding try_decapsulate_across_epoch_window
  accepted-Opened current epoch k plaintext small accepted has opens =
      try_deltas-Opened current epoch (before ∷ same ∷ after ∷ []) EpochError.no_keys k plaintext
        (acceptable-Tries epoch current small accepted) has opens

  -- What the loop returns, it got in a round with the keypair of that epoch.
  try_deltas-Tries :
      (current epoch : ℕ) (ds : List Delta) (failure : EpochError) (k : Keypair)
      (plaintext : List ℕ)
      → try_deltas keypair decapsulate ct current ds failure ≡ ok (plaintext, k, epoch)
      → Tries current epoch ds
  unfolding try_deltas
  try_deltas-Tries current epoch [] failure k plaintext h = cc
  try_deltas-Tries current epoch (d ∷ ds) failure k plaintext h =
      elim (Option-cases (epoch_at current d)) [
        | inl skipped ↦
            inr (
              try_deltas-Tries current epoch ds failure k plaintext (rw (skipped, try_deltas) at h))
        | inr (e, there) ↦ elim (Option-cases (keypair e)) [
          | inl missing ↦ inr (
              try_deltas-Tries current epoch ds failure k plaintext
                (rw (there, try_deltas, missing) at h))
          | inr (k', found) ↦ elim (Option-cases (decapsulate k' ct)) [
            | inl fails ↦ inr (
                try_deltas-Tries current epoch ds EpochError.decapsulation_failed k plaintext
                  (rw (there, try_deltas, found, fails) at h))
            | inr (text, succeeds) ↦
                let done : ok (text, k', e) ≡ ok (plaintext, k, epoch) =
                  rw (there, try_deltas, found, succeeds) at h in
                let this : e ≡ epoch = cc in inl (there ∙ ap some this)
          ]
        ]
      ]

  -- For a replica that holds the keypair of one epoch only, with which the ciphertext decapsulates:
  -- the courier accepts that epoch exactly when the replica's loop over its window returns a
  -- plaintext, whatever the current epoch is, but for the last that a word holds.
  pub acceptable_iff :
      (current epoch : ℕ) (k : Keypair) (plaintext : List ℕ)
      → epoch < 2 ^ 64
      → current + 1 < 2 ^ 64
      → keypair epoch ≡ some k
      → ((e : ℕ) (other : Keypair) → keypair e ≡ some other → e ≡ epoch)
      → decapsulate k ct ≡ some plaintext
      → (is_envelope_epoch_acceptable epoch current ≡ true)
        ↔ Opened (try_decapsulate_across_epoch_window keypair decapsulate ct current)
  unfolding try_decapsulate_across_epoch_window
  acceptable_iff current epoch k plaintext word small has only opens = (
    λ accepted. accepted-Opened current epoch k plaintext word accepted has opens,
    λ (text, k', e, returned, held, decapsulates).
        let tried =
          try_deltas-Tries current e (before ∷ same ∷ after ∷ []) EpochError.no_keys k' text
            returned in
        Tries-acceptable epoch current small
          (subst (λ e. Tries current e (before ∷ same ∷ after ∷ [])) (only e k' held) tried),
  )
