-- ===== src/Replica/Epochs.antt =====
-- The epochs that an envelope may come from: courier/server/envelope_epoch.go,
-- replica/envelope_epoch.go and the conversion of replica/common/time.go. Epochs are 64-bit words.
-- The keys of a replica and the MKEM decapsulation are parameters.
pub mod Window
use katzenpost_wt.Prelude.{
  ℕ, ◌+◌, ◌-◌, ◌*◌, ◌/◌, ◌%◌, ◌^◌, ◌≤◌, ◌<◌, ◌≡◌, refl, Bool, true, false, List, [], ◌∷◌, Option,
  none, some, Run, ok, err, arith, ltb, leb, if◌then◌else◌,
}

abbrev pub courier_window : ℕ
courier_window = 1

-- `isEnvelopeEpochAcceptable`.
unfoldable pub is_envelope_epoch_acceptable : ℕ → ℕ → Bool
is_envelope_epoch_acceptable envelope current =
    if ltb current envelope
    then leb (envelope - current) courier_window
    else leb (current - envelope) courier_window

-- The values of `delta`, with a window of 1: the epoch before, this one and the next.
pub data Delta : Type 0 where
  before same after : Delta

-- `uint64(int64(currentEpoch) + delta)`, or `none` for the `continue` at epoch 0. The sum wraps.
unfoldable pub epoch_at : ℕ → Delta → Option ℕ
epoch_at current before = if ltb current 1 then none else some (current - 1)
epoch_at current same = some current
epoch_at current after = some ((current + 1) % 2 ^ 64)

pub data EpochError : Type 0 where
  no_keys decapsulation_failed : EpochError

module _ {ℓ} {Keypair Ciphertext : Type ℓ} (keypair : ℕ → Option Keypair)
    (decapsulate : Keypair → Ciphertext → Option (List ℕ)) (ct : Ciphertext) where
  -- The loop, over the values of `delta` that are left; `failure` is `lastErr`.
  unfoldable pub try_deltas : ℕ → List Delta → EpochError → Run EpochError (List ℕ × Keypair × ℕ)
  try_deltas current [] failure = err failure
  try_deltas current (delta ∷ deltas) failure = elim (epoch_at current delta) [
    | none ↦ try_deltas current deltas failure
    | some epoch ↦ elim (keypair epoch) [
      | none ↦ try_deltas current deltas failure
      | some k ↦ elim (decapsulate k ct) [
        | none ↦ try_deltas current deltas decapsulation_failed
        | some plaintext ↦ ok (plaintext, k, epoch)
      ]
    ]
  ]

  unfoldable pub try_decapsulate_across_epoch_window : ℕ → Run EpochError (List ℕ × Keypair × ℕ)
  unfolding try_deltas
  try_decapsulate_across_epoch_window current =
      try_deltas current (before ∷ same ∷ after ∷ []) no_keys

abbrev second : ℕ
second = 10 ^ 9

abbrev replica_epoch_period : ℕ
replica_epoch_period = 7 * (24 * 3600 * second)

-- `ConvertNormalToReplicaEpoch`, where `period` is the `time.Duration` of `epochtime.Period`.
unfoldable pub convert_normal_to_replica_epoch : ℕ → ℕ → ℕ
convert_normal_to_replica_epoch period normal = normal * period % 2 ^ 64 / replica_epoch_period
