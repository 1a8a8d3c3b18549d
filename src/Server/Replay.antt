-- ===== src/Server/Replay.antt =====
-- Replays, in server/internal/cryptoworker/crypto_worker.go and server/internal/mixkey/mixkey.go:
-- what `doUnwrap` does to the keys, as steps.
use mathlib.Core.Path.{subst}
use katzenpost_wt.Prelude.{
  ℕ, ◌≤◌, ◌≡◌, ◌≢◌, All, none, refl, sym, ap, ◌∙◌, Bool, true, false, not, List, [], ◌∷◌, some, Run,
  ok, err, panic, get_elem?, set, length, arith, leb, ◌==◌, Bool-cases, Option-cases, inl, inr, ◌⊎◌,
  if◌then◌else◌, if_true, if_false,
}
use katzenpost_wt.Prelude.Bytes.{copy_array, copy_array_self}
use katzenpost_wt.Sphinx.Geometry.{Geometry}
use katzenpost_wt.Sphinx.Crypto.{Primitives}
use katzenpost_wt.Sphinx.Packet.{unwrap_nike, UnwrapError, Unwrapped}
use katzenpost_wt.Server.Packet.{Packet, set_unwrapped}
use katzenpost_wt.Server.MixKey.{Bloom, MixKey, is_replay, tag_length}
use katzenpost_wt.Server.CryptoWorker.{
  Outcome, accepted, refused, crashed, DropReason, replay, redundant_command, unwrap_failed, no_key,
  no_saved_error, Now, candidates, find_key, other_key, with_other, verdict, check_replay, accept,
  try_keys, do_unwrap,
}
use katzenpost_wt.Server.Candidates.{
  IsCandidate, at_present, Among, other_key-IsCandidate, IsCandidate-other_key,
}

Run-cases {ℓ} :
    {E : Type 0} {A : Type ℓ} (r : Run E A)
    → (r ≡ panic) ⊎ (((e : E) × (r ≡ err e)) ⊎ ((a : A) × (r ≡ ok a)))
Run-cases panic = inl refl
Run-cases (err e) = inr (inl (e, refl))
Run-cases (ok a) = inr (inr (a, refl))

module _ (P : Primitives) (B : Bloom) where
  module _ (g : Geometry) (mix_keys : List (ℕ × ℕ)) (now : Now) (pkt : Packet) where
    -- The packet cannot be unwrapped with this key.
    abbrev pub Fails : List (MixKey P B) → ℕ → UnwrapError → Type 0
    Fails store key fault =
        (k : MixKey P B) × (get_elem? store key ≡ some k)
        × (unwrap_nike P g k.private_key pkt.raw ≡ err fault)

    -- It can, with this candidate.
    pub record Opens (store : List (MixKey P B)) (key : ℕ) (k : MixKey P B) (u : Unwrapped)
        : Type 0 where
      pub candidate : IsCandidate now mix_keys key
      pub there : get_elem? store key ≡ some k
      pub unwraps : unwrap_nike P g k.private_key pkt.raw ≡ ok u

    -- Whether all commands of the unwrapped packet fit into `q`.
    abbrev pub Loads : Unwrapped → Packet → Bool → Type 0
    Loads u q fit = set_unwrapped pkt u.packet u.payload u.commands ≡ (q, fit)

    -- Why a packet is refused before the check for a replay.
    pub data IsRefused (store : List (MixKey P B)) : DropReason → Packet → Type 0 where
      no_current : find_key now.epoch mix_keys ≡ none → IsRefused store no_key pkt
      none_opens :
          (key : ℕ) (fault : UnwrapError)
          → IsCandidate now mix_keys key
          → Fails store key fault
          → ((other : ℕ) → IsCandidate now mix_keys other → (f : UnwrapError) × Fails store other f)
          → IsRefused store (unwrap_failed fault) pkt
      redundant :
          (key : ℕ) (k : MixKey P B) (u : Unwrapped) (q : Packet)
          → Opens store key k u
          → Loads u q false
          → IsRefused store redundant_command q

    -- Why a worker crashes: a key that is not in the store, a panic of `Unwrap`, or a full filter.
    pub data IsCrash (store : List (MixKey P B)) : Type 0 where
      dangling :
          (key : ℕ) → IsCandidate now mix_keys key → get_elem? store key ≡ none → IsCrash store
      breaks :
          (key : ℕ) (k : MixKey P B)
          → IsCandidate now mix_keys key
          → get_elem? store key ≡ some k
          → unwrap_nike P g k.private_key pkt.raw ≡ panic
          → IsCrash store
      full :
          (key : ℕ) (k : MixKey P B) (u : Unwrapped)
          → Opens store key k u
          → B.max_entries k.filter ≤ B.entries k.filter
          → IsCrash store

    -- What one packet may do to the keys that the workers share, and how it may end.
    pub data IsStep (store : List (MixKey P B)) : List (MixKey P B) → Outcome → Type 0 where
      refuses :
          (reason : DropReason) (q : Packet)
          → IsRefused store reason q
          → IsStep store store (refused reason q)
      crashes : IsCrash store → IsStep store store crashed
      malformed :
          (key : ℕ) (k : MixKey P B) (u : Unwrapped) (q : Packet)
          → Opens store key k u
          → Loads u q true
          → length u.tag ≢ tag_length
          → IsStep store (set store key k) (refused replay q)
      seen :
          (key : ℕ) (k : MixKey P B) (u : Unwrapped) (q : Packet)
          → Opens store key k u
          → Loads u q true
          → length u.tag ≡ tag_length
          → (B.test_and_set k.filter u.tag).0 ≡ true
          → IsStep store
              (set store key (record k { filter = (B.test_and_set k.filter u.tag).1 }))
              (refused replay q)
      takes :
          (key : ℕ) (k : MixKey P B) (u : Unwrapped) (q : Packet)
          → Opens store key k u
          → Loads u q true
          → length u.tag ≡ tag_length
          → (B.test_and_set k.filter u.tag).0 ≡ false
          → IsStep store
              (set store key (record k { filter = (B.test_and_set k.filter u.tag).1 }))
              (accepted key u.tag q)

    abbrev Ends : List (MixKey P B) → List (MixKey P B) × Outcome → Type 0
    Ends store (next, outcome) = IsStep store next outcome

    verdict-IsStep :
        (store : List (MixKey P B)) (key : ℕ) (k : MixKey P B) (u : Unwrapped) (q : Packet)
        → Opens store key k u
        → Loads u q true
        → Ends store (verdict P B store key u.tag q (is_replay k u.tag))
    unfolding verdict is_replay
    verdict-IsStep store key k u q opens loads =
        let marked : List ℕ → Run DropReason (Bool × MixKey P B) = λ t.
          ok ((B.test_and_set k.filter t).0, record k { filter = (B.test_and_set k.filter t).1 }) in
        let too_many = leb (B.max_entries k.filter) (B.entries k.filter) in
        let at_array = marked (copy_array tag_length u.tag) in
        let inner = if too_many then panic else at_array in
        let ends : Run DropReason (Bool × MixKey P B) → Type 0 =
          λ r. Ends store (verdict P B store key u.tag q r) in
        elim (Bool-cases (not (length u.tag == tag_length))) [
          | inl wrong ↦
              let odd : length u.tag ≢ tag_length = λ e. ground arith in
              subst ends (sym (if_true (ok (true, k)) inner wrong))
                (malformed key k u q opens loads odd)
          | inr right ↦
              let size : length u.tag ≡ tag_length = ground arith in
              elim (Bool-cases too_many) [
                | inl is_full ↦
                    subst ends
                      (sym (if_false (ok (true, k)) inner right ∙ if_true panic at_array is_full))
                      (crashes (full key k u opens (ground arith)))
                | inr room ↦
                    let same : copy_array tag_length u.tag ≡ u.tag =
                      copy_array_self tag_length u.tag size in
                    let goes : is_replay k u.tag ≡ marked u.tag =
                      if_false (ok (true, k)) inner right
                      ∙ if_false panic at_array room
                      ∙ ap marked same in
                    let next : MixKey P B = record k {
                      filter = (B.test_and_set k.filter u.tag).1;
                    } in
                    elim (Bool-cases (B.test_and_set k.filter u.tag).0) [
                      | inl old ↦
                          subst ends (sym (goes ∙ ap (λ b. ok (b, next)) old))
                            (seen key k u q opens loads size old)
                      | inr new ↦
                          subst ends (sym (goes ∙ ap (λ b. ok (b, next)) new))
                            (takes key k u q opens loads size new)
                    ]
              ]
        ]

    check_replay-IsStep :
        (store : List (MixKey P B)) (key : ℕ) (k : MixKey P B) (u : Unwrapped) (q : Packet)
        (fit : Bool)
        → Opens store key k u
        → Loads u q fit
        → Ends store (check_replay P B store key k u.tag (q, fit))
    unfolding check_replay
    check_replay-IsStep store key k u q true opens loads =
        verdict-IsStep store key k u q opens loads
    check_replay-IsStep store key k u q false opens loads =
        refuses redundant_command q (redundant key k u q opens loads)

    -- The error that the loop has saved, where no key is left.
    data IsSaved (store : List (MixKey P B)) : DropReason → List ℕ → Type 0 where
      ahead : (last : DropReason) (key : ℕ) (keys : List ℕ) → IsSaved store last (key ∷ keys)
      saved :
          (key : ℕ) (fault : UnwrapError) (keys : List ℕ)
          → IsCandidate now mix_keys key
          → Fails store key fault
          → IsSaved store (unwrap_failed fault) keys

    abbrev Tried : List (MixKey P B) → List ℕ → Type 0
    Tried store keys =
        (other : ℕ)
        → IsCandidate now mix_keys other
        → ((f : UnwrapError) × Fails store other f) ⊎ Among other keys

    nothing_left : {A : Type 0} → A ⊎ ⊥ → A
    nothing_left (inl a) = a
    nothing_left (inr x) = absurd x

    -- One more key has failed.
    one_more :
        (store : List (MixKey P B)) (key : ℕ) (keys : List ℕ) (fault : UnwrapError)
        → Fails store key fault
        → Tried store (key ∷ keys)
        → Tried store keys
    one_more store key keys fault fails tried other is = elim (tried other is) [
      | inl failed ↦ inl failed
      | inr (inl same) ↦ inl (fault, subst (λ x. Fails store x fault) (sym same) fails)
      | inr (inr later) ↦ inr later
    ]

    try_keys-IsStep :
        (store : List (MixKey P B)) (keys : List ℕ) (last : DropReason)
        → All (IsCandidate now mix_keys) keys
        → Tried store keys
        → IsSaved store last keys
        → Ends store (try_keys P B g store keys pkt last)
    unfolding try_keys accept
    try_keys-IsStep store [] _ are tried (saved key fault _ is fails) =
        refuses (unwrap_failed fault) pkt
          (none_opens key fault is fails (λ other c. nothing_left (tried other c)))
    try_keys-IsStep store (key ∷ keys) last (is, are) tried is_saved =
        elim (Option-cases (get_elem? store key)) [
          | inl missing ↦ rw (try_keys, missing) (crashes (dangling key is missing))
          | inr (k, h) ↦ elim (Run-cases (unwrap_nike P g k.private_key pkt.raw)) [
            | inl panics ↦ rw (try_keys, h, panics) (crashes (breaks key k is h panics))
            | inr (inl (fault, fails)) ↦
                let failed : Fails store key fault = (k, h, fails) in
                rw (try_keys, h, fails)
                  (try_keys-IsStep store keys (unwrap_failed fault) are
                    (one_more store key keys fault failed tried) (saved key fault keys is failed))
            | inr (inr (u, unwraps)) ↦
                let opens : Opens store key k u = record {
                  candidate = is;
                  there = h;
                  unwraps = unwraps;
                } in
                let (q, fit) = set_unwrapped pkt u.packet u.payload u.commands in
                rw (try_keys, h, unwraps) (check_replay-IsStep store key k u q fit opens refl)
          ]
        ]

    -- What `doUnwrap` does to the keys, and how it ends, for any packet, time and map of keys. A packet
    -- is refused if there is no key of the current epoch, if it unwraps with none of the candidates,
    -- or if one of its commands is redundant. Else it unwraps with a candidate: the tag that this
    -- gives is marked in the filter of that key, and the packet with its commands is accepted only if
    -- the tag was not marked, and refused as a replay if it was. A tag of the wrong length is a replay
    -- and is not marked. The worker crashes only on a place that is not in the store, where `Unwrap`
    -- panics, and on a filter that is full.
    pub do_unwrap-IsStep :
        (store : List (MixKey P B))
        → IsStep store
            (do_unwrap P B g store mix_keys now pkt).0
            (do_unwrap P B g store mix_keys now pkt).1
    unfolding do_unwrap candidates with_other
    do_unwrap-IsStep store = elim (Option-cases (find_key now.epoch mix_keys)) [
      | inl missing ↦ rw (do_unwrap, missing) (refuses no_key pkt (no_current missing))
      | inr (first, found) ↦ elim (Option-cases (other_key now mix_keys)) [
        | inl alone ↦
            let covers : Tried store (first ∷ []) = λ other c.
              elim (IsCandidate-other_key now mix_keys first other found c) [
                | inl same ↦ inr (inl same)
                | inr has ↦ absurd (let e : none ≡ some other = sym alone ∙ has in cc)
              ] in
            rw (do_unwrap, found, alone)
              (try_keys-IsStep store (first ∷ []) no_saved_error (at_present found, tt) covers
                (ahead no_saved_error first []))
        | inr (second, has_other) ↦
            let covers : Tried store (first ∷ second ∷ []) = λ other c.
              elim (IsCandidate-other_key now mix_keys first other found c) [
                | inl same ↦ inr (inl same)
                | inr has ↦
                    let e : some second ≡ some other = sym has_other ∙ has in inr (inr (inl (cc)))
              ] in
            rw (do_unwrap, found, has_other)
              (try_keys-IsStep store (first ∷ second ∷ []) no_saved_error
                (
                  at_present found,
                  (other_key-IsCandidate now mix_keys first second found has_other, tt),
                )
                covers (ahead no_saved_error first (second ∷ [])))
      ]
    ]
