-- ===== src/Server/CryptoWorker.antt =====
-- server/internal/cryptoworker/crypto_worker.go: the candidate keys of a packet, unwrapping with
-- them, and where the packet goes. The keys are shared between the workers, so they stand in a
-- store, and a worker's map has their places there. Times and durations are in nanoseconds;
-- dwell times are not negative.
use katzenpost_wt.Prelude.{
  ℕ, ◌+◌, ◌-◌, ◌*◌, ◌%◌, ◌^◌, Bool, true, false, not, ◌&&◌, List, [], ◌∷◌, ◌++◌, Option, none, some,
  Run, ok, err, panic, get_elem?, set, ltb, ◌==◌, if◌then◌else◌,
}
use katzenpost_wt.Sphinx.Geometry.{Geometry}
use katzenpost_wt.Sphinx.Crypto.{Primitives}
use katzenpost_wt.Sphinx.Packet.{unwrap_nike, UnwrapError, Unwrapped}
use katzenpost_wt.Server.Packet.{Packet, is_set, set_unwrapped, is_forward, is_surb_reply}
use katzenpost_wt.Server.MixKey.{Bloom, MixKey, is_replay}

abbrev pub millisecond : ℕ
millisecond = 1000000

abbrev pub grace_period : ℕ
grace_period = 120 * 1000 * millisecond

abbrev pub num_mix_keys : ℕ
num_mix_keys = 3

-- `epochtime.Now()`
pub record Now : Type 0 where
  pub epoch : ℕ
  pub elapsed : ℕ
  pub till : ℕ

pub data DropReason : Type 0 where
  no_key replay redundant_command no_saved_error : DropReason
  unwrap_failed : UnwrapError → DropReason

-- The outcome of `doUnwrap`: an accepted packet comes with the place of the key and the tag.
pub data Outcome : Type 0 where
  accepted : (key : ℕ) (tag : List ℕ) (pkt : Packet) → Outcome
  refused : (reason : DropReason) (pkt : Packet) → Outcome
  crashed : Outcome

-- A map from epochs to keys.
unfoldable pub find_key : ℕ → List (ℕ × ℕ) → Option ℕ
find_key epoch [] = none
find_key epoch ((e, key) ∷ keys) = if e == epoch then some key else find_key epoch keys

-- The key of the epoch before or after, within the grace period.
unfoldable pub other_key : Now → List (ℕ × ℕ) → Option ℕ
unfolding find_key
other_key now keys =
    if ltb now.elapsed grace_period
    then find_key ((now.epoch + (2 ^ 64 - 1)) % 2 ^ 64) keys
    else (if ltb now.till grace_period then find_key ((now.epoch + 1) % 2 ^ 64) keys else none)

unfoldable pub with_other : ℕ → Option ℕ → List ℕ
with_other key none = key ∷ []
with_other key (some other) = key ∷ other ∷ []

-- The candidates of `doUnwrap`; `none` where the epoch has no key.
unfoldable pub candidates : Now → List (ℕ × ℕ) → Option (List ℕ)
unfolding other_key with_other find_key
candidates now keys = elim (find_key now.epoch keys) [
  | none ↦ none
  | some key ↦ some (with_other key (other_key now keys))
]

module _ (P : Primitives) (B : Bloom) where
  -- What `IsReplay` decides, with the key that it leaves in the store.
  unfoldable pub verdict :
      List (MixKey P B)
      → ℕ
      → List ℕ
      → Packet
      → Run DropReason (Bool × MixKey P B)
      → List (MixKey P B) × Outcome
  verdict store key tag pkt panic = (store, crashed)
  verdict store key tag pkt (err reason) = (store, refused reason pkt)
  verdict store key tag pkt (ok (true, next)) = (set store key next, refused replay pkt)
  verdict store key tag pkt (ok (false, next)) = (set store key next, accepted key tag pkt)

  -- The packet with its commands, or what is there of it where one is redundant.
  unfoldable pub check_replay :
      List (MixKey P B) → ℕ → MixKey P B → List ℕ → Packet × Bool → List (MixKey P B) × Outcome
  unfolding is_replay verdict
  check_replay store key k tag (pkt, false) = (store, refused redundant_command pkt)
  check_replay store key k tag (pkt, true) = verdict store key tag pkt (is_replay k tag)

  -- What follows `Unwrap`: the commands, and the check for a replay.
  unfoldable pub accept :
      List (MixKey P B) → ℕ → MixKey P B → Unwrapped → Packet → List (MixKey P B) × Outcome
  unfolding check_replay
  accept store key k u pkt =
      check_replay store key k u.tag (set_unwrapped pkt u.packet u.payload u.commands)

  -- The loop over the candidate keys, with the error saved last. Every place is one of the store.
  unfoldable pub try_keys :
      Geometry → List (MixKey P B) → List ℕ → Packet → DropReason → List (MixKey P B) × Outcome
  unfolding accept
  try_keys g store [] pkt last = (store, refused last pkt)
  try_keys g store (key ∷ keys) pkt last = elim (get_elem? store key) [
    | none ↦ (store, crashed)
    | some k ↦ elim (unwrap_nike P g k.private_key pkt.raw) [
      | panic ↦ (store, crashed)
      | err fault ↦ try_keys g store keys pkt (unwrap_failed fault)
      | ok u ↦ accept store key k u pkt
    ]
  ]

  unfoldable pub do_unwrap :
      Geometry → List (MixKey P B) → List (ℕ × ℕ) → Now → Packet → List (MixKey P B) × Outcome
  unfolding candidates try_keys
  do_unwrap g store mix_keys now pkt = elim (candidates now mix_keys) [
    | none ↦ (store, refused no_key pkt)
    | some keys ↦ try_keys g store keys pkt no_saved_error
  ]

-- Where `routePacket` hands a packet.
pub data Route : Type 0 where
  dropped crash : Route
  scheduler decoy gateway service : (pkt : Packet) → Route

-- What the worker reads of its node: the roles, the epoch's length, and the decoy's `ExpectReply`.
pub record Node : Type 0 where
  pub is_gateway : Bool
  pub is_service : Bool
  pub period : ℕ
  pub expects : Packet → Bool

abbrev pub absolute_minimum_delay : ℕ
absolute_minimum_delay = 1 * millisecond

-- The delay that a forward packet still has to wait; `none` drops it.
unfoldable pub adjust_delay : ℕ → ℕ → ℕ → Option ℕ
adjust_delay period requested dwell =
    let delay = requested * millisecond in
    if ltb (num_mix_keys * period) delay
    then none
    else (if ltb dwell delay
        then some (delay - dwell)
        else (if requested == 0
            then (if ltb dwell absolute_minimum_delay
                then some (absolute_minimum_delay - dwell)
                else none)
            else some absolute_minimum_delay))

unfoldable pub delayed : Packet → Option ℕ → Route
delayed pkt none = dropped
delayed pkt (some delay) = scheduler (record pkt { delay = delay })

-- A forward packet has a delay.
unfoldable pub delay_of : Option ℕ → ℕ
delay_of none = 0
delay_of (some delay) = delay

unfoldable pub route_forward : Node → Packet → ℕ → Route
unfolding delayed adjust_delay delay_of
route_forward node pkt dwell =
    if is_set pkt.payload
    then dropped
    else (if pkt.must_terminate
        then dropped
        else delayed pkt (adjust_delay node.period (delay_of pkt.delay_command) dwell))

-- What a node with a role of its own does with a packet that ends there.
unfoldable pub route_local : Node → Packet → ℕ → Route
unfolding is_surb_reply
route_local node pkt start_at =
    if pkt.must_forward
    then dropped
    else (if is_surb_reply pkt && node.expects pkt
        then decoy pkt
        else (if node.is_gateway
            then gateway (record pkt { dispatch_at = start_at })
            else (if node.is_service
                then service (record pkt { dispatch_at = start_at })
                else dropped)))

unfoldable pub route_packet : Node → Packet → ℕ → Route
unfolding route_forward route_local is_forward is_surb_reply
route_packet node pkt start_at =
    if is_forward pkt
    then route_forward node pkt (start_at - pkt.recv_at)
    else (if not node.is_gateway && not node.is_service
        then (if is_surb_reply pkt && node.expects pkt then decoy pkt else dropped)
        else route_local node pkt start_at)

routed : Node → ℕ → Outcome → Route
unfolding route_packet
routed node start_at (accepted key tag pkt) = route_packet node pkt start_at
routed node start_at (refused reason pkt) = dropped
routed node start_at crashed = crash

-- One packet of the worker's loop; `unwrap_slack` is the configured delay.
module _ (P : Primitives) (B : Bloom) where
  unfoldable pub work :
      Geometry
      → Node
      → ℕ
      → List (MixKey P B)
      → List (ℕ × ℕ)
      → Now
      → ℕ
      → Packet
      → List (MixKey P B) × Route
  unfolding routed do_unwrap
  work g node unwrap_slack store mix_keys now start_at pkt =
      if ltb unwrap_slack (start_at - pkt.recv_at)
      then (store, dropped)
      else (let (next, outcome) = do_unwrap P B g store mix_keys now pkt in
          (next, routed node start_at outcome))

-- What a run accepts: the key's place, and the tag.
unfoldable pub entries : Outcome → List (ℕ × List ℕ)
entries (accepted key tag pkt) = (key, tag) ∷ []
entries (refused reason pkt) = []
entries crashed = []

-- The packets of all the workers of a mix, in the order in which they reach the keys. Each comes with
-- its worker's map of keys and with the time; a run does not end with a worker that crashes.
module _ (P : Primitives) (B : Bloom) where
  unfoldable pub history :
      Geometry → List (MixKey P B) → List (List (ℕ × ℕ) × Now × Packet) → List (ℕ × List ℕ)
  unfolding entries do_unwrap
  history g store [] = []
  history g store ((mix_keys, now, pkt) ∷ events) =
      let (next, outcome) = do_unwrap P B g store mix_keys now pkt in
      entries outcome ++ history g next events
