-- ===== src/Server/Routing.antt =====
-- Where the crypto worker of server/internal/cryptoworker/crypto_worker.go hands its packets.
use katzenpost_wt.Prelude.{
  ℕ, ◌+◌, ◌-◌, ◌*◌, ◌≤◌, ◌<◌, ◌≡◌, refl, ◌∙◌, sym, Bool, true, false, not, ◌&&◌, Option, none, some,
  arith, ◌⊎◌, inl, inr, if_true, if_false, ltb, ◌==◌, Bool-cases, if◌then◌else◌,
}
use mathlib.Core.Path.{subst}
use katzenpost_wt.Server.Packet.{Packet, is_set, is_forward, is_surb_reply}
use katzenpost_wt.Server.CryptoWorker.{
  Route, dropped, scheduler, decoy, gateway, service, Node, route_packet, route_forward,
  route_local, adjust_delay, absolute_minimum_delay, millisecond, num_mix_keys, delay_of, delayed,
}

and_left : (a b : Bool) → (a && b) ≡ true → a ≡ true
and_left true b h = refl
and_left false b h = cc

and_right : (a b : Bool) → (a && b) ≡ true → b ≡ true
and_right true b h = h
and_right false b h = cc

-- The delay that a packet gets when it has waited for `dwell`, or none where it is dropped.
pub data IsDelay (period requested dwell : ℕ) : Option ℕ → Type 0 where
  -- The keys are gone by then.
  impossible : num_mix_keys * period < requested * millisecond → IsDelay period requested dwell none
  -- It waits on until the time that it asked for.
  waits :
      (delay : ℕ)
      → requested * millisecond ≤ num_mix_keys * period
      → 0 < delay
      → delay + dwell ≡ requested * millisecond
      → IsDelay period requested dwell (some delay)
  -- That time is over.
  overdue :
      0 < requested
      → requested * millisecond ≤ num_mix_keys * period
      → requested * millisecond ≤ dwell
      → IsDelay period requested dwell (some absolute_minimum_delay)
  -- It asked for none, and waits the minimum, or has waited it.
  minimal :
      (delay : ℕ)
      → requested ≡ 0
      → 0 < delay
      → delay + dwell ≡ absolute_minimum_delay
      → IsDelay period requested dwell (some delay)
  lapsed : requested ≡ 0 → absolute_minimum_delay ≤ dwell → IsDelay period requested dwell none

adjust_delay-IsDelay :
    (period requested dwell : ℕ)
    → IsDelay period requested dwell (adjust_delay period requested dwell)
unfolding adjust_delay
adjust_delay-IsDelay period requested dwell =
    elim (Bool-cases (ltb (num_mix_keys * period) (requested * millisecond))) [
      | inl over ↦ rw (adjust_delay, over) (impossible (ground arith))
      | inr within ↦ elim (Bool-cases (ltb dwell (requested * millisecond))) [
        | inl early ↦
            rw (adjust_delay, within, early)
              (waits (requested * millisecond - dwell) (ground arith) (ground arith) (ground arith))
        | inr late ↦ elim (Bool-cases (requested == 0)) [
          | inr some_delay ↦
              rw (adjust_delay, within, late, some_delay)
                (overdue (ground arith) (ground arith) (ground arith))
          | inl no_delay ↦ elim (Bool-cases (ltb dwell absolute_minimum_delay)) [
            | inl early ↦
                rw (adjust_delay, within, late, no_delay, early)
                  (minimal (absolute_minimum_delay - dwell) (ground arith) (ground arith)
                    (ground arith))
            | inr over ↦
                rw (adjust_delay, within, late, no_delay, over)
                  (lapsed (ground arith) (ground arith))
          ]
        ]
      ]
    ]

-- The delay of a forward packet.
abbrev Waits : Node → Packet → ℕ → Option ℕ → Type 0
Waits node pkt start_at = IsDelay node.period (delay_of pkt.delay_command) (start_at - pkt.recv_at)

-- Why a packet is dropped.
pub data IsDropped (node : Node) (pkt : Packet) (start_at : ℕ) : Type 0 where
  has_payload : is_forward pkt ≡ true → is_set pkt.payload ≡ true → IsDropped node pkt start_at
  terminal : is_forward pkt ≡ true → pkt.must_terminate ≡ true → IsDropped node pkt start_at
  untimely : is_forward pkt ≡ true → Waits node pkt start_at none → IsDropped node pkt start_at
  unexpected :
      is_forward pkt ≡ false
      → node.is_gateway ≡ false
      → node.is_service ≡ false
      → (is_surb_reply pkt && node.expects pkt) ≡ false
      → IsDropped node pkt start_at
  client :
      is_forward pkt ≡ false
      → (node.is_gateway ≡ true) ⊎ (node.is_service ≡ true)
      → pkt.must_forward ≡ true
      → IsDropped node pkt start_at

-- What holds of a packet in each place that it may be handed to.
pub data IsRoute (node : Node) (pkt : Packet) (start_at : ℕ) : Route → Type 0 where
  drops : IsDropped node pkt start_at → IsRoute node pkt start_at dropped
  forwards :
      (delay : ℕ)
      → is_forward pkt ≡ true
      → is_set pkt.payload ≡ false
      → pkt.must_terminate ≡ false
      → Waits node pkt start_at (some delay)
      → IsRoute node pkt start_at (scheduler (record pkt { delay = delay }))
  decoys :
      is_forward pkt ≡ false
      → is_surb_reply pkt ≡ true
      → node.expects pkt ≡ true
      → (pkt.must_forward ≡ false) ⊎ ((node.is_gateway ≡ false) × (node.is_service ≡ false))
      → IsRoute node pkt start_at (decoy pkt)
  gateways :
      is_forward pkt ≡ false
      → node.is_gateway ≡ true
      → pkt.must_forward ≡ false
      → (is_surb_reply pkt && node.expects pkt) ≡ false
      → IsRoute node pkt start_at (gateway (record pkt { dispatch_at = start_at }))
  services :
      is_forward pkt ≡ false
      → node.is_gateway ≡ false
      → node.is_service ≡ true
      → pkt.must_forward ≡ false
      → (is_surb_reply pkt && node.expects pkt) ≡ false
      → IsRoute node pkt start_at (service (record pkt { dispatch_at = start_at }))

delayed-IsRoute :
    (node : Node) (pkt : Packet) (start_at : ℕ) (o : Option ℕ)
    → is_forward pkt ≡ true
    → is_set pkt.payload ≡ false
    → pkt.must_terminate ≡ false
    → Waits node pkt start_at o
    → IsRoute node pkt start_at (delayed pkt o)
unfolding delayed
delayed-IsRoute node pkt start_at none forward no_payload goes_on w = drops (untimely forward w)
delayed-IsRoute node pkt start_at (some delay) forward no_payload goes_on w =
    forwards delay forward no_payload goes_on w

-- A forward packet is dropped or scheduled.
route_forward-IsRoute :
    (node : Node) (pkt : Packet) (start_at : ℕ)
    → is_forward pkt ≡ true
    → IsRoute node pkt start_at (route_forward node pkt (start_at - pkt.recv_at))
unfolding route_forward
route_forward-IsRoute node pkt start_at forward =
    let dwell = start_at - pkt.recv_at in
    let requested = delay_of pkt.delay_command in
    let o = adjust_delay node.period requested dwell in
    let inner = if pkt.must_terminate then dropped else delayed pkt o in
    let is = IsRoute node pkt start_at in
    elim (Bool-cases (is_set pkt.payload)) [
      | inl some_payload ↦
          subst is (sym (if_true dropped inner some_payload))
            (drops (has_payload forward some_payload))
      | inr no_payload ↦ elim (Bool-cases pkt.must_terminate) [
        | inl ends ↦
            subst is
              (sym (if_false dropped inner no_payload ∙ if_true dropped (delayed pkt o) ends))
              (drops (terminal forward ends))
        | inr goes_on ↦
            subst is
              (sym (if_false dropped inner no_payload ∙ if_false dropped (delayed pkt o) goes_on))
              (delayed-IsRoute node pkt start_at o forward no_payload goes_on
                (adjust_delay-IsDelay node.period requested dwell))
      ]
    ]

-- A packet that ends at a node with a role of its own.
route_local-IsRoute :
    (node : Node) (pkt : Packet) (start_at : ℕ)
    → is_forward pkt ≡ false
    → (node.is_gateway ≡ true) ⊎ (node.is_service ≡ true)
    → IsRoute node pkt start_at (route_local node pkt start_at)
unfolding route_local
route_local-IsRoute node pkt start_at local role =
    let is = IsRoute node pkt start_at in
    let at_service =
      if node.is_service then service (record pkt { dispatch_at = start_at }) else dropped in
    let at_gateway =
      if node.is_gateway then gateway (record pkt { dispatch_at = start_at }) else at_service in
    let inner = if is_surb_reply pkt && node.expects pkt then decoy pkt else at_gateway in
    elim (Bool-cases pkt.must_forward) [
      | inl goes_on ↦
          subst is (sym (if_true dropped inner goes_on)) (drops (client local role goes_on))
      | inr own ↦ elim (Bool-cases (is_surb_reply pkt && node.expects pkt)) [
        | inl reply ↦
            subst is (sym (if_false dropped inner own ∙ if_true (decoy pkt) at_gateway reply))
              (decoys local (and_left _ _ reply) (and_right _ _ reply) (inl own))
        | inr other ↦
            let goes : route_local node pkt start_at ≡ at_gateway =
              if_false dropped inner own ∙ if_false (decoy pkt) at_gateway other in
            elim (Bool-cases node.is_gateway) [
              | inl is_gateway ↦
                  subst is (sym (goes ∙ if_true (gateway _) at_service is_gateway))
                    (gateways local is_gateway own other)
              | inr no_gateway ↦
                  let is_service : node.is_service ≡ true = elim role [
                    | inl is_gateway ↦ cc
                    | inr is_service ↦ is_service
                  ] in
                  subst is
                    (sym (
                      goes
                      ∙ if_false (gateway _) at_service no_gateway
                      ∙ if_true (service _) dropped is_service))
                    (services local no_gateway is_service own other)
            ]
      ]
    ]

no_roles : (a b : Bool) → (not a && not b) ≡ true → (a ≡ false) × (b ≡ false)
no_roles true b h = cc
no_roles false true h = cc
no_roles false false h = (refl, refl)

a_role : (a b : Bool) → (not a && not b) ≡ false → (a ≡ true) ⊎ (b ≡ true)
a_role true b h = inl refl
a_role false true h = inr refl
a_role false false h = cc

-- Where a worker hands a packet, and why. A forward packet with no payload, which does not have to
-- end here, goes to the scheduler as it came, but for a delay above zero: with the time that it has
-- waited, the delay makes what the client asked for, or a millisecond where it asked for none; where
-- that time is over, the delay is a millisecond. It is dropped if the client asked for more than the
-- epochs that have keys, or asked for none and a millisecond is over. Any other forward packet is
-- dropped. A packet that ends here goes to the decoys if it is a SURB reply that they expect, else to
-- the gateway or the service node, on such a node; but it is dropped there if it has to go on, and
-- dropped on any other node if the decoys do not expect it.
pub route_packet-IsRoute :
    (node : Node) (pkt : Packet) (start_at : ℕ)
    → IsRoute node pkt start_at (route_packet node pkt start_at)
unfolding route_packet
route_packet-IsRoute node pkt start_at =
    let is = IsRoute node pkt start_at in
    let onward = route_forward node pkt (start_at - pkt.recv_at) in
    let reply = if is_surb_reply pkt && node.expects pkt then decoy pkt else dropped in
    let here = route_local node pkt start_at in
    let ends = if not node.is_gateway && not node.is_service then reply else here in
    elim (Bool-cases (is_forward pkt)) [
      | inl forward ↦
          subst is (sym (if_true onward ends forward))
            (route_forward-IsRoute node pkt start_at forward)
      | inr local ↦
          let goes : route_packet node pkt start_at ≡ ends = if_false onward ends local in
          elim (Bool-cases (not node.is_gateway && not node.is_service)) [
            | inr role ↦ subst is (sym (goes ∙ if_false reply here role)) (
                route_local-IsRoute node pkt start_at local
                  (a_role node.is_gateway node.is_service role))
            | inl plain ↦
                let (no_gateway, no_service) = no_roles node.is_gateway node.is_service plain in
                let goes2 : route_packet node pkt start_at ≡ reply =
                  goes ∙ if_true reply here plain in
                elim (Bool-cases (is_surb_reply pkt && node.expects pkt)) [
                  | inl expected ↦ subst is (sym (goes2 ∙ if_true (decoy pkt) dropped expected)) (
                      decoys local (and_left _ _ expected) (and_right _ _ expected)
                        (inr (no_gateway, no_service)))
                  | inr other ↦
                      subst is (sym (goes2 ∙ if_false (decoy pkt) dropped other))
                        (drops (unexpected local no_gateway no_service other))
                ]
          ]
    ]
