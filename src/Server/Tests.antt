-- ===== src/Server/Tests.antt =====
-- Runs of the packet path of a mix server.
use katzenpost_wt.Prelude.{
  ℕ, Bool, true, false, List, [], ◌∷◌, none, some, if◌then◌else◌, Bool-cases, inl, inr, ◌++◌,
  replicate,
}
use katzenpost_wt.Prelude.Bytes.{bytes_eq, bytes_eq_refl}
use katzenpost_wt.Sphinx.Tests.{toy, small}
use katzenpost_wt.Server.Packet.{Packet}
use katzenpost_wt.Server.MixKey.{Bloom, IsBloom, MixKey}
use katzenpost_wt.Server.CryptoWorker.{Node, Now, route_packet, history, do_unwrap}
use katzenpost_wt.Server.Routing.{IsRoute, route_packet-IsRoute}
use katzenpost_wt.Server.Replay.{IsStep, do_unwrap-IsStep}
use katzenpost_wt.Server.History.{Distinct, history-Distinct}

-- A filter that keeps the tags themselves.
abbrev has_tag : List (List ℕ) → List ℕ → Bool
has_tag [] tag = false
has_tag (t ∷ tags) tag = if bytes_eq t tag then true else has_tag tags tag

abbrev exact : Bloom
exact = record {
  Filter = List (List ℕ);
  entries = λ tags. 0;
  max_entries = λ tags. 100;
  test_and_set = λ tags tag. (has_tag tags tag, tag ∷ tags);
}

exact-IsBloom : IsBloom exact
exact-IsBloom = record {
  found = λ tags tag. rw (bytes_eq_refl tag);
  kept = λ tags tag other h. elim (Bool-cases (bytes_eq other tag)) [
    | inl same ↦ rw same
    | inr differ ↦ rw (differ, h)
  ];
}

abbrev mix : Node
mix = record { is_gateway = false; is_service = false; period = 1000000000; expects = λ pkt. false }

abbrev onward : Packet
onward = record {
  raw = [];
  payload = none;
  next_hop = some ([], []);
  delay_command = some 7;
  recipient_id = none;
  surb_id = none;
  id = 1;
  delay = 0;
  recv_at = 10;
  dispatch_at = 0;
  must_forward = false;
  must_terminate = false;
}

route_packet-IsRoute_example : IsRoute mix onward 20 (route_packet mix onward 20)
route_packet-IsRoute_example = route_packet-IsRoute mix onward 20

-- A packet that ends at this hop: its block holds no command, and its payload is zero.
abbrev last_packet : Packet
last_packet = record onward {
  raw = 0 ∷ 0 ∷ 0 ∷ (replicate 246 9 ++ (replicate 32 249 ++ replicate 36 85));
}

abbrev key : MixKey toy exact
key = record { private_key = true; epoch = 5; filter = [] }

abbrev now : Now
now = record { epoch = 5; elapsed = 400000000000; till = 400000000000 }

do_unwrap-IsStep_example :
    IsStep toy exact small
      ((5, 0) ∷ [])
      now
      last_packet
      (key ∷ [])
      (do_unwrap toy exact small (key ∷ []) ((5, 0) ∷ []) now last_packet).0
      (do_unwrap toy exact small (key ∷ []) ((5, 0) ∷ []) now last_packet).1
do_unwrap-IsStep_example = do_unwrap-IsStep toy exact small ((5, 0) ∷ []) now last_packet (key ∷ [])

abbrev twice : List (List (ℕ × ℕ) × Now × Packet)
twice = ((5, 0) ∷ [], now, last_packet) ∷ ((5, 0) ∷ [], now, last_packet) ∷ []

history-Distinct_example : Distinct (history toy exact small (key ∷ []) twice)
history-Distinct_example = history-Distinct toy exact exact-IsBloom small (key ∷ []) twice
