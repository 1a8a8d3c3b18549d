-- ===== src/Wire/Uniform.antt =====
-- The traffic padding of core/wire/commands: the commands of one connection are of one length.
use mathlib.Core.Path.{subst}
use katzenpost_wt.Prelude.{
  ℕ, ◌+◌, ◌-◌, ◌≤◌, ◌≡◌, refl, sym, ◌∙◌, Bool, true, List, ◌++◌, some, ok, arith, length,
  length-append, length-replicate, replicate, ◌==◌, if◌then◌else◌,
}
use katzenpost_wt.Prelude.Bytes.{put_u32}
use katzenpost_wt.Pigeonhole.Wire.{put_u64}
use katzenpost_wt.Sphinx.Geometry.{Geometry}
use katzenpost_wt.Wire.Id.{CommandId}
use katzenpost_wt.Wire.Command.{Command, Commands, Hpqc}
use katzenpost_wt.Wire.Serialize.{header, pad_to_max_command_size}
use katzenpost_wt.Wire.Encode.{
  to_bytes, no_op_to_bytes, disconnect_to_bytes, send_packet_to_bytes,
  send_retrieve_packet_to_bytes, retrieve_message_to_bytes, get_consensus_to_bytes,
  get_consensus2_to_bytes,
}
use katzenpost_wt.Wire.Settings.{new_mixnet_commands, command_length}

-- What clients send to a mix node.
pub data IsUpstream {Key : Type 0} (g : Geometry) : Command Key → Type 0 where
  no_op : IsUpstream g Command.no_op
  disconnect : IsUpstream g Command.disconnect
  send_packet :
      (packet : List ℕ)
      → length packet ≡ g.packet_length
      → IsUpstream g (Command.send_packet packet)
  send_retrieve_packet :
      (packet : List ℕ)
      → length packet ≡ g.packet_length
      → IsUpstream g (Command.send_retrieve_packet packet)
  retrieve_message : (sequence : ℕ) → IsUpstream g (Command.retrieve_message sequence)
  get_consensus : (epoch : ℕ) → IsUpstream g (Command.get_consensus epoch true)
  get_consensus2 : (epoch : ℕ) → IsUpstream g (Command.get_consensus2 epoch)

-- What a gateway sends to a client, but the old `Consensus`, which is not padded. A chunk of a
-- consensus has to leave room for its own header.
pub data IsDownstream {Key : Type 0} (g : Geometry) : Command Key → Type 0 where
  message :
      (hint sequence : ℕ) (payload : List ℕ)
      → length payload ≡ g.user_forward_payload_length
      → IsDownstream g (Command.message hint sequence payload)
  message_ack :
      (hint sequence : ℕ) (id payload : List ℕ)
      → length payload ≡ g.payload_tag_length + g.forward_payload_length
      → IsDownstream g (Command.message_ack hint sequence id payload)
  message_empty : (sequence : ℕ) → IsDownstream g (Command.message_empty sequence)
  send_retrieve_packet_reply :
      (surb_id payload : List ℕ)
      → length payload ≡ g.user_forward_payload_length
      → IsDownstream g (Command.send_retrieve_packet_reply surb_id payload)
  consensus2 :
      (code chunk_num chunk_total : ℕ) (payload : List ℕ)
      → length payload ≤ 12 + g.packet_length
      → IsDownstream g (Command.consensus2 code chunk_num chunk_total payload)

module _ {Key : Type 0} (hpqc : Hpqc Key) where
  pad-length :
      (c : Commands Key) (out : List ℕ) (is_upstream : Bool) (limit : ℕ)
      → (if is_upstream
          then c.max_message_len_client_to_server
          else c.max_message_len_server_to_client)
        ≡ limit
      → length out ≤ limit
      → length (pad_to_max_command_size c out is_upstream) ≡ limit
  unfolding pad_to_max_command_size
  pad-length c out is_upstream limit set h =
      rw (pad_to_max_command_size, set)
        (ground (
          arith,
          length-append out (replicate (limit - length out) 0),
          length-replicate {A = ℕ} (limit - length out) 0,
        ))

  record MixnetLimits (g : Geometry) (c : Commands Key) : Type 0 where
    geo : c.geo ≡ some g
    up_request : 14 ≤ c.max_message_len_client_to_server
    up_packet : 6 + g.packet_length ≤ c.max_message_len_client_to_server
    down : 27 + g.packet_length ≤ c.max_message_len_server_to_client
    reply : 22 + g.user_forward_payload_length ≤ c.max_message_len_server_to_client

  mixnet_limits :
      (g : Geometry) (c : Commands Key) → new_mixnet_commands hpqc g ≡ ok c → MixnetLimits g c
  unfolding new_mixnet_commands command_length
  mixnet_limits g c made =
      let (c2, made2, limits) : (c : Commands Key) × (new_mixnet_commands hpqc g ≡ ok c)
          × MixnetLimits g c =
        (
          _,
          refl,
          record {
            geo = refl;
            up_request = ground arith;
            up_packet = ground arith;
            down = ground arith;
            reply = ground arith;
          },
        ) in
      let same : c2 ≡ c = (let e : ok c2 ≡ ok c = sym made2 ∙ made in cc) in
      subst (MixnetLimits g) same limits

  -- A command that is encoded, to a given number of bytes.
  unfoldable pub IsPaddedTo : Commands Key → Command Key → ℕ → Type 0
  IsPaddedTo c cmd limit =
      (bytes : List ℕ) × (to_bytes hpqc (some c) cmd ≡ ok bytes) × (length bytes ≡ limit)

  pub padded_to :
      (c : Commands Key) (cmd : Command Key) (out : List ℕ) (is_upstream : Bool)
      → to_bytes hpqc (some c) cmd ≡ ok (pad_to_max_command_size c out is_upstream)
      → length out ≤ (
          if is_upstream
          then c.max_message_len_client_to_server
          else c.max_message_len_server_to_client)
      → IsPaddedTo c cmd (
          if is_upstream
          then c.max_message_len_client_to_server
          else c.max_message_len_server_to_client)
  unfolding IsPaddedTo
  padded_to c cmd out is_upstream writes h = (_, writes, pad-length c out is_upstream _ refl h)

  uniform_upstream :
      (g : Geometry) (c : Commands Key) {cmd : Command Key}
      → MixnetLimits g c
      → IsUpstream g cmd
      → IsPaddedTo c cmd c.max_message_len_client_to_server
  unfolding to_bytes no_op_to_bytes disconnect_to_bytes send_packet_to_bytes
      send_retrieve_packet_to_bytes retrieve_message_to_bytes get_consensus_to_bytes
      get_consensus2_to_bytes header put_u64 put_u32
  uniform_upstream g c l no_op = padded_to c _ _ true refl (omega (arith, l.up_request))
  uniform_upstream g c l disconnect = padded_to c _ _ true refl (omega (arith, l.up_request))
  uniform_upstream g c l (send_packet packet size) =
      padded_to c _ _ true refl (omega (arith, l.up_packet))
  uniform_upstream g c l (send_retrieve_packet packet size) =
      let whole : (length packet == g.packet_length) ≡ true = ground arith in
      padded_to c _ (header CommandId.send_retrieve_packet (length packet) ++ packet) true
        (rw (to_bytes, l.geo, whole)) (omega (arith, l.up_packet))
  uniform_upstream g c l (retrieve_message sequence) =
      padded_to c _ _ true refl (omega (arith, l.up_request))
  uniform_upstream g c l (get_consensus epoch) =
      padded_to c _ _ true refl (omega (arith, l.up_request))
  uniform_upstream g c l (get_consensus2 epoch) =
      padded_to c _ _ true refl (omega (arith, l.up_request))

  -- What a client sends over the mixnet is encoded, and the encodings of all commands have one
  -- length, the maximum that the constructor of the settings computes.
  pub to_bytes-IsUpstream :
      (g : Geometry) (c : Commands Key) (cmd : Command Key)
      → new_mixnet_commands hpqc g ≡ ok c
      → IsUpstream g cmd
      → (bytes : List ℕ) × (to_bytes hpqc (some c) cmd ≡ ok bytes)
        × (length bytes ≡ c.max_message_len_client_to_server)
  unfolding IsPaddedTo
  to_bytes-IsUpstream g c cmd made up = uniform_upstream g c (mixnet_limits g c made) up
