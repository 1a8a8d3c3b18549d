-- ===== src/Wire/RoundTrip.antt =====
-- What the encoders of core/wire/commands write, `FromBytes` reads.
use katzenpost_wt.Prelude.{
  ℕ, ◌+◌, ◌<◌, ◌^◌, ◌≡◌, refl, sym, ap, ◌∙◌, List, ◌++◌, some, ok, arith, length, length-append,
  replicate, length-replicate,
}
use katzenpost_wt.Wire.Id.{CommandId}
use katzenpost_wt.Wire.Command.{Command, Commands, Hpqc, invalid_command, bad_reveal}
use katzenpost_wt.Wire.Serialize.{header}
use katzenpost_wt.Wire.Encode.{to_bytes}
use katzenpost_wt.Wire.Parse.{from_bytes, parse}
use katzenpost_wt.Wire.Received.{received, Fits}
use katzenpost_wt.Wire.Sent.{IsSent}
use katzenpost_wt.Wire.Frame.{from_bytes-frame}
use katzenpost_wt.Wire.Client
use katzenpost_wt.Wire.Authority
use katzenpost_wt.Wire.Replica

module _ {Key : Type 0} (hpqc : Hpqc Key) (c : Commands Key) where
  sent : (cmd : Command Key) → Fits hpqc c cmd → IsSent hpqc c cmd
  unfolding Fits to_bytes parse received
  sent Command.no_op fits = Client.sent_no_op hpqc c
  sent Command.disconnect fits = Client.sent_disconnect hpqc c
  sent Command.replica_decoy fits = Replica.sent_replica_decoy hpqc c
  sent (Command.send_packet packet) fits = Client.sent_packet hpqc c packet
  sent (Command.send_retrieve_packet packet) (g, geo, size) =
      Client.sent_retrieve_packet hpqc c packet g geo size
  sent (Command.send_retrieve_packet_reply surb_id payload) fits =
      Client.sent_reply hpqc c surb_id payload fits
  sent (Command.retrieve_message sequence) fits = Client.sent_retrieve_message hpqc c sequence fits
  sent (Command.message hint sequence payload) (h, (g, geo, size)) =
      Client.sent_message hpqc c hint sequence payload g h geo size
  sent (Command.message_ack hint sequence id payload) (h, size, (g, geo, payload_size)) =
      Client.sent_message_ack hpqc c hint sequence id payload g h size geo payload_size
  sent (Command.message_empty sequence) (h, (g, geo)) =
      Client.sent_message_empty hpqc c sequence g h geo
  sent (Command.get_consensus epoch mixnet) fits =
      Authority.sent_get_consensus hpqc c epoch mixnet fits
  sent (Command.get_consensus2 epoch) fits = Authority.sent_get_consensus2 hpqc c epoch fits
  sent (Command.consensus code payload) fits = Authority.sent_consensus hpqc c code payload
  sent (Command.consensus2 code chunk_num chunk_total payload) (h, h2) =
      Authority.sent_consensus2 hpqc c code chunk_num chunk_total payload h h2
  sent (Command.post_descriptor epoch payload) fits =
      Authority.sent_post hpqc c (Command.post_descriptor epoch payload) CommandId.post_descriptor
        Command.post_descriptor epoch payload refl (λ b spare. refl) refl fits
  sent (Command.post_replica_descriptor epoch payload) fits =
      Authority.sent_post hpqc c (Command.post_replica_descriptor epoch payload)
        CommandId.post_replica_descriptor Command.post_replica_descriptor epoch payload refl
        (λ b spare. refl) refl fits
  sent (Command.get_vote epoch key) (h, k) = Authority.sent_get_vote hpqc c epoch key k h
  sent (Command.reveal epoch key payload) (h, k) =
      Authority.sent_signed hpqc c (Command.reveal epoch key payload) CommandId.reveal
        Command.reveal bad_reveal epoch key payload k
        (Authority.reveal_to_bytes-IsKey hpqc c epoch key payload k) (λ b spare. refl) refl h
  sent (Command.vote epoch key payload) (h, k) =
      Authority.sent_signed hpqc c (Command.vote epoch key payload) CommandId.vote Command.vote
        invalid_command epoch key payload k
        (Authority.signed_to_bytes-IsKey hpqc c CommandId.vote epoch key payload k)
        (λ b spare. refl) refl h
  sent (Command.cert epoch key payload) (h, k) =
      Authority.sent_signed hpqc c (Command.cert epoch key payload) CommandId.certificate
        Command.cert invalid_command epoch key payload k
        (Authority.signed_to_bytes-IsKey hpqc c CommandId.certificate epoch key payload k)
        (λ b spare. refl) refl h
  sent (Command.sig epoch key payload) (h, k) =
      Authority.sent_signed hpqc c (Command.sig epoch key payload) CommandId.sig Command.sig
        invalid_command epoch key payload k
        (Authority.signed_to_bytes-IsKey hpqc c CommandId.sig epoch key payload k) (λ b spare. refl)
        refl h
  sent (Command.post_descriptor_status code) fits =
      Authority.sent_status hpqc c _ CommandId.post_descriptor_status Command.post_descriptor_status
        invalid_command code refl (λ b spare. refl) refl
  sent (Command.post_replica_descriptor_status code) fits =
      Authority.sent_status hpqc c _ CommandId.post_replica_descriptor_status
        Command.post_replica_descriptor_status invalid_command code refl (λ b spare. refl) refl
  sent (Command.reveal_status code) fits =
      Authority.sent_status hpqc c _ CommandId.reveal_status Command.reveal_status bad_reveal code
        refl (λ b spare. refl) refl
  sent (Command.vote_status code) fits =
      Authority.sent_status hpqc c _ CommandId.vote_status Command.vote_status invalid_command code
        refl (λ b spare. refl) refl
  sent (Command.cert_status code) fits =
      Authority.sent_status hpqc c _ CommandId.cert_status Command.cert_status invalid_command code
        refl (λ b spare. refl) refl
  sent (Command.sig_status code) fits =
      Authority.sent_status hpqc c _ CommandId.sig_status Command.sig_status invalid_command code
        refl (λ b spare. refl) refl
  sent (Command.replica_message sender dek ciphertext) (scheme, (key, set, size), h) =
      rw (set) (Replica.sent_replica_message hpqc c sender key ciphertext scheme size h)
  sent (Command.replica_message_reply code hash replica_id reply) (bytes, set, size) =
      rw (set) (Replica.sent_replica_message_reply hpqc c code bytes replica_id reply size)
  sent (Command.replica_write box_id signature payload)
        ((box, box_set, box_size), (signed, set, size), h) =
      rw (box_set, set) (Replica.sent_replica_write hpqc c box signed payload box_size size h)
  sent (Command.replica_write_reply code) fits = Replica.sent_replica_write_reply hpqc c code

  -- A command that fits the connection is encoded, with no panic.
  to_bytes-Fits :
      (cmd : Command Key)
      → Fits hpqc c cmd
      → (bytes : List ℕ) × (to_bytes hpqc (some c) cmd ≡ ok bytes)
  to_bytes-Fits cmd fits = (_, (sent cmd fits).written)

  -- What a command that fits the connection is encoded as, with its padding, is decoded to the
  -- command, if it has less than `2 ^ 32` bytes. Of `GetConsensus` the flag is not sent.
  pub from_bytes-Fits :
      (cmd : Command Key) (bytes : List ℕ)
      → Fits hpqc c cmd
      → to_bytes hpqc (some c) cmd ≡ ok bytes
      → length bytes < 2 ^ 32
      → from_bytes hpqc c bytes ≡ ok (received cmd)
  from_bytes-Fits cmd bytes fits writes h =
      let s = sent cmd fits in
      let framed = (header s.id (length s.body) ++ s.body) ++ replicate s.zeros 0 in
      let same : framed ≡ bytes = (let e : ok framed ≡ ok bytes = sym s.written ∙ writes in cc) in
      let small : length s.body + s.zeros < 2 ^ 32 = omega (
        arith,
        ap length same,
        length-append (header s.id (length s.body) ++ s.body) (replicate s.zeros 0),
        length-append (header s.id (length s.body)) s.body,
        length-replicate {A = ℕ} s.zeros 0,
      ) in
      ap (from_bytes hpqc c) (sym same) ∙ from_bytes-frame hpqc c s.id s.body s.zeros small ∙ s.read
