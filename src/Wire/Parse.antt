-- ===== src/Wire/Parse.antt =====
-- `Commands.FromBytes` of core/wire/commands/commands.go. The buffer that it reads has no capacity
-- behind its length.
use katzenpost_wt.Prelude.{
  ℕ, ◌%◌, ◌^◌, false, not, List, Option, none, some, Run, ok, err, or_fail, refuse_if, panic_unless,
  leb, ◌>>=◌, ◌>>◌, length, take, drop, get_or, ltb, ◌==◌, if◌then◌else◌,
}
use katzenpost_wt.Prelude.Bytes.{get_u32, ct_is_zero}
use katzenpost_wt.Wire.Id.{CommandId, command_id}
use katzenpost_wt.Wire.Command.{Command, Commands, Hpqc, WireError, invalid_command, bad_reveal}
use katzenpost_wt.Wire.Serialize.{cmd_overhead}
use katzenpost_wt.Wire.Body.{
  status_from_bytes, post_from_bytes, epoch_from_bytes, consensus_from_bytes, consensus2_from_bytes,
  send_retrieve_packet_reply_from_bytes, retrieve_message_from_bytes, signed_from_bytes,
  get_vote_from_bytes, message_from_bytes, replica_message_reply_from_bytes,
  replica_write_from_bytes, replica_message_from_bytes,
}

module _ {Key : Type 0} (hpqc : Hpqc Key) where
  -- The second `switch commandID(id)`: `b` is the command's body, and `spare` what follows it in the
  -- buffer.
  unfoldable pub parse : Commands Key → CommandId → List ℕ → List ℕ → Run WireError (Command Key)
  unfolding status_from_bytes post_from_bytes epoch_from_bytes consensus_from_bytes
      consensus2_from_bytes send_retrieve_packet_reply_from_bytes retrieve_message_from_bytes
      signed_from_bytes get_vote_from_bytes message_from_bytes replica_message_reply_from_bytes
      replica_write_from_bytes replica_message_from_bytes
  parse c CommandId.consensus2 b spare = consensus2_from_bytes b spare
  parse c CommandId.post_replica_descriptor b spare =
      post_from_bytes Command.post_replica_descriptor b
  parse c CommandId.post_replica_descriptor_status b spare =
      status_from_bytes Command.post_replica_descriptor_status invalid_command b
  parse c CommandId.replica_write b spare = replica_write_from_bytes hpqc b
  parse c CommandId.replica_write_reply b spare =
      status_from_bytes Command.replica_write_reply invalid_command b
  parse c CommandId.replica_message b spare =
      replica_message_from_bytes hpqc c.replica_nike_scheme b
  parse c CommandId.replica_message_reply b spare = replica_message_reply_from_bytes b
  parse c CommandId.replica_decoy b spare = ok Command.replica_decoy
  parse c CommandId.send_retrieve_packet b spare = ok (Command.send_retrieve_packet b)
  parse c CommandId.send_retrieve_packet_reply b spare =
      send_retrieve_packet_reply_from_bytes b spare
  parse c CommandId.send_packet b spare = ok (Command.send_packet b)
  parse c CommandId.retrieve_message b spare = retrieve_message_from_bytes b
  parse c CommandId.message b spare = message_from_bytes c.geo b
  parse c CommandId.get_consensus b spare =
      epoch_from_bytes (λ epoch. Command.get_consensus epoch false) b
  parse c CommandId.get_consensus2 b spare = epoch_from_bytes Command.get_consensus2 b
  parse c CommandId.consensus b spare = consensus_from_bytes b
  parse c CommandId.post_descriptor b spare = post_from_bytes Command.post_descriptor b
  parse c CommandId.post_descriptor_status b spare =
      status_from_bytes Command.post_descriptor_status invalid_command b
  parse c CommandId.get_vote b spare = get_vote_from_bytes c.pki_signature_scheme b
  parse c CommandId.vote b spare =
      signed_from_bytes c.pki_signature_scheme Command.vote invalid_command b
  parse c CommandId.vote_status b spare = status_from_bytes Command.vote_status invalid_command b
  parse c CommandId.certificate b spare =
      signed_from_bytes c.pki_signature_scheme Command.cert invalid_command b
  parse c CommandId.cert_status b spare = status_from_bytes Command.cert_status invalid_command b
  parse c CommandId.reveal b spare =
      signed_from_bytes c.pki_signature_scheme Command.reveal bad_reveal b
  parse c CommandId.reveal_status b spare = status_from_bytes Command.reveal_status bad_reveal b
  parse c CommandId.sig b spare =
      signed_from_bytes c.pki_signature_scheme Command.sig invalid_command b
  parse c CommandId.sig_status b spare = status_from_bytes Command.sig_status invalid_command b
  parse c CommandId.no_op b spare = err invalid_command
  parse c CommandId.disconnect b spare = err invalid_command

  -- The first `switch`: what a command with no body does. `none` goes on to the parsers.
  unfoldable pub no_payload : CommandId → Option (Run WireError (Command Key))
  no_payload CommandId.no_op = some (ok Command.no_op)
  no_payload CommandId.disconnect = some (ok Command.disconnect)
  no_payload CommandId.replica_decoy = some (ok Command.replica_decoy)
  no_payload CommandId.send_packet = none
  no_payload CommandId.post_descriptor = none
  no_payload CommandId.send_retrieve_packet = none
  no_payload CommandId.send_retrieve_packet_reply = none
  no_payload _ = some (err invalid_command)

  -- Both switches, for an identifier that has a `case`.
  unfoldable pub dispatch :
      Commands Key → CommandId → ℕ → List ℕ → List ℕ → Run WireError (Command Key)
  unfolding parse no_payload
  dispatch c id cmd_len b spare = elim (if cmd_len == 0 then no_payload id else none) [
    | some done ↦ done
    | none ↦ parse c id b spare
  ]

  unfoldable pub from_bytes : Commands Key → List ℕ → Run WireError (Command Key)
  unfolding dispatch
  from_bytes c b = do
    refuse_if (ltb (length b) cmd_overhead) invalid_command
    panic_unless (leb cmd_overhead (length b))
    refuse_if (not (get_or b 1 0 == 0)) invalid_command
    let cmd_len = get_u32 (drop 2 b)
    let rest = drop cmd_overhead b
    refuse_if (ltb (length rest % 2 ^ 32) cmd_len) invalid_command
    panic_unless (leb cmd_len (length rest))
    refuse_if (not (ct_is_zero (drop cmd_len rest))) invalid_command
    id ← or_fail (command_id (get_or b 0 0)) invalid_command
    dispatch c id cmd_len (take cmd_len rest) (drop cmd_len rest)
