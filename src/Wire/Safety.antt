-- ===== src/Wire/Safety.antt =====
-- Where `FromBytes` of core/wire/commands panics.
use katzenpost_wt.Prelude.{
  ℕ, zero, suc, ◌<◌, ◌^◌, ◌≡◌, refl, ◌∙◌, Bool, true, false, List, [], ◌∷◌, ◌++◌, some, Run, ok,
  err, panic, arith, length, drop, leb, if◌then◌else◌, ◌⊎◌, replicate, length-replicate,
}
use katzenpost_wt.Prelude.Bytes.{get_u32}
use katzenpost_wt.Sphinx.Geometry.{Geometry}
use katzenpost_wt.Wire.Id.{CommandId}
use katzenpost_wt.Wire.Command.{Command, Commands, Hpqc, SignScheme}
use katzenpost_wt.Wire.Body.{consensus2_from_bytes, send_retrieve_packet_reply_from_bytes}
use katzenpost_wt.Wire.Frame.{from_bytes-frame, dispatch-parse_any}
use katzenpost_wt.Wire.Serialize.{header}
use katzenpost_wt.Wire.Parse.{from_bytes, dispatch, parse, no_payload}

abbrev panicked {ℓ} : {E : Type 0} {A : Type ℓ} → Run E A → Bool
panicked (ok a) = false
panicked (err e) = false
panicked panic = true

get_u32-zeros : (k : ℕ) → get_u32 (replicate k 0) ≡ 0
unfolding get_u32
get_u32-zeros zero = refl
get_u32-zeros (suc zero) = refl
get_u32-zeros (suc (suc zero)) = refl
get_u32-zeros (suc (suc (suc zero))) = refl
get_u32-zeros (suc (suc (suc (suc k)))) = refl

get_u32-drop_zeros : (n k : ℕ) → get_u32 (drop n (replicate k 0)) ≡ 0
get_u32-drop_zeros zero k = get_u32-zeros k
get_u32-drop_zeros (suc n) zero = get_u32-zeros 0
get_u32-drop_zeros (suc n) (suc k) = get_u32-drop_zeros n k

-- The settings of a connection that any command may come in on.
pub record IsConfigured {Key : Type 0} (c : Commands Key) : Type 0 where
  pub geometry : Geometry
  pub has_geometry : c.geo ≡ some geometry
  pub scheme : SignScheme Key
  pub has_scheme : c.pki_signature_scheme ≡ some scheme
  pub nike : ℕ
  pub has_nike : c.replica_nike_scheme ≡ some nike

-- The parsers that read on past the body they are given.
abbrev ReadsOn : CommandId → List ℕ → List ℕ → Type 0
ReadsOn id b spare =
    ((id ≡ CommandId.consensus2) × (length (b ++ spare) < 9))
    ⊎ ((id ≡ CommandId.send_retrieve_packet_reply) × (length b < 16))

module _ {Key : Type 0} (hpqc : Hpqc Key) (c : Commands Key) where
  -- A frame with a one-byte `Consensus2` is never refused: with fewer than eight bytes of padding the
  -- decoder panics, and with more it reads the number and the total of the chunk from the padding.
  pub from_bytes-short_consensus2 :
      (code k : ℕ)
      → k < 2 ^ 31
      → from_bytes hpqc c ((header CommandId.consensus2 1 ++ (code ∷ [])) ++ replicate k 0)
        ≡ (if leb 8 k then ok (Command.consensus2 code 0 0 []) else panic)
  unfolding dispatch parse consensus2_from_bytes
  from_bytes-short_consensus2 code k h =
      from_bytes-frame hpqc c CommandId.consensus2 (code ∷ []) k (omega arith)
      ∙ rw (length-replicate {A = ℕ} k 0, get_u32-zeros k, get_u32-drop_zeros 4 k) (ground arith)

  -- A frame of `SendRetrievePacketReply` with a body of less than sixteen bytes makes the decoder
  -- panic, whatever the body and the padding are.
  pub from_bytes-short_reply :
      (body : List ℕ) (k : ℕ)
      → length body < 16
      → k < 2 ^ 31
      → from_bytes hpqc c
          ((header CommandId.send_retrieve_packet_reply (length body) ++ body) ++ replicate k 0)
        ≡ panic
  unfolding parse no_payload send_retrieve_packet_reply_from_bytes
  from_bytes-short_reply body k short h =
      from_bytes-frame hpqc c CommandId.send_retrieve_packet_reply body k (omega arith)
      ∙ dispatch-parse_any hpqc c CommandId.send_retrieve_packet_reply (length body) body
          (replicate k 0) refl
      ∙ ground arith
