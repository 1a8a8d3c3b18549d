-- ===== src/Courier/Delivery.antt =====
-- A copy stream that fits into the ceilings of courier/server/plugin.go.
use mathlib.Core.Path.{subst}
use katzenpost_wt.Prelude.{
  ℕ, zero, suc, ◌+◌, ◌^◌, ◌<◌, ◌≤◌, ◌≡◌, refl, sym, ap, ◌∙◌, Bool, true, false, List, [], ◌∷◌, ◌++◌,
  Option, none, some, Run, ok, arith, length, length-append, leb, All, inl, inr, Bool-cases,
  if_true, if_false, ◌>>=◌, >>=-eq-ok,
}
use katzenpost_wt.Pigeonhole.Envelope.{CourierEnvelope}
use katzenpost_wt.Pigeonhole.CopyStream.{
  Format, StreamError, EnvelopeDecoder, new_envelope_decoder, add_box_data, decode_envelopes,
}
use katzenpost_wt.Pigeonhole.CopyStream.Sending.{send_stream}
use katzenpost_wt.Pigeonhole.CopyStream.Delivery.{receive, between, Taken, after_box}
use katzenpost_wt.Pigeonhole.CopyStream.Couriers.{courier_format, Fits, courier_stream-delivers}
use katzenpost_wt.Courier.CopyCommand.{
  Read, plaintext, Copied, dispatch_all, and_then, after_dispatch, after_decode, copy_boxes,
  process_copy_command, copy_succeeded_reply, max_copy_stream_envelopes, max_copy_stream_boxes,
}

-- The boxes from place `n` on are these.
abbrev pub Holds : (ℕ → Read) → ℕ → List (List ℕ) → Type 0
Holds reads n [] = Unit
Holds reads n (b ∷ bs) = (reads n ≡ plaintext b) × Holds reads (suc n) bs

All-parts {ℓ κ} :
    {A : Type ℓ} (P : A → Type κ) (xs ys : List A) → All P (xs ++ ys) → All P xs × All P ys
All-parts P [] ys h = (tt, h)
All-parts P (x ∷ xs) ys (p, h) = let (l, r) = All-parts P xs ys h in ((p, l), r)

module _ (F : Format) (max limit : ℕ) (dispatch : F.Envelope → Bool × ℕ) where
  open F use {Envelope}

  -- The replicas take the envelope.
  abbrev pub Sends : Envelope → Type 0
  Sends e = (dispatch e).0 ≡ true

  dispatch_all-Sends : (es : List Envelope) → All Sends es → dispatch_all F dispatch es ≡ (es, none)
  unfolding dispatch_all
  dispatch_all-Sends [] sends = refl
  dispatch_all-Sends (e ∷ es) (sent, sends) = rw (dispatch_all, sent, dispatch_all-Sends es sends)

  abbrev succeeded : List Envelope → Copied F
  succeeded es = record { dispatched = es; reply = copy_succeeded_reply }

  -- One round in which the decoder has no error.
  after_decode-succeeds :
      (envs : List Envelope) (state : EnvelopeDecoder) (failure : Option StreamError)
      (bs : List (List ℕ)) (more : Run StreamError (Taken F max limit))
      (go_on : ℕ → EnvelopeDecoder → Copied F) (processed : ℕ) (es : List Envelope)
      (end : EnvelopeDecoder)
      → after_box F max limit
          (record { envelopes = envs; state = state; failure = failure })
          bs
          more
        ≡ ok (es, [], end)
      → All Sends es
      → ((later : List Envelope)
          → more ≡ ok (later, [], end)
          → All Sends later
          → state.saw_final ≡ false
          → envs ++ later ≡ es
          → go_on (processed + length envs) state ≡ succeeded later)
      → after_decode F dispatch processed envs state failure go_on ≡ succeeded es
  unfolding after_decode after_dispatch and_then
  after_decode-succeeds envs state (some e) bs more go_on processed es end h sends ih = absurd (cc)
  after_decode-succeeds envs state none bs more go_on processed es end h sends ih =
      let rest : Run StreamError (Taken F max limit) =
        more >>= λ (es, left, d). ok (envs ++ es, left, d) in
      let at_end : Run StreamError (Taken F max limit) = ok (envs, bs, state) in
      let dispatched : List Envelope × Option ℕ → Copied F =
        λ o. after_dispatch F state processed o go_on in
      elim (Bool-cases state.saw_final) [
        | inl final ↦
            let e : at_end ≡ ok (es, [], end) = sym (if_true at_end rest final) ∙ h in
            let same : envs ≡ es = cc in
            let all = dispatch_all-Sends es sends in
            ap (λ t. dispatched (dispatch_all F dispatch t)) same
            ∙ ap dispatched all
            ∙ rw (after_dispatch, final)
        | inr goes_on ↦
            let e : rest ≡ ok (es, [], end) = sym (if_false at_end rest goes_on) ∙ h in
            let ((later, left, d), made, runs) = >>=-eq-ok more _ e in
            let whole : envs ++ later ≡ es = cc in
            let none_left : left ≡ [] = cc in
            let same_end : d ≡ end = cc in
            let answer : more ≡ ok (later, [], end) = rw (sym none_left, sym same_end) runs in
            let (now, after) = All-parts Sends envs later (subst (All Sends) (sym whole) sends) in
            ap dispatched (dispatch_all-Sends envs now)
            ∙ rw (after_dispatch, goes_on, ih later answer after goes_on whole) (ap succeeded whole)
      ]

  -- The loop dispatches what the decoder gives.
  copy_boxes-succeeds :
      (reads : ℕ → Read) (room n processed : ℕ) (d : EnvelopeDecoder) (bs : List (List ℕ))
      (es : List Envelope) (end : EnvelopeDecoder)
      → d.saw_final ≡ false
      → end.saw_final ≡ true
      → receive F max limit d bs ≡ ok (es, [], end)
      → Holds reads n bs
      → All Sends es
      → length bs ≤ room
      → processed + length es < max_copy_stream_envelopes
      → copy_boxes F dispatch reads room n processed d ≡ succeeded es
  unfolding receive copy_boxes
  copy_boxes-succeeds reads room n processed d [] es end open_ final h holds sends fits few =
      let same : d ≡ end = cc in
      let e : false ≡ true = sym open_ ∙ ap (λ d. d.saw_final) same ∙ final in absurd (cc)
  copy_boxes-succeeds reads zero n processed d (b ∷ bs) es end open_ final h holds sends fits few =
      absurd (omega arith)
  copy_boxes-succeeds reads (suc room) n processed d (b ∷ bs) es end open_ final h (here, holds)
        sends fits few =
      let r = decode_envelopes F (add_box_data d b) in
      let within : leb max_copy_stream_envelopes processed ≡ false = ground arith in
      rw (copy_boxes, within, here)
        (after_decode-succeeds r.envelopes r.state r.failure bs (receive F max limit r.state bs) _
          processed es end h sends
          (λ later answer rest_sends goes_on whole.
            copy_boxes-succeeds reads room (suc n) (processed + length r.envelopes) r.state bs later
              end goes_on final answer holds rest_sends (omega arith)
              (omega (arith, few, ap length whole, length-append r.envelopes later))))

-- The copy of a whole stream. A client encodes less than `2 ^ 16` envelopes, one or more of them,
-- into at most `2 ^ 16` boxes. The envelopes are well-formed and their encodings are no longer than the
-- decoder's limit; boxes are of more than five bytes, and both sizes are below `2 ^ 32`. If the courier
-- opens the stream and reads these boxes from it, and the replicas take every envelope, then
-- `processCopyCommand` dispatches exactly the client's envelopes, in order, and answers that the copy
-- succeeded.
pub process_copy_command-delivers :
    (max limit : ℕ) (x : CourierEnvelope) (xs : List CourierEnvelope) (sent : List (List ℕ))
    (reads : ℕ → Read) (dispatch : CourierEnvelope → Bool × ℕ)
    → limit < 2 ^ 32
    → 5 < max
    → max < 2 ^ 32
    → All (Fits limit) (x ∷ xs)
    → send_stream courier_format max (x ∷ xs) ≡ ok sent
    → length (x ∷ xs) < 2 ^ 16
    → length sent ≤ 2 ^ 16
    → Holds reads 0 sent
    → All (λ e. (dispatch e).0 ≡ true) (x ∷ xs)
    → process_copy_command courier_format dispatch (some reads) max limit
      ≡ record { dispatched = x ∷ xs; reply = copy_succeeded_reply }
unfolding process_copy_command new_envelope_decoder
process_copy_command-delivers max limit x xs sent reads dispatch small room word fits encodes few
      boxes holds sends =
    let (made, runs, sizes, received) =
      courier_stream-delivers limit small max x xs room word fits in
    let e : ok made ≡ ok sent = sym runs ∙ encodes in
    let same : made ≡ sent = cc in
    copy_boxes-succeeds courier_format max limit dispatch reads max_copy_stream_boxes 0 0
      (new_envelope_decoder max limit) sent (x ∷ xs) (between max limit [] true) refl refl
      (ap (receive courier_format max limit (new_envelope_decoder max limit)) (sym same) ∙ received)
      holds sends (omega arith) (omega arith)
