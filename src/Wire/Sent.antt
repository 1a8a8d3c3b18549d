-- ===== src/Wire/Sent.antt =====
-- Each command of core/wire/commands as its encoder writes it: the body in the frame, and what the
-- parser of the command makes of that body.
use katzenpost_wt.Prelude.{
  ℕ, ◌<◌, ◌≡◌, sym, ap, ◌∙◌, Bool, List, [], ◌++◌, some, ok, arith, length, replicate,
}
use mathlib.Core.List.{append-nil}
use katzenpost_wt.Wire.Id.{CommandId}
use katzenpost_wt.Wire.Command.{Command, Commands, Hpqc}
use katzenpost_wt.Wire.Serialize.{header, pad_to_max_command_size}
use katzenpost_wt.Wire.Encode.{to_bytes}
use katzenpost_wt.Wire.Parse.{dispatch, parse}
use katzenpost_wt.Wire.Received.{received}
use katzenpost_wt.Wire.Frame.{pad-append, dispatch-parse}

module _ {Key : Type 0} (hpqc : Hpqc Key) (c : Commands Key) where
  -- The encoder frames a body, which the switches of the decoder make into the command again.
  pub record IsSent (cmd : Command Key) : Type 0 where
    pub id : CommandId
    pub body : List ℕ
    pub zeros : ℕ
    pub written :
        to_bytes hpqc (some c) cmd ≡ ok ((header id (length body) ++ body) ++ replicate zeros 0)
    pub read : dispatch hpqc c id (length body) body (replicate zeros 0) ≡ ok (received cmd)

  -- The body has the length that the encoder writes, and the switches take it.
  pub record IsBody (cmd : Command Key) (id : CommandId) (n : ℕ) (body : List ℕ) : Type 0 where
    pub size : length body ≡ n
    pub reads : (spare : List ℕ) → dispatch hpqc c id (length body) body spare ≡ ok (received cmd)

  pub to_parse :
      (cmd : Command Key) (id : CommandId) (n : ℕ) (body : List ℕ)
      → length body ≡ n
      → 0 < n
      → ((spare : List ℕ) → parse hpqc c id body spare ≡ ok (received cmd))
      → IsBody cmd id n body
  to_parse cmd id n body size h reads = record {
    size = size;
    reads = λ spare. dispatch-parse hpqc c id (length body) body spare (omega arith) ∙ reads spare;
  }

  pub sent_padded :
      (cmd : Command Key) (id : CommandId) (n : ℕ) (body : List ℕ) (is_upstream : Bool)
      → to_bytes hpqc (some c) cmd
        ≡ ok (pad_to_max_command_size c (header id n ++ body) is_upstream)
      → IsBody cmd id n body
      → IsSent cmd
  sent_padded cmd id n body is_upstream writes b =
      let (k, grown) = pad-append c (header id n ++ body) is_upstream in
      record {
        id = id;
        body = body;
        zeros = k;
        written =
            writes
            ∙ ap ok grown
            ∙ ap (λ l. ok ((header id l ++ body) ++ replicate k 0)) (sym b.size);
        read = b.reads (replicate k 0);
      }

  pub sent_plain :
      (cmd : Command Key) (id : CommandId) (n : ℕ) (body : List ℕ)
      → to_bytes hpqc (some c) cmd ≡ ok (header id n ++ body)
      → IsBody cmd id n body
      → IsSent cmd
  sent_plain cmd id n body writes b = record {
    id = id;
    body = body;
    zeros = 0;
    written =
        writes
        ∙ ap ok (sym (append-nil (header id n ++ body)))
        ∙ ap (λ l. ok ((header id l ++ body) ++ [])) (sym b.size);
    read = b.reads [];
  }
