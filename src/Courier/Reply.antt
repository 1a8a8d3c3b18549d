-- ===== src/Courier/Reply.antt =====
-- What `processCopyCommand` of courier/server/plugin.go answers.
use katzenpost_wt.Prelude.{ℕ, ◌+◌, ◌≡◌, length, ◌⊎◌}
use katzenpost_wt.Pigeonhole.CopyStream.{Format}
use katzenpost_wt.Courier.CopyCommand.{Copied, copy_succeeded_reply, copy_failed_reply}

module _ (F : Format) where
  open F use {Envelope}

  -- A failure names the envelope after those that were dispatched, `processed` of them before.
  abbrev pub Counts : ℕ → Copied F → Type 0
  Counts processed c =
      (c.reply ≡ copy_succeeded_reply)
      ⊎ ((code : ℕ) × (c.reply ≡ copy_failed_reply code (processed + length c.dispatched + 1)))
