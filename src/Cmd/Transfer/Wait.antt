-- ===== src/Cmd/Transfer/Wait.antt =====
-- The turns of `TftpTranserWait`.
use panog2_ldr.Base.{
  ℕ, ◌≡◌, ◌≢◌, ap, ◌∙◌, arith, List, [], ◌∷◌, Outcome, returns, ◌>>=◌, if◌then◌else◌,
}
use panog2_ldr.Spi.{Spi}
use panog2_ldr.Tftp.{in_progress, is_in_progress}
use panog2_ldr.Console.{Console}
use panog2_ldr.Cmd.{Sys, Parser, Result}
use panog2_ldr.Cmd.Transfer.{Event, tftp_transfer_wait, report, poll, show_progress}

module _ (spi : Spi) (con : Console) (parser : Parser) where
  -- A wait whose transfer has ended reports at once.
  pub wait_over :
      (events : List Event) (n : ℕ) (s : Sys spi.Flash con.Net)
      → s.ldr.error ≢ in_progress
      → tftp_transfer_wait spi con parser events n s ≡ returns (report spi con parser n s)
  unfolding tftp_transfer_wait
  wait_over [] n s h = ground arith
  wait_over (e ∷ events) n s h = ground arith

  -- A turn polls, and shows the progress.
  pub wait_step :
      (e : Event) (events : List Event) (n : ℕ) (s t : Sys spi.Flash con.Net)
      → s.ldr.error ≡ in_progress
      → poll spi con parser e s ≡ returns t
      → tftp_transfer_wait spi con parser (e ∷ events) n s
        ≡ tftp_transfer_wait spi con parser events
            (show_progress spi con parser n t).0
            (show_progress spi con parser n t).1
  unfolding tftp_transfer_wait
  wait_step e events n s t running came =
      ap (λ b. if is_in_progress b then turn else returns (report spi con parser n s)) running
      ∙ ap (λ r. r >>= λ q. after (show_progress spi con parser n q)) came
    where
      after : ℕ × Sys spi.Flash con.Net → Outcome (Result × Sys spi.Flash con.Net)
      after q = tftp_transfer_wait spi con parser events q.0 q.1

      turn : Outcome (Result × Sys spi.Flash con.Net)
      turn = poll spi con parser e s >>= λ q. after (show_progress spi con parser n q)
