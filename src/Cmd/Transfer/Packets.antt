-- ===== src/Cmd/Transfer/Packets.antt =====
-- What the polls of a transfer bring, what the progress changes, and the end of the wait.
use panog2_ldr.Base.{
  ℕ, ◌+◌, ◌≡◌, refl, ap, ◌∙◌, arith, Bool, true, false, List, [], ◌∷◌, some, none, Option, get_or,
  returns, if◌then◌else◌, ltb, u32,
}
use panog2_ldr.Spi.{Spi}
use panog2_ldr.Tftp.{tftp_ok, in_progress, tftp_close, progress_size, is_in_progress}
use panog2_ldr.Tftp.Flash.{packet}
use panog2_ldr.Console.{Console, dot, newline}
use panog2_ldr.Cmd.{Sys, Parser, result_ok}
use panog2_ldr.Cmd.Transfer.{
  Event, idle, write_event, close_event, tftp_transfer_wait, report, poll, show_progress,
}
use panog2_ldr.Cmd.Transfer.Wait.{wait_over, wait_step}

-- The polls of a transfer: a packet, or nothing.
abbrev pub arrivals : List (Option (List ℕ)) → List Event
arrivals [] = []
arrivals (none ∷ ps) = idle ∷ arrivals ps
arrivals (some p ∷ ps) = write_event (packet p) ∷ arrivals ps

abbrev pub packets : List (Option (List ℕ)) → List (List ℕ)
packets [] = []
packets (none ∷ ps) = packets ps
packets (some p ∷ ps) = p ∷ packets ps

module _ (spi : Spi) (con : Console) (parser : Parser) where
  -- A dot changes only what is shown.
  pub record IsShown (s t : Sys spi.Flash con.Net) : Type 0 where
    pub progress : ℕ
    pub net : con.Net
    pub same : t ≡ record s { ldr = record s.ldr { last_progress = progress }; net = net }

  either-IsShown :
      (b : Bool) (s : Sys spi.Flash con.Net) (x y : ℕ × Sys spi.Flash con.Net)
      → IsShown s x.1
      → IsShown s y.1
      → IsShown s (if b then x else y).1
  either-IsShown true s x y h k = h
  either-IsShown false s x y h k = k

  pub show_progress-IsShown :
      (n : ℕ) (s : Sys spi.Flash con.Net) → IsShown s (show_progress spi con parser n s).1
  unfolding show_progress
  show_progress-IsShown n s =
      either-IsShown _ s _ _
        (record {
          progress = u32 (s.ldr.last_progress + progress_size);
          net = con.print dot (if ltb 64 n then con.print newline s.net else s.net);
          same = refl;
        })
        (record { progress = s.ldr.last_progress; net = s.net; same = refl })

  pub report_ok :
      (n : ℕ) (s : Sys spi.Flash con.Net)
      → get_or s.ldr.err_msg 0 0 ≡ 0
      → s.ldr.error ≡ tftp_ok
      → report spi con parser n s
        ≡ (result_ok, record s { net = if ltb 0 n then con.print newline s.net else s.net })
  unfolding report
  report_ok n s m e = ground arith

  -- The end of a transfer without an error.
  pub wait_closed :
      (rest : List Event) (n : ℕ) (s : Sys spi.Flash con.Net)
      → s.ldr.error ≡ in_progress
      → get_or s.ldr.err_msg 0 0 ≡ 0
      → (s' : Sys spi.Flash con.Net) × (tftp_transfer_wait spi con parser (close_event ∷ rest) n s
          ≡ returns (result_ok, s'))
        × (s'.flash ≡ s.flash)
        × (s'.ldr.bytes_transfered ≡ s.ldr.bytes_transfered)
  unfolding poll tftp_close
  wait_closed rest n s running clean =
      let t = record s { ldr = record s.ldr { error = tftp_ok } } in
      let q = show_progress spi con parser n t in
      let shown = show_progress-IsShown n t in
      let ended : q.1.ldr.error ≡ tftp_ok =
        ap (λ (u : Sys spi.Flash con.Net). u.ldr.error) shown.same in
      let message : get_or q.1.ldr.err_msg 0 0 ≡ 0 =
        ap (λ (u : Sys spi.Flash con.Net). get_or u.ldr.err_msg 0 0) shown.same ∙ clean in
      let closed : poll spi con parser close_event s ≡ returns t =
        ap
          (λ b. returns (record s {
            ldr = if is_in_progress b then record s.ldr { error = tftp_ok } else s.ldr;
          }))
          running in
      (
        record q.1 { net = if ltb 0 q.0 then con.print newline q.1.net else q.1.net },
        wait_step spi con parser close_event rest n s t running closed
            ∙ wait_over spi con parser rest q.0 q.1 (λ h. ground arith)
            ∙ ap returns (report_ok q.0 q.1 message ended),
        ap (λ (u : Sys spi.Flash con.Net). u.flash) shown.same,
        ap (λ (u : Sys spi.Flash con.Net). u.ldr.bytes_transfered) shown.same,
      )
