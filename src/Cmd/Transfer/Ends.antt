-- ===== src/Cmd/Transfer/Ends.antt =====
-- `flash` and `save` from the start of their transfer to its end.
use panog2_ldr.Base.{
  ℕ, ◌≡◌, ap, ◌∙◌, List, ◌∷◌, some, none, get_or, Outcome, returns, ◌>>=◌, if◌then◌else◌,
}
use panog2_ldr.Spi.{Spi}
use panog2_ldr.Tftp.{Ldr, TransferType, Client, Err, err_ok, in_progress, ldr_tftp_init}
use panog2_ldr.Console.{Console, transfer_failed}
use panog2_ldr.Cmd.{Sys, Parser, Result, result_ok, result_err, is_ok}
use panog2_ldr.Cmd.Transfer.{
  Event, close_event, get_tftp_transfer_vals, start, tftp_transfer_wait, wait_and_say, transfer_cmd,
}
use panog2_ldr.Cmd.Transfer.Packets.{wait_closed}

module _ (spi : Spi) (con : Console) (parser : Parser) (client : Client) where
  -- The command waits once its transfer has started.
  pub transfer_cmd-waits :
      (type : TransferType) (done : ℕ → con.Net → con.Net) (events : List Event)
      (stale line : List ℕ) (s t : Sys spi.Flash con.Net) (q : Ldr)
      → get_tftp_transfer_vals spi con parser stale line type s ≡ (result_ok, t)
      → ldr_tftp_init client (some t.ldr) ≡ (err_ok, some q)
      → transfer_cmd spi con parser type done client events stale line s
        ≡ wait_and_say spi con parser done events (record t { ldr = q })
  unfolding transfer_cmd start
  transfer_cmd-waits type done events stale line s t q vals init =
      ap after vals
      ∙ ap (λ r. begun (r.0, elim r.1 [ none ↦ t | some p ↦ record t { ldr = p } ])) init
    where
      begun : Err × Sys spi.Flash con.Net → Outcome (Result × Sys spi.Flash con.Net)
      begun b = elim b.0 [
        | err_ok ↦ wait_and_say spi con parser done events b.1
        | e ↦ returns (result_err, record b.1 { net = con.print (transfer_failed e) b.1.net })
      ]

      after : Result × Sys spi.Flash con.Net → Outcome (Result × Sys spi.Flash con.Net)
      after v = if is_ok v.0 then begun (start spi con parser client v.1) else returns v

  -- What the command says of a wait that ends well.
  pub wait_and_say-ok :
      (done : ℕ → con.Net → con.Net) (events : List Event) (s s' : Sys spi.Flash con.Net)
      → tftp_transfer_wait spi con parser events 0 s ≡ returns (result_ok, s')
      → wait_and_say spi con parser done events s
        ≡ returns (result_ok, record s' { net = done s'.ldr.bytes_transfered s'.net })
  unfolding wait_and_say
  wait_and_say-ok done events s s' e =
      ap
        (λ o. o >>= λ (r : Result × Sys spi.Flash con.Net). returns (
          if is_ok r.0
          then (r.0, record r.1 { net = done r.1.ldr.bytes_transfered r.1.net })
          else r))
        e

  -- The answer of the command, once its wait has got to the end of the transfer.
  pub transfer_cmd-ends :
      (type : TransferType) (done : ℕ → con.Net → con.Net) (events rest : List Event)
      (stale line : List ℕ) (s t s1 : Sys spi.Flash con.Net) (q : Ldr) (k : ℕ)
      → get_tftp_transfer_vals spi con parser stale line type s ≡ (result_ok, t)
      → ldr_tftp_init client (some t.ldr) ≡ (err_ok, some q)
      → tftp_transfer_wait spi con parser events 0 (record t { ldr = q })
        ≡ tftp_transfer_wait spi con parser (close_event ∷ rest) k s1
      → s1.ldr.error ≡ in_progress
      → get_or s1.ldr.err_msg 0 0 ≡ 0
      → (s' : Sys spi.Flash con.Net) × (n : con.Net) × (transfer_cmd spi con parser type done client
            events stale line s
          ≡ returns (result_ok, s'))
        × (s'.net ≡ done s1.ldr.bytes_transfered n)
        × (s'.flash ≡ s1.flash)
  transfer_cmd-ends type done events rest stale line s t s1 q k vals init run running message =
      let u = record t { ldr = q } in
      let (s2, closed, same, count) = wait_closed spi con parser rest k s1 running message in
      (
        record s2 { net = done s2.ldr.bytes_transfered s2.net },
        s2.net,
        transfer_cmd-waits type done events stale line s t q vals init
            ∙ wait_and_say-ok done events u s2 (run ∙ closed),
        ap (λ n. done n s2.net) count,
        same,
      )
