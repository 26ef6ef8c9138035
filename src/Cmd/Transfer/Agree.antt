-- ===== src/Cmd/Transfer/Agree.antt =====
-- The `verify` command, from its arguments to its answer, and after `flash`.
use panog2_ldr.Base.{
  ℕ, ◌+◌, ◌^◌, ◌≤◌, ◌<◌, ◌≡◌, ◌≢◌, ◌⊎◌, inl, inr, refl, subst, ap, ◌∙◌, arith, List, [], ◌∷◌, ◌++◌,
  some, none, Option, length, take, get_or, bytes, returns,
}
use panog2_ldr.Spi.{FlashInfo, Spi, IsNor}
use panog2_ldr.Tftp.{Ldr, Client, err_ok, type_compare, ldr_tftp_init}
use panog2_ldr.Tftp.Transfer.{flatten}
use panog2_ldr.Tftp.Verify.{AreBlocks, IsVerifying, HasStopped, ldr_tftp_init-IsVerifying}
use panog2_ldr.Board.{temp_size}
use panog2_ldr.Console.{Console, verified, compare_failed}
use panog2_ldr.Cmd.{Sys, Parser, result_ok}
use panog2_ldr.Cmd.Transfer.{
  Event, close_event, get_tftp_transfer_vals, start, tftp_transfer_wait, report, wait_and_say,
  verify_cmd, verify_from, verify_wait, io_of,
}
use panog2_ldr.Cmd.Transfer.Packets.{arrivals, packets, wait_closed}
use panog2_ldr.Cmd.Transfer.Ends.{wait_and_say-ok}
use panog2_ldr.Cmd.Transfer.Values.{compare_vals}
use panog2_ldr.Cmd.Transfer.Equal.{Compares, wait-Compares, report_stopped}

module _ (spi : Spi) (con : Console) where
  -- What `verify` says of `sent` against the flash `f` from `adr` on: it counts the bytes before the first
  -- one that differs, whose address it reports, or all of them if none does.
  abbrev pub Says : spi.Flash → ℕ → List ℕ → con.Net → Type 0
  Says f adr sent net =
      (c : ℕ) × (n : con.Net) × (net ≡ con.print (verified c) n)
      × ((c ≡ length sent) × (bytes (spi.peek f) adr (length sent) ≡ sent)
          ⊎ (c < length sent)
            × (bytes (spi.peek f) adr c ≡ take c sent)
            × (spi.peek f (adr + c) ≢ get_or sent c 0)
            × ((m : con.Net) × (n ≡ con.print (compare_failed (adr + c)) m)))

module _ (spi : Spi) (con : Console) (parser : Parser) (client : Client) where
  -- The command waits once its transfer has started.
  verify_cmd-waits :
      (events : List Event) (stale line : List ℕ) (s t : Sys spi.Flash con.Net) (q : Ldr)
      → get_tftp_transfer_vals spi con parser stale line type_compare s ≡ (result_ok, t)
      → ldr_tftp_init client (some t.ldr) ≡ (err_ok, some q)
      → verify_cmd spi con parser client events stale line s
        ≡ wait_and_say spi con parser (λ n. con.print (verified n)) events (record t { ldr = q })
  unfolding verify_cmd verify_from verify_wait start
  verify_cmd-waits events stale line s t q vals init =
      ap (verify_from spi con parser client events) vals
      ∙ ap
          (λ r.
            verify_wait spi con parser events
              (r.0, elim r.1 [ none ↦ t | some p ↦ record t { ldr = p } ]))
          init

  module _ (chip : FlashInfo) (nor : IsNor spi chip) (small : chip.flash_size < 2 ^ 31)
      (adr room : ℕ) (sent : List ℕ) (inside : adr + length sent ≤ chip.flash_size)
      (f : spi.Flash) where
    stopped-Says :
        (n : ℕ) (s : Sys spi.Flash con.Net)
        → HasStopped spi f adr room sent (io_of spi con parser s)
        → (s' : Sys spi.Flash con.Net) × (report spi con parser n s ≡ (result_ok, s'))
          × (s'.flash ≡ f)
          × Says spi con f adr sent (con.print (verified s'.ldr.bytes_transfered) s'.net)
    stopped-Says n s h =
        let (shown, e) = report_stopped spi con parser n s h.no_message h.ended in
        (
          _,
          e,
          h.unchanged,
          (
            s.ldr.bytes_transfered,
            _,
            refl,
            inr (
              h.below,
              h.equal,
              h.differs,
              (
                shown,
                ap (λ a. con.print (compare_failed a) shown) (omega (arith, h.start, h.below)),
              ),
            ),
          ),
        )

    closed-Says :
        (rest : List Event) (n : ℕ) (s : Sys spi.Flash con.Net)
        → IsVerifying spi f adr room sent (io_of spi con parser s)
        → (s' : Sys spi.Flash con.Net) × (tftp_transfer_wait spi con parser (close_event ∷ rest) n s
            ≡ returns (result_ok, s'))
          × (s'.flash ≡ f)
          × Says spi con f adr sent (con.print (verified s'.ldr.bytes_transfered) s'.net)
    closed-Says rest n s v =
        let (s', e, same, count) = wait_closed spi con parser rest n s v.running v.no_message in
        (
          s',
          e,
          same ∙ v.unchanged,
          (s'.ldr.bytes_transfered, _, refl, inl (count ∙ v.count, v.equal)),
        )

    wait-Says :
        (events rest : List Event) (n : ℕ) (s : Sys spi.Flash con.Net)
        → Compares spi con parser chip nor small f adr room events (close_event ∷ rest) sent n s
        → (s' : Sys spi.Flash con.Net) × (tftp_transfer_wait spi con parser events n s
            ≡ returns (result_ok, s'))
          × (s'.flash ≡ f)
          × Says spi con f adr sent (con.print (verified s'.ldr.bytes_transfered) s'.net)
    wait-Says events rest n s (n', s', inl (run, v)) =
        let (s2, e, same, says) = closed-Says rest n' s' v in (s2, run ∙ e, same, says)
    wait-Says events rest n s (n', s', inr (run, h)) =
        let (s2, e, same, says) = stopped-Says n' s' h in (s2, run ∙ ap returns e, same, says)

-- `verify` whose arguments are read and whose transfer starts: if the polls of its wait bring packets that
-- each fit `gTemp` and together lie on the flash, in order, with any polls that bring nothing between
-- them, and then the end of the transfer, the command answers RESULT_OK and leaves the flash alone. It says
-- last how many bytes it verified: all of them if the flash holds the bytes of the packets, and else
-- those before the first byte that differs, after a report of that byte's address.
pub verify_cmd_lem :
    (spi : Spi) (con : Console) (parser : Parser) (chip : FlashInfo) (client : Client)
    (ps : List (Option (List ℕ))) (rest : List Event) (stale line : List ℕ)
    (s t : Sys spi.Flash con.Net) (q : Ldr)
    → IsNor spi chip
    → chip.flash_size < 2 ^ 31
    → get_tftp_transfer_vals spi con parser stale line type_compare s ≡ (result_ok, t)
    → ldr_tftp_init client (some t.ldr) ≡ (err_ok, some q)
    → temp_size ≤ length s.temp
    → AreBlocks temp_size (packets ps)
    → t.ldr.flash_adr + length (flatten (packets ps)) ≤ chip.flash_size
    → (s' : Sys spi.Flash con.Net) × (verify_cmd spi con parser client
          (arrivals ps ++ close_event ∷ rest)
          stale
          line
          s
        ≡ returns (result_ok, s'))
      × (s'.flash ≡ s.flash)
      × Says spi con s.flash t.ldr.flash_adr (flatten (packets ps)) s'.net
verify_cmd_lem spi con parser chip client ps rest stale line s t q nor small vals init room bs
      inside =
    let (kind, kept, temp, limit) = compare_vals spi con parser stale line s t vals in
    let u = record t { ldr = q } in
    let base = t.ldr.flash_adr in
    let begin =
      ldr_tftp_init-IsVerifying spi temp_size client t.ldr (io_of spi con parser u) init kind limit
        (omega (arith, ap length temp)) in
    let events = arrivals ps ++ close_event ∷ rest in
    let sent = flatten (packets ps) in
    let (s', run, same, says) =
      wait-Says spi con parser client chip nor small base temp_size sent inside t.flash events rest
        0 u
        (wait-Compares spi con parser chip nor small t.flash base temp_size ps (close_event ∷ rest)
          [] 0 u begin bs (omega (arith, inside))) in
    (
      _,
      verify_cmd-waits spi con parser client events stale line s t q vals init
          ∙ wait_and_say-ok spi con parser client (λ n. con.print (verified n)) events u s' run,
      same ∙ kept,
      subst (λ f. Says spi con f base sent (con.print (verified s'.ldr.bytes_transfered) s'.net))
          kept says,
    )
