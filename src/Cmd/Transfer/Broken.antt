-- ===== src/Cmd/Transfer/Broken.antt =====
-- A `flash` command whose transfer the peer breaks off.
use panog2_ldr.Base.{
  ℕ, ◌+◌, ◌≤◌, ◌<◌, ◌≡◌, ◌⊎◌, ap, ◌∙◌, arith, true, List, ◌∷◌, ◌++◌, some, Option, length, bytes,
  min, get_or, returns, ◌>>=◌, if◌then◌else◌, ◌==◌, ltb, put_at, set, take,
}
use panog2_ldr.Spi.{FlashInfo, Spi, IsNor}
use panog2_ldr.Tftp.{
  Ldr, Client, err_ok, type_flash, in_progress, err_failed, max_err_msg_len, tftp_error,
  ldr_tftp_init, sector_of,
}
use panog2_ldr.Tftp.Flash.{IsChip}
use panog2_ldr.Tftp.Transfer.{flatten, ArePackets, StartsInSector, flashing_outside}
use panog2_ldr.Console.{Console, flashed, error_text, failed, newline}
use panog2_ldr.Cmd.{Sys, Parser, Result, result_ok, result_err, is_ok}
use panog2_ldr.Cmd.Transfer.{
  Event, error_event, get_tftp_transfer_vals, tftp_transfer_wait, report, wait_and_say, flash_cmd,
  io_of, poll, show_progress, or_fault,
}
use panog2_ldr.Cmd.Transfer.Wait.{wait_over, wait_step}
use panog2_ldr.Cmd.Transfer.Values.{flash_vals}
use panog2_ldr.Cmd.Transfer.Packets.{arrivals, packets, show_progress-IsShown}
use panog2_ldr.Cmd.Transfer.Ends.{transfer_cmd-waits}
use panog2_ldr.Cmd.Transfer.Flashing.{flash_waits}

-- An error of the peer is taken, if its message is as long as it says.
tftp_error-taken :
    (msg : List ℕ) (size : ℕ) (p : Ldr)
    → min size max_err_msg_len ≤ length msg
    → (text : List ℕ) × (tftp_error msg size p
        ≡ some (record p { err_msg = text; error = err_failed }))
unfolding tftp_error
tftp_error-taken msg size p h = (
  set (put_at p.err_msg 0 (take (if ltb max_err_msg_len size then max_err_msg_len else size) msg))
      max_err_msg_len 0,
  ground arith,
)

module _ (spi : Spi) (con : Console) (parser : Parser) where
  report_failed :
      (n : ℕ) (s : Sys spi.Flash con.Net)
      → s.ldr.error ≡ err_failed
      → (shown : con.Net) × (report spi con parser n s ≡ (result_err, record s { net = shown }))
  unfolding report
  report_failed n s h =
      let line = if ltb 0 n then con.print newline s.net else s.net in
      (
        if get_or s.ldr.err_msg 0 0 == 0
            then con.print (failed err_failed) line
            else con.print (error_text s.ldr.err_msg) line,
        ground arith,
      )

  -- The wait ends with RESULT_ERR.
  wait_broken :
      (msg : List ℕ) (size : ℕ) (rest : List Event) (n : ℕ) (s : Sys spi.Flash con.Net)
      → s.ldr.error ≡ in_progress
      → min size max_err_msg_len ≤ length msg
      → (s' : Sys spi.Flash con.Net) × (tftp_transfer_wait spi con parser
            (error_event msg size ∷ rest)
            n
            s
          ≡ returns (result_err, s'))
        × (s'.flash ≡ s.flash)
  unfolding poll
  wait_broken msg size rest n s running enough =
      let (text, e) = tftp_error-taken msg size s.ldr enough in
      let t = record s { ldr = record s.ldr { err_msg = text; error = err_failed } } in
      let q = show_progress spi con parser n t in
      let same = (show_progress-IsShown spi con parser n t).same in
      let ended : q.1.ldr.error ≡ err_failed =
        ap (λ (u : Sys spi.Flash con.Net). u.ldr.error) same in
      let (shown, says) = report_failed q.0 q.1 ended in
      let came : poll spi con parser (error_event msg size) s ≡ returns t =
        ap (λ o. or_fault spi con parser o >>= λ p. returns (record s { ldr = p })) e in
      (
        record q.1 { net = shown },
        wait_step spi con parser (error_event msg size) rest n s t running came
            ∙ wait_over spi con parser rest q.0 q.1 (λ h. cc ended)
            ∙ ap returns says,
        ap (λ (u : Sys spi.Flash con.Net). u.flash) same,
      )

  wait_and_say-failed :
      (done : ℕ → con.Net → con.Net) (events : List Event) (s s' : Sys spi.Flash con.Net)
      → tftp_transfer_wait spi con parser events 0 s ≡ returns (result_err, s')
      → wait_and_say spi con parser done events s ≡ returns (result_err, s')
  unfolding wait_and_say
  wait_and_say-failed done events s s' e =
      ap
        (λ o. o >>= λ (r : Result × Sys spi.Flash con.Net). returns (
          if is_ok r.0
          then (r.0, record r.1 { net = done r.1.ldr.bytes_transfered r.1.net })
          else r))
        e

-- `flash` with auto erase on and arguments that name a transfer, which lwIP's client takes, but the peer
-- breaks it off after the packets `ps`, with a message that is as long as it says or has 32 characters
-- at least. If the packets each fit a sector and together the chip, and the first ends within the sector
-- of the address, the command answers RESULT_ERR, the flash holds the bytes of the packets that came,
-- and nothing before the sector of the address, or more than a sector behind them, has changed.
pub flash_cmd-broken :
    (spi : Spi) (con : Console) (parser : Parser) (chip : FlashInfo) (client : Client)
    (ps : List (Option (List ℕ))) (msg : List ℕ) (size : ℕ) (rest : List Event)
    (stale line : List ℕ) (s t : Sys spi.Flash con.Net) (q : Ldr)
    → IsNor spi chip
    → IsChip chip
    → spi.info ≡ some chip
    → get_tftp_transfer_vals spi con parser stale line type_flash s ≡ (result_ok, t)
    → ldr_tftp_init client (some t.ldr) ≡ (err_ok, some q)
    → t.ldr.auto_erase ≡ true
    → ArePackets chip (packets ps)
    → StartsInSector chip t.ldr.flash_adr (packets ps)
    → t.ldr.flash_adr + length (flatten (packets ps)) ≤ chip.flash_size
    → min size max_err_msg_len ≤ length msg
    → (s' : Sys spi.Flash con.Net) × (flash_cmd spi con parser client
          (arrivals ps ++ error_event msg size ∷ rest)
          stale
          line
          s
        ≡ returns (result_err, s'))
      × (bytes (spi.peek s'.flash) t.ldr.flash_adr (length (flatten (packets ps)))
          ≡ flatten (packets ps))
      × ((x : ℕ)
          → (x < sector_of chip.erase_size t.ldr.flash_adr)
            ⊎ (t.ldr.flash_adr + length (flatten (packets ps)) + chip.erase_size ≤ x)
          → spi.peek s'.flash x ≡ spi.peek s.flash x)
unfolding flash_cmd
flash_cmd-broken spi con parser chip client ps msg size rest stale line s t q nor geometry has vals
      init erasing pks starts room enough =
    let (kind, kept) = flash_vals spi con parser stale line s t vals in
    let base = t.ldr.flash_adr in
    let (k, s1, run, edge, v) =
      flash_waits spi con parser chip client ps (error_event msg size ∷ rest) t q nor geometry has
        init kind erasing pks starts room in
    let (s', broken, same) = wait_broken spi con parser msg size rest k s1 v.running enough in
    let events = arrivals ps ++ error_event msg size ∷ rest in
    (
      s',
      transfer_cmd-waits spi con parser client type_flash (λ n. con.print (flashed n)) events stale
            line s t q vals init
          ∙ wait_and_say-failed spi con parser (λ n. con.print (flashed n)) events
              (record t { ldr = q }) s' (run ∙ broken),
      ap (λ f. bytes (spi.peek f) base (length (flatten (packets ps)))) same ∙ v.programmed,
      λ x out.
          ap (λ f. spi.peek f x) same
          ∙ flashing_outside spi chip t.flash base edge (flatten (packets ps))
              (io_of spi con parser s1) v x out
          ∙ ap (λ f. spi.peek f x) kept,
    )
