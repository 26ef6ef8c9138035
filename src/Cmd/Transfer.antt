-- ===== src/Cmd/Transfer.antt =====
-- The commands that transfer files: `GetTftpTransferVals`, `TftpTranserWait`, `flash`, `save`, `verify`.
pub mod Wait
pub mod Verify
pub mod Packets
pub mod Ends
pub mod Each
pub mod Flashing
pub mod Program
pub mod Plain
pub mod Values
pub mod Equal
pub mod Agree
pub mod Roundtrip
pub mod Handed
pub mod Save
pub mod Broken
pub mod Erased
use panog2_ldr.Base.{
  ℕ, suc, zero, ◌+◌, ◌-◌, ◌*◌, ◌^◌, Bool, true, false, List, [], ◌∷◌, Option, none, some, length,
  take, drop, get_or, ltb, ◌==◌, if◌then◌else◌, Outcome, returns, fault, no_fuel, ◌>>=◌, u32,
}
use panog2_ldr.Spi.{Spi}
use panog2_ldr.Tftp.{
  Ldr, Io, Pbuf, Ret, good, fail, TransferType, type_flash, type_save, type_compare, TransferResult,
  tftp_ok, err_compare_fail, is_in_progress, Client, Err, err_ok, err_val, err_code,
  max_filename_len, progress_size, tftp_write, tftp_read, tftp_close, tftp_error, ldr_tftp_init,
}
use panog2_ldr.Board.{temp_size}
use panog2_ldr.Console.{
  Console, server_not_set, filename_too_long, transfer_failed, verify_failed, flashed, saved,
  verified, dot, newline, error_text, compare_failed, failed,
}
use panog2_ldr.Cmd.{
  Result, result_ok, result_usage, result_err, result_bad_arg, is_ok, Sys, Parser, say, get_adr,
}

-- What one `pano_netif_poll` brings: nothing for the transfer, or one callback of the TFTP client.
pub data Event : Type 0 where
  idle : Event
  write_event : Pbuf → Event
  read_event : ℕ → Event
  close_event : Event
  error_event : List ℕ → ℕ → Event

module _ (spi : Spi) (con : Console) (parser : Parser) where
  open spi use {Flash}
  open con use {Net, print}
  open parser use {convert_value, skip_to_space}

  abbrev pub io_of : Sys Flash Net → Io Flash
  io_of s = record { ldr = s.ldr; ram = s.temp; flash = s.flash }

  abbrev pub with_io : Sys Flash Net → Io Flash → Sys Flash Net
  with_io s io = record s { ldr = io.ldr; temp = io.ram; flash = io.flash }

  abbrev pub or_fault {ℓ} : {A : Type ℓ} → Option A → Outcome A
  or_fault none = fault
  or_fault (some a) = returns a

  -- The callback of an event.
  unfoldable pub poll : Event → Sys Flash Net → Outcome (Sys Flash Net)
  poll idle s = returns s
  poll (write_event p) s = do r ← or_fault (tftp_write spi p (io_of s)); returns (with_io s r.1)
  poll (read_event len) s = returns (with_io s (tftp_read spi len (io_of s)).1)
  poll close_event s = returns (record s { ldr = tftp_close s.ldr })
  poll (error_event msg size) s = do
    p ← or_fault (tftp_error msg size s.ldr)
    returns (record s { ldr = p })

  -- `GetTftpTransferVals`. `stale` is what stands behind the terminator of the line, which is read where
  -- the file name is not followed by a space.
  unfoldable pub get_tftp_transfer_vals :
      List ℕ → List ℕ → TransferType → Sys Flash Net → Result × Sys Flash Net
  get_tftp_transfer_vals stale line type s =
      let n = skip_to_space line in
      let name = take n line in
      let named = record s { ldr = record s.ldr { filename = name } } in
      let behind = if ltb n (length line) then drop (n + 1) line else stale in
      let a = get_adr spi con parser s.ldr.flash_adr behind named in
      let placed = record a.state { ldr = record a.state.ldr { flash_adr = a.value } } in
      let finish = λ (t : Sys Flash Net). record t {
        ldr = record t.ldr { max_bytes = temp_size; transfer_type = type };
      } in
      let sized : Result × Sys Flash Net = elim type [
        | type_save ↦ elim (convert_value a.rest) [
          | none ↦ (result_ok, placed)
          | some (len, _) ↦
              (result_ok, finish (record placed { ldr = record placed.ldr { send_len = len } }))
        ]
        | _ ↦ (result_ok, finish placed)
      ] in
      if length line == 0
      then (result_usage, s)
      else if s.ldr.server_ip == 0
      then (result_err, say spi con parser s (print server_not_set s.net))
      else if ltb max_filename_len (length name)
      then (result_err, say spi con parser s (print filename_too_long s.net))
      else if is_ok a.result
      then sized
      else (a.result, placed)

  -- One turn of the wait loop after the poll: a dot for each 64 KB, and a new line before it when the count of dots is past 64.
  unfoldable pub show_progress : ℕ → Sys Flash Net → ℕ × Sys Flash Net
  show_progress on_line s =
      let due = ltb progress_size (u32 (s.ldr.bytes_transfered + 2 ^ 32 - s.ldr.last_progress)) in
      let counted = record s {
        ldr = record s.ldr { last_progress = u32 (s.ldr.last_progress + progress_size) };
      } in
      let wraps = ltb 64 on_line in
      let broken = if wraps then print newline s.net else s.net in
      if due
      then (if wraps then 0 else on_line + 1, record counted { net = print dot broken })
      else (on_line, s)

  -- What `TftpTranserWait` reports after its loop. `tftp_cleanup` is lwIP's.
  unfoldable pub report : ℕ → Sys Flash Net → Result × Sys Flash Net
  report on_line s =
      let n = if ltb 0 on_line then print newline s.net else s.net in
      if get_or s.ldr.err_msg 0 0 == 0
      then elim s.ldr.error [
        | err_compare_fail ↦ (
          result_ok,
          record s {
            net = print (compare_failed (u32 (s.ldr.flash_adr + s.ldr.bytes_transfered))) n;
          },
        )
        | tftp_ok ↦ (result_ok, record s { net = n })
        | e ↦ (result_err, record s { net = print (failed e) n })
      ]
      else (result_err, record s { net = print (error_text s.ldr.err_msg) n })

  -- `TftpTranserWait`, on the events that its polls bring. `no_fuel` is a wait that goes on.
  unfoldable pub tftp_transfer_wait :
      List Event → ℕ → Sys Flash Net → Outcome (Result × Sys Flash Net)
  tftp_transfer_wait [] on_line s =
      if is_in_progress s.ldr.error then no_fuel else returns (report on_line s)
  tftp_transfer_wait (e ∷ events) on_line s =
      let turn : Outcome (Result × Sys Flash Net) = do
        s' ← poll e s
        let next = show_progress on_line s'
        tftp_transfer_wait events next.0 next.1
      in if is_in_progress s.ldr.error then turn else returns (report on_line s)

  -- `ldr_tftp_init(&gTftp)`.
  unfoldable pub start : Client → Sys Flash Net → Err × Sys Flash Net
  start client s =
      let r = ldr_tftp_init client (some s.ldr) in
      (r.0, elim r.1 [ none ↦ s | some p ↦ record s { ldr = p } ])

  -- The wait, and what `flash`, `save` and `verify` say after it.
  unfoldable pub wait_and_say :
      (ℕ → Net → Net) → List Event → Sys Flash Net → Outcome (Result × Sys Flash Net)
  wait_and_say done events s = do
    r ← tftp_transfer_wait events 0 s
    returns
        (if is_ok r.0 then (r.0, record r.1 { net = done r.1.ldr.bytes_transfered r.1.net }) else r)

  -- `flash` and `save`: a transfer that does not start ends the command.
  unfoldable pub transfer_cmd :
      TransferType
      → (ℕ → Net → Net)
      → Client
      → List Event
      → List ℕ
      → List ℕ
      → Sys Flash Net
      → Outcome (Result × Sys Flash Net)
  transfer_cmd type done client events stale line s =
      let v = get_tftp_transfer_vals stale line type s in
      let started = start client v.1 in
      if is_ok v.0
      then elim started.0 [
        | err_ok ↦ wait_and_say done events started.1
        | e ↦
            returns (result_err, record started.1 { net = print (transfer_failed e) started.1.net })
      ]
      else returns v

  unfoldable pub flash_cmd :
      Client → List Event → List ℕ → List ℕ → Sys Flash Net → Outcome (Result × Sys Flash Net)
  flash_cmd = transfer_cmd type_flash (λ n. print (flashed n))

  pub save_cmd :
      Client → List Event → List ℕ → List ℕ → Sys Flash Net → Outcome (Result × Sys Flash Net)
  save_cmd = transfer_cmd type_save (λ n. print (saved n))

  -- `verify` from the answer of `ldr_tftp_init` on: an error is reported, and waited for all the same.
  pub verify_wait : List Event → Err × Sys Flash Net → Outcome (Result × Sys Flash Net)
  verify_wait events (err_ok, s) = wait_and_say (λ n. print (verified n)) events s
  verify_wait events (err_val, s) =
      wait_and_say (λ n. print (verified n)) events
        (record s { net = print (verify_failed err_val s.ldr.error) s.net })
  verify_wait events (err_code c, s) =
      wait_and_say (λ n. print (verified n)) events
        (record s { net = print (verify_failed (err_code c) s.ldr.error) s.net })

  pub verify_from : Client → List Event → Result × Sys Flash Net → Outcome (Result × Sys Flash Net)
  verify_from client events v =
      if is_ok v.0 then verify_wait events (start client v.1) else returns v

  pub verify_cmd :
      Client → List Event → List ℕ → List ℕ → Sys Flash Net → Outcome (Result × Sys Flash Net)
  verify_cmd client events stale line s =
      verify_from client events (get_tftp_transfer_vals stale line type_compare s)
