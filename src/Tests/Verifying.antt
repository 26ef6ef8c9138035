-- ===== src/Tests/Verifying.antt =====
-- The theorems on the `verify` and `save` commands, at concrete inputs.
use panog2_ldr.Base.{ℕ, ◌≡◌, refl, arith, List, [], ◌∷◌, ◌++◌, Option, none, some, bytes, returns}
use panog2_ldr.Spi.Nor.{Cells, cells_spi, cells_spi-IsNor, peek_cells, erase_cells, write_cells}
use panog2_ldr.Tftp.{
  type_compare, type_save, unset, in_progress, tftp_ok, reset, err_ok, ldr_tftp_init,
}
use panog2_ldr.Tftp.Verify.{IsBlock}
use panog2_ldr.Console.{Msg, flashed, saved}
use panog2_ldr.Cmd.{Sys, result_ok, get_adr}
use panog2_ldr.Cmd.Transfer.{close_event, get_tftp_transfer_vals, verify_cmd, save_cmd}
use panog2_ldr.Cmd.Transfer.Packets.{arrivals}
use panog2_ldr.Cmd.Transfer.Agree.{Says, verify_cmd_lem}
use panog2_ldr.Cmd.Transfer.Handed.{requests, handed}
use panog2_ldr.Cmd.Transfer.Save.{save_cmd_lem}
use panog2_ldr.Tests.{
  small_chip, zeros, counting, transfer, ready_client, log_console, char_parser, system,
}
use panog2_ldr.Tests.Transfers.{first_packet, second_packet}
use panog2_ldr.Tests.Flashing.{before, read}

-- What the example of the `flash` command leaves.
abbrev pub after : Sys Cells (List Msg)
after = record before {
  ldr = record read.ldr { error = tftp_ok; bytes_transfered = 22; last_erase_adr = 32 };
  flash =
      write_cells (erase_cells (write_cells (erase_cells zeros 16 16) 20 first_packet) 32 16) 30
        second_packet;
  net = flashed 22 ∷ [];
}

-- The bytes come in one packet the second time.
abbrev pub one_packet : List (Option (List ℕ))
one_packet = none ∷ some (first_packet ++ second_packet) ∷ []

pub one-IsBlock : IsBlock 1024 (first_packet ++ second_packet)
one-IsBlock = record { pos = omega arith; word = omega arith; fits = omega arith }

-- A flash that holds the addresses, and a second packet that differs from it.
abbrev counted : Sys Cells (List Msg)
counted = system (transfer unset 0) counting

abbrev line : List ℕ
line = 103 ∷ 32 ∷ 4 ∷ 20 ∷ []

abbrev checked : Sys Cells (List Msg)
checked = record counted {
  ldr = record counted.ldr { filename = 103 ∷ []; flash_adr = 4; transfer_type = type_compare };
}

checked_ok :
    get_tftp_transfer_vals
      (cells_spi small_chip)
      log_console
      char_parser
      []
      line
      type_compare
      counted
    ≡ (result_ok, checked)
unfolding get_tftp_transfer_vals get_adr
checked_ok = refl

check_starts :
    ldr_tftp_init ready_client (some checked.ldr)
    ≡ (err_ok, some (record (reset checked.ldr) { error = in_progress }))
unfolding ldr_tftp_init
check_starts = refl

abbrev two_packets : List (Option (List ℕ))
two_packets = some (4 ∷ 5 ∷ []) ∷ some (6 ∷ 9 ∷ []) ∷ []

verify_cmd_example :
    (s' : Sys Cells (List Msg)) × (verify_cmd
        (cells_spi small_chip)
        log_console
        char_parser
        ready_client
        (arrivals two_packets ++ close_event ∷ [])
        []
        line
        counted
      ≡ returns (result_ok, s'))
    × (s'.flash ≡ counting)
    × Says (cells_spi small_chip) log_console counting 4 (4 ∷ 5 ∷ 6 ∷ 9 ∷ []) s'.net
verify_cmd_example =
    verify_cmd_lem (cells_spi small_chip) log_console char_parser small_chip ready_client
      two_packets [] [] line counted checked (record (reset checked.ldr) { error = in_progress })
      (cells_spi-IsNor small_chip) (omega arith) checked_ok check_starts (omega arith)
      (
        record { pos = omega arith; word = omega arith; fits = omega arith },
        (record { pos = omega arith; word = omega arith; fits = omega arith }, tt),
      )
      (omega arith)

-- `save` of 20 bytes, in requests of 8.
abbrev to_save : Sys Cells (List Msg)
to_save = record checked { ldr = record checked.ldr { transfer_type = type_save; send_len = 20 } }

to_save_ok :
    get_tftp_transfer_vals (cells_spi small_chip) log_console char_parser [] line type_save counted
    ≡ (result_ok, to_save)
unfolding get_tftp_transfer_vals get_adr
to_save_ok = refl

save_starts :
    ldr_tftp_init ready_client (some to_save.ldr)
    ≡ (err_ok, some (record (reset to_save.ldr) { error = in_progress }))
unfolding ldr_tftp_init
save_starts = refl

abbrev three_requests : List (Option ℕ)
three_requests = some 8 ∷ none ∷ some 8 ∷ some 8 ∷ []

save_cmd_example :
    (s' : Sys Cells (List Msg)) × (n : List Msg) × (save_cmd
        (cells_spi small_chip)
        log_console
        char_parser
        ready_client
        (requests three_requests ++ close_event ∷ [])
        []
        line
        counted
      ≡ returns (result_ok, s'))
    × (s'.net ≡ saved 20 ∷ n)
    × (s'.flash ≡ counting)
    × (handed
          (cells_spi small_chip)
          log_console
          char_parser
          (requests three_requests ++ close_event ∷ [])
          0
          (record to_save { ldr = record (reset to_save.ldr) { error = in_progress } })
        ≡ bytes (peek_cells counting) 4 20)
save_cmd_example =
    save_cmd_lem (cells_spi small_chip) log_console char_parser small_chip ready_client
      three_requests [] [] line counted to_save (record (reset to_save.ldr) { error = in_progress })
      (cells_spi-IsNor small_chip) (omega arith) to_save_ok save_starts refl (omega arith)
      (omega arith, (omega arith, (omega arith, tt)))
