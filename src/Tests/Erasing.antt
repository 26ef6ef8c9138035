-- ===== src/Tests/Erasing.antt =====
-- The theorem on `erase` and then `flash` with auto erase off, at a concrete input.
use panog2_ldr.Base.{ℕ, ◌≤◌, ◌<◌, ◌≡◌, ◌⊎◌, refl, arith, List, [], ◌∷◌, ◌++◌, some, bytes, returns}
use panog2_ldr.Spi.Nor.{Cells, cells_spi, cells_spi-IsNor, peek_cells, erase_cells}
use panog2_ldr.Tftp.{type_flash, in_progress, reset, err_ok, ldr_tftp_init}
use panog2_ldr.Console.{Msg, dot, erased, flashed}
use panog2_ldr.Cmd.{Sys, result_ok, get_adr}
use panog2_ldr.Cmd.Sectors.{erase_cmd, erase_range, erase_loop}
use panog2_ldr.Cmd.Transfer.{close_event, get_tftp_transfer_vals, flash_cmd}
use panog2_ldr.Cmd.Transfer.Packets.{arrivals}
use panog2_ldr.Cmd.Transfer.Erased.{erase_then_flash_lem}
use panog2_ldr.Tests.{
  small_chip, small_chip-IsChip, all_bytes_lem, ready_client, log_console, char_parser,
}
use panog2_ldr.Tests.Transfers.{first_packet, second_packet}
use panog2_ldr.Tests.Flashing.{
  arguments, polls, kept_before, kept_read, first-IsBlock, second-IsBlock,
}

-- The second and the third sector of four.
abbrev erase_line : List ℕ
erase_line = 16 ∷ 47 ∷ []

abbrev two_erased : Cells
two_erased = erase_cells (erase_cells (λ x. 0xf0) 16 16) 32 16

abbrev after_erase : Sys Cells (List Msg)
after_erase = record kept_before { flash = two_erased; net = erased 0 ∷ dot ∷ dot ∷ [] }

erase_ok :
    erase_cmd (cells_spi small_chip) log_console char_parser erase_line kept_before
    ≡ returns (result_ok, after_erase)
unfolding erase_cmd erase_range erase_loop get_adr
erase_ok = refl

abbrev asked : Sys Cells (List Msg)
asked = record kept_read { flash = two_erased; net = erased 0 ∷ dot ∷ dot ∷ [] }

asked_ok :
    get_tftp_transfer_vals
      (cells_spi small_chip)
      log_console
      char_parser
      []
      arguments
      type_flash
      after_erase
    ≡ (result_ok, asked)
unfolding get_tftp_transfer_vals get_adr
asked_ok = refl

asked_starts :
    ldr_tftp_init ready_client (some asked.ldr)
    ≡ (err_ok, some (record (reset asked.ldr) { error = in_progress }))
unfolding ldr_tftp_init
asked_starts = refl

erase_then_flash_example :
    (s2 : Sys Cells (List Msg)) × (n : List Msg) × (flash_cmd
        (cells_spi small_chip)
        log_console
        char_parser
        ready_client
        (arrivals polls ++ close_event ∷ [])
        []
        arguments
        after_erase
      ≡ returns (result_ok, s2))
    × (s2.net ≡ flashed 22 ∷ n)
    × (bytes (peek_cells s2.flash) 20 22 ≡ first_packet ++ second_packet)
    × ((x : ℕ) → (x < 16) ⊎ (48 ≤ x) → peek_cells s2.flash x ≡ 0xf0)
erase_then_flash_example =
    erase_then_flash_lem (cells_spi small_chip) log_console char_parser small_chip ready_client 2 16
      48 polls [] [] arguments erase_line (47 ∷ []) [] kept_before after_erase asked
      (record (reset asked.ldr) { error = in_progress }) (cells_spi-IsNor small_chip)
      small_chip-IsChip refl (omega arith) refl refl refl (omega arith) refl (omega arith) erase_ok
      asked_ok asked_starts refl (first-IsBlock, (second-IsBlock, tt))
      (all_bytes_lem (first_packet ++ second_packet) refl) (omega arith) (omega arith)
