-- ===== src/Tests/Flashing.antt =====
-- The theorems on the `flash` command, at concrete inputs.
use panog2_ldr.Base.{
  ℕ, ◌+◌, ◌≤◌, ◌<◌, ◌≡◌, ◌⊎◌, refl, arith, List, [], ◌∷◌, ◌++◌, Option, none, some, bytes, returns,
  bit_and, get_or, false,
}
use panog2_ldr.Spi.Nor.{Cells, cells_spi, cells_spi-IsNor, peek_cells}
use panog2_ldr.Tftp.{Io, good, type_flash, unset, in_progress, reset, err_ok, ldr_tftp_init}
use panog2_ldr.Console.{Msg, flashed}
use panog2_ldr.Cmd.{Sys, result_ok, result_err, get_adr}
use panog2_ldr.Cmd.Transfer.{close_event, error_event, get_tftp_transfer_vals, flash_cmd}
use panog2_ldr.Cmd.Transfer.Packets.{arrivals}
use panog2_ldr.Cmd.Transfer.Program.{flash_cmd_lem}
use panog2_ldr.Cmd.Transfer.Plain.{flash_cmd-clears}
use panog2_ldr.Cmd.Transfer.Broken.{flash_cmd-broken}
use panog2_ldr.Tftp.Verify.{IsBlock}
use panog2_ldr.Tftp.Transfer.{write_all}
use panog2_ldr.Tftp.Straddle.{tftp_write_straddles}
use panog2_ldr.Tests.{
  small_chip, small_chip-IsChip, zeros, transfer, ready_client, log_console, char_parser, system,
}
use panog2_ldr.Tests.Transfers.{first_packet, second_packet, first-IsPacket, second-IsPacket}

-- A name of one letter, and an address inside the second sector.
abbrev pub arguments : List ℕ
arguments = 103 ∷ 32 ∷ 20 ∷ []

abbrev pub before : Sys Cells (List Msg)
before = system (transfer unset 0) zeros

abbrev pub read : Sys Cells (List Msg)
read = record before {
  ldr = record before.ldr {
    filename = 103 ∷ [];
    flash_adr = 20;
    max_bytes = 1024;
    transfer_type = type_flash;
  };
}

pub read_ok :
    get_tftp_transfer_vals
      (cells_spi small_chip)
      log_console
      char_parser
      []
      arguments
      type_flash
      before
    ≡ (result_ok, read)
unfolding get_tftp_transfer_vals get_adr
read_ok = refl

pub started_ok :
    ldr_tftp_init ready_client (some read.ldr)
    ≡ (err_ok, some (record (reset read.ldr) { error = in_progress }))
unfolding ldr_tftp_init
started_ok = refl

-- A poll without a packet stands between the two.
abbrev pub polls : List (Option (List ℕ))
polls = some first_packet ∷ none ∷ some second_packet ∷ []

flash_cmd_example :
    (s' : Sys Cells (List Msg)) × (n : List Msg) × (flash_cmd
        (cells_spi small_chip)
        log_console
        char_parser
        ready_client
        (arrivals polls ++ close_event ∷ [])
        []
        arguments
        before
      ≡ returns (result_ok, s'))
    × (s'.net ≡ flashed 22 ∷ n)
    × (bytes (peek_cells s'.flash) 20 22 ≡ first_packet ++ second_packet)
    × ((x : ℕ) → 16 ≤ x → x < 20 → 0 < 22 → peek_cells s'.flash x ≡ 255)
    × ((x : ℕ) → (x < 16) ⊎ (58 ≤ x) → peek_cells s'.flash x ≡ 0)
flash_cmd_example =
    flash_cmd_lem (cells_spi small_chip) log_console char_parser small_chip ready_client polls [] []
      arguments before read (record (reset read.ldr) { error = in_progress })
      (cells_spi-IsNor small_chip) small_chip-IsChip refl read_ok started_ok refl
      (first-IsPacket, (second-IsPacket, tt)) (omega arith) (omega arith)

-- The peer breaks off after the first packet.
flash_cmd-broken_example :
    (s' : Sys Cells (List Msg)) × (flash_cmd
        (cells_spi small_chip)
        log_console
        char_parser
        ready_client
        (arrivals (some first_packet ∷ []) ++ error_event (110 ∷ 111 ∷ []) 2 ∷ [])
        []
        arguments
        before
      ≡ returns (result_err, s'))
    × (bytes (peek_cells s'.flash) 20 10 ≡ first_packet)
    × ((x : ℕ) → (x < 16) ⊎ (46 ≤ x) → peek_cells s'.flash x ≡ 0)
flash_cmd-broken_example =
    flash_cmd-broken (cells_spi small_chip) log_console char_parser small_chip ready_client
      (some first_packet ∷ []) (110 ∷ 111 ∷ []) 2 [] [] arguments before read
      (record (reset read.ldr) { error = in_progress }) (cells_spi-IsNor small_chip)
      small_chip-IsChip refl read_ok started_ok refl (first-IsPacket, tt) (omega arith)
      (omega arith) (omega arith)

-- Auto erase is off, and the flash holds 0xf0 everywhere.
abbrev pub kept_before : Sys Cells (List Msg)
kept_before = record before { ldr = record before.ldr { auto_erase = false }; flash = λ x. 0xf0 }

abbrev pub kept_read : Sys Cells (List Msg)
kept_read = record read { ldr = record read.ldr { auto_erase = false }; flash = λ x. 0xf0 }

kept_read_ok :
    get_tftp_transfer_vals
      (cells_spi small_chip)
      log_console
      char_parser
      []
      arguments
      type_flash
      kept_before
    ≡ (result_ok, kept_read)
unfolding get_tftp_transfer_vals get_adr
kept_read_ok = refl

kept_started :
    ldr_tftp_init ready_client (some kept_read.ldr)
    ≡ (err_ok, some (record (reset kept_read.ldr) { error = in_progress }))
unfolding ldr_tftp_init
kept_started = refl

pub first-IsBlock : IsBlock 64 first_packet
first-IsBlock = record { pos = omega arith; word = omega arith; fits = omega arith }

pub second-IsBlock : IsBlock 64 second_packet
second-IsBlock = record { pos = omega arith; word = omega arith; fits = omega arith }

flash_cmd-clears_example :
    (s' : Sys Cells (List Msg)) × (n : List Msg) × (flash_cmd
        (cells_spi small_chip)
        log_console
        char_parser
        ready_client
        (arrivals polls ++ close_event ∷ [])
        []
        arguments
        kept_before
      ≡ returns (result_ok, s'))
    × (s'.net ≡ flashed 22 ∷ n)
    × ((i : ℕ)
        → i < 22
        → peek_cells s'.flash (20 + i) ≡ bit_and 0xf0 (get_or (first_packet ++ second_packet) i 0))
    × ((x : ℕ) → (x < 20) ⊎ (42 ≤ x) → peek_cells s'.flash x ≡ 0xf0)
flash_cmd-clears_example =
    flash_cmd-clears (cells_spi small_chip) log_console char_parser small_chip ready_client polls []
      [] arguments kept_before kept_read (record (reset kept_read.ldr) { error = in_progress })
      (cells_spi-IsNor small_chip) (omega arith) refl kept_read_ok kept_started refl
      (first-IsBlock, (second-IsBlock, tt)) (omega arith)

-- Ten bytes from eight before the end of the first sector on, then twelve.
abbrev straddling : Io Cells
straddling = record {
  ldr = record (reset (transfer type_flash 8)) { error = in_progress };
  ram = [];
  flash = zeros;
}

tftp_write_straddles_example :
    (io' : Io Cells) × (write_all
        (cells_spi small_chip)
        (first_packet ∷ second_packet ∷ [])
        straddling
      ≡ some (good, io'))
    × (io'.ldr.bytes_transfered ≡ 22)
    × ((x : ℕ) → 16 ≤ x → x < 18 → peek_cells io'.flash x ≡ 255)
tftp_write_straddles_example =
    tftp_write_straddles (cells_spi small_chip) small_chip 16 first_packet second_packet straddling
      (cells_spi-IsNor small_chip) small_chip-IsChip refl refl refl refl refl refl first-IsPacket
      second-IsPacket refl (omega arith) (omega arith) (omega arith) (omega arith) (omega arith)
      (omega arith)
