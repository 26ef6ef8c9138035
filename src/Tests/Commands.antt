-- ===== src/Tests/Commands.antt =====
-- The theorems on the commands, at concrete inputs.
use panog2_ldr.Base.{
  Bool, true, false, ltb, if◌then◌else◌, all_ones, ℕ, ◌≤◌, ◌<◌, ◌≡◌, ◌⊎◌, refl, arith, bytes, List,
  [], ◌∷◌, returns,
}
use panog2_ldr.Spi.Nor.{Cells, cells_spi, cells_spi-IsNor, peek_cells}
use panog2_ldr.Tftp.{type_compare, type_flash, tftp_ok, err_code, reset, ldr_tftp_init}
use panog2_ldr.Console.{Msg, map_header, verified, verify_failed}
use panog2_ldr.Cmd.{Sys, result_ok, get_adr, get_adr_and_len, get_len}
use panog2_ldr.Cmd.Bounds.{get_adr_and_len_lem}
use panog2_ldr.Cmd.Sectors.{dump_cmd, erase_range, map_cmd}
use panog2_ldr.Cmd.Sectors.Regions.{show_runs, expand, Alternates}
use panog2_ldr.Cmd.Sectors.Regions.Walk.{HasPages}
use panog2_ldr.Cmd.Sectors.Regions.Command.{map_cmd_lem}
use panog2_ldr.Cmd.Sectors.Blocks.{dump_cmd_lem}
use panog2_ldr.Console.{Console, error_text}
use panog2_ldr.Console.Rows.{row, rows, puts_all}
use panog2_ldr.Cmd.Sectors.Erase.{erase_range_lem}
use panog2_ldr.Cmd.Transfer.{idle, get_tftp_transfer_vals, start, verify_cmd}
use panog2_ldr.Cmd.Transfer.Verify.{verify_cmd-unstarted}
use panog2_ldr.Tests.{
  small_chip, small_chip-IsChip, block_chip, zeros, counting, transfer, busy_client, log_console,
  char_parser, system,
}

-- Two sectors of four.
erase_range_example :
    (s' : Sys Cells (List Msg)) × (erase_range
        (cells_spi small_chip)
        log_console
        char_parser
        16
        16
        47
        (system (transfer type_flash 0) zeros)
      ≡ returns (result_ok, s'))
    × ((x : ℕ) → 16 ≤ x → x < 48 → peek_cells s'.flash x ≡ 255)
    × ((x : ℕ) → (x < 16) ⊎ (48 ≤ x) → peek_cells s'.flash x ≡ 0)
erase_range_example =
    erase_range_lem (cells_spi small_chip) log_console char_parser small_chip 2 16 48
      (system (transfer type_flash 0) zeros) (cells_spi-IsNor small_chip) small_chip-IsChip
      (omega arith) refl (omega arith) refl (omega arith)

-- A console that keeps the texts, the last one first.
abbrev text_console : Console
text_console = record log_console { puts = λ text n. error_text text ∷ n }

-- `dump 8 1500`, of a line in which they are digits: two blocks of 1024 bytes.
abbrev dumping : Sys Cells (List Msg)
dumping = system (transfer type_flash 0) counting

dump_cmd_example :
    (t : List ℕ) × (dump_cmd (cells_spi block_chip) text_console char_parser (8 ∷ 1500 ∷ []) dumping
      ≡ returns (
        result_ok,
        record dumping {
          temp = t;
          bytes_on_line = 0;
          net = puts_all text_console (rows 128 8 (bytes (peek_cells counting) 8 2048)) [];
        },
      ))
unfolding get_adr get_adr_and_len get_len
dump_cmd_example =
    dump_cmd_lem (cells_spi block_chip) text_console char_parser block_chip 1 128 8 1500
      (8 ∷ 1500 ∷ []) [] dumping (cells_spi-IsNor block_chip) (omega arith) (λ t n h. refl) refl
      refl refl (omega arith) (omega arith) (omega arith) (omega arith) (omega arith) (omega arith)

-- Two bytes of a row, at 0x1a8.
row_text :
    row 0x1a8 (0xff ∷ 0x0a ∷ [])
    ≡ (48 ∷ 48 ∷ 48 ∷ 48 ∷ 48 ∷ 49 ∷ 97 ∷ 56 ∷ [])
      ∷ (32 ∷ 32 ∷ [])
      ∷ (102 ∷ 102 ∷ [])
      ∷ (32 ∷ [])
      ∷ (48 ∷ 97 ∷ [])
      ∷ (10 ∷ [])
      ∷ []
row_text = refl

-- An address of 8, and a length that makes the sum wrap.
abbrev wrapping : List ℕ
wrapping = 8 ∷ 0xffff_fffa ∷ []

get_adr_and_len_example :
    let a =
      get_adr_and_len
        (cells_spi small_chip)
        log_console
        char_parser
        wrapping
        (system (transfer type_flash 0) zeros) in
    (a.result ≡ result_ok)
    × ((0x1_0000_0002 < 0x1_0000_0000) × (a.value ≡ (8, 56)) × (64 ≤ 64)
        ⊎ (0x1_0000_0000 ≤ 0x1_0000_0002) × (a.value ≡ (8, 0xffff_fffa)) × (64 < 0x1_0000_0002))
get_adr_and_len_example =
    get_adr_and_len_lem (cells_spi small_chip) log_console char_parser small_chip wrapping
      (0xffff_fffa ∷ []) [] 8 0xffff_fffa (system (transfer type_flash 0) zeros) refl refl refl
      (omega arith) (omega arith) (omega arith)

-- `verify f 8`, of a line in which 8 is a digit.
abbrev line : List ℕ
line = 102 ∷ 32 ∷ 8 ∷ []

abbrev asked : Sys Cells (List Msg)
asked = system (transfer type_compare 8) zeros

asked_lem :
    get_tftp_transfer_vals
      (cells_spi small_chip)
      log_console
      char_parser
      []
      line
      type_compare
      (system (transfer type_flash 0) zeros)
    ≡ (result_ok, asked)
unfolding get_tftp_transfer_vals get_adr
asked_lem = refl

busy_lem :
    start (cells_spi small_chip) log_console char_parser busy_client asked
    ≡ (err_code 8, record asked { ldr = reset asked.ldr })
unfolding start ldr_tftp_init
busy_lem = refl

verify_cmd-unstarted_example :
    verify_cmd
      (cells_spi small_chip)
      log_console
      char_parser
      busy_client
      (idle ∷ [])
      []
      line
      (system (transfer type_flash 0) zeros)
    ≡ returns (
      result_ok,
      record asked {
        ldr = reset asked.ldr;
        net = verified 0 ∷ verify_failed (err_code 8) tftp_ok ∷ [];
      },
    )
verify_cmd-unstarted_example =
    verify_cmd-unstarted (cells_spi small_chip) log_console char_parser busy_client (idle ∷ []) []
      line (system (transfer type_flash 0) zeros) asked (err_code 8) asked_lem busy_lem (λ e. cc e)
      (omega arith)

block_chip-HasPages : HasPages block_chip
block_chip-HasPages = record {
  fits = omega arith;
  pages = refl;
  page_small = omega arith;
  erase_pos = omega arith;
  small = omega arith;
}

-- Two sectors of ones, and two of zeros.
abbrev half_flash : Cells
half_flash x = if ltb x 2048 then 255 else 0

abbrev mapping : Sys Cells (List Msg)
mapping = system (transfer type_flash 0) half_flash

map_cmd_example :
    (s' : Sys Cells (List Msg)) × (rs : List (ℕ × Bool)) × (map_cmd
        (cells_spi block_chip)
        log_console
        char_parser
        mapping
      ≡ returns (result_ok, s'))
    × (s'.flash ≡ half_flash)
    × (s'.net ≡ show_runs log_console 1024 0 rs (map_header [] 0 1 ∷ []))
    × (expand rs ≡ true ∷ true ∷ false ∷ false ∷ [])
    × Alternates rs
unfolding all_ones
map_cmd_example =
    map_cmd_lem (cells_spi block_chip) log_console char_parser block_chip 3 mapping refl
      (cells_spi-IsNor block_chip) block_chip-HasPages refl refl
