-- ===== src/Cmd/Transfer/Values.antt =====
-- `GetTftpTransferVals`: what the arguments of `flash` and `verify` leave.
use panog2_ldr.Base.{ℕ, ◌+◌, ◌≤◌, ◌<◌, ◌≡◌, ◌≢◌, arith, List, some, take, drop, length}
use panog2_ldr.Spi.{FlashInfo, Spi}
use panog2_ldr.Tftp.{
  Client, err_ok, in_progress, reset, ldr_tftp_init, TransferType, max_filename_len, type_flash,
  type_save, type_compare,
}
use panog2_ldr.Tftp.Start.{ldr_tftp_init-started}
use panog2_ldr.Board.{temp_size}
use panog2_ldr.Console.{Console}
use panog2_ldr.Cmd.{Sys, Parser, result_ok, get_adr}
use panog2_ldr.Cmd.Transfer.{get_tftp_transfer_vals}

module _ (spi : Spi) (con : Console) (parser : Parser) (stale line : List ℕ)
    (s t : Sys spi.Flash con.Net) where
  -- What arguments that are read leave for `flash`.
  pub flash_vals :
      get_tftp_transfer_vals spi con parser stale line type_flash s ≡ (result_ok, t)
      → (t.ldr.transfer_type ≡ type_flash) × (t.flash ≡ s.flash)
  unfolding get_tftp_transfer_vals get_adr
  flash_vals h = ground arith

  -- And for `verify`.
  pub compare_vals :
      get_tftp_transfer_vals spi con parser stale line type_compare s ≡ (result_ok, t)
      → (t.ldr.transfer_type ≡ type_compare)
        × (t.flash ≡ s.flash)
        × (t.temp ≡ s.temp)
        × (t.ldr.max_bytes ≡ temp_size)
  unfolding get_tftp_transfer_vals get_adr
  compare_vals h = ground arith

-- And for `save`, whether a length is given or not.
pub save_vals :
    (spi : Spi) (con : Console) (parser : Parser) (stale line : List ℕ)
    (s t : Sys spi.Flash con.Net)
    → get_tftp_transfer_vals spi con parser stale line type_save s ≡ (result_ok, t)
    → t.flash ≡ s.flash
unfolding get_tftp_transfer_vals get_adr
save_vals spi con parser stale line s t h = ground arith

-- What the line of a transfer says, and that it is accepted: a server is known, the file name, which is not
-- longer than fits, ends in a space, and behind it stands an address on the flash.
pub record Names (parser : Parser) (chip : FlashInfo) (ip : ℕ) (line name : List ℕ) (adr : ℕ)
    : Type 0 where
  pub rest : List ℕ
  pub server : ip ≢ 0
  pub ends : parser.skip_to_space line < length line
  pub named : take (parser.skip_to_space line) line ≡ name
  pub short : length name ≤ max_filename_len
  pub address : parser.convert_value (drop (parser.skip_to_space line + 1) line) ≡ some (adr, rest)
  pub inside : adr ≤ chip.flash_size

module _ (spi : Spi) (con : Console) (parser : Parser) (chip : FlashInfo)
    (has : spi.info ≡ some chip) (stale line name : List ℕ) (adr : ℕ) (s : Sys spi.Flash con.Net)
    (h : Names parser chip s.ldr.server_ip line name adr) where
  abbrev pub asked : TransferType → Sys spi.Flash con.Net
  asked type = record s {
    ldr = record s.ldr {
      filename = name;
      flash_adr = adr;
      max_bytes = temp_size;
      transfer_type = type;
    };
  }

  pub flash_vals-ok :
      get_tftp_transfer_vals spi con parser stale line type_flash s ≡ (result_ok, asked type_flash)
  unfolding get_tftp_transfer_vals get_adr
  flash_vals-ok = ground (arith, h.server, h.ends, h.named, h.short, h.address, h.inside)

  pub compare_vals-ok :
      get_tftp_transfer_vals spi con parser stale line type_compare s
      ≡ (result_ok, asked type_compare)
  unfolding get_tftp_transfer_vals get_adr
  compare_vals-ok = ground (arith, h.server, h.ends, h.named, h.short, h.address, h.inside)

  -- lwIP's client takes the request.
  pub flash_begins :
      (client : Client)
      → client.init_client ≡ err_ok
      → client.get s.ldr.server_ip name ≡ err_ok
      → ldr_tftp_init client (some (asked type_flash).ldr)
        ≡ (err_ok, some (record (reset (asked type_flash).ldr) { error = in_progress }))
  flash_begins client ready gets =
      (ldr_tftp_init-started client (asked type_flash).ldr).1 (h.server, omega arith, ready, gets)

  pub compare_begins :
      (client : Client)
      → client.init_client ≡ err_ok
      → client.get s.ldr.server_ip name ≡ err_ok
      → ldr_tftp_init client (some (asked type_compare).ldr)
        ≡ (err_ok, some (record (reset (asked type_compare).ldr) { error = in_progress }))
  compare_begins client ready gets =
      (ldr_tftp_init-started client (asked type_compare).ldr).1 (h.server, omega arith, ready, gets)
