-- ===== src/Cmd/Settings.antt =====
-- The commands that show and change settings: `autoboot`, `autoerase`, `bootadr`, `tftp`, and those that
-- leave, `exit` and `reboot`.
pub mod Saved
pub mod Stored
use panog2_ldr.Base.{
  ℕ, List, [], ◌∷◌, Option, none, some, le32, ltb, ◌==◌, if◌then◌else◌, Outcome, returns, fault,
  ◌>>=◌,
}
use panog2_ldr.Spi.{Spi}
use panog2_ldr.Board.{Board, tag_auto_boot, tag_auto_boot_adr, tag_tftp_srv, add_board_info}
use panog2_ldr.Console.{Console, auto_boot_mode, auto_erase_mode, boot_adr, server_adr, booting}
use panog2_ldr.Cmd.{
  Result, result_ok, result_usage, result_bad_arg, is_ok, Sys, Parser, say, get_on_off, same_text,
  delayed_text, auto_boot_delayed, get_adr, re_boot,
}

module _ (spi : Spi) (con : Console) (parser : Parser) where
  open spi use {Flash}
  open con use {Net, print, wait_empty, close}
  open parser use {convert_value, ip_addr}

  -- The globals that the data block functions share with the rest.
  abbrev pub board_of : Sys Flash Net → Board Flash
  board_of s = record {
    config = record {
      auto_boot = s.auto_boot;
      auto_boot_adr = s.auto_boot_adr;
      server_ip = s.ldr.server_ip;
    };
    temp = s.temp;
    flash = s.flash;
  }

  abbrev pub with_board : Sys Flash Net → Board Flash → Sys Flash Net
  with_board s b = record s {
    auto_boot = b.config.auto_boot;
    auto_boot_adr = b.config.auto_boot_adr;
    ldr = record s.ldr { server_ip = b.config.server_ip };
    temp = b.temp;
    flash = b.flash;
  }

  pub add_info : ℕ → ℕ → Sys Flash Net → Outcome (Sys Flash Net)
  add_info tag value s = do
    b ← add_board_info spi tag (le32 value) (board_of s)
    returns (with_board s b)

  -- `NetPrintf("Autoboot %s\n",Mode[gAutoBoot])`; `fault` is an index past the three texts.
  pub show_auto_boot : Sys Flash Net → Outcome (Result × Sys Flash Net)
  show_auto_boot s =
      if ltb 2 s.auto_boot
      then fault
      else returns (result_ok, say spi con parser s (print (auto_boot_mode s.auto_boot) s.net))

  -- The mode that the argument names.
  unfoldable pub auto_boot_arg : List ℕ → Option ℕ
  auto_boot_arg line =
      if same_text line delayed_text
      then some auto_boot_delayed
      else elim (get_on_off line) [ none ↦ none | some on ↦ some (if on then 1 else 0) ]

  pub auto_boot_cmd : List ℕ → Sys Flash Net → Outcome (Result × Sys Flash Net)
  auto_boot_cmd [] s = show_auto_boot s
  auto_boot_cmd (c ∷ line) s = elim (auto_boot_arg (c ∷ line)) [
    | none ↦ returns (result_bad_arg, s)
    | some mode ↦ add_info tag_auto_boot mode s >>= show_auto_boot
  ]

  abbrev pub show_auto_erase : Sys Flash Net → Result × Sys Flash Net
  show_auto_erase s =
      (result_ok, say spi con parser s (print (auto_erase_mode s.ldr.auto_erase) s.net))

  pub auto_erase_cmd : List ℕ → Sys Flash Net → Result × Sys Flash Net
  auto_erase_cmd [] s = show_auto_erase s
  auto_erase_cmd (c ∷ line) s = elim (get_on_off (c ∷ line)) [
    | none ↦ (result_bad_arg, s)
    | some on ↦ show_auto_erase (record s { ldr = record s.ldr { auto_erase = on } })
  ]

  abbrev pub show_boot_adr : Sys Flash Net → Result × Sys Flash Net
  show_boot_adr s = (result_ok, say spi con parser s (print (boot_adr s.auto_boot_adr) s.net))

  pub boot_adr_cmd : List ℕ → Sys Flash Net → Outcome (Result × Sys Flash Net)
  boot_adr_cmd [] s = returns (show_boot_adr s)
  boot_adr_cmd (c ∷ line) s = elim (convert_value (c ∷ line)) [
    | none ↦ returns (result_bad_arg, s)
    | some (adr, rest) ↦ do s' ← add_info tag_auto_boot_adr adr s; returns (show_boot_adr s')
  ]

  pub tftp_cmd : List ℕ → Sys Flash Net → Outcome (Result × Sys Flash Net)
  tftp_cmd [] s =
      if s.ldr.server_ip == 0
      then returns (result_usage, s)
      else returns (result_ok, say spi con parser s (print (server_adr s.ldr.server_ip) s.net))
  tftp_cmd (c ∷ line) s = elim (ip_addr (c ∷ line)) [
    | none ↦ returns (result_bad_arg, s)
    | some ip ↦ do s' ← add_info tag_tftp_srv ip s; returns (result_ok, s')
  ]

  pub exit_cmd : Sys Flash Net → Result × Sys Flash Net
  exit_cmd s = (result_ok, say spi con parser s (close (wait_empty s.net)))

  pub reboot_cmd : List ℕ → Sys Flash Net → Result × Sys Flash Net
  reboot_cmd line s =
      let a = get_adr spi con parser 0 line s in
      if is_ok a.result
      then (
        result_ok,
        re_boot a.value
            (say spi con parser a.state (close (wait_empty (print booting a.state.net)))),
      )
      else (a.result, a.state)
