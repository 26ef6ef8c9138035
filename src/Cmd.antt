-- ===== src/Cmd.antt =====
-- The commands of fw/pano_ldr/main.c: their shared state, argument parsing, and the settings commands.
pub mod Settings
pub mod Transfer
pub mod Sectors
pub mod Bounds
use panog2_ldr.Base.{
  ℕ, zero, suc, ◌+◌, ◌-◌, ◌*◌, ◌/◌, ◌%◌, ◌^◌, ◌&&◌, ◌||◌, not, Bool, true, false, List, [], ◌∷◌,
  ◌++◌, Option, none, some, length, take, drop, le32, ltb, leb, ◌==◌, if◌then◌else◌, u32, Outcome,
  returns, fault, no_fuel, ◌>>=◌,
}
use panog2_ldr.Spi.{FlashInfo, Spi}
use panog2_ldr.Tftp.{Ldr, TransferType, type_save, max_filename_len}
use panog2_ldr.Board.{
  Config, Board, temp_size, tag_auto_boot, tag_auto_boot_adr, tag_tftp_srv, add_board_info,
}
use panog2_ldr.Console.{
  Console, past_end, length_reduced, server_not_set, filename_too_long, auto_boot_mode,
  auto_erase_mode, boot_adr, server_adr, booting,
}

-- What a command returns to the parser (RESULT_OK and so on).
pub data Result : Type 0 where
  result_ok result_usage result_err result_bad_arg result_internal_err : Result

abbrev pub is_ok : Result → Bool
is_ok result_ok = true
is_ok _ = false

-- AUTOBOOT_OFF, AUTOBOOT_ON, AUTOBOOT_DELAYED
abbrev pub auto_boot_off : ℕ
auto_boot_off = 0

abbrev pub auto_boot_on : ℕ
auto_boot_on = 1

abbrev pub auto_boot_delayed : ℕ
auto_boot_delayed = 2

-- The globals that the commands share: `gTftp` (whose `ServerIP` is a setting too), `gTemp`, the flash,
-- `gAutoBoot`, `gAutoBootAdr`, the network side, `gNetPrint.BytesOnLine`, and the writes to the GPIO
-- registers, the last one first.
pub record Sys (F N : Type 0) : Type 0 where
  pub ldr : Ldr
  pub temp : List ℕ
  pub flash : F
  pub auto_boot : ℕ
  pub auto_boot_adr : ℕ
  pub net : N
  pub bytes_on_line : ℕ
  pub gpio : List (ℕ × ℕ)

-- common/cmd_parser.c and lwIP's `ipaddr_aton`, which the sources only call: `ConvertValue` (the value
-- and what is left of the line, or nothing for an error), the number of characters that `Skip2Space`
-- skips, and the address that a text names.
pub record Parser : Type 0 where
  pub convert_value : List ℕ → Option (ℕ × List ℕ)
  pub skip_to_space : List ℕ → ℕ
  pub ip_addr : List ℕ → Option ℕ

-- BOOT_SPI_ADR and REBOOT_ADR of the GPIO block.
abbrev pub gpio_base : ℕ
gpio_base = 0x9400_0000

abbrev pub boot_spi_adr : ℕ
boot_spi_adr = 0x2c

abbrev pub reboot_adr : ℕ
reboot_adr = 0x30

-- `ReBoot`: the registers written, the last one first.
unfoldable pub re_boot : {F N : Type 0} → ℕ → Sys F N → Sys F N
re_boot adr s = record s {
  gpio =
      (gpio_base + reboot_adr, 0)
      ∷ (gpio_base + reboot_adr, 1)
      ∷ (gpio_base + boot_spi_adr, adr)
      ∷ s.gpio;
}

-- `strcasecmp(a, b) == 0`, of ASCII texts.
abbrev pub lower : ℕ → ℕ
lower c = if leb 65 c && leb c 90 then c + 32 else c

unfoldable pub same_text : List ℕ → List ℕ → Bool
same_text [] [] = true
same_text [] (y ∷ ys) = false
same_text (x ∷ xs) [] = false
same_text (x ∷ xs) (y ∷ ys) =
    let rest = same_text xs ys in if lower x == lower y then rest else false

abbrev pub on_text : List ℕ
on_text = 111 ∷ 110 ∷ []

abbrev pub off_text : List ℕ
off_text = 111 ∷ 102 ∷ 102 ∷ []

-- DelayedStr
abbrev pub delayed_text : List ℕ
delayed_text = 100 ∷ 101 ∷ 108 ∷ 97 ∷ 121 ∷ 101 ∷ 100 ∷ []

-- `GetOnOff`: the value, or nothing for RESULT_BAD_ARG.
unfoldable pub get_on_off : List ℕ → Option Bool
get_on_off line =
    if same_text line on_text
    then some true
    else if same_text line off_text
    then some false
    else none

module _ (spi : Spi) (con : Console) (parser : Parser) where
  open spi use {Flash, info}
  open con use {Net, print, wait_empty, close}
  open parser use {convert_value, skip_to_space, ip_addr}

  abbrev pub State : Type 0
  State = Sys Flash Net

  abbrev pub say : State → Net → State
  say s n = record s { net = n }

  -- The result of a parser, what is left of the line, and the state.
  abbrev pub Parsing : Type 0 → Type 0
  Parsing A = record { result : Result; value : A; rest : List ℕ; state : State }

  -- `GetAdrAndLen` with `pLen == NULL`; `old` is what `*pAdr` holds before.
  unfoldable pub get_adr : ℕ → List ℕ → State → Parsing ℕ
  get_adr old line s = elim info [
    | none ↦ record { result = result_internal_err; value = old; rest = line; state = s }
    | some chip ↦ elim (convert_value line) [
      | none ↦ record { result = result_bad_arg; value = old; rest = line; state = s }
      | some (adr, rest) ↦
          if ltb chip.flash_size adr
          then record {
            result = result_bad_arg;
            value = adr;
            rest = rest;
            state = say s (print (past_end adr chip.flash_size) s.net);
          }
          else record { result = result_ok; value = adr; rest = rest; state = s }
    ]
  ]

  -- The length of `GetAdrAndLen`, cut to the flash where the sum, which wraps, is past its end.
  abbrev pub cut_len : FlashInfo → ℕ → ℕ → ℕ
  cut_len chip adr len =
      if ltb chip.flash_size (u32 (adr + len)) then u32 (chip.flash_size + 2 ^ 32 - adr) else len

  -- What `GetAdrAndLen` does after the address.
  unfoldable pub get_len : FlashInfo → ℕ → List ℕ → State → Parsing (ℕ × ℕ)
  get_len chip adr line s = elim (convert_value line) [
    | none ↦ record { result = result_bad_arg; value = (adr, 0); rest = line; state = s }
    | some (len, rest) ↦ record {
      result = result_ok;
      value = (adr, cut_len chip adr len);
      rest = rest;
      state =
          if ltb chip.flash_size (u32 (adr + len))
          then say s (print (length_reduced (cut_len chip adr len)) s.net)
          else s;
    }
  ]

  -- `GetAdrAndLen` with a length.
  unfoldable pub get_adr_and_len : List ℕ → State → Parsing (ℕ × ℕ)
  get_adr_and_len line s =
      let a = get_adr 0 line s in
      let failed : Parsing (ℕ × ℕ) = record {
        result = a.result;
        value = (a.value, 0);
        rest = a.rest;
        state = a.state;
      } in
      elim info [
        | none ↦ failed
        | some chip ↦ if is_ok a.result then get_len chip a.value a.rest a.state else failed
      ]
