-- ===== src/Tests.antt =====
-- Concrete inputs for the theorems: two chips, a console that lists its messages, and a command parser.
pub mod Parsers
pub mod Transfers
pub mod Entries
pub mod Commands
pub mod Inputs
pub mod Outputs
pub mod Ports
pub mod Boots
pub mod Loop
pub mod Flashing
pub mod Verifying
pub mod Typing
pub mod Turns
pub mod Stores
pub mod Erasing
use panog2_ldr.Base.{
  ℕ, zero, suc, ◌+◌, ◌-◌, ◌*◌, ◌<◌, ◌≡◌, arith, refl, Bool, true, false, ◌&&◌, List, [], ◌∷◌,
  Option, none, some, ◌==◌, if◌then◌else◌, get_or, length, ltb, Bool-cases, inl, inr, replicate,
  drop,
}
use panog2_ldr.Spi.{FlashInfo, Spi, IsNor}
use panog2_ldr.Spi.Nor.{Cells, cells_spi}
use panog2_ldr.Tftp.{Ldr, Io, Client, err_ok, err_val, err_code, TransferType, in_progress, reset}
use panog2_ldr.Tftp.Flash.{IsChip}
use panog2_ldr.Board.{Board, initial_config}
use panog2_ldr.Console.{Console, Msg}
use panog2_ldr.Cmd.{Sys, Parser}

-- 64 bytes in sectors of 16, and 4096 in sectors of 1024.
abbrev pub small_chip : FlashInfo
small_chip = record { desc = []; flash_size = 64; page_size = 4; erase_size = 16 }

abbrev pub block_chip : FlashInfo
block_chip = record { desc = []; flash_size = 4096; page_size = 256; erase_size = 1024 }

pub small_chip-IsChip : IsChip small_chip
small_chip-IsChip = record { sectors = refl; erase_pos = omega arith; small = omega arith }

-- A flash of zeros, and one whose bytes are their addresses.
abbrev pub zeros : Cells
zeros x = 0

abbrev pub counting : Cells
counting x = x

abbrev pub all_bytes : List ℕ → Bool
all_bytes [] = true
all_bytes (b ∷ bs) = ltb b 256 && all_bytes bs

pub all_bytes_lem : (bs : List ℕ) → all_bytes bs ≡ true → (i : ℕ) → get_or bs i 0 < 256
all_bytes_lem [] h i = omega arith
all_bytes_lem (b ∷ bs) h zero = ground arith
all_bytes_lem (b ∷ bs) h (suc i) = all_bytes_lem bs (ground arith) i

-- A transfer that is set up, with a server.
abbrev pub transfer : TransferType → ℕ → Ldr
transfer type adr = record {
  server_ip = 1;
  filename = 102 ∷ [];
  err_msg = replicate 33 0;
  bytes_transfered = 0;
  max_bytes = 1024;
  send_len = 20;
  transfer_type = type;
  flash_adr = adr;
  last_erase_adr = 0;
  last_progress = 0;
  error = in_progress;
  auto_erase = true;
}

abbrev pub ready_client : Client
ready_client = record { init_client = err_ok; put = λ ip name. err_ok; get = λ ip name. err_ok }

abbrev pub busy_client : Client
busy_client = record { init_client = err_code 8; put = λ ip name. err_ok; get = λ ip name. err_ok }

-- The network side is the list of what was printed, the last message first.
abbrev pub log_console : Console
log_console = record {
  Net = List Msg;
  connected = λ n. true;
  print = λ m n. m ∷ n;
  puts = λ text n. n;
  flush = λ n. n;
  wait_empty = λ n. n;
  close = λ n. n;
}

-- Every character is a number, and a space separates the words.
abbrev pub to_value : List ℕ → Option (ℕ × List ℕ)
to_value [] = none
to_value (c ∷ cs) = some (c, cs)

abbrev pub to_space : List ℕ → ℕ
to_space [] = 0
to_space (c ∷ cs) = let rest = to_space cs in if c == 32 then 0 else suc rest

abbrev pub char_parser : Parser
char_parser = record {
  convert_value = to_value;
  skip_to_space = to_space;
  ip_addr = λ text. some 1;
}

abbrev pub system : Ldr → Cells → Sys Cells (List Msg)
system ldr flash = record {
  ldr = ldr;
  temp = replicate 1024 0;
  flash = flash;
  auto_boot = 0;
  auto_boot_adr = 0;
  net = [];
  bytes_on_line = 0;
  gpio = [];
}

abbrev pub board : Cells → Board Cells
board flash = record { config = initial_config; temp = []; flash = flash }
