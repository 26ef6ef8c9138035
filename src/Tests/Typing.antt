-- ===== src/Tests/Typing.antt =====
-- The theorem on a typed `flash` line, at a concrete input.
use panog2_ldr.Base.{
  ℕ, ◌≤◌, ◌<◌, ◌≡◌, ◌⊎◌, refl, arith, false, List, [], ◌∷◌, ◌++◌, some, bytes, returns,
}
use panog2_ldr.Spi.Nor.{Cells, cells_spi, cells_spi-IsNor, peek_cells}
use panog2_ldr.Tftp.{unset}
use panog2_ldr.Console.{Msg, flashed, prompt}
use panog2_ldr.Cmd.Transfer.{close_event}
use panog2_ldr.Cmd.Transfer.Packets.{arrivals}
use panog2_ldr.Rx.{carriage_return}
use panog2_ldr.Main.{World, received, Turn, turn}
use panog2_ldr.Main.Dispatch.{word}
use panog2_ldr.Tests.Parsers.{table_shell, table_shell-LooksUp}
use panog2_ldr.Main.Typed.{IsTransfer}
use panog2_ldr.Main.Flashed.{typed_flash_lem}
use panog2_ldr.Tests.{
  small_chip, small_chip-IsChip, zeros, transfer, ready_client, log_console, char_parser, system,
}
use panog2_ldr.Tests.Transfers.{first_packet, second_packet, first-IsPacket, second-IsPacket}
use panog2_ldr.Tests.Flashing.{arguments, polls}
use panog2_ldr.Tests.Loop.{log_link, world, turn_of, is_text-ArePlain, is_text-NoZero, world-IsRx}

-- `flash`, a name of one letter, and the address 20.
abbrev pub typed_text : List ℕ
typed_text = 102 ∷ 108 ∷ 97 ∷ 115 ∷ 104 ∷ 32 ∷ 103 ∷ 32 ∷ 20 ∷ []

abbrev pub waiting : World Cells (List Msg)
waiting = record world { sys = system (transfer unset 0) zeros }

abbrev pub typing : Turn
typing = record (turn_of (received (some (typed_text ++ carriage_return ∷ [])) ∷ []) []) {
  client = ready_client;
  transfer = arrivals polls ++ close_event ∷ [];
}

pub typing-IsTransfer :
    IsTransfer char_parser small_chip typing typed_text [] arguments
      (103 ∷ [])
      20
      (arrivals polls ++ close_event ∷ [])
      waiting
typing-IsTransfer = record {
  typed = record {
    comes = refl;
    alone = refl;
    plain = is_text-ArePlain typed_text refl;
    no_zero = is_text-NoZero typed_text refl;
    short = omega arith;
    line = world-IsRx;
    waits = refl;
    empty = refl;
    greeted = refl;
  };
  names = record {
    rest = [];
    server = λ e. absurd (omega (arith, e));
    ends = omega arith;
    named = refl;
    short = omega arith;
    address = refl;
    inside = omega arith;
  };
  ready = refl;
  gets = refl;
  brings = refl;
}

typed_flash_example :
    (w' : World Cells (List Msg)) × (n : List Msg) × (turn
        (cells_spi small_chip)
        log_console
        char_parser
        log_link
        table_shell
        typing
        waiting
      ≡ returns w')
    × (w'.sys.net ≡ prompt ∷ flashed 22 ∷ n)
    × (bytes (peek_cells w'.sys.flash) 20 22 ≡ first_packet ++ second_packet)
    × ((x : ℕ) → (x < 16) ⊎ (58 ≤ x) → peek_cells w'.sys.flash x ≡ 0)
    × (w'.rx.input_ready ≡ false)
    × (w'.rx.rx_count ≡ 0)
unfolding word
typed_flash_example =
    typed_flash_lem (cells_spi small_chip) log_console char_parser log_link table_shell small_chip
      typing typed_text [] (103 ∷ []) 20 waiting polls [] (cells_spi-IsNor small_chip)
      small_chip-IsChip refl table_shell-LooksUp refl typing-IsTransfer refl
      (first-IsPacket, (second-IsPacket, tt)) (omega arith) (omega arith)
