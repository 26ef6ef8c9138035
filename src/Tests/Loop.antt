-- ===== src/Tests/Loop.antt =====
-- The theorems on the main loop, at concrete inputs.
use panog2_ldr.Base.{
  ℕ, ◌≡◌, refl, sym, ap, arith, Bool, true, false, not, ◌&&◌, ◌||◌, List, [], ◌∷◌, ◌++◌, some,
  length, replicate, ◌==◌, Outcome, returns,
}
use panog2_ldr.Spi.Nor.{Cells, cells_spi, cells_spi-IsNor}
use panog2_ldr.Tftp.{type_flash}
use panog2_ldr.Console.{Msg, prompt, version}
use panog2_ldr.Cmd.{Sys, same_text, get_on_off}
use panog2_ldr.Cmd.Settings.{auto_boot_arg}
use panog2_ldr.Rx.{
  carriage_return, telnet_iac, backspace, del, tcp_recv, recv_loop, put_char, end_line,
}
use panog2_ldr.Rx.Steps.{IsRx, ArePlain}
use panog2_ldr.Led.{green, choose, update_leds}
use panog2_ldr.Led.Blink.{shown}
use panog2_ldr.Boot.{Sample, decide, power_up, start_up}
use panog2_ldr.Main.Table.{c_string}
use panog2_ldr.Main.Table.Text.{NoZero}
use panog2_ldr.Main.{
  link_is_up, speed_100, World, Callback, accepted, received, Link, Shell, Turn, tcp_accept,
  callback, check_button, show_leds, check_link, check_address, welcome, type_ahead, net_poll,
  run_line, turn, turns,
}
use panog2_ldr.Main.Ahead.{typed_ahead_reruns}
use panog2_ldr.Main.Invariant.{IsMain, KeepsLine, loop_start, turns-IsMain}
use panog2_ldr.Main.Dispatch.{word}
use panog2_ldr.Tests.Parsers.{table_shell, table_shell-LooksUp}
use panog2_ldr.Main.Kept.{typed_setting_lem}
use panog2_ldr.Board.{initial_config, tag_auto_boot}
use panog2_ldr.Board.Store.{put, store_of, settings_of}
use panog2_ldr.Cmd.Settings.{board_of}
use panog2_ldr.Cmd.Settings.Stored.{boot_mode}
use panog2_ldr.Tests.{block_chip, transfer, busy_client, log_console, char_parser, system}
use panog2_ldr.Tests.Entries.{block_chip-HasBlock, delayed, delayed_flash, delayed_flash-Holds}

abbrev pub log_link : Link (List Msg)
log_link = record { open_con = λ n. n; hang_up = λ n. n; tick = λ n. n; sent = λ k n. n }

-- `autoboot on`
abbrev typed_text : List ℕ
typed_text = 97 ∷ 117 ∷ 116 ∷ 111 ∷ 98 ∷ 111 ∷ 111 ∷ 116 ∷ 32 ∷ 111 ∷ 110 ∷ []

abbrev pub world : World Cells (List Msg)
world = loop_start (system (transfer type_flash 0) delayed_flash)

-- The button is released, and the link is up at 100 Mbit.
abbrev pub turn_of : List Callback → List (List ℕ) → Turn
turn_of polled typed = record {
  button = 2;
  now = 300;
  has_address = false;
  polled = polled;
  status = 0x60;
  gets_address = false;
  client = busy_client;
  transfer = [];
  typed = typed;
}

abbrev typing : Turn
typing = turn_of (received (some (typed_text ++ carriage_return ∷ 10 ∷ [])) ∷ []) []

abbrev pub is_text : List ℕ → Bool
is_text [] = true
is_text (c ∷ cs) =
    not (c == 0 || c == telnet_iac || c == backspace || c == del || c == carriage_return)
    && is_text cs

pub is_text-ArePlain : (cs : List ℕ) → is_text cs ≡ true → ArePlain cs
is_text-ArePlain [] h = tt
is_text-ArePlain (c ∷ cs) h = (
  record {
    not_iac = ground arith;
    not_backspace = ground arith;
    not_del = ground arith;
    not_return = ground arith;
  },
  is_text-ArePlain cs (ground arith),
)

pub is_text-NoZero : (cs : List ℕ) → is_text cs ≡ true → NoZero cs
is_text-NoZero [] h = tt
is_text-NoZero (c ∷ cs) h = (ground arith, is_text-NoZero cs (ground arith))

pub world-IsRx : IsRx world.rx
world-IsRx = record { size = refl; below = omega arith }

typed_setting_example :
    (w' : World Cells (List Msg)) × (turn
        (cells_spi block_chip)
        log_console
        char_parser
        log_link
        table_shell
        typing
        world
      ≡ returns w')
    × ((direction : ℕ) (samples : List Sample) (n : List Msg)
        → (t : Sys Cells (List Msg)) × (start_up
              (cells_spi block_chip)
              log_console
              char_parser
              direction
              samples
              (power_up n w'.sys.flash)
            ≡ decide samples t)
          × ((board_of (cells_spi block_chip) log_console char_parser t).config
              ≡ settings_of (put tag_auto_boot 1 (store_of (delayed ∷ []))) initial_config))
unfolding auto_boot_arg same_text get_on_off word
typed_setting_example =
    typed_setting_lem (cells_spi block_chip) log_console char_parser log_link table_shell block_chip
      typing typed_text (10 ∷ []) boot_mode 111 (110 ∷ []) 1 world (delayed ∷ []) 1012 refl
      (cells_spi-IsNor block_chip) block_chip-HasBlock delayed_flash-Holds (omega arith)
      (record {
        comes = refl;
        alone = refl;
        plain = is_text-ArePlain typed_text refl;
        no_zero = is_text-NoZero typed_text refl;
        short = omega arith;
        line = world-IsRx;
        waits = refl;
        empty = refl;
        greeted = refl;
      })
      table_shell-LooksUp refl refl refl (omega arith)

-- A parser that does nothing.
abbrev quiet_shell : Shell Cells (List Msg)
quiet_shell = record { parse_cmd = λ table run buf s. returns (buf, s); help = λ n. n }

quiet_shell-KeepsLine : KeepsLine quiet_shell
quiet_shell-KeepsLine table run buf left s s' e = ap size (sym e)
  where
    size : Outcome (List ℕ × Sys Cells (List Msg)) → ℕ
    size (returns (bytes, _)) = length bytes
    size _ = 0

-- `autoboot on` has been typed, and `map` follows while the command runs.
abbrev running : World Cells (List Msg)
running = record world {
  rx = record { rx_buf = typed_text ++ replicate 69 0; rx_count = 12; input_ready = true };
}

abbrev map_text : List ℕ
map_text = 109 ∷ 97 ∷ 112 ∷ []

abbrev typing_ahead : Turn
typing_ahead = turn_of [] ((map_text ++ carriage_return ∷ []) ∷ [])

typed_ahead_reruns_example :
    (w' : World Cells (List Msg)) × (run_line
        (cells_spi block_chip)
        log_console
        char_parser
        log_link
        quiet_shell
        typing_ahead
        running
      ≡ returns w')
    × (w'.rx.input_ready ≡ true)
    × (w'.rx.rx_count ≡ 0)
    × (c_string w'.rx.rx_buf ≡ typed_text)
unfolding c_string
typed_ahead_reruns_example =
    typed_ahead_reruns (cells_spi block_chip) log_console char_parser log_link quiet_shell
      typing_ahead map_text [] running running.rx.rx_buf running.sys refl refl refl (omega arith)
      refl (is_text-ArePlain map_text refl) (omega arith)

-- A turn with a connection, which is welcomed, and one that runs a line and brings the link up.
abbrev two_turns : List Turn
two_turns =
    turn_of (accepted 0x0a00_0001 ∷ []) []
    ∷ turn_of (received (some (map_text ++ carriage_return ∷ [])) ∷ []) []
    ∷ []

abbrev after_two : World Cells (List Msg)
after_two = record world {
  sys = record world.sys { net = prompt ∷ prompt ∷ version ∷ [] };
  rx = record { rx_buf = map_text ++ replicate 77 0; rx_count = 0; input_ready = false };
  lamps = record { last_update = 300; led = green; output = shown green };
  eth_status = 0x60;
  netif_link = true;
  serial = link_is_up speed_100 ∷ [];
}

turns-IsMain_example : IsMain after_two
unfolding turns turn run_line net_poll callback tcp_accept check_button show_leds check_link
    check_address welcome type_ahead tcp_recv recv_loop put_char end_line update_leds choose
turns-IsMain_example =
    turns-IsMain (cells_spi block_chip) log_console char_parser log_link quiet_shell two_turns
      world.sys after_two quiet_shell-KeepsLine refl
