-- ===== src/Tests/Turns.antt =====
-- The theorem on a typed `flash` and a typed `verify`, at concrete inputs.
use panog2_ldr.Base.{
  ℕ, ◌≡◌, refl, arith, List, [], ◌∷◌, ◌++◌, replicate, some, true, false, returns, same_bytes,
}
use panog2_ldr.Spi.Nor.{Cells, cells_spi, cells_spi-IsNor}
use panog2_ldr.Tftp.{
  ldr_tftp_init, tftp_close, tftp_write, write_loop, write_block, write_flash, auto_erase_step,
  needs_erase, next_erase,
}
use panog2_ldr.Console.{Msg, prompt, flashed, verified}
use panog2_ldr.Cmd.{get_adr}
use panog2_ldr.Cmd.Transfer.{
  close_event, get_tftp_transfer_vals, flash_cmd, transfer_cmd, start, wait_and_say,
  tftp_transfer_wait, report, show_progress, poll,
}
use panog2_ldr.Cmd.Transfer.Packets.{arrivals}
use panog2_ldr.Rx.{carriage_return, tcp_recv, recv_loop, put_char, end_line}
use panog2_ldr.Led.{green, choose, update_leds}
use panog2_ldr.Led.Blink.{shown}
use panog2_ldr.Main.Table.{execute, c_string, behind_string}
use panog2_ldr.Main.{
  link_is_up, speed_100, World, received, Turn, callback, check_button, show_leds, check_link,
  check_address, welcome, type_ahead, net_poll, run_line, turn, turns,
}
use panog2_ldr.Main.Dispatch.{word, find_command}
use panog2_ldr.Tests.Parsers.{table_shell, table_shell-LooksUp}
use panog2_ldr.Main.Typed.{IsTransfer}
use panog2_ldr.Main.Checked.{typed_flash_then_verify}
use panog2_ldr.Tests.{small_chip, small_chip-IsChip, ready_client, log_console, char_parser}
use panog2_ldr.Tests.Transfers.{first-IsPacket, second-IsPacket}
use panog2_ldr.Tests.Flashing.{arguments, polls}
use panog2_ldr.Tests.Verifying.{after, one_packet, one-IsBlock}
use panog2_ldr.Tests.Loop.{log_link, turn_of, is_text-ArePlain, is_text-NoZero}
use panog2_ldr.Tests.Typing.{typed_text, waiting, typing, typing-IsTransfer}

-- What the turn with the `flash` line leaves.
abbrev after_flash : World Cells (List Msg)
after_flash = record waiting {
  sys = record after { net = prompt ∷ flashed 22 ∷ [] };
  rx = record { rx_buf = typed_text ++ replicate 71 0; rx_count = 0; input_ready = false };
  lamps = record { last_update = 300; led = green; output = shown green };
  eth_status = 0x60;
  netif_link = true;
  serial = link_is_up speed_100 ∷ [];
}

first_turn :
    turn (cells_spi small_chip) log_console char_parser log_link table_shell typing waiting
    ≡ returns after_flash
unfolding turn run_line word find_command same_bytes net_poll callback check_button show_leds
    check_link check_address welcome type_ahead tcp_recv recv_loop put_char end_line update_leds
    choose execute c_string behind_string flash_cmd transfer_cmd start wait_and_say
    tftp_transfer_wait report show_progress poll tftp_close tftp_write write_loop write_block
    write_flash auto_erase_step needs_erase next_erase get_tftp_transfer_vals get_adr ldr_tftp_init
first_turn = refl

-- `verify`, with the same arguments.
abbrev verify_text : List ℕ
verify_text = 118 ∷ 101 ∷ 114 ∷ 105 ∷ 102 ∷ 121 ∷ 32 ∷ 103 ∷ 32 ∷ 20 ∷ []

abbrev verifying : Turn
verifying = record (turn_of (received (some (verify_text ++ carriage_return ∷ [])) ∷ []) []) {
  client = ready_client;
  transfer = arrivals one_packet ++ close_event ∷ [];
}

verifying-IsTransfer :
    IsTransfer char_parser small_chip verifying verify_text [] arguments
      (103 ∷ [])
      20
      (arrivals one_packet ++ close_event ∷ [])
      after_flash
verifying-IsTransfer = record {
  typed = record {
    comes = refl;
    alone = refl;
    plain = is_text-ArePlain verify_text refl;
    no_zero = is_text-NoZero verify_text refl;
    short = omega arith;
    line = record { size = refl; below = omega arith };
    waits = refl;
    empty = refl;
    greeted = refl;
  };
  names = record {
    rest = [];
    server = λ e. absurd (omega (arith, e));
    ends = omega arith;
    named = refl;
    short = omega arith;
    address = refl;
    inside = omega arith;
  };
  ready = refl;
  gets = refl;
  brings = refl;
}

typed_flash_then_verify_example :
    (w2 : World Cells (List Msg)) × (n : List Msg) × (turns
        (cells_spi small_chip)
        log_console
        char_parser
        log_link
        table_shell
        (typing ∷ verifying ∷ [])
        waiting
      ≡ returns w2)
    × (w2.sys.flash ≡ after.flash)
    × (w2.sys.net ≡ prompt ∷ verified 22 ∷ n)
unfolding word
typed_flash_then_verify_example =
    typed_flash_then_verify (cells_spi small_chip) log_console char_parser log_link table_shell
      small_chip typing verifying typed_text verify_text [] [] (103 ∷ []) (103 ∷ []) 20 waiting
      after_flash polls one_packet [] [] (cells_spi-IsNor small_chip) small_chip-IsChip refl
      table_shell-LooksUp refl typing-IsTransfer refl (first-IsPacket, (second-IsPacket, tt))
      (omega arith) (omega arith) first_turn refl verifying-IsTransfer (omega arith)
      (one-IsBlock, tt) refl
