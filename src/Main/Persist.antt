-- ===== src/Main/Persist.antt =====
-- A setting that is typed, and the next power-up.
use panog2_ldr.Base.{
  ℕ, ◌<◌, ◌≤◌, ◌≡◌, sym, subst, ap, ◌∙◌, arith, false, List, [], ◌∷◌, ◌++◌, some, length, returns,
  ◌>>=◌,
}
use panog2_ldr.Spi.{FlashInfo, Spi, IsNor}
use panog2_ldr.Board.{initial_config}
use panog2_ldr.Board.Entries.{Entry, apply_all}
use panog2_ldr.Board.Block.{HasBlock, Holds}
use panog2_ldr.Console.{Console}
use panog2_ldr.Cmd.{result_ok, Sys, Parser, re_boot}
use panog2_ldr.Cmd.Settings.{auto_boot_arg, auto_boot_cmd}
use panog2_ldr.Rx.{rx_buf_len, carriage_return}
use panog2_ldr.Rx.Steps.{IsRx, ArePlain}
use panog2_ldr.Boot.{Sample, decide, power_up, start_up}
use panog2_ldr.Boot.Next.{next_start_lem}
use panog2_ldr.Main.Table.{auto_boot_command, execute}
use panog2_ldr.Main.Table.Text.{NoZero}
use panog2_ldr.Main.{World, received, Link, Shell, Turn, check_button, turn}
use panog2_ldr.Main.Line.{line_done, typed_line_runs}
use panog2_ldr.Main.Dispatch.{Calls}

check_button-flash :
    (spi : Spi) (con : Console) (parser : Parser) (link : Link con.Net)
    (shell : Shell spi.Flash con.Net) (i : Turn) (w : World spi.Flash con.Net)
    → (check_button spi con parser link shell i w).sys.flash ≡ w.sys.flash
unfolding check_button re_boot
check_button-flash spi con parser link shell i w = ground arith

-- `autoboot` with an argument that names a mode, typed on the telnet connection: after the turn of the main
-- loop that gets the packet, the next power-up takes the boot decision in that mode, with the address of
-- the data block's last entry for it, whatever the button and the network do then. The data block has
-- four free words, the line is empty before, nobody is to be welcomed, nothing is typed meanwhile, and
-- `ParseCmd` calls the function that the line names.
pub typed_auto_boot_lem :
    (spi : Spi) (con : Console) (parser : Parser) (link : Link con.Net)
    (shell : Shell spi.Flash con.Net) (chip : FlashInfo) (i : Turn) (cs rest : List ℕ) (c : ℕ)
    (args : List ℕ) (mode : ℕ) (w : World spi.Flash con.Net) (es : List Entry) (free : ℕ)
    → spi.info ≡ some chip
    → IsNor spi chip
    → HasBlock chip
    → Holds spi chip w.sys.flash es free
    → 16 ≤ free
    → Calls shell cs auto_boot_command (c ∷ args)
    → auto_boot_arg spi con parser (c ∷ args) ≡ some mode
    → i.polled ≡ received (some (cs ++ carriage_return ∷ rest)) ∷ []
    → i.typed ≡ []
    → ArePlain cs
    → NoZero cs
    → length cs < rx_buf_len
    → IsRx w.rx
    → w.rx.input_ready ≡ false
    → w.rx.rx_count ≡ 0
    → w.send_welcome ≡ false
    → (w' : World spi.Flash con.Net) × (turn spi con parser link shell i w ≡ returns w')
      × ((direction : ℕ) (samples : List Sample) (n : con.Net)
          → (t : Sys spi.Flash con.Net) × (start_up spi con parser direction samples
                (power_up n w'.sys.flash)
              ≡ decide samples t)
            × (t.auto_boot ≡ mode)
            × (t.auto_boot_adr ≡ (apply_all es initial_config).auto_boot_adr))
unfolding execute
typed_auto_boot_lem spi con parser link shell chip i cs rest c args mode w es free has nor geo h
      room k arg one none plain nz short valid ready zero greeted =
    let (v, text, same, run) =
      typed_line_runs spi con parser link shell i cs rest w one none plain nz short valid ready zero
        greeted in
    let kept : w.sys.flash ≡ v.sys.flash = sym (
      ap (λ (s : Sys spi.Flash con.Net). s.flash) same
      ∙ check_button-flash spi con parser link shell i w) in
    let (s', done, shown, next) =
      next_start_lem spi con parser chip c args mode v.sys es free has nor geo arg
        (subst (λ f. Holds spi chip f es free) kept h) room in
    let ran : execute spi con parser shell.help i.client i.transfer auto_boot_command
          (k.rest v.rx.rx_buf) v.sys
        ≡ returns (result_ok, s') =
      ap (λ t. auto_boot_cmd spi con parser t v.sys) (k.at v.rx.rx_buf text) ∙ done in
    (
      line_done spi con parser link shell v
          (k.left v.rx.rx_buf, record s' { net = k.answer result_ok s'.net }),
      run
          ∙ ap (λ o. o >>= λ r. returns (line_done spi con parser link shell v r))
              (k.calls _ v.rx.rx_buf v.sys s' result_ok text ran),
      λ direction samples n.
          let (t, start, boot, adr, _) = next direction samples n in (t, start, boot, adr),
    )
