-- ===== src/Main/Kept.antt =====
-- A setting that is typed, and every later power-up.
use panog2_ldr.Base.{ℕ, ◌^◌, ◌≤◌, ◌<◌, ◌≡◌, refl, sym, subst, ap, ◌∙◌, List, ◌∷◌, some, returns}
use panog2_ldr.Base.{same_bytes}
use panog2_ldr.Spi.{FlashInfo, Spi, IsNor}
use panog2_ldr.Tftp.{Client}
use panog2_ldr.Board.{initial_config}
use panog2_ldr.Board.Entries.{Entry}
use panog2_ldr.Board.Block.{HasBlock, Holds}
use panog2_ldr.Board.Store.{put, store_of, settings_of}
use panog2_ldr.Console.{Console}
use panog2_ldr.Cmd.{result_ok, Sys, Parser}
use panog2_ldr.Cmd.Settings.{board_of}
use panog2_ldr.Cmd.Settings.Stored.{
  Setting, boot_mode, boot_address, tftp_server, tag_of, value_of, setting_cmd,
}
use panog2_ldr.Cmd.Transfer.{Event}
use panog2_ldr.Boot.{Sample, decide, power_up, start_up}
use panog2_ldr.Boot.Stored.{next_start-setting}
use panog2_ldr.Main.Table.{
  Command, command_table, auto_boot_command, boot_adr_command, tftp_command, execute, c_string,
}
use panog2_ldr.Main.{World, Link, Shell, Turn, check_button, turn}
use panog2_ldr.Main.Dispatch.{
  LooksUp, word, find_command, auto_boot_text, boot_adr_text, tftp_text, named_calls,
}
use panog2_ldr.Main.Typed.{IsTyped, typed_command_runs}
use panog2_ldr.Main.Flashed.{check_button-ldr}

abbrev pub command_of : Setting → Command
command_of boot_mode = auto_boot_command
command_of boot_address = boot_adr_command
command_of tftp_server = tftp_command

-- Its name.
abbrev pub text_of : Setting → List ℕ
text_of boot_mode = auto_boot_text
text_of boot_address = boot_adr_text
text_of tftp_server = tftp_text

found : (k : Setting) → find_command command_table (text_of k) ≡ some (command_of k)
unfolding word find_command same_bytes
found boot_mode = refl
found boot_address = refl
found tftp_server = refl

execute-setting :
    (spi : Spi) (con : Console) (parser : Parser) (help : con.Net → con.Net) (client : Client)
    (transfer : List Event) (k : Setting) (mem : List ℕ) (s : Sys spi.Flash con.Net)
    → execute spi con parser help client transfer (command_of k) mem s
      ≡ setting_cmd spi con parser k (c_string mem) s
unfolding execute
execute-setting spi con parser help client transfer boot_mode mem s = refl
execute-setting spi con parser help client transfer boot_address mem s = refl
execute-setting spi con parser help client transfer tftp_server mem s = refl

-- A line whose first word is `autoboot`, `bootadr` or `tftp`, with an argument that names a word, typed on
-- the telnet connection: the turn of the main loop that gets the line ends, and at every later power-up,
-- whatever the button and the network do then, `main` takes the boot decision with exactly the settings of
-- the data block before the command, that of the command replaced by the word. The data block has four
-- free words (16 bytes) or more, the line is empty before, nobody is to be welcomed, nothing is typed
-- meanwhile, and `ParseCmd` looks the first word up in the table that it is given.
pub typed_setting_lem :
    (spi : Spi) (con : Console) (parser : Parser) (link : Link con.Net)
    (shell : Shell spi.Flash con.Net) (chip : FlashInfo) (i : Turn) (cs rest : List ℕ) (k : Setting)
    (c : ℕ) (args : List ℕ) (v : ℕ) (w : World spi.Flash con.Net) (es : List Entry) (free : ℕ)
    → spi.info ≡ some chip
    → IsNor spi chip
    → HasBlock chip
    → Holds spi chip w.sys.flash es free
    → 16 ≤ free
    → IsTyped i cs rest w
    → (p : LooksUp shell) → word cs ≡ text_of k
    → p.arguments cs ≡ c ∷ args
    → value_of spi con parser k (c ∷ args) ≡ some v
    → v < 2 ^ 32
    → (w' : World spi.Flash con.Net) × (turn spi con parser link shell i w ≡ returns w')
      × ((direction : ℕ) (samples : List Sample) (n : con.Net)
          → (t : Sys spi.Flash con.Net) × (start_up spi con parser direction samples
                (power_up n w'.sys.flash)
              ≡ decide samples t)
            × ((board_of spi con parser t).config
                ≡ settings_of (put (tag_of k) v (store_of es)) initial_config))
typed_setting_lem spi con parser link shell chip i cs rest k c args v w es free has nor geo h room t
      p named given arg hv =
    let (mem, line, runs) =
      typed_command_runs spi con parser link shell i cs rest w t (command_of k) (p.arguments cs)
        (named_calls p cs (text_of k) (command_of k) named (found k)) in
    let s = (check_button spi con parser link shell i w).sys in
    let kept = (check_button-ldr spi con parser link shell i w).1 in
    let (s', ran, next) =
      next_start-setting spi con parser chip has nor geo k c args v s es free arg hv
        (subst (λ f. Holds spi chip f es free) (sym kept) h) room in
    let (w', done, left, _, _) = runs result_ok s' (
      execute-setting spi con parser shell.help i.client i.transfer k mem s
      ∙ ap (λ l. setting_cmd spi con parser k l s) (line ∙ given)
      ∙ ran) in
    let flash_same : s'.flash ≡ w'.sys.flash =
      sym (ap (λ (u : Sys spi.Flash con.Net). u.flash) left) in
    (
      w',
      done,
      λ direction samples n.
          subst
            (λ f.
              (u : Sys spi.Flash con.Net) × (start_up spi con parser direction samples
                  (power_up n f)
                ≡ decide samples u)
              × ((board_of spi con parser u).config
                  ≡ settings_of (put (tag_of k) v (store_of es)) initial_config))
            flash_same (next direction samples n),
    )
