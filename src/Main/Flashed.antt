-- ===== src/Main/Flashed.antt =====
-- A `flash` line that is typed.
use panog2_ldr.Base.{
  ℕ, ◌+◌, ◌≤◌, ◌<◌, ◌≡◌, ◌⊎◌, sym, subst, arith, ap, ◌∙◌, true, false, List, ◌∷◌, ◌++◌, some,
  same_bytes, refl, Option, length, bytes, returns,
}
use panog2_ldr.Spi.{FlashInfo, Spi, IsNor}
use panog2_ldr.Tftp.{Ldr, type_flash, sector_of}
use panog2_ldr.Tftp.Flash.{IsChip}
use panog2_ldr.Tftp.Transfer.{flatten, ArePackets, StartsInSector}
use panog2_ldr.Console.{Console, prompt, flashed}
use panog2_ldr.Cmd.{result_ok, Sys, Parser, re_boot}
use panog2_ldr.Cmd.Transfer.{Event, close_event, flash_cmd}
use panog2_ldr.Cmd.Transfer.Packets.{arrivals, packets}
use panog2_ldr.Cmd.Transfer.Values.{Names, flash_vals-ok, flash_begins, asked}
use panog2_ldr.Cmd.Transfer.Program.{flash_cmd_lem}
use panog2_ldr.Main.Table.{flash_command, execute, behind_string}
use panog2_ldr.Main.{World, Link, Shell, Turn, check_button, turn}
use panog2_ldr.Main.Dispatch.{LooksUp, word, find_command, flash_text, named_calls}
use panog2_ldr.Main.Typed.{IsTransfer, typed_command_runs}

-- The button leaves all but the GPIO registers.
pub check_button-ldr :
    (spi : Spi) (con : Console) (parser : Parser) (link : Link con.Net)
    (shell : Shell spi.Flash con.Net) (i : Turn) (w : World spi.Flash con.Net)
    → ((check_button spi con parser link shell i w).sys.ldr ≡ w.sys.ldr)
      × ((check_button spi con parser link shell i w).sys.flash ≡ w.sys.flash)
unfolding check_button re_boot
check_button-ldr spi con parser link shell i w = ground arith

-- A line whose first word is `flash`, with a file name and an address, typed on the telnet connection,
-- with auto erase on, a server that is known, and a client that takes the request: if the polls of the
-- command bring packets that each fit a sector and together fit the chip, of which the first ends within
-- the sector of the address, in order, and then the end of the transfer, the turn of the main loop that
-- gets the line ends. The flash then holds the bytes of the packets from the address on, nothing before
-- its sector, or more than a sector behind the data, has changed, how many bytes were flashed is said
-- before the prompt, and the line is empty and waits again. The line is empty before, nobody is to be
-- welcomed, nothing is typed meanwhile, and `ParseCmd` looks the first word up in the table that it is
-- given.
pub typed_flash_lem :
    (spi : Spi) (con : Console) (parser : Parser) (link : Link con.Net)
    (shell : Shell spi.Flash con.Net) (chip : FlashInfo) (i : Turn) (cs rest name : List ℕ)
    (adr : ℕ) (w : World spi.Flash con.Net) (ps : List (Option (List ℕ))) (more : List Event)
    → IsNor spi chip
    → IsChip chip
    → spi.info ≡ some chip
    → (k : LooksUp shell) → word cs ≡ flash_text
    → IsTransfer parser chip i cs rest
        (k.arguments cs)
        name
        adr
        (arrivals ps ++ close_event ∷ more)
        w
    → w.sys.ldr.auto_erase ≡ true
    → ArePackets chip (packets ps)
    → StartsInSector chip adr (packets ps)
    → adr + length (flatten (packets ps)) ≤ chip.flash_size
    → (w' : World spi.Flash con.Net) × (n : con.Net) × (turn spi con parser link shell i w
        ≡ returns w')
      × (w'.sys.net
          ≡ con.print prompt
              (k.answer result_ok (con.print (flashed (length (flatten (packets ps)))) n)))
      × (bytes (spi.peek w'.sys.flash) adr (length (flatten (packets ps))) ≡ flatten (packets ps))
      × ((x : ℕ)
          → (x < sector_of chip.erase_size adr)
            ⊎ (adr + length (flatten (packets ps)) + chip.erase_size ≤ x)
          → spi.peek w'.sys.flash x ≡ spi.peek w.sys.flash x)
      × (w'.rx.input_ready ≡ false)
      × (w'.rx.rx_count ≡ 0)
unfolding execute word find_command same_bytes
typed_flash_lem spi con parser link shell chip i cs rest name adr w ps more nor geometry has k named
      t erasing pks starts room =
    let args = k.arguments cs in
    let (mem, line, runs) =
      typed_command_runs spi con parser link shell i cs rest w t.typed flash_command args
        (named_calls k cs flash_text flash_command named refl) in
    let s = (check_button spi con parser link shell i w).sys in
    let (same, kept) = check_button-ldr spi con parser link shell i w in
    let server : s.ldr.server_ip ≡ w.sys.ldr.server_ip = ap (λ (l : Ldr). l.server_ip) same in
    let h : Names parser chip s.ldr.server_ip args name adr =
      subst (λ ip. Names parser chip ip args name adr) (sym server) t.names in
    let stale = behind_string mem in
    let (s', n, ran, shown, holds, _, outside) =
      flash_cmd_lem spi con parser chip i.client ps more stale args s
        (asked spi con parser chip has stale args name adr s h type_flash) _ nor geometry has
        (flash_vals-ok spi con parser chip has stale args name adr s h)
        (flash_begins spi con parser chip has stale args name adr s h i.client t.ready
          (ap (λ ip. i.client.get ip name) server ∙ t.gets))
        (ap (λ (l : Ldr). l.auto_erase) same ∙ erasing) pks starts room in
    let (w', done, left, waits, empty) = runs result_ok s' (
      ap (λ l. flash_cmd spi con parser i.client i.transfer stale l s) line
      ∙ ap (λ es. flash_cmd spi con parser i.client es stale args s) t.brings
      ∙ ran) in
    let flash_same : w'.sys.flash ≡ s'.flash = ap (λ (u : Sys spi.Flash con.Net). u.flash) left in
    (
      w',
      n,
      done,
      ap (λ (u : Sys spi.Flash con.Net). u.net) left
          ∙ ap (λ m. con.print prompt (k.answer result_ok m)) shown,
      ap (λ f. bytes (spi.peek f) adr (length (flatten (packets ps)))) flash_same ∙ holds,
      λ x out. ap (λ f. spi.peek f x) flash_same ∙ outside x out ∙ ap (λ f. spi.peek f x) kept,
      waits,
      empty,
    )
