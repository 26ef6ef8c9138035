-- ===== src/Main/Checked.antt =====
-- A `flash` line that is typed, and then a `verify` line.
use panog2_ldr.Base.{
  ℕ, ◌+◌, ◌^◌, ◌≤◌, ◌<◌, ◌≡◌, sym, subst, ap, ◌∙◌, arith, true, List, [], ◌∷◌, ◌++◌, some, Option,
  length, bytes, returns, ◌>>=◌, same_bytes, refl,
}
use panog2_ldr.Spi.{FlashInfo, Spi, IsNor}
use panog2_ldr.Tftp.{Ldr, type_compare}
use panog2_ldr.Tftp.Flash.{IsChip}
use panog2_ldr.Tftp.Transfer.{flatten, ArePackets, StartsInSector}
use panog2_ldr.Tftp.Verify.{AreBlocks}
use panog2_ldr.Board.{temp_size}
use panog2_ldr.Console.{Console, prompt, verified}
use panog2_ldr.Cmd.{result_ok, Sys, Parser, re_boot}
use panog2_ldr.Cmd.Transfer.{Event, close_event, verify_cmd}
use panog2_ldr.Cmd.Transfer.Packets.{arrivals, packets}
use panog2_ldr.Cmd.Transfer.Values.{Names, compare_vals-ok, compare_begins, asked}
use panog2_ldr.Cmd.Transfer.Agree.{verify_cmd_lem}
use panog2_ldr.Cmd.Transfer.Roundtrip.{Says-equal, returned}
use panog2_ldr.Main.Table.{verify_command, execute, behind_string}
use panog2_ldr.Main.{World, Link, Shell, Turn, check_button, turn, turns}
use panog2_ldr.Main.Dispatch.{
  Calls, LooksUp, word, find_command, flash_text, verify_text, named_calls,
}
use panog2_ldr.Main.Typed.{IsTransfer, typed_command_runs}
use panog2_ldr.Main.Flashed.{check_button-ldr, typed_flash_lem}

check_button-temp :
    (spi : Spi) (con : Console) (parser : Parser) (link : Link con.Net)
    (shell : Shell spi.Flash con.Net) (i : Turn) (w : World spi.Flash con.Net)
    → (check_button spi con parser link shell i w).sys.temp ≡ w.sys.temp
unfolding check_button re_boot
check_button-temp spi con parser link shell i w = ground arith

-- A typed `verify` of a file that the flash holds.
typed_verify-equal :
    (spi : Spi) (con : Console) (parser : Parser) (link : Link con.Net)
    (shell : Shell spi.Flash con.Net) (chip : FlashInfo) (i : Turn) (cs rest args name : List ℕ)
    (adr : ℕ) (w : World spi.Flash con.Net) (ps : List (Option (List ℕ))) (more : List Event)
    → IsNor spi chip
    → chip.flash_size < 2 ^ 31
    → spi.info ≡ some chip
    → IsTransfer parser chip i cs rest args name adr (arrivals ps ++ close_event ∷ more) w
    → (k : Calls shell cs verify_command args) → temp_size ≤ length w.sys.temp
    → AreBlocks temp_size (packets ps)
    → adr + length (flatten (packets ps)) ≤ chip.flash_size
    → bytes (spi.peek w.sys.flash) adr (length (flatten (packets ps))) ≡ flatten (packets ps)
    → (w' : World spi.Flash con.Net) × (n : con.Net) × (turn spi con parser link shell i w
        ≡ returns w')
      × (w'.sys.flash ≡ w.sys.flash)
      × (w'.sys.net
          ≡ con.print prompt
              (k.answer result_ok (con.print (verified (length (flatten (packets ps)))) n)))
unfolding execute
typed_verify-equal spi con parser link shell chip i cs rest args name adr w ps more nor small has t
      k temp bs room holds =
    let (mem, line, runs) =
      typed_command_runs spi con parser link shell i cs rest w t.typed verify_command args k in
    let s = (check_button spi con parser link shell i w).sys in
    let (same, kept) = check_button-ldr spi con parser link shell i w in
    let server : s.ldr.server_ip ≡ w.sys.ldr.server_ip = ap (λ (l : Ldr). l.server_ip) same in
    let h : Names parser chip s.ldr.server_ip args name adr =
      subst (λ ip. Names parser chip ip args name adr) (sym server) t.names in
    let stale = behind_string mem in
    let sent = flatten (packets ps) in
    let (s', ran, alone, says) =
      verify_cmd_lem spi con parser chip i.client ps more stale args s
        (asked spi con parser chip has stale args name adr s h type_compare) _ nor small
        (compare_vals-ok spi con parser chip has stale args name adr s h)
        (compare_begins spi con parser chip has stale args name adr s h i.client t.ready
          (ap (λ ip. i.client.get ip name) server ∙ t.gets))
        (omega (arith, ap length (check_button-temp spi con parser link shell i w))) bs room in
    let (n, shown) =
      Says-equal spi con s.flash adr sent s'.net
        (subst (λ f. bytes (spi.peek f) adr (length sent) ≡ sent) (sym kept) holds) says in
    let (w', done, left, _, _) = runs result_ok s' (
      ap (λ l. verify_cmd spi con parser i.client i.transfer stale l s) line
      ∙ ap (λ es. verify_cmd spi con parser i.client es stale args s) t.brings
      ∙ ran) in
    (
      w',
      n,
      done,
      ap (λ (u : Sys spi.Flash con.Net). u.flash) left ∙ alone ∙ kept,
      ap (λ (u : Sys spi.Flash con.Net). u.net) left
          ∙ ap (λ m. con.print prompt (k.answer result_ok m)) shown,
    )

-- A line whose first word is `flash`, under the conditions of the theorem on such a line (auto erase on,
-- packets that each fit a sector and together the chip, the first within the sector of the address), and
-- then one whose first word is `verify`, of the same bytes at the same address, typed in the next turn,
-- whatever file and packets of at most 1024 bytes they come from, if `ParseCmd` looks the first word up in
-- the table that it is given: both turns end, the second leaves the flash alone, and it says before the
-- prompt that all the bytes were verified.
pub typed_flash_then_verify :
    (spi : Spi) (con : Console) (parser : Parser) (link : Link con.Net)
    (shell : Shell spi.Flash con.Net) (chip : FlashInfo) (i i' : Turn)
    (cs cs' rest rest' name name' : List ℕ) (adr : ℕ) (w w1 : World spi.Flash con.Net)
    (ps ps' : List (Option (List ℕ))) (more more' : List Event)
    → IsNor spi chip
    → IsChip chip
    → spi.info ≡ some chip
    → (k : LooksUp shell) → word cs ≡ flash_text
    → IsTransfer parser chip i cs rest
        (k.arguments cs)
        name
        adr
        (arrivals ps ++ close_event ∷ more)
        w
    → w.sys.ldr.auto_erase ≡ true
    → ArePackets chip (packets ps)
    → StartsInSector chip adr (packets ps)
    → adr + length (flatten (packets ps)) ≤ chip.flash_size
    → turn spi con parser link shell i w ≡ returns w1
    → word cs' ≡ verify_text
    → IsTransfer parser chip i' cs' rest'
        (k.arguments cs')
        name'
        adr
        (arrivals ps' ++ close_event ∷ more')
        w1
    → temp_size ≤ length w1.sys.temp
    → AreBlocks temp_size (packets ps')
    → flatten (packets ps') ≡ flatten (packets ps)
    → (w2 : World spi.Flash con.Net) × (n : con.Net) × (turns spi con parser link shell
          (i ∷ i' ∷ [])
          w
        ≡ returns w2)
      × (w2.sys.flash ≡ w1.sys.flash)
      × (w2.sys.net
          ≡ con.print prompt
              (k.answer result_ok (con.print (verified (length (flatten (packets ps)))) n)))
unfolding turns word find_command same_bytes
typed_flash_then_verify spi con parser link shell chip i i' cs cs' rest rest' name name' adr w w1 ps
      ps' more more' nor geometry has k named t erasing pks starts room ran named' t' temp bs
      split =
    let (w', _, done, _, holds, _, _, _) =
      typed_flash_lem spi con parser link shell chip i cs rest name adr w ps more nor geometry has k
        named t erasing pks starts room in
    let same : w' ≡ w1 = returned w' w1 (sym done ∙ ran) in
    let stored : bytes (spi.peek w1.sys.flash) adr (length (flatten (packets ps')))
        ≡ flatten (packets ps') =
      subst (λ xs. bytes (spi.peek w1.sys.flash) adr (length xs) ≡ xs) (sym split)
        (subst
          (λ (v : World spi.Flash con.Net).
            bytes (spi.peek v.sys.flash) adr (length (flatten (packets ps))) ≡ flatten (packets ps))
          same holds) in
    let (w2, n, run, alone, shown) =
      typed_verify-equal spi con parser link shell chip i' cs' rest' (k.arguments cs') name' adr w1
        ps' more' nor geometry.small has t'
        (named_calls k cs' verify_text verify_command named' refl) temp bs
        (omega (arith, ap length split)) stored in
    (
      w2,
      n,
      ap (λ o. o >>= turns spi con parser link shell (i' ∷ [])) ran ∙ ap (λ o. o >>= returns) run,
      alone,
      shown
          ∙ ap (λ xs. con.print prompt (k.answer result_ok (con.print (verified (length xs)) n)))
              split,
    )
