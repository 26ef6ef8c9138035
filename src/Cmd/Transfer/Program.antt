-- ===== src/Cmd/Transfer/Program.antt =====
-- The `flash` command, from its arguments to its answer.
use panog2_ldr.Base.{
  ℕ, ◌+◌, ◌≤◌, ◌<◌, ◌≡◌, ◌⊎◌, inl, inr, ap, ◌∙◌, arith, true, List, ◌∷◌, ◌++◌, some, Option, length,
  bytes, returns,
}
use panog2_ldr.Spi.{FlashInfo, Spi, IsNor}
use panog2_ldr.Tftp.{Ldr, sector_of, Client, err_ok, type_flash, ldr_tftp_init}
use panog2_ldr.Tftp.Flash.{IsChip}
use panog2_ldr.Tftp.Transfer.{flatten, ArePackets, StartsInSector, flashing_outside}
use panog2_ldr.Console.{Console, flashed}
use panog2_ldr.Cmd.{Sys, Parser, result_ok}
use panog2_ldr.Cmd.Transfer.{Event, close_event, get_tftp_transfer_vals, flash_cmd, io_of}
use panog2_ldr.Cmd.Transfer.Values.{flash_vals}
use panog2_ldr.Cmd.Transfer.Packets.{arrivals, packets}
use panog2_ldr.Cmd.Transfer.Ends.{transfer_cmd-ends}
use panog2_ldr.Cmd.Transfer.Flashing.{flash_waits}

-- `flash` with auto erase on, whose arguments are read and whose transfer starts: if the polls of its wait
-- bring packets that each fit a sector and together fit the chip, of which the first ends within the
-- sector of the address, in order, with any polls that bring nothing between them, and then the end of the
-- transfer, the command answers RESULT_OK and says last how many bytes were flashed. The flash holds the
-- bytes of the packets from the address on; what lies before the address in its sector is erased, if any
-- byte came, and nothing before that sector, or more than a sector behind the data, has changed.
pub flash_cmd_lem :
    (spi : Spi) (con : Console) (parser : Parser) (chip : FlashInfo) (client : Client)
    (ps : List (Option (List ℕ))) (rest : List Event) (stale line : List ℕ)
    (s t : Sys spi.Flash con.Net) (q : Ldr)
    → IsNor spi chip
    → IsChip chip
    → spi.info ≡ some chip
    → get_tftp_transfer_vals spi con parser stale line type_flash s ≡ (result_ok, t)
    → ldr_tftp_init client (some t.ldr) ≡ (err_ok, some q)
    → t.ldr.auto_erase ≡ true
    → ArePackets chip (packets ps)
    → StartsInSector chip t.ldr.flash_adr (packets ps)
    → t.ldr.flash_adr + length (flatten (packets ps)) ≤ chip.flash_size
    → (s' : Sys spi.Flash con.Net) × (n : con.Net) × (flash_cmd spi con parser client
          (arrivals ps ++ close_event ∷ rest)
          stale
          line
          s
        ≡ returns (result_ok, s'))
      × (s'.net ≡ con.print (flashed (length (flatten (packets ps)))) n)
      × (bytes (spi.peek s'.flash) t.ldr.flash_adr (length (flatten (packets ps)))
          ≡ flatten (packets ps))
      × ((x : ℕ)
          → sector_of chip.erase_size t.ldr.flash_adr ≤ x
          → x < t.ldr.flash_adr
          → 0 < length (flatten (packets ps))
          → spi.peek s'.flash x ≡ 255)
      × ((x : ℕ)
          → (x < sector_of chip.erase_size t.ldr.flash_adr)
            ⊎ (t.ldr.flash_adr + length (flatten (packets ps)) + chip.erase_size ≤ x)
          → spi.peek s'.flash x ≡ spi.peek s.flash x)
unfolding flash_cmd
flash_cmd_lem spi con parser chip client ps rest stale line s t q nor geometry has vals init erasing
      pks starts room =
    let (kind, kept) = flash_vals spi con parser stale line s t vals in
    let base = t.ldr.flash_adr in
    let (k, s1, run, edge, v) =
      flash_waits spi con parser chip client ps (close_event ∷ rest) t q nor geometry has init kind
        erasing pks starts room in
    let (s', n, ran, shown, same) =
      transfer_cmd-ends spi con parser client type_flash (λ n. con.print (flashed n))
        (arrivals ps ++ close_event ∷ rest) rest stale line s t s1 q k vals init run v.running
        v.no_message in
    (
      s',
      n,
      ran,
      shown ∙ ap (λ c. con.print (flashed c) n) v.count,
      ap (λ f. bytes (spi.peek f) base (length (flatten (packets ps)))) same ∙ v.programmed,
      λ x low high came.
          ap (λ f. spi.peek f x) same
          ∙ v.before x low high (elim v.last [
            | inl (_, empty, _) ↦ absurd (omega (arith, came, ap length empty))
            | inr (_, _, beyond) ↦ omega arith
          ]),
      λ x out.
          ap (λ f. spi.peek f x) same
          ∙ flashing_outside spi chip t.flash base edge (flatten (packets ps))
              (io_of spi con parser s1) v x out
          ∙ ap (λ f. spi.peek f x) kept,
    )
