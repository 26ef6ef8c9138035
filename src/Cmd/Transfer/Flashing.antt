-- ===== src/Cmd/Transfer/Flashing.antt =====
-- The wait of a `flash` transfer with auto erase on, up to what ends it.
use panog2_ldr.Base.{
  ℕ, ◌+◌, ◌≤◌, ◌≡◌, arith, true, List, [], ◌++◌, some, Option, length, length-append,
}
use panog2_ldr.Spi.{FlashInfo, Spi, IsNor}
use panog2_ldr.Tftp.{Io, Ldr, sector_of, Client, err_ok, type_flash, ldr_tftp_init}
use panog2_ldr.Tftp.Flash.{IsChip, IsFlashing}
use panog2_ldr.Tftp.Flash.Packet.{tftp_write-packet}
use panog2_ldr.Tftp.Transfer.{
  flatten, ArePackets, StartsInSector, not_empty, ldr_tftp_init-IsFlashing,
}
use panog2_ldr.Console.{Console}
use panog2_ldr.Cmd.{Sys, Parser}
use panog2_ldr.Cmd.Transfer.{Event, tftp_transfer_wait, io_of}
use panog2_ldr.Cmd.Transfer.Packets.{arrivals, packets}
use panog2_ldr.Cmd.Transfer.Each.{IsKept, wait_each}

-- What a `flash` transfer with auto erase on keeps, whatever has been erased.
module _ (spi : Spi) (chip : FlashInfo) (nor : IsNor spi chip) (geometry : IsChip chip)
    (has : spi.info ≡ some chip) (f0 : spi.Flash) (base : ℕ) where
  abbrev Flashing : List ℕ → Io spi.Flash → Type 0
  Flashing w io = (edge : ℕ) × IsFlashing spi chip f0 base edge w io

  abbrev Fits : List ℕ → List (List ℕ) → Type 0
  Fits w ps =
      ArePackets chip ps
      × (w ≡ [] → StartsInSector chip base ps)
      × (base + length w + length (flatten ps) ≤ chip.flash_size)

  Flashing-IsKept : IsKept spi Flashing Fits
  Flashing-IsKept = record {
    running = λ w io (edge, v). v.running;
    shown = λ w io n (edge, v). (
      edge,
      record {
        kind = v.kind;
        erasing = v.erasing;
        running = v.running;
        no_message = v.no_message;
        start = v.start;
        count = v.count;
        edge_aligned = v.edge_aligned;
        last = v.last;
        programmed = v.programmed;
        before = v.before;
        blank = v.blank;
        untouched = v.untouched;
      },
    );
    step = λ w p ps io (edge, v) (pks, starts, room).
        let (edge', _, io', e, v') =
          tftp_write-packet spi chip nor geometry f0 base edge w io v p pks.0
            (omega (arith, length-append p (flatten ps))) starts has in
        (
          io',
          e,
          (edge', v'),
          (
            pks.1,
            λ empty. absurd (not_empty w p pks.0.pos empty),
            omega (arith, length-append p (flatten ps), length-append w p),
          ),
        );
  }

-- The wait gets to what follows the packets, `rest`.
pub flash_waits :
    (spi : Spi) (con : Console) (parser : Parser) (chip : FlashInfo) (client : Client)
    (ps : List (Option (List ℕ))) (rest : List Event) (t : Sys spi.Flash con.Net) (q : Ldr)
    → IsNor spi chip
    → IsChip chip
    → spi.info ≡ some chip
    → ldr_tftp_init client (some t.ldr) ≡ (err_ok, some q)
    → t.ldr.transfer_type ≡ type_flash
    → t.ldr.auto_erase ≡ true
    → ArePackets chip (packets ps)
    → StartsInSector chip t.ldr.flash_adr (packets ps)
    → t.ldr.flash_adr + length (flatten (packets ps)) ≤ chip.flash_size
    → (k : ℕ) × (s1 : Sys spi.Flash con.Net) × (tftp_transfer_wait spi con parser
          (arrivals ps ++ rest)
          0
          (record t { ldr = q })
        ≡ tftp_transfer_wait spi con parser rest k s1)
      × (edge : ℕ) × IsFlashing spi chip t.flash t.ldr.flash_adr edge
          (flatten (packets ps))
          (io_of spi con parser s1)
flash_waits spi con parser chip client ps rest t q nor geometry has init kind erasing pks starts
      room =
    let base = t.ldr.flash_adr in
    let u = record t { ldr = q } in
    let begin =
      ldr_tftp_init-IsFlashing spi chip client t.ldr (io_of spi con parser u) init kind erasing in
    let (k, s1, run, (edge, v)) =
      wait_each spi con parser (Flashing spi chip nor geometry has t.flash base)
        (Fits spi chip nor geometry has t.flash base)
        (Flashing-IsKept spi chip nor geometry has t.flash base) ps rest [] 0 u
        (sector_of chip.erase_size base, begin) (pks, λ e. starts, omega arith) in
    (k, s1, run, edge, v)
