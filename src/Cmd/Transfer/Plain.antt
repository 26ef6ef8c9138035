-- ===== src/Cmd/Transfer/Plain.antt =====
-- The `flash` command with auto erase off.
use panog2_ldr.Base.{
  ℕ, ◌+◌, ◌^◌, ◌≤◌, ◌<◌, ◌≡◌, ◌⊎◌, ap, ◌∙◌, arith, false, List, [], ◌∷◌, ◌++◌, some, Option,
  bit_and, length, length-append, get_or, returns,
}
use panog2_ldr.Spi.{FlashInfo, Spi, IsNor}
use panog2_ldr.Tftp.{Ldr, Client, err_ok, type_flash, ldr_tftp_init}
use panog2_ldr.Tftp.Transfer.{flatten}
use panog2_ldr.Tftp.Verify.{AreBlocks}
use panog2_ldr.Tftp.Plain.{IsClearing, tftp_write-clears, ldr_tftp_init-IsClearing}
use panog2_ldr.Console.{Console, flashed}
use panog2_ldr.Cmd.{Sys, Parser, result_ok}
use panog2_ldr.Cmd.Transfer.{Event, close_event, get_tftp_transfer_vals, flash_cmd, io_of}
use panog2_ldr.Cmd.Transfer.Values.{flash_vals}
use panog2_ldr.Cmd.Transfer.Packets.{arrivals, packets}
use panog2_ldr.Cmd.Transfer.Each.{IsKept, wait_each}
use panog2_ldr.Cmd.Transfer.Ends.{transfer_cmd-ends}

module _ (spi : Spi) (chip : FlashInfo) (nor : IsNor spi chip) (has : spi.info ≡ some chip)
    (small : chip.flash_size < 2 ^ 31) (f0 : spi.Flash) (base : ℕ) where
  abbrev Fits : List ℕ → List (List ℕ) → Type 0
  Fits w ps =
      AreBlocks chip.flash_size ps × (base + length w + length (flatten ps) ≤ chip.flash_size)

  Clearing-IsKept : IsKept spi (IsClearing spi f0 base) Fits
  Clearing-IsKept = record {
    running = λ w io v. v.running;
    shown = λ w io n v. record {
      kind = v.kind;
      keeping = v.keeping;
      running = v.running;
      no_message = v.no_message;
      start = v.start;
      count = v.count;
      cleared = v.cleared;
      untouched = v.untouched;
    };
    step = λ w p ps io v (bs, room).
        let (io', e, v') =
          tftp_write-clears spi chip nor has small f0 base w p io v
            (omega (arith, length-append p (flatten ps))) chip.flash_size bs.0 in
        (io', e, v', (bs.1, omega (arith, length-append p (flatten ps), length-append w p)));
  }

-- `flash` with auto erase off, whose arguments are read and whose transfer starts: if the polls of its wait
-- bring packets that together fit the chip, in order, with any polls that bring nothing between them, and
-- then the end of the transfer, the command answers RESULT_OK and says last how many bytes were flashed;
-- each byte from the address on is what it was, less the bits that the data does not have, and no other
-- byte has changed.
pub flash_cmd-clears :
    (spi : Spi) (con : Console) (parser : Parser) (chip : FlashInfo) (client : Client)
    (ps : List (Option (List ℕ))) (rest : List Event) (stale line : List ℕ)
    (s t : Sys spi.Flash con.Net) (q : Ldr)
    → IsNor spi chip
    → chip.flash_size < 2 ^ 31
    → spi.info ≡ some chip
    → get_tftp_transfer_vals spi con parser stale line type_flash s ≡ (result_ok, t)
    → ldr_tftp_init client (some t.ldr) ≡ (err_ok, some q)
    → t.ldr.auto_erase ≡ false
    → AreBlocks chip.flash_size (packets ps)
    → t.ldr.flash_adr + length (flatten (packets ps)) ≤ chip.flash_size
    → (s' : Sys spi.Flash con.Net) × (n : con.Net) × (flash_cmd spi con parser client
          (arrivals ps ++ close_event ∷ rest)
          stale
          line
          s
        ≡ returns (result_ok, s'))
      × (s'.net ≡ con.print (flashed (length (flatten (packets ps)))) n)
      × ((i : ℕ)
          → i < length (flatten (packets ps))
          → spi.peek s'.flash (t.ldr.flash_adr + i)
            ≡ bit_and (spi.peek s.flash (t.ldr.flash_adr + i)) (get_or (flatten (packets ps)) i 0))
      × ((x : ℕ)
          → (x < t.ldr.flash_adr) ⊎ (t.ldr.flash_adr + length (flatten (packets ps)) ≤ x)
          → spi.peek s'.flash x ≡ spi.peek s.flash x)
unfolding flash_cmd
flash_cmd-clears spi con parser chip client ps rest stale line s t q nor small has vals init keeping
      bs room =
    let (kind, kept) = flash_vals spi con parser stale line s t vals in
    let base = t.ldr.flash_adr in
    let u = record t { ldr = q } in
    let begin =
      ldr_tftp_init-IsClearing spi client t.ldr (io_of spi con parser u) init kind keeping in
    let (k, s1, run, v) =
      wait_each spi con parser (IsClearing spi t.flash base)
        (Fits spi chip nor has small t.flash base)
        (Clearing-IsKept spi chip nor has small t.flash base) ps (close_event ∷ rest) [] 0 u begin
        (bs, omega arith) in
    let (s', n, ran, shown, same) =
      transfer_cmd-ends spi con parser client type_flash (λ n. con.print (flashed n))
        (arrivals ps ++ close_event ∷ rest) rest stale line s t s1 q k vals init run v.running
        v.no_message in
    (
      s',
      n,
      ran,
      shown ∙ ap (λ c. con.print (flashed c) n) v.count,
      λ i h.
          ap (λ f. spi.peek f (base + i)) same
          ∙ v.cleared i h
          ∙ ap (λ f. bit_and (spi.peek f (base + i)) (get_or (flatten (packets ps)) i 0)) kept,
      λ x out. ap (λ f. spi.peek f x) same ∙ v.untouched x out ∙ ap (λ f. spi.peek f x) kept,
    )
