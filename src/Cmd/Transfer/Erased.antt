-- ===== src/Cmd/Transfer/Erased.antt =====
-- `erase` of whole sectors, and then `flash` into them with auto erase off.
use panog2_ldr.Base.{
  ℕ, ◌+◌, ◌-◌, ◌*◌, ◌%◌, ◌≤◌, ◌<◌, ◌≡◌, ◌⊎◌, inl, inr, refl, sym, ap, ◌∙◌, arith, false, List, ◌∷◌,
  ◌++◌, some, Option, bit_and, bit_and_ones, length, get_or, bytes, bytes_of_get_or, returns,
}
use panog2_ldr.Spi.{FlashInfo, Spi, IsNor}
use panog2_ldr.Tftp.{Ldr, Client, err_ok, type_flash, ldr_tftp_init}
use panog2_ldr.Tftp.Flash.{IsChip}
use panog2_ldr.Tftp.Transfer.{flatten}
use panog2_ldr.Tftp.Verify.{AreBlocks}
use panog2_ldr.Console.{Console, flashed}
use panog2_ldr.Cmd.{Sys, Parser, result_ok}
use panog2_ldr.Cmd.Sectors.{erase_cmd}
use panog2_ldr.Cmd.Sectors.Erase.{erase_range_lem, erase_cmd-range}
use panog2_ldr.Cmd.Transfer.{Event, close_event, get_tftp_transfer_vals, flash_cmd}
use panog2_ldr.Cmd.Transfer.Packets.{arrivals, packets}
use panog2_ldr.Cmd.Transfer.Plain.{flash_cmd-clears}
use panog2_ldr.Cmd.Transfer.Roundtrip.{returned}

-- `erase` of `k` whole sectors, by the addresses of their first and last byte, and then `flash` with auto
-- erase off to an address in them, of a file that ends in them: `flash` answers RESULT_OK and says last
-- how many bytes were flashed, the flash holds the bytes of the file from the address on, and no byte
-- outside the sectors has changed since before the `erase`.
pub erase_then_flash_lem :
    (spi : Spi) (con : Console) (parser : Parser) (chip : FlashInfo) (client : Client)
    (k adr end : ℕ) (ps : List (Option (List ℕ))) (more : List Event)
    (stale line erase_line rest rest' : List ℕ) (s s1 t : Sys spi.Flash con.Net) (q : Ldr)
    → IsNor spi chip
    → IsChip chip
    → spi.info ≡ some chip
    → 2 ≤ chip.erase_size
    → parser.convert_value erase_line ≡ some (adr, rest)
    → parser.convert_value rest ≡ some (end - 1, rest')
    → adr % chip.erase_size ≡ 0
    → 0 < k
    → adr + k * chip.erase_size ≡ end
    → end ≤ chip.flash_size
    → erase_cmd spi con parser erase_line s ≡ returns (result_ok, s1)
    → get_tftp_transfer_vals spi con parser stale line type_flash s1 ≡ (result_ok, t)
    → ldr_tftp_init client (some t.ldr) ≡ (err_ok, some q)
    → t.ldr.auto_erase ≡ false
    → AreBlocks chip.flash_size (packets ps)
    → ((i : ℕ) → get_or (flatten (packets ps)) i 0 < 256)
    → adr ≤ t.ldr.flash_adr
    → t.ldr.flash_adr + length (flatten (packets ps)) ≤ end
    → (s2 : Sys spi.Flash con.Net) × (n : con.Net) × (flash_cmd spi con parser client
          (arrivals ps ++ close_event ∷ more)
          stale
          line
          s1
        ≡ returns (result_ok, s2))
      × (s2.net ≡ con.print (flashed (length (flatten (packets ps)))) n)
      × (bytes (spi.peek s2.flash) t.ldr.flash_adr (length (flatten (packets ps)))
          ≡ flatten (packets ps))
      × ((x : ℕ) → (x < adr) ⊎ (end ≤ x) → spi.peek s2.flash x ≡ spi.peek s.flash x)
erase_then_flash_lem spi con parser chip client k adr end ps more stale line erase_line rest rest' s
      s1 t q nor geo has two first second al pos e fits erased_ok vals init keeping bs values low
      high =
    let base = t.ldr.flash_adr in
    let sent = flatten (packets ps) in
    let (s', run, blank, outside) =
      erase_range_lem spi con parser chip k adr end s nor geo two al pos e fits in
    let same : s' ≡ s1 =
      ap (λ r. r.1)
        (returned _ _ (
          sym run
          ∙ sym (
              erase_cmd-range spi con parser chip erase_line rest rest' adr (end - 1) s has first
                second (omega arith) (omega arith))
          ∙ erased_ok)) in
    let (s2, n, done, shown, cleared, untouched) =
      flash_cmd-clears spi con parser chip client ps more stale line s1 t q nor geo.small has vals
        init keeping bs (omega arith) in
    (
      s2,
      n,
      done,
      shown,
      bytes_of_get_or (spi.peek s2.flash) sent base (length sent) refl (λ i h.
          cleared i h
          ∙ ap (λ v. bit_and v (get_or sent i 0))
              (ap (λ (u : Sys spi.Flash con.Net). spi.peek u.flash (base + i)) (sym same)
                ∙ blank (base + i) (omega arith) (omega arith))
          ∙ bit_and_ones (get_or sent i 0) (values i)),
      λ x out.
          untouched x (beside x out)
          ∙ ap (λ (u : Sys spi.Flash con.Net). spi.peek u.flash x) (sym same)
          ∙ outside x out,
    )
  where
    beside :
        (x : ℕ)
        → (x < adr) ⊎ (end ≤ x)
        → (x < t.ldr.flash_adr) ⊎ (t.ldr.flash_adr + length (flatten (packets ps)) ≤ x)
    beside x (inl p) = inl (omega arith)
    beside x (inr p) = inr (omega arith)
