-- ===== src/Tftp/Flash/Packet.antt =====
-- `tftp_write` of one packet of a `flash` command.
use panog2_ldr.Base.{
  ℕ, ◌+◌, ◌≤◌, ◌<◌, ◌≡◌, ◌⊎◌, inl, inr, refl, ap, ap₂, ◌∙◌, arith, List, ◌++◌, some, bit_and,
  bit_and_ones, length, length-append, get_or, bytes, bytes-add, bytes_ext, bytes_of_get_or, u32,
}
use panog2_ldr.Spi.{FlashInfo, Spi, IsNor}
use panog2_ldr.Tftp.{Io, good, sector_of, auto_erase_step, tftp_write, advance}
use panog2_ldr.Tftp.Flash.{
  IsChip, IsPacket, IsFlashing, IsReady, FirstFits, packet, write_block_flash, tftp_write_one,
}
use panog2_ldr.Tftp.Flash.Erase.{ready}

module _ (spi : Spi) (chip : FlashInfo) (nor : IsNor spi chip) (geometry : IsChip chip) where
  module _ (f0 : spi.Flash) (base edge : ℕ) (written : List ℕ) (io : Io spi.Flash)
      (v : IsFlashing spi chip f0 base edge written io) (payload : List ℕ)
      (pk : IsPacket chip payload) (room : base + length written + length payload ≤ chip.flash_size)
      (first_fits : FirstFits chip base written payload) where
    abbrev adr : ℕ
    adr = base + length written

    -- Writing the packet to erased bytes leaves its bytes there.
    written_ok :
        (edge' : ℕ) (io' : Io spi.Flash)
        → IsReady spi chip f0 base edge' written payload io'
        → IsFlashing spi chip f0 base edge'
            (written ++ payload)
            (advance (length payload) (record io' { flash = spi.write io'.flash adr payload }))
    written_ok edge' io' r = record {
      kind = r.kind;
      erasing = r.erasing;
      running = r.running;
      no_message = r.no_message;
      start = r.start;
      count = omega (arith, r.count, total);
      edge_aligned = r.edge_aligned;
      last = inr (r.last, omega (arith, r.last_below, total), omega (arith, r.below_edge, total));
      programmed =
          bytes-add _ base adr _ (length written) refl (length payload) (omega (arith, total))
          ∙ ap₂ ◌++◌ old new;
      before = λ x p q e.
          nor.write_out io'.flash adr x payload room (inl (omega arith)) ∙ r.before x p q e;
      blank = λ x p q.
          nor.write_out io'.flash adr x payload room (inr (omega (arith, total)))
          ∙ r.blank x (omega (arith, total)) q;
      untouched = λ x p. nor.write_out io'.flash adr x payload room (outside x p) ∙ r.untouched x p;
    }
      where
        total : length (written ++ payload) ≡ length written + length payload
        total = length-append written payload

        outside :
            (x : ℕ)
            → (x < sector_of chip.erase_size base) ⊎ (edge' ≤ x)
            → (x < adr) ⊎ (adr + length payload ≤ x)
        outside x (inl p) = inl (omega arith)
        outside x (inr p) = inr (omega (arith, r.below_edge))

        old : bytes (spi.peek (spi.write io'.flash adr payload)) base (length written) ≡ written
        old =
            bytes_ext _ (spi.peek io'.flash) base (length written)
              (λ x p q. nor.write_out io'.flash adr x payload room (inl q))
            ∙ r.programmed

        byte :
            (i : ℕ)
            → i < length payload
            → spi.peek (spi.write io'.flash adr payload) (adr + i) ≡ get_or payload i 0
        byte i h =
            nor.write_in io'.flash adr (adr + i) payload room (omega arith) (omega arith)
            ∙ ap₂ bit_and (r.blank (adr + i) (omega arith) (omega (arith, r.below_edge)))
                (ap (λ t. get_or payload t 0) (omega arith))
            ∙ bit_and_ones (get_or payload i 0) (pk.values i)

        new : bytes (spi.peek (spi.write io'.flash adr payload)) adr (length payload) ≡ payload
        new = bytes_of_get_or _ payload adr (length payload) refl byte

    -- `tftp_write` on the packet.
    pub tftp_write-packet :
        spi.info ≡ some chip
        → (edge' : ℕ) × (edge' ≤ edge + chip.erase_size)
          × (io' : Io spi.Flash) × (tftp_write spi (packet payload) io ≡ some (good, io'))
          × IsFlashing spi chip f0 base edge' (written ++ payload) io'
    tftp_write-packet has =
        let (edge', le, r) =
          ready spi chip nor geometry f0 base edge written io v payload pk room first_fits in
        let io1 = auto_erase_step spi chip adr (length payload) io in
        (
          edge',
          le,
          advance (length payload) (record io1 { flash = spi.write io1.flash adr payload }),
          tftp_write_one spi adr payload io _ adr_lem pk.pos pk.word
              (write_block_flash spi chip adr (length payload) payload io has v.kind) r.running,
          written_ok edge' io1 r,
        )
      where
        adr_lem : u32 (io.ldr.flash_adr + io.ldr.bytes_transfered) ≡ base + length written
        adr_lem = omega (arith, geometry.small, v.start, v.count)
