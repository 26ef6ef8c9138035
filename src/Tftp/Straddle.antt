-- ===== src/Tftp/Straddle.antt =====
-- `tftp_write` of a `flash` command whose first packet crosses the end of a sector.
use panog2_ldr.Base.{
  ℕ, ◌+◌, ◌-◌, ◌%◌, ◌^◌, ◌≤◌, ◌<◌, ◌≡◌, ◌≢◌, inl, refl, ◌∙◌, arith, true, List, [], ◌∷◌, some,
  length, u32, ne→==,
}
use panog2_ldr.Spi.{FlashInfo, Spi, IsNor}
use panog2_ldr.Tftp.{
  Io, good, type_flash, in_progress, invalid_flash_adr, sector_of, needs_erase, next_erase,
  auto_erase_step, tftp_write, advance,
}
use panog2_ldr.Tftp.Sector.{sector_of_lem, aligned_prev}
use panog2_ldr.Tftp.Flash.{IsChip, IsPacket, packet, write_block_flash, tftp_write_one}
use panog2_ldr.Tftp.Transfer.{write_all, write_all-nil, write_all-cons}

module _ (spi : Spi) (chip : FlashInfo) (has : spi.info ≡ some chip) where
  -- What a packet leaves that is erased for.
  abbrev erased_and_written : ℕ → ℕ → List ℕ → Io spi.Flash → Io spi.Flash
  erased_and_written sector adr payload io = advance (length payload) (record io {
    ldr = record io.ldr { last_erase_adr = sector };
    flash = spi.write (spi.erase io.flash sector chip.erase_size) adr payload;
  })

  tftp_write-erases :
      (sector adr : ℕ) (payload : List ℕ) (io : Io spi.Flash)
      → u32 (io.ldr.flash_adr + io.ldr.bytes_transfered) ≡ adr
      → IsPacket chip payload
      → io.ldr.transfer_type ≡ type_flash
      → io.ldr.error ≡ in_progress
      → needs_erase chip adr (length payload) io.ldr ≡ true
      → next_erase chip adr io.ldr ≡ sector
      → tftp_write spi (packet payload) io ≡ some (good, erased_and_written sector adr payload io)
  unfolding auto_erase_step
  tftp_write-erases sector adr payload io at pk kind running needs next =
      tftp_write_one spi adr payload io _ at pk.pos pk.word
        (write_block_flash spi chip adr (length payload) payload io has kind
          ∙ rw (needs, next) refl)
        running

  needs_lem :
      (adr len end : ℕ) (io : Io spi.Flash)
      → 0 < adr + len
      → adr + len < 2 ^ 31
      → io.ldr.auto_erase ≡ true
      → sector_of chip.erase_size (adr + len - 1) ≡ end
      → io.ldr.last_erase_adr ≢ end
      → needs_erase chip adr len io.ldr ≡ true
  unfolding needs_erase
  needs_lem adr len end io pos small erasing e ne =
      let last : u32 (adr + len + 2 ^ 32 - 1) ≡ adr + len - 1 = omega arith in
      rw (last, e, erasing, ne→== _ _ ne) refl

  next_first :
      (adr sector : ℕ) (io : Io spi.Flash)
      → io.ldr.last_erase_adr ≡ invalid_flash_adr
      → sector_of chip.erase_size adr ≡ sector
      → next_erase chip adr io.ldr ≡ sector
  unfolding next_erase
  next_first adr sector io first e = rw (first, e) refl

  next_later :
      (adr sector : ℕ) (io : Io spi.Flash)
      → io.ldr.last_erase_adr ≢ invalid_flash_adr
      → io.ldr.last_erase_adr + chip.erase_size ≡ sector
      → sector < 2 ^ 32
      → next_erase chip adr io.ldr ≡ sector
  unfolding next_erase
  next_later adr sector io valid e small = rw (ne→== _ _ valid) (omega arith)

-- `flash` with auto erase on, to an address within a sector that ends at `edge`, whose first packet goes on
-- past `edge`, and whose second ends within the next sector: both are accepted and counted, but the
-- sector at `edge` is erased for the second packet, and the bytes of the first that lie there are lost.
pub tftp_write_straddles :
    (spi : Spi) (chip : FlashInfo) (edge : ℕ) (first second : List ℕ) (io : Io spi.Flash)
    → IsNor spi chip
    → IsChip chip
    → spi.info ≡ some chip
    → io.ldr.transfer_type ≡ type_flash
    → io.ldr.auto_erase ≡ true
    → io.ldr.error ≡ in_progress
    → io.ldr.last_erase_adr ≡ invalid_flash_adr
    → io.ldr.bytes_transfered ≡ 0
    → IsPacket chip first
    → IsPacket chip second
    → edge % chip.erase_size ≡ 0
    → edge ≤ io.ldr.flash_adr + chip.erase_size
    → chip.erase_size ≤ edge
    → io.ldr.flash_adr < edge
    → edge < io.ldr.flash_adr + length first
    → io.ldr.flash_adr + length first + length second ≤ edge + chip.erase_size
    → edge + chip.erase_size ≤ chip.flash_size
    → (io' : Io spi.Flash) × (write_all spi (first ∷ second ∷ []) io ≡ some (good, io'))
      × (io'.ldr.bytes_transfered ≡ length first + length second)
      × ((x : ℕ) → edge ≤ x → x < io.ldr.flash_adr + length first → spi.peek io'.flash x ≡ 255)
tftp_write_straddles spi chip edge first second io nor geometry has kind erasing running fresh zero
      pk pk' aligned near low inside over within room =
    let base = io.ldr.flash_adr in
    let adr = base + length first in
    let lo = edge - chip.erase_size in
    let io1 = erased_and_written spi chip has lo base first io in
    let end : sector_of chip.erase_size (adr - 1) ≡ edge =
      sector_of_lem chip.erase_size edge aligned (adr - 1) (omega arith) (omega (arith, pk'.pos)) in
    let end' : sector_of chip.erase_size (adr + length second - 1) ≡ edge =
      sector_of_lem chip.erase_size edge aligned (adr + length second - 1) (omega arith)
        (omega (arith, pk'.pos)) in
    let begin : sector_of chip.erase_size base ≡ lo =
      sector_of_lem chip.erase_size lo (aligned_prev chip.erase_size edge aligned low) base
        (omega arith) (omega arith) in
    let one =
      tftp_write-erases spi chip has lo base first io (omega (arith, geometry.small)) pk kind
        running
        (needs_lem spi chip has base (length first) edge io (omega arith)
          (omega (arith, geometry.small)) erasing end (omega (arith, geometry.small)))
        (next_first spi chip has base lo io fresh begin) in
    let two =
      tftp_write-erases spi chip has edge adr second io1 (omega (arith, geometry.small)) pk' kind
        running
        (needs_lem spi chip has adr (length second) edge io1 (omega arith)
          (omega (arith, geometry.small)) erasing end' (omega (arith, geometry.erase_pos)))
        (next_later spi chip has adr edge io1 (omega (arith, geometry.small)) (omega arith)
          (omega (arith, geometry.small))) in
    (
      erased_and_written spi chip has edge adr second io1,
      write_all-cons spi first (second ∷ []) io io1 one
          ∙ write_all-cons spi second [] io1 _ two
          ∙ write_all-nil spi _,
      omega arith,
      λ x p q.
          nor.write_out _ adr x second (omega arith) (inl q)
          ∙ nor.erase_in _ edge x aligned room p (omega arith),
    )
