-- ===== src/Tftp/Flash.antt =====
-- `tftp_write` of a `flash` command with auto erase on: what a sequence of packets programs.
pub mod Erase
pub mod Packet
use panog2_ldr.Base.{
  ℕ, ◌+◌, ◌-◌, ◌%◌, ◌^◌, ◌≤◌, ◌<◌, ◌≡◌, ◌≢◌, ◌⊎◌, inl, inr, refl, sym, ap, ap₂, ◌∙◌, arith, true,
  false, List, [], ◌∷◌, ◌++◌, some, bit_and, bit_and_ones, length, length-append, get_or, bytes,
  bytes-add, bytes_ext, bytes_of_get_or, u16, u32, ne→==, eq→==, lt→ltb, le→ltb,
}
use native.Mathlib.Decide.{dec_lt}
use native.Mathlib.Nat.{le_refl, add-mod_right}
use panog2_ldr.Spi.{FlashInfo, Spi, IsNor}
use panog2_ldr.Tftp.{
  Io, Pbuf, good, type_flash, in_progress, invalid_flash_adr, sector_of, needs_erase, next_erase,
  auto_erase_step, write_flash, write_block, write_loop, tftp_write, advance,
}
use panog2_ldr.Tftp.Sector.{sector_of_lem, aligned_next, aligned_gap}

-- A chip made of whole sectors, whose addresses fit an `int`.
pub record IsChip (chip : FlashInfo) : Type 0 where
  pub sectors : chip.flash_size % chip.erase_size ≡ 0
  pub erase_pos : 0 < chip.erase_size
  pub small : chip.flash_size < 2 ^ 31

-- One packet: a single buffer of bytes, not empty and no larger than a sector.
pub record IsPacket (chip : FlashInfo) (payload : List ℕ) : Type 0 where
  pub pos : 0 < length payload
  pub fits : length payload ≤ chip.erase_size
  pub word : length payload < 2 ^ 16
  pub values : (i : ℕ) → get_or payload i 0 < 256

-- The first packet of a transfer to `base` ends within the sector of `base`.
abbrev pub FirstFits : FlashInfo → ℕ → List ℕ → List ℕ → Type 0
FirstFits chip base written payload =
    written ≡ [] → base + length payload ≤ sector_of chip.erase_size base + chip.erase_size

abbrev pub packet : List ℕ → Pbuf
packet payload = record { tot_len = length payload; chain = payload ∷ [] }

module _ (spi : Spi) (chip : FlashInfo) where
  -- A `flash` transfer to `base` that has programmed `written`. The sectors from that of `base` on and below
  -- `edge` have been erased, and `f0` is the flash before the transfer.
  pub record IsFlashing (f0 : spi.Flash) (base edge : ℕ) (written : List ℕ) (io : Io spi.Flash)
      : Type 0 where
    pub kind : io.ldr.transfer_type ≡ type_flash
    pub erasing : io.ldr.auto_erase ≡ true
    pub running : io.ldr.error ≡ in_progress
    pub no_message : get_or io.ldr.err_msg 0 0 ≡ 0
    pub start : io.ldr.flash_adr ≡ base
    pub count : io.ldr.bytes_transfered ≡ length written
    pub edge_aligned : edge % chip.erase_size ≡ 0
    pub last :
        (io.ldr.last_erase_adr ≡ invalid_flash_adr)
          × (written ≡ [])
          × (edge ≡ sector_of chip.erase_size base)
        ⊎ (io.ldr.last_erase_adr + chip.erase_size ≡ edge)
          × (io.ldr.last_erase_adr < base + length written)
          × (base + length written ≤ edge)
    pub programmed : bytes (spi.peek io.flash) base (length written) ≡ written
    pub before :
        (x : ℕ)
        → sector_of chip.erase_size base ≤ x
        → x < base
        → x < edge
        → spi.peek io.flash x ≡ 255
    pub blank : (x : ℕ) → base + length written ≤ x → x < edge → spi.peek io.flash x ≡ 255
    pub untouched :
        (x : ℕ)
        → (x < sector_of chip.erase_size base) ⊎ (edge ≤ x)
        → spi.peek io.flash x ≡ spi.peek f0 x

  -- What the auto erase leaves for a packet: every byte of it is erased.
  pub record IsReady (f0 : spi.Flash) (base edge : ℕ) (written payload : List ℕ) (io : Io spi.Flash)
      : Type 0 where
    pub kind : io.ldr.transfer_type ≡ type_flash
    pub erasing : io.ldr.auto_erase ≡ true
    pub running : io.ldr.error ≡ in_progress
    pub no_message : get_or io.ldr.err_msg 0 0 ≡ 0
    pub start : io.ldr.flash_adr ≡ base
    pub count : io.ldr.bytes_transfered ≡ length written
    pub edge_aligned : edge % chip.erase_size ≡ 0
    pub below_edge : base + length written + length payload ≤ edge
    pub last : io.ldr.last_erase_adr + chip.erase_size ≡ edge
    pub last_below : io.ldr.last_erase_adr < base + length written + length payload
    pub programmed : bytes (spi.peek io.flash) base (length written) ≡ written
    pub before :
        (x : ℕ)
        → sector_of chip.erase_size base ≤ x
        → x < base
        → x < edge
        → spi.peek io.flash x ≡ 255
    pub blank : (x : ℕ) → base + length written ≤ x → x < edge → spi.peek io.flash x ≡ 255
    pub untouched :
        (x : ℕ)
        → (x < sector_of chip.erase_size base) ⊎ (edge ≤ x)
        → spi.peek io.flash x ≡ spi.peek f0 x

-- One buffer in a `flash` transfer is erased for, and written.
pub write_block_flash :
    (spi : Spi) (chip : FlashInfo) (adr total : ℕ) (payload : List ℕ) (io : Io spi.Flash)
    → spi.info ≡ some chip
    → io.ldr.transfer_type ≡ type_flash
    → let erased = auto_erase_step spi chip adr (length payload) io in
      write_block spi adr total payload io io.ldr.transfer_type
      ≡ some (record erased { flash = spi.write erased.flash adr payload })
unfolding write_block write_flash
write_block_flash spi chip adr total payload io has kind =
    ap (write_block spi adr total payload io) kind ∙ rw has refl

-- `tftp_write` on a packet of one buffer that is handled without an error.
pub tftp_write_one :
    (spi : Spi) (adr : ℕ) (payload : List ℕ) (io io' : Io spi.Flash)
    → u32 (io.ldr.flash_adr + io.ldr.bytes_transfered) ≡ adr
    → 0 < length payload
    → length payload < 2 ^ 16
    → write_block spi adr (length payload) payload io io.ldr.transfer_type ≡ some io'
    → io'.ldr.error ≡ in_progress
    → tftp_write spi (packet payload) io ≡ some (good, advance (length payload) io')
unfolding tftp_write write_loop
tftp_write_one spi adr payload io io' start pos word step running =
    rw
      (
        start,
        lt→ltb 0 (length payload) pos,
        step,
        running,
        le→ltb (u16 (0 + length payload)) (length payload) (omega arith),
      )
      refl
