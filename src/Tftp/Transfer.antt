-- ===== src/Tftp/Transfer.antt =====
-- A whole `flash` transfer: `ldr_tftp_init`, then the packets in order.
use panog2_ldr.Base.{
  ℕ, ◌+◌, ◌%◌, ◌≤◌, ◌<◌, ◌≡◌, ◌≢◌, ◌⊎◌, inl, inr, refl, sym, ap, ◌∙◌, arith, true, List, [], ◌∷◌,
  ◌++◌, Option, none, some, append_assoc, append-nil, subst, length, length-append, bytes, get_or,
}
use panog2_ldr.Spi.{FlashInfo, Spi, IsNor}
use panog2_ldr.Tftp.{
  Ldr, Io, Ret, good, fail, Client, err_ok, type_flash, in_progress, tftp_write, ldr_tftp_init,
  reset, sector_of,
}
use panog2_ldr.Tftp.Sector.{sector_of-aligned, sector_of_start}
use panog2_ldr.Tftp.Flash.Packet.{tftp_write-packet}
use panog2_ldr.Tftp.Flash.{IsChip, IsPacket, packet, IsFlashing}
use panog2_ldr.Tftp.Start.{started, reset-no_message}

-- The data of the packets, in order.
abbrev pub flatten : List (List ℕ) → List ℕ
flatten [] = []
flatten (p ∷ ps) = p ++ flatten ps

abbrev pub ArePackets : FlashInfo → List (List ℕ) → Type 0
ArePackets chip [] = Unit
ArePackets chip (p ∷ ps) = IsPacket chip p × ArePackets chip ps

-- The first packet ends within the sector of the address.
abbrev pub StartsInSector : FlashInfo → ℕ → List (List ℕ) → Type 0
StartsInSector chip base [] = Unit
StartsInSector chip base (p ∷ ps) =
    base + length p ≤ sector_of chip.erase_size base + chip.erase_size

-- As a packet is no larger than a sector, it does where the address is the start of one.
pub aligned-StartsInSector :
    (chip : FlashInfo) (base : ℕ) (ps : List (List ℕ))
    → base % chip.erase_size ≡ 0
    → ArePackets chip ps
    → StartsInSector chip base ps
aligned-StartsInSector chip base [] aligned pks = tt
aligned-StartsInSector chip base (p ∷ ps) aligned pks =
    omega (arith, pks.0.fits, sector_of_start chip.erase_size base aligned)

-- The client hands over the packets until one is refused.
pub write_all : (spi : Spi) → List (List ℕ) → Io spi.Flash → Option (Ret × Io spi.Flash)
write_all spi [] io = some (good, io)
write_all spi (p ∷ ps) io = elim (tftp_write spi (packet p) io) [
  | none ↦ none
  | some (r, io') ↦ elim r [ good ↦ write_all spi ps io' | fail ↦ some (fail, io') ]
]

pub write_all-nil : (spi : Spi) (io : Io spi.Flash) → write_all spi [] io ≡ some (good, io)
unfolding write_all
write_all-nil spi io = refl

pub write_all-cons :
    (spi : Spi) (p : List ℕ) (ps : List (List ℕ)) (io io' : Io spi.Flash)
    → tftp_write spi (packet p) io ≡ some (good, io')
    → write_all spi (p ∷ ps) io ≡ write_all spi ps io'
unfolding write_all
write_all-cons spi p ps io io' e = rw (e, write_all) refl

-- What has been written is not empty after a packet.
pub not_empty : (written p : List ℕ) → 0 < length p → written ++ p ≢ []
not_empty written p pos e = omega (arith, pos, length-append written p, ap length e)

module _ (spi : Spi) (chip : FlashInfo) (nor : IsNor spi chip) (geometry : IsChip chip)
    (has : spi.info ≡ some chip) (f0 : spi.Flash) (base : ℕ) where
  write_all-IsFlashing :
      (ps : List (List ℕ)) (edge : ℕ) (written : List ℕ) (io : Io spi.Flash)
      → IsFlashing spi chip f0 base edge written io
      → ArePackets chip ps
      → (written ≡ [] → StartsInSector chip base ps)
      → base + length written + length (flatten ps) ≤ chip.flash_size
      → (edge' : ℕ) × (io' : Io spi.Flash) × (write_all spi ps io ≡ some (good, io'))
        × IsFlashing spi chip f0 base edge' (written ++ flatten ps) io'
  write_all-IsFlashing [] edge written io v pks starts room = (
    edge,
    io,
    write_all-nil spi io,
    subst (λ w. IsFlashing spi chip f0 base edge w io) (sym (append-nil written)) v,
  )
  write_all-IsFlashing (p ∷ ps) edge written io v pks starts room =
      let (edge1, le, io1, e, v1) =
        tftp_write-packet spi chip nor geometry f0 base edge written io v p pks.0
          (omega (arith, length-append p (flatten ps))) starts has in
      let (edge2, io2, e', v2) =
        write_all-IsFlashing ps edge1 (written ++ p) io1 v1 pks.1
          (λ e. absurd (not_empty written p pks.0.pos e))
          (omega (arith, length-append p (flatten ps), length-append written p)) in
      (
        edge2,
        io2,
        write_all-cons spi p ps io io1 e ∙ e',
        subst (λ w. IsFlashing spi chip f0 base edge2 w io2) (append_assoc written p (flatten ps))
            v2,
      )

module _ (spi : Spi) (chip : FlashInfo) where
  -- `ldr_tftp_init` of a `flash` transfer, before the first packet.
  pub ldr_tftp_init-IsFlashing :
      (client : Client) (p : Ldr) (io : Io spi.Flash)
      → ldr_tftp_init client (some p) ≡ (err_ok, some io.ldr)
      → p.transfer_type ≡ type_flash
      → p.auto_erase ≡ true
      → IsFlashing spi chip io.flash p.flash_adr (sector_of chip.erase_size p.flash_adr) [] io
  ldr_tftp_init-IsFlashing client p io init kind erasing = record {
    kind = ap (λ (l : Ldr). l.transfer_type) clean ∙ kind;
    erasing = ap (λ (l : Ldr). l.auto_erase) clean ∙ erasing;
    running = ap (λ (l : Ldr). l.error) clean;
    no_message = ap (λ (l : Ldr). get_or l.err_msg 0 0) clean ∙ reset-no_message p;
    start = ap (λ (l : Ldr). l.flash_adr) clean;
    count = ap (λ (l : Ldr). l.bytes_transfered) clean;
    edge_aligned = sector_of-aligned chip.erase_size p.flash_adr;
    last = inl (ap (λ (l : Ldr). l.last_erase_adr) clean, refl, refl);
    programmed = refl;
    before = λ x p q r. absurd (omega arith);
    blank = λ x p q. absurd (omega arith);
    untouched = λ x p. refl;
  }
    where
      clean : io.ldr ≡ record (reset p) { error = in_progress }
      clean = started client p io.ldr init

  -- What a transfer cannot have changed.
  pub flashing_outside :
      (f0 : spi.Flash) (base edge : ℕ) (written : List ℕ) (io : Io spi.Flash)
      → IsFlashing spi chip f0 base edge written io
      → (x : ℕ)
      → (x < sector_of chip.erase_size base) ⊎ (base + length written + chip.erase_size ≤ x)
      → spi.peek io.flash x ≡ spi.peek f0 x
  flashing_outside f0 base edge written io v x (inl h) = v.untouched x (inl h)
  flashing_outside f0 base edge written io v x (inr h) = v.untouched x (
      inr (elim v.last [
        | inl (first, empty, at_base) ↦ omega arith
        | inr (later, below, _) ↦ omega arith
      ]))

-- After `flash` with auto erase on, to the start of a sector, from packets that each fit a sector and
-- together fit the chip: every packet is accepted, the flash holds their bytes in order from that
-- address on, and nothing before the address, or more than a sector behind the data, has changed.
pub flash_programs :
    (spi : Spi) (chip : FlashInfo) (client : Client) (p : Ldr) (io : Io spi.Flash)
    (ps : List (List ℕ))
    → IsNor spi chip
    → IsChip chip
    → spi.info ≡ some chip
    → ldr_tftp_init client (some p) ≡ (err_ok, some io.ldr)
    → p.transfer_type ≡ type_flash
    → p.auto_erase ≡ true
    → p.flash_adr % chip.erase_size ≡ 0
    → ArePackets chip ps
    → p.flash_adr + length (flatten ps) ≤ chip.flash_size
    → (io' : Io spi.Flash) × (write_all spi ps io ≡ some (good, io'))
      × (bytes (spi.peek io'.flash) p.flash_adr (length (flatten ps)) ≡ flatten ps)
      × (io'.ldr.bytes_transfered ≡ length (flatten ps))
      × ((x : ℕ)
          → (x < p.flash_adr) ⊎ (p.flash_adr + length (flatten ps) + chip.erase_size ≤ x)
          → spi.peek io'.flash x ≡ spi.peek io.flash x)
flash_programs spi chip client p io ps nor geometry has init kind erasing aligned pks room =
    let begin = ldr_tftp_init-IsFlashing spi chip client p io init kind erasing in
    let (edge, io', e, v) =
      write_all-IsFlashing spi chip nor geometry has io.flash p.flash_adr ps
        (sector_of chip.erase_size p.flash_adr) [] io begin pks
        (λ e. aligned-StartsInSector chip p.flash_adr ps aligned pks) (omega arith) in
    (
      io',
      e,
      v.programmed,
      v.count,
      λ x out. flashing_outside spi chip io.flash p.flash_adr edge (flatten ps) io' v x (
          subst (λ b. (x < b) ⊎ (p.flash_adr + length (flatten ps) + chip.erase_size ≤ x))
            (sym (sector_of_start chip.erase_size p.flash_adr aligned)) out),
    )
