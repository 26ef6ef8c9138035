-- ===== src/Tftp/Flash/Erase.antt =====
-- The auto erase in front of a packet of a `flash` command.
use panog2_ldr.Base.{
  ℕ, ◌+◌, ◌-◌, ◌%◌, ◌^◌, ◌≤◌, ◌<◌, ◌≡◌, ◌≢◌, ◌⊎◌, inl, inr, refl, sym, ap, ◌∙◌, arith, true, false,
  List, length, bytes_ext, u32, ne→==, eq→==,
}
use native.Mathlib.Decide.{dec_lt}
use native.Mathlib.Nat.{le_refl, add-mod_right}
use panog2_ldr.Spi.{FlashInfo, Spi, IsNor}
use panog2_ldr.Tftp.{Io, invalid_flash_adr, sector_of, needs_erase, next_erase, auto_erase_step}
use panog2_ldr.Tftp.Sector.{sector_of_lem, aligned_next, aligned_gap}
use panog2_ldr.Tftp.Flash.{IsChip, IsPacket, IsFlashing, IsReady, FirstFits}

module _ (spi : Spi) (chip : FlashInfo) (nor : IsNor spi chip) (geometry : IsChip chip) where
  module _ (f0 : spi.Flash) (base edge : ℕ) (written : List ℕ) (io : Io spi.Flash)
      (v : IsFlashing spi chip f0 base edge written io) (payload : List ℕ)
      (pk : IsPacket chip payload) (room : base + length written + length payload ≤ chip.flash_size)
      (first_fits : FirstFits chip base written payload) where
    abbrev Ready : ℕ → Io spi.Flash → Type 0
    Ready edge' io' = IsReady spi chip f0 base edge' written payload io'

    abbrev adr : ℕ
    adr = base + length written

    last_adr : u32 (adr + length payload + 2 ^ 32 - 1) ≡ adr + length payload - 1
    last_adr = omega (arith, geometry.small, pk.pos)

    -- The first packet, and one that ends past the sectors erased so far.
    erases :
        (needs_erase chip adr (length payload) io.ldr ≡ true)
        → next_erase chip adr io.ldr ≡ edge
        → edge < adr + length payload
        → adr + length payload ≤ edge + chip.erase_size
        → ((x : ℕ) → base ≤ x → x < adr → x < edge)
        → sector_of chip.erase_size base ≤ edge
        → Ready (edge + chip.erase_size) (auto_erase_step spi chip adr (length payload) io)
    unfolding auto_erase_step
    erases needs next over within covered above =
        rw (needs, next)
          (record {
            kind = v.kind;
            erasing = v.erasing;
            running = v.running;
            no_message = v.no_message;
            start = v.start;
            count = v.count;
            edge_aligned = aligned_next chip.erase_size edge v.edge_aligned;
            below_edge = within;
            last = refl;
            last_below = over;
            programmed =
                bytes_ext _ (spi.peek io.flash) base (length written)
                  (λ x p q. nor.erase_out io.flash edge x v.edge_aligned fits (inl (covered x p q)))
                ∙ v.programmed;
            before = λ x p q r. elim (dec_lt x edge) [
              | yes b ↦ nor.erase_out io.flash edge x v.edge_aligned fits (inl b) ∙ v.before x p q b
              | no b ↦ nor.erase_in io.flash edge x v.edge_aligned fits (omega arith) r
            ];
            blank = λ x p q. elim (dec_lt x edge) [
              | yes b ↦ nor.erase_out io.flash edge x v.edge_aligned fits (inl b) ∙ v.blank x p b
              | no b ↦ nor.erase_in io.flash edge x v.edge_aligned fits (omega arith) q
            ];
            untouched = λ x p.
                nor.erase_out io.flash edge x v.edge_aligned fits (outside x p)
                ∙ v.untouched x (outside_edge x p);
          })
      where
        fits : edge + chip.erase_size ≤ chip.flash_size
        fits =
            aligned_gap chip.erase_size edge v.edge_aligned chip.flash_size geometry.sectors
              (omega arith)

        lo : ℕ
        lo = sector_of chip.erase_size base

        outside :
            (x : ℕ)
            → (x < lo) ⊎ (edge + chip.erase_size ≤ x)
            → (x < edge) ⊎ (edge + chip.erase_size ≤ x)
        outside x (inl p) = inl (omega (arith, above))
        outside x (inr p) = inr p

        outside_edge : (x : ℕ) → (x < lo) ⊎ (edge + chip.erase_size ≤ x) → (x < lo) ⊎ (edge ≤ x)
        outside_edge x (inl p) = inl p
        outside_edge x (inr p) = inr (omega arith)

    needs_of_ne :
        (s : ℕ)
        → sector_of chip.erase_size (adr + length payload - 1) ≡ s
        → io.ldr.last_erase_adr ≢ s
        → needs_erase chip adr (length payload) io.ldr ≡ true
    unfolding needs_erase
    needs_of_ne s e ne = rw (last_adr, e, v.erasing, ne→== _ _ ne) refl

    needs_of_eq :
        sector_of chip.erase_size (adr + length payload - 1) ≡ io.ldr.last_erase_adr
        → needs_erase chip adr (length payload) io.ldr ≡ false
    unfolding needs_erase
    needs_of_eq e = rw (last_adr, e, v.erasing, eq→== _ _ refl) refl

    next_first :
        io.ldr.last_erase_adr ≡ invalid_flash_adr
        → sector_of chip.erase_size adr ≡ edge
        → next_erase chip adr io.ldr ≡ edge
    unfolding next_erase
    next_first first e = rw (first, e) refl

    next_later :
        io.ldr.last_erase_adr ≢ invalid_flash_adr
        → io.ldr.last_erase_adr + chip.erase_size ≡ edge
        → edge < 2 ^ 32
        → next_erase chip adr io.ldr ≡ edge
    unfolding next_erase
    next_later valid e small = rw (ne→== _ _ valid) (omega arith)

    sector_end :
        edge < adr + length payload
        → adr + length payload ≤ edge + chip.erase_size
        → sector_of chip.erase_size (adr + length payload - 1) ≡ edge
    sector_end over within =
        sector_of_lem chip.erase_size edge v.edge_aligned (adr + length payload - 1) (omega arith)
          (omega arith)

    -- The packet ends in the sector erased last: nothing more is erased.
    keeps :
        (s : ℕ)
        → io.ldr.last_erase_adr ≡ s
        → s + chip.erase_size ≡ edge
        → s < adr
        → adr + length payload ≤ edge
        → Ready edge (auto_erase_step spi chip adr (length payload) io)
    unfolding auto_erase_step
    keeps s e e' below within = rw (needs_of_eq (sector ∙ sym e)) (record {
      kind = v.kind;
      erasing = v.erasing;
      running = v.running;
      no_message = v.no_message;
      start = v.start;
      count = v.count;
      edge_aligned = v.edge_aligned;
      below_edge = within;
      last = omega arith;
      last_below = omega arith;
      programmed = v.programmed;
      before = v.before;
      blank = v.blank;
      untouched = v.untouched;
    })
      where
        s_aligned : s % chip.erase_size ≡ 0
        s_aligned =
            sym (add-mod_right s chip.erase_size)
            ∙ ap (λ t. t % chip.erase_size) e'
            ∙ v.edge_aligned

        sector : sector_of chip.erase_size (adr + length payload - 1) ≡ s
        sector =
            sector_of_lem chip.erase_size s s_aligned (adr + length payload - 1)
              (omega (arith, pk.pos)) (omega (arith, pk.pos))

    -- In each case the packet's bytes are erased when it is written.
    pub ready :
        (edge' : ℕ) × (edge' ≤ edge + chip.erase_size)
        × IsReady spi chip f0 base edge' written payload
            (auto_erase_step spi chip (base + length written) (length payload) io)
    ready = elim v.last [
      | inl (first, empty, at_base) ↦
          let none_yet : length written ≡ 0 = ap length empty in
          let here : adr ≡ base = omega (arith, none_yet) in
          let over : edge < adr + length payload = omega (arith, pk.pos) in
          let within : adr + length payload ≤ edge + chip.erase_size =
            omega (arith, first_fits empty) in
          (
            edge + chip.erase_size,
            le_refl _,
            erases (needs_of_ne edge (sector_end over within) (omega (arith, geometry.small)))
                (next_first first (ap (sector_of chip.erase_size) here ∙ sym at_base)) over within
                (λ x p q. absurd (omega arith)) (omega arith),
          )
      | inr (later, below, beyond) ↦ elim (dec_lt edge (adr + length payload)) [
        | yes over ↦
            let within : adr + length payload ≤ edge + chip.erase_size = omega (arith, pk.fits) in
            (
              edge + chip.erase_size,
              le_refl _,
              erases (needs_of_ne edge (sector_end over within) (omega (arith, geometry.erase_pos)))
                  (next_later (omega (arith, geometry.small)) later (omega (arith, geometry.small)))
                  over within (λ x p q. omega arith) (omega arith),
            )
        | no within ↦
            (edge, omega arith, keeps io.ldr.last_erase_adr refl later below (omega arith))
      ]
    ]
