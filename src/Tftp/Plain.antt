-- ===== src/Tftp/Plain.antt =====
-- `tftp_write` of a `flash` command with auto erase off: the packets only clear bits.
use panog2_ldr.Base.{
  ℕ, ◌+◌, ◌-◌, ◌^◌, ◌≤◌, ◌<◌, ◌≡◌, ◌⊎◌, inl, inr, refl, sym, ap, ap₂, ◌∙◌, arith, false, List, [],
  ◌++◌, some, bit_and, length, length-append, get_or, get_or-append_before, get_or-append_after,
  u32,
}
use native.Mathlib.Decide.{dec_lt}
use panog2_ldr.Spi.{FlashInfo, Spi, IsNor}
use panog2_ldr.Tftp.{
  Ldr, Io, good, type_flash, in_progress, needs_erase, auto_erase_step, tftp_write, advance, Client,
  err_ok, ldr_tftp_init, reset,
}
use panog2_ldr.Tftp.Flash.{packet, write_block_flash, tftp_write_one}
use panog2_ldr.Tftp.Start.{started, reset-no_message}
use panog2_ldr.Tftp.Verify.{IsBlock}

module _ (spi : Spi) (f0 : spi.Flash) (base : ℕ) where
  -- A `flash` transfer to `base` without auto erase that has written `written` over the flash `f0`.
  pub record IsClearing (written : List ℕ) (io : Io spi.Flash) : Type 0 where
    pub kind : io.ldr.transfer_type ≡ type_flash
    pub keeping : io.ldr.auto_erase ≡ false
    pub running : io.ldr.error ≡ in_progress
    pub no_message : get_or io.ldr.err_msg 0 0 ≡ 0
    pub start : io.ldr.flash_adr ≡ base
    pub count : io.ldr.bytes_transfered ≡ length written
    pub cleared :
        (i : ℕ)
        → i < length written
        → spi.peek io.flash (base + i) ≡ bit_and (spi.peek f0 (base + i)) (get_or written i 0)
    pub untouched :
        (x : ℕ) → (x < base) ⊎ (base + length written ≤ x) → spi.peek io.flash x ≡ spi.peek f0 x

module _ (spi : Spi) (chip : FlashInfo) (nor : IsNor spi chip) (has : spi.info ≡ some chip)
    (small : chip.flash_size < 2 ^ 31) where
  no_erase :
      (adr len : ℕ) (io : Io spi.Flash)
      → io.ldr.auto_erase ≡ false
      → auto_erase_step spi chip adr len io ≡ io
  unfolding auto_erase_step needs_erase
  no_erase adr len io h = rw h refl

  module _ (f0 : spi.Flash) (base : ℕ) (written payload : List ℕ) (io : Io spi.Flash)
      (v : IsClearing spi f0 base written io)
      (room : base + length written + length payload ≤ chip.flash_size) where
    abbrev adr : ℕ
    adr = base + length written

    abbrev after : Io spi.Flash
    after = advance (length payload) (record io { flash = spi.write io.flash adr payload })

    total : length (written ++ payload) ≡ length written + length payload
    total = length-append written payload

    new :
        (k i : ℕ)
        → length written + k ≡ i
        → k < length payload
        → spi.peek (spi.write io.flash adr payload) (base + i)
          ≡ bit_and (spi.peek f0 (base + i)) (get_or (written ++ payload) i 0)
    new k i e h =
        nor.write_in io.flash adr (base + i) payload room (omega arith) (omega arith)
        ∙ ap₂ bit_and (v.untouched (base + i) (inr (omega arith))) (
            ap (λ t. get_or payload t 0) (omega arith)
            ∙ sym (get_or-append_after written payload k i 0 e))

    goes_on : IsClearing spi f0 base (written ++ payload) after
    goes_on = record {
      kind = v.kind;
      keeping = v.keeping;
      running = v.running;
      no_message = v.no_message;
      start = v.start;
      count = omega (arith, v.count, total);
      cleared = λ i h. elim (dec_lt i (length written)) [
        | yes old ↦
            nor.write_out io.flash adr (base + i) payload room (inl (omega arith))
            ∙ v.cleared i old
            ∙ ap (bit_and (spi.peek f0 (base + i)))
                (sym (get_or-append_before written payload i 0 old))
        | no fresh ↦ new (i - length written) i (omega arith) (omega (arith, total))
      ];
      untouched = λ x out.
          nor.write_out io.flash adr x payload room (beside x out) ∙ v.untouched x (outside x out);
    }
      where
        beside :
            (x : ℕ)
            → (x < base) ⊎ (base + length (written ++ payload) ≤ x)
            → (x < adr) ⊎ (adr + length payload ≤ x)
        beside x (inl p) = inl (omega arith)
        beside x (inr p) = inr (omega (arith, total))

        outside :
            (x : ℕ)
            → (x < base) ⊎ (base + length (written ++ payload) ≤ x)
            → (x < base) ⊎ (base + length written ≤ x)
        outside x (inl p) = inl p
        outside x (inr p) = inr (omega (arith, total))

    -- `tftp_write` on a packet.
    pub tftp_write-clears :
        (room' : ℕ)
        → IsBlock room' payload
        → (io' : Io spi.Flash) × (tftp_write spi (packet payload) io ≡ some (good, io'))
          × IsClearing spi f0 base (written ++ payload) io'
    tftp_write-clears room' b = (
      after,
      tftp_write_one spi adr payload io _ at b.pos b.word
          (write_block_flash spi chip adr (length payload) payload io has v.kind
            ∙ ap (λ (e : Io spi.Flash). some (record e { flash = spi.write e.flash adr payload }))
                (no_erase adr (length payload) io v.keeping))
          v.running,
      goes_on,
    )
      where
        at : u32 (io.ldr.flash_adr + io.ldr.bytes_transfered) ≡ adr
        at = omega (arith, small, v.start, v.count)

-- `ldr_tftp_init` of such a transfer, before the first packet.
pub ldr_tftp_init-IsClearing :
    (spi : Spi) (client : Client) (p : Ldr) (io : Io spi.Flash)
    → ldr_tftp_init client (some p) ≡ (err_ok, some io.ldr)
    → p.transfer_type ≡ type_flash
    → p.auto_erase ≡ false
    → IsClearing spi io.flash p.flash_adr [] io
ldr_tftp_init-IsClearing spi client p io init kind keeping = record {
  kind = ap (λ (l : Ldr). l.transfer_type) clean ∙ kind;
  keeping = ap (λ (l : Ldr). l.auto_erase) clean ∙ keeping;
  running = ap (λ (l : Ldr). l.error) clean;
  no_message = ap (λ (l : Ldr). get_or l.err_msg 0 0) clean ∙ reset-no_message p;
  start = ap (λ (l : Ldr). l.flash_adr) clean;
  count = ap (λ (l : Ldr). l.bytes_transfered) clean;
  cleared = λ i h. absurd (omega arith);
  untouched = λ x h. refl;
}
  where
    clean : io.ldr ≡ record (reset p) { error = in_progress }
    clean = started client p io.ldr init
