-- ===== src/Tftp/Chain.antt =====
-- A packet in two buffers.
use panog2_ldr.Base.{
  ℕ, ◌+◌, ◌^◌, ◌≤◌, ◌<◌, ◌≡◌, inr, refl, ap, ap₂, ◌∙◌, arith, false, List, [], ◌∷◌, some, length,
  get_or, bit_and, u16, u32, lt→ltb, le→ltb,
}
use panog2_ldr.Spi.{FlashInfo, Spi, IsNor}
use panog2_ldr.Tftp.{
  Io, Pbuf, good, type_flash, in_progress, advance, auto_erase_step, needs_erase, write_block,
  write_loop, tftp_write,
}
use panog2_ldr.Tftp.Flash.{write_block_flash}

-- The packet `a`, `b`.
abbrev pub two_buffers : List ℕ → List ℕ → Pbuf
two_buffers a b = record { tot_len = length a + length b; chain = a ∷ b ∷ [] }

module _ (spi : Spi) (chip : FlashInfo) (has : spi.info ≡ some chip) where
  no_erase :
      (adr n : ℕ) (io : Io spi.Flash)
      → io.ldr.auto_erase ≡ false
      → auto_erase_step spi chip adr n io ≡ io
  unfolding auto_erase_step needs_erase
  no_erase adr n io off = ground arith

  -- Without auto erase a buffer is written as it is.
  write_block_plain :
      (adr total : ℕ) (bs : List ℕ) (io : Io spi.Flash)
      → io.ldr.transfer_type ≡ type_flash
      → io.ldr.auto_erase ≡ false
      → write_block spi adr total bs io io.ldr.transfer_type
        ≡ some (record io { flash = spi.write io.flash adr bs })
  write_block_plain adr total bs io kind off =
      write_block_flash spi chip adr total bs io has kind
      ∙ ap (λ (t : Io spi.Flash). some (record t { flash = spi.write t.flash adr bs }))
          (no_erase adr (length bs) io off)

  write_loop_turn :
      (adr total len : ℕ) (bs : List ℕ) (chain : List (List ℕ)) (io : Io spi.Flash)
      → len < total
      → io.ldr.transfer_type ≡ type_flash
      → io.ldr.auto_erase ≡ false
      → io.ldr.error ≡ in_progress
      → write_loop spi adr total len (bs ∷ chain) io
        ≡ write_loop spi adr total
            (u16 (len + length bs))
            chain
            (advance (length bs) (record io { flash = spi.write io.flash adr bs }))
  unfolding write_loop
  write_loop_turn adr total len bs chain io more kind off running =
      rw (lt→ltb len total more, write_block_plain adr total bs io kind off, running) refl

  write_loop_done :
      (adr total : ℕ) (io : Io spi.Flash) → write_loop spi adr total total [] io ≡ some (good, io)
  unfolding write_loop
  write_loop_done adr total io = rw (le→ltb total total (omega arith)) refl

-- A `flash` transfer without auto erase gets a packet in two buffers that fits the chip: it is accepted,
-- and both buffers count, but the second is written at the first one's address: where both have a byte
-- the flash gets the bits that both leave set, and the place behind the longer one is as it was.
pub tftp_write_chain :
    (spi : Spi) (chip : FlashInfo) (adr : ℕ) (a b : List ℕ) (io : Io spi.Flash)
    → spi.info ≡ some chip
    → IsNor spi chip
    → chip.flash_size < 2 ^ 31
    → io.ldr.transfer_type ≡ type_flash
    → io.ldr.auto_erase ≡ false
    → io.ldr.error ≡ in_progress
    → io.ldr.flash_adr + io.ldr.bytes_transfered ≡ adr
    → 0 < length a
    → 0 < length b
    → length a + length b < 2 ^ 16
    → adr + length a + length b ≤ chip.flash_size
    → (io' : Io spi.Flash) × (tftp_write spi (two_buffers a b) io ≡ some (good, io'))
      × (io'.ldr.bytes_transfered ≡ io.ldr.bytes_transfered + length a + length b)
      × ((i : ℕ)
          → i < length a
          → i < length b
          → spi.peek io'.flash (adr + i)
            ≡ bit_and (bit_and (spi.peek io.flash (adr + i)) (get_or a i 0)) (get_or b i 0))
      × ((i : ℕ)
          → length a ≤ i
          → length b ≤ i
          → spi.peek io'.flash (adr + i) ≡ spi.peek io.flash (adr + i))
unfolding tftp_write
tftp_write_chain spi chip adr a b io has nor small kind off running at pos_a pos_b word fits = (
  io2,
  ap (λ x. write_loop spi x total 0 (a ∷ b ∷ []) io) start
      ∙ write_loop_turn spi chip has adr total 0 a (b ∷ []) io (omega arith) kind off running
      ∙ ap (λ n. write_loop spi adr total n (b ∷ []) io1) first
      ∙ write_loop_turn spi chip has adr total (length a) b [] io1 (omega arith) kind off running
      ∙ ap (λ n. write_loop spi adr total n [] io2) both
      ∙ write_loop_done spi chip has adr total io2,
  refl,
  λ i p q.
      second i q
      ∙ ap₂ bit_and
          (nor.write_in io.flash adr (adr + i) a (omega arith) (omega arith) (omega arith)
            ∙ ap (λ k. bit_and (spi.peek io.flash (adr + i)) (get_or a k 0)) {y = i} (omega arith))
          refl,
  λ i p q.
      nor.write_out (spi.write io.flash adr a) adr (adr + i) b (omega arith) (inr (omega arith))
      ∙ nor.write_out io.flash adr (adr + i) a (omega arith) (inr (omega arith)),
)
  where
    total : ℕ
    total = length a + length b

    io1 : Io spi.Flash
    io1 = advance (length a) (record io { flash = spi.write io.flash adr a })

    io2 : Io spi.Flash
    io2 = advance (length b) (record io1 { flash = spi.write io1.flash adr b })

    start : u32 (io.ldr.flash_adr + io.ldr.bytes_transfered) ≡ adr
    start = omega arith

    first : u16 (0 + length a) ≡ length a
    first = omega arith

    both : u16 (length a + length b) ≡ total
    both = omega arith

    second :
        (i : ℕ)
        → i < length b
        → spi.peek io2.flash (adr + i) ≡ bit_and (spi.peek io1.flash (adr + i)) (get_or b i 0)
    second i q =
        nor.write_in io1.flash adr (adr + i) b (omega arith) (omega arith) (omega arith)
        ∙ ap (λ k. bit_and (spi.peek io1.flash (adr + i)) (get_or b k 0)) {y = i} (omega arith)
