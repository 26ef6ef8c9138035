-- ===== src/Tftp/Compare.antt =====
-- `tftp_write` of a `verify` command: when it accepts a packet, and where it says that it differs.
use panog2_ldr.Base.{
  ℕ, ◌+◌, ◌^◌, ◌≤◌, ◌<◌, ◌≡◌, ◌≢◌, ◌↔◌, refl, ap, ◌∙◌, arith, List, [], ◌∷◌, some, false, bytes,
  length, take, put_at, get_or, u32, ◌==◌, Bool-cases, inl, inr, le→ltb, lt→ltb, length-bytes,
  same_bytes, same_bytes_self, same_bytes-eq, take-put_at,
}
use panog2_ldr.Spi.{FlashInfo, Spi, IsNor}
use panog2_ldr.Tftp.{
  Ldr, Io, good, fail, type_compare, in_progress, err_compare_fail, match_len, compare_flash,
  tftp_write, advance, write_block, write_loop,
}
use panog2_ldr.Tftp.Flash.{packet, tftp_write_one}

-- `match_len` is the first index at which two different buffers of one length differ.
match_len_lem :
    (xs ys : List ℕ)
    → length xs ≡ length ys
    → same_bytes xs ys ≡ false
    → (match_len xs ys < length xs)
      × (get_or xs (match_len xs ys) 0 ≢ get_or ys (match_len xs ys) 0)
      × (take (match_len xs ys) xs ≡ take (match_len xs ys) ys)
unfolding same_bytes match_len
match_len_lem [] [] e h = cc
match_len_lem [] (y ∷ ys) e h = absurd (omega arith)
match_len_lem (x ∷ xs) [] e h = absurd (omega arith)
match_len_lem (x ∷ xs) (y ∷ ys) e h = elim (Bool-cases (x == y)) [
  | inl eq ↦ ground (arith, match_len_lem xs ys)
  | inr ne ↦ ground arith
]

-- A `verify` transfer whose buffer takes the packet, which lies on the chip.
pub record IsComparing (chip : FlashInfo) (p : Ldr) (ram_size : ℕ) (payload : List ℕ) : Type 0 where
  pub kind : p.transfer_type ≡ type_compare
  pub running : p.error ≡ in_progress
  pub pos : 0 < length payload
  pub word : length payload < 2 ^ 16
  pub fits : length payload ≤ p.max_bytes
  pub room : p.max_bytes ≤ ram_size
  pub region : p.flash_adr + p.bytes_transfered + length payload ≤ chip.flash_size
  pub small : chip.flash_size < 2 ^ 31

module _ (spi : Spi) (chip : FlashInfo) (nor : IsNor spi chip) (payload : List ℕ)
    (io : Io spi.Flash) (v : IsComparing chip io.ldr (length io.ram) payload) where
  -- What the flash holds where the packet is compared.
  abbrev stored : List ℕ
  stored = bytes (spi.peek io.flash) (io.ldr.flash_adr + io.ldr.bytes_transfered) (length payload)

  abbrev loaded : Io spi.Flash
  loaded = record io { ram = put_at io.ram 0 stored }

  adr_lem :
      u32 (io.ldr.flash_adr + io.ldr.bytes_transfered) ≡ io.ldr.flash_adr + io.ldr.bytes_transfered
  adr_lem = omega (arith, v.region, v.small)

  abbrev adr : ℕ
  adr = io.ldr.flash_adr + io.ldr.bytes_transfered

  block :
      write_block spi adr (length payload) payload io io.ldr.transfer_type
      ≡ compare_flash spi adr payload io
  unfolding write_block
  block = ap (write_block spi adr (length payload) payload io) v.kind

  taken : take (length payload) (put_at io.ram 0 stored) ≡ stored
  taken =
      take-put_at io.ram stored (length payload) (length-bytes _ _ _)
        (omega (arith, v.fits, v.room))

  compare_equal : stored ≡ payload → compare_flash spi adr payload io ≡ some loaded
  unfolding compare_flash
  compare_equal e =
      rw
        (
          nor.read_lem io.flash adr (length payload) v.region,
          le→ltb io.ldr.max_bytes (length payload) v.fits,
          le→ltb (length io.ram) (length payload) (omega (arith, v.fits, v.room)),
          taken,
        )
        (rw (ap (λ t. same_bytes t payload) e ∙ same_bytes_self payload) refl)

  -- A packet equal to the flash is accepted and counted.
  pub accepts :
      stored ≡ payload
      → tftp_write spi (packet payload) io ≡ some (good, advance (length payload) loaded)
  accepts e =
      tftp_write_one spi adr payload io loaded adr_lem v.pos v.word (block ∙ compare_equal e)
        v.running

  -- What is left of a packet that differs: the count stands at the first byte that does.
  abbrev differs_at : ℕ → Io spi.Flash
  differs_at k = record loaded {
    ldr = record io.ldr {
      bytes_transfered = io.ldr.bytes_transfered + k;
      error = err_compare_fail;
    };
  }

  compare_differs :
      same_bytes stored payload ≡ false
      → compare_flash spi adr payload io ≡ some (differs_at (match_len stored payload))
  unfolding compare_flash
  compare_differs e =
      rw
        (
          nor.read_lem io.flash adr (length payload) v.region,
          le→ltb io.ldr.max_bytes (length payload) v.fits,
          le→ltb (length io.ram) (length payload) (omega (arith, v.fits, v.room)),
          taken,
          e,
        )
        refl

  rejects :
      same_bytes stored payload ≡ false
      → tftp_write spi (packet payload) io ≡ some (fail, differs_at (match_len stored payload))
  unfolding tftp_write write_loop
  rejects e = rw (adr_lem, lt→ltb 0 (length payload) v.pos, block ∙ compare_differs e) refl

  -- A packet of a `verify` transfer is accepted exactly if the flash holds its bytes at the transfer's
  -- position, and the count then moves past it.
  pub tftp_write_compare-good :
      (tftp_write spi (packet payload) io ≡ some (good, advance (length payload) loaded))
      ↔ (stored ≡ payload)
  tftp_write_compare-good = (back, accepts)
    where
      back :
          tftp_write spi (packet payload) io ≡ some (good, advance (length payload) loaded)
          → stored ≡ payload
      back h = elim (Bool-cases (same_bytes stored payload)) [
        | inl e ↦ same_bytes-eq stored payload e
        | inr e ↦ cc (rejects e)
      ]

  -- A packet that differs from the flash stops the transfer with TFTP_ERR_COMPARE_FAIL, and the count
  -- stands at the first byte that differs: the bytes before it are equal.
  pub tftp_write_compare-fail :
      stored ≢ payload
      → (k : ℕ) × (k < length payload)
        × (take k stored ≡ take k payload)
        × (get_or stored k 0 ≢ get_or payload k 0)
        × (tftp_write spi (packet payload) io ≡ some (fail, differs_at k))
  tftp_write_compare-fail ne = elim (Bool-cases (same_bytes stored payload)) [
    | inl e ↦ absurd (ne (same_bytes-eq stored payload e))
    | inr e ↦
        let m = match_len_lem stored payload (length-bytes _ _ _) e in
        (
          match_len stored payload,
          omega (arith, m.0, length-bytes (spi.peek io.flash) adr (length payload)),
          m.2,
          m.1,
          rejects e,
        )
  ]
