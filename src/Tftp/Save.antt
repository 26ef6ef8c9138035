-- ===== src/Tftp/Save.antt =====
-- `tftp_read`: what the TFTP client is given during a `save` transfer.
use panog2_ldr.Base.{
  ℕ, zero, suc, ◌+◌, ◌-◌, ◌*◌, ◌^◌, ◌≤◌, ◌<◌, ◌≡◌, sym, ap, ap₂, ◌∙◌, arith, List, [], ◌++◌, Option,
  none, some, min, bytes, bytes-add, u32,
}
use panog2_ldr.Spi.{FlashInfo, Spi, IsNor}
use panog2_ldr.Tftp.{Ldr, Io, type_save, tftp_read, read_by_type, send_size, advance}

-- The region of a `save` lies on the chip, and no more than the region has been sent.
pub record IsSaving (chip : FlashInfo) (p : Ldr) : Type 0 where
  pub kind : p.transfer_type ≡ type_save
  pub sent : p.bytes_transfered ≤ p.send_len
  pub region : p.flash_adr + p.send_len ≤ chip.flash_size
  pub small : chip.flash_size < 2 ^ 31

-- The client asks `k` times for `len` bytes; what it was given, joined.
pub read_times : (spi : Spi) → ℕ → ℕ → Io spi.Flash → List ℕ × Io spi.Flash
read_times spi zero len io = ([], io)
read_times spi (suc k) len io =
    let (got, io') = tftp_read spi len io in
    let (rest, io'') = read_times spi k len io' in
    elim got [ none ↦ ([], io') | some bs ↦ (bs ++ rest, io'') ]

abbrev at : {F : Type 0} → Io F → ℕ → Io F
at io b = record io { ldr = record io.ldr { bytes_transfered = b } }

read_times-suc :
    (spi : Spi) (k len : ℕ) (io : Io spi.Flash) {bs : List ℕ} (io' : Io spi.Flash)
    → tftp_read spi len io ≡ (some bs, io')
    → {rest : List ℕ} (io'' : Io spi.Flash) → read_times spi k len io' ≡ (rest, io'')
    → read_times spi (suc k) len io ≡ (bs ++ rest, io'')
unfolding read_times
read_times-suc spi k len io {bs} io' e io'' e' =
    ap after e ∙ ap (λ (t : List ℕ × Io spi.Flash). (bs ++ t.0, t.1)) e'
  where
    after : Option (List ℕ) × Io spi.Flash → List ℕ × Io spi.Flash
    after r = elim r.0 [
      | none ↦ ([], r.1)
      | some got ↦ (got ++ (read_times spi k len r.1).0, (read_times spi k len r.1).1)
    ]

module _ (spi : Spi) (chip : FlashInfo) (nor : IsNor spi chip) where
  send_size_lem :
      (len : ℕ) (p : Ldr)
      → IsSaving chip p
      → len < 2 ^ 16
      → send_size len p ≡ min len (p.send_len - p.bytes_transfered)
  send_size_lem len p v h = ground (arith, v.sent, v.region, v.small)

  pub read_one :
      (len : ℕ) (io : Io spi.Flash)
      → IsSaving chip io.ldr
      → len < 2 ^ 16
      → let n = min len (io.ldr.send_len - io.ldr.bytes_transfered) in
        tftp_read spi len io ≡ (
          some (bytes (spi.peek io.flash) (io.ldr.flash_adr + io.ldr.bytes_transfered) n),
          advance n io,
        )
  unfolding tftp_read read_by_type
  read_one len io v h = by_kind ∙ ap₂ pair shown size
    where
      n : ℕ
      n = min len (io.ldr.send_len - io.ldr.bytes_transfered)

      pair : List ℕ → ℕ → Option (List ℕ) × Io spi.Flash
      pair bs k = (some bs, advance k io)

      size : send_size len io.ldr ≡ n
      size = send_size_lem len io.ldr v h

      by_kind :
          tftp_read spi len io
          ≡ pair
              (spi.read io.flash
                (u32 (io.ldr.flash_adr + io.ldr.bytes_transfered))
                (send_size len io.ldr))
              (send_size len io.ldr)
      by_kind = ap (λ t. read_by_type spi t len io) v.kind

      shown :
          spi.read io.flash
            (u32 (io.ldr.flash_adr + io.ldr.bytes_transfered))
            (send_size len io.ldr)
          ≡ bytes (spi.peek io.flash) (io.ldr.flash_adr + io.ldr.bytes_transfered) n
      shown =
          ap₂ (spi.read io.flash) (omega (arith, v.sent, v.region, v.small)) size
          ∙ nor.read_lem io.flash (io.ldr.flash_adr + io.ldr.bytes_transfered) n
              (omega (arith, v.sent, v.region))

  -- A client that asks `k` times for `len` bytes is given the next bytes of the region, in order,
  -- `k * len` of them or what is left: never a byte from outside it. The flash stays as it is.
  pub read_times_lem :
      (k len : ℕ) (io : Io spi.Flash)
      → IsSaving chip io.ldr
      → len < 2 ^ 16
      → let n = min (k * len) (io.ldr.send_len - io.ldr.bytes_transfered) in
        read_times spi k len io
        ≡ (bytes (spi.peek io.flash) (io.ldr.flash_adr + io.ldr.bytes_transfered) n, advance n io)
  unfolding read_times
  read_times_lem zero len io v h =
      ap₂ (λ bs b. (bs, at io b)) (ap (bytes (spi.peek io.flash) _) none_left) (omega arith)
    where
      none_left : 0 ≡ min (0 * len) (io.ldr.send_len - io.ldr.bytes_transfered)
      none_left = omega arith
  read_times_lem (suc k) len io v h =
      read_times-suc spi k len io _ (read_one len io v h) _
        (read_times_lem k len (advance n io) later h)
      ∙ ap₂ (λ bs b. (bs, at io b)) (sym (bytes-add _ _ _ _ n (omega arith) n' (omega arith)))
          (omega arith)
    where
      n : ℕ
      n = min len (io.ldr.send_len - io.ldr.bytes_transfered)

      n' : ℕ
      n' = min (k * len) (io.ldr.send_len - (io.ldr.bytes_transfered + n))

      later : IsSaving chip (advance n io).ldr
      later = record {
        kind = v.kind;
        sent = omega (arith, v.sent);
        region = v.region;
        small = v.small;
      }
