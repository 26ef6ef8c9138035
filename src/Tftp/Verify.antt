-- ===== src/Tftp/Verify.antt =====
-- A whole `verify` transfer: what its state says of the packets that have come.
use panog2_ldr.Base.{
  ℕ, ◌+◌, ◌^◌, ◌≤◌, ◌<◌, ◌≡◌, ◌≢◌, ◌⊎◌, inl, inr, refl, sym, ap, ap₂, ◌∙◌, arith, List, [], ◌∷◌,
  ◌++◌, some, length, length-append, length-put_at, bytes, bytes-add, take-bytes, get_or,
  get_or-bytes, put_at, take, take-append_before, take-append_after, get_or-append_before,
  get_or-append_after, same_bytes, Bool-cases, same_bytes-eq, same_bytes_self,
}
use panog2_ldr.Spi.{FlashInfo, Spi, IsNor}
use panog2_ldr.Tftp.{
  Ldr, Io, good, fail, type_compare, in_progress, err_compare_fail, tftp_write, advance, Client,
  err_ok, ldr_tftp_init, reset,
}
use panog2_ldr.Tftp.Flash.{packet}
use panog2_ldr.Tftp.Start.{started, reset-no_message}
use panog2_ldr.Tftp.Compare.{IsComparing, accepts, tftp_write_compare-fail}

-- One packet of a transfer with a buffer of `room` bytes: a single buffer, not empty.
pub record IsBlock (room : ℕ) (payload : List ℕ) : Type 0 where
  pub pos : 0 < length payload
  pub word : length payload < 2 ^ 16
  pub fits : length payload ≤ room

abbrev pub AreBlocks : ℕ → List (List ℕ) → Type 0
AreBlocks room [] = Unit
AreBlocks room (p ∷ ps) = IsBlock room p × AreBlocks room ps

module _ (spi : Spi) (f0 : spi.Flash) (base room : ℕ) where
  -- A `verify` transfer from `base` on whose packets so far, with the bytes `seen`, were equal to the flash
  -- `f0`.
  pub record IsVerifying (seen : List ℕ) (io : Io spi.Flash) : Type 0 where
    pub kind : io.ldr.transfer_type ≡ type_compare
    pub running : io.ldr.error ≡ in_progress
    pub no_message : get_or io.ldr.err_msg 0 0 ≡ 0
    pub start : io.ldr.flash_adr ≡ base
    pub count : io.ldr.bytes_transfered ≡ length seen
    pub limit : io.ldr.max_bytes ≡ room
    pub buffer : room ≤ length io.ram
    pub unchanged : io.flash ≡ f0
    pub equal : bytes (spi.peek f0) base (length seen) ≡ seen

  -- A `verify` transfer that has stopped at the first byte of `sent` that differs from the flash.
  pub record HasStopped (sent : List ℕ) (io : Io spi.Flash) : Type 0 where
    pub ended : io.ldr.error ≡ err_compare_fail
    pub no_message : get_or io.ldr.err_msg 0 0 ≡ 0
    pub start : io.ldr.flash_adr ≡ base
    pub below : io.ldr.bytes_transfered < length sent
    pub unchanged : io.flash ≡ f0
    pub equal : bytes (spi.peek f0) base io.ldr.bytes_transfered ≡ take io.ldr.bytes_transfered sent
    pub differs :
        spi.peek f0 (base + io.ldr.bytes_transfered) ≢ get_or sent io.ldr.bytes_transfered 0

  -- What follows the byte that differs does not matter.
  pub HasStopped-append :
      (sent more : List ℕ) (io : Io spi.Flash) → HasStopped sent io → HasStopped (sent ++ more) io
  HasStopped-append sent more io h = record {
    ended = h.ended;
    no_message = h.no_message;
    start = h.start;
    below = omega (arith, h.below, length-append sent more);
    unchanged = h.unchanged;
    equal =
        h.equal
        ∙ sym (take-append_before sent more io.ldr.bytes_transfered (omega (arith, h.below)));
    differs = λ e. h.differs (e ∙ get_or-append_before sent more io.ldr.bytes_transfered 0 h.below);
  }

module _ (spi : Spi) (chip : FlashInfo) (nor : IsNor spi chip) (small : chip.flash_size < 2 ^ 31)
    (f0 : spi.Flash) (base room : ℕ) (seen payload : List ℕ) (io : Io spi.Flash)
    (v : IsVerifying spi f0 base room seen io) (b : IsBlock room payload)
    (inside : base + length seen + length payload ≤ chip.flash_size) where
  abbrev stored : List ℕ
  stored = bytes (spi.peek io.flash) (io.ldr.flash_adr + io.ldr.bytes_transfered) (length payload)

  at_lem : io.ldr.flash_adr + io.ldr.bytes_transfered ≡ base + length seen
  at_lem = omega (arith, v.start, v.count)

  stored_lem : stored ≡ bytes (spi.peek f0) (base + length seen) (length payload)
  stored_lem = ap₂ (λ f a. bytes (spi.peek f) a (length payload)) v.unchanged at_lem

  comparing : IsComparing chip io.ldr (length io.ram) payload
  comparing = record {
    kind = v.kind;
    running = v.running;
    pos = b.pos;
    word = b.word;
    fits = omega (arith, b.fits, v.limit);
    room = omega (arith, v.limit, v.buffer);
    region = omega (arith, at_lem);
    small = small;
  }

  -- The bytes of the flash behind those that were equal.
  behind :
      (k : ℕ)
      → bytes (spi.peek f0) base (length seen + k)
        ≡ seen ++ bytes (spi.peek f0) (base + length seen) k
  behind k =
      bytes-add (spi.peek f0) base (base + length seen) (length seen + k) (length seen) refl k refl
      ∙ ap (λ t. t ++ bytes (spi.peek f0) (base + length seen) k) v.equal

  goes_on :
      stored ≡ payload
      → IsVerifying spi f0 base room
          (seen ++ payload)
          (advance (length payload) (record io { ram = put_at io.ram 0 stored }))
  goes_on e = record {
    kind = v.kind;
    running = v.running;
    no_message = v.no_message;
    start = v.start;
    count = omega (arith, v.count, length-append seen payload);
    limit = v.limit;
    buffer = omega (arith, v.buffer, length-put_at io.ram 0 stored);
    unchanged = v.unchanged;
    equal =
        ap (bytes (spi.peek f0) base) (length-append seen payload)
        ∙ behind (length payload)
        ∙ ap (λ t. seen ++ t) (sym stored_lem ∙ e);
  }

  stops :
      (k : ℕ)
      → k < length payload
      → take k stored ≡ take k payload
      → get_or stored k 0 ≢ get_or payload k 0
      → HasStopped spi f0 base room (seen ++ payload) (record io {
        ram = put_at io.ram 0 stored;
        ldr = record io.ldr {
          bytes_transfered = io.ldr.bytes_transfered + k;
          error = err_compare_fail;
        };
      })
  stops k below same other = record {
    ended = refl;
    no_message = v.no_message;
    start = v.start;
    below = omega (arith, v.count, length-append seen payload);
    unchanged = v.unchanged;
    equal =
        ap (bytes (spi.peek f0) base) counted
        ∙ behind k
        ∙ ap (λ t. seen ++ t)
            (sym (take-bytes (spi.peek f0) (base + length seen) (length payload) k (omega arith))
              ∙ ap (take k) (sym stored_lem)
              ∙ same)
        ∙ sym (take-append_after seen payload k (io.ldr.bytes_transfered + k) (sym counted));
    differs = λ e. other (
        ap (λ t. get_or t k 0) stored_lem
        ∙ get_or-bytes (spi.peek f0) (base + length seen) (length payload) k below
        ∙ ap (spi.peek f0) (omega (arith, counted))
        ∙ e
        ∙ get_or-append_after seen payload k (io.ldr.bytes_transfered + k) 0 (sym counted));
  }
    where
      counted : io.ldr.bytes_transfered + k ≡ length seen + k
      counted = omega (arith, v.count)

  -- A packet goes on with the transfer, or stops it at the first byte that differs.
  pub tftp_write-verifies :
      ((io' : Io spi.Flash) × (tftp_write spi (packet payload) io ≡ some (good, io'))
        × IsVerifying spi f0 base room (seen ++ payload) io')
      ⊎ ((io' : Io spi.Flash) × (tftp_write spi (packet payload) io ≡ some (fail, io'))
          × HasStopped spi f0 base room (seen ++ payload) io')
  tftp_write-verifies = elim (Bool-cases (same_bytes stored payload)) [
    | inl e ↦
        let eq = same_bytes-eq stored payload e in
        inl (_, accepts spi chip nor payload io comparing eq, goes_on eq)
    | inr e ↦
        let (k, below, same, other, run) =
          tftp_write_compare-fail spi chip nor payload io comparing
            (λ eq. cc (sym (ap (λ t. same_bytes t payload) eq ∙ same_bytes_self payload) ∙ e)) in
        inr (_, run, stops k below same other)
  ]

-- `ldr_tftp_init` of a `verify` transfer, before the first packet.
pub ldr_tftp_init-IsVerifying :
    (spi : Spi) (room : ℕ) (client : Client) (p : Ldr) (io : Io spi.Flash)
    → ldr_tftp_init client (some p) ≡ (err_ok, some io.ldr)
    → p.transfer_type ≡ type_compare
    → p.max_bytes ≡ room
    → room ≤ length io.ram
    → IsVerifying spi io.flash p.flash_adr room [] io
ldr_tftp_init-IsVerifying spi room client p io init kind limit buffer = record {
  kind = ap (λ (l : Ldr). l.transfer_type) clean ∙ kind;
  running = ap (λ (l : Ldr). l.error) clean;
  no_message = ap (λ (l : Ldr). get_or l.err_msg 0 0) clean ∙ reset-no_message p;
  start = ap (λ (l : Ldr). l.flash_adr) clean;
  count = ap (λ (l : Ldr). l.bytes_transfered) clean;
  limit = ap (λ (l : Ldr). l.max_bytes) clean ∙ limit;
  buffer = buffer;
  unchanged = refl;
  equal = refl;
}
  where
    clean : io.ldr ≡ record (reset p) { error = in_progress }
    clean = started client p io.ldr init
