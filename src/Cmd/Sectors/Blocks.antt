-- ===== src/Cmd/Sectors/Blocks.antt =====
-- The `dump` command: which bytes it shows.
use panog2_ldr.Base.{
  ℕ, zero, suc, ◌+◌, ◌*◌, ◌^◌, ◌≤◌, ◌<◌, ◌≡◌, refl, sym, ap, ◌∙◌, arith, true, List, [], bytes,
  bytes-add, length-bytes, returns, ◌>>=◌, Outcome, u32, ltb, if◌then◌else◌, put_at, le→ltb, lt→ltb,
}
use native.Mathlib.Decide.{dec_lt}
use panog2_ldr.Spi.{FlashInfo, Spi, IsNor}
use panog2_ldr.Console.{Console, Dump, dump_bytes, dump_end, net_dump_hex}
use panog2_ldr.Console.Rows.{
  rows, puts_all, Stays, dump_bytes-append, dump_bytes-rows, dump_bytes-connected, dump_bytes-nil,
  net_dump_hex-bytes, net_dump_hex-end,
}
use panog2_ldr.Board.{temp_size}
use panog2_ldr.Cmd.{result_ok, Sys, Parser, get_adr_and_len}
use panog2_ldr.Cmd.Sectors.{dump_hex, dump_loop, dump_cmd}

-- The bytes that one turn of the dump reads.
abbrev pub block_size : ℕ → ℕ
block_size len = if ltb temp_size len then temp_size else len

module _ (spi : Spi) (con : Console) (parser : Parser) (chip : FlashInfo) (nor : IsNor spi chip)
    (small : chip.flash_size < 2 ^ 31) (stays : Stays con) where
  -- The dump of `n` bytes of the flash from `adr` on.
  abbrev shown : ℕ → ℕ → Sys spi.Flash con.Net → Dump con.Net
  shown adr n s =
      dump_bytes con true adr (bytes (spi.peek s.flash) adr n)
        (record { bytes_on_line = s.bytes_on_line; net = s.net })

  abbrev Shows : ℕ → ℕ → Sys spi.Flash con.Net → Outcome (Sys spi.Flash con.Net) → Type 0
  Shows adr n s o =
      (t : List ℕ) × (o
        ≡ returns (record s {
          temp = t;
          bytes_on_line = (shown adr n s).bytes_on_line;
          net = (shown adr n s).net;
        }))

  dump_hex-shows :
      (adr n : ℕ) (t : List ℕ) (s : Sys spi.Flash con.Net)
      → 0 < n
      → adr + n ≤ chip.flash_size
      → dump_hex spi con parser (spi.read s.flash adr n) adr (record s { temp = t }) ≡ record s {
        temp = t;
        bytes_on_line = (shown adr n s).bytes_on_line;
        net = (shown adr n s).net;
      }
  unfolding dump_hex
  dump_hex-shows adr n t s pos fits =
      ap (λ (d : Dump con.Net). record s { temp = t; bytes_on_line = d.bytes_on_line; net = d.net })
        (ap
            (λ bs.
              net_dump_hex con bs true adr
                (record { bytes_on_line = s.bytes_on_line; net = s.net }))
            (nor.read_lem s.flash adr n fits)
          ∙ net_dump_hex-bytes con (bytes (spi.peek s.flash) adr n) adr _
              (omega (arith, length-bytes (spi.peek s.flash) adr n)))

  -- Two dumps, one behind the other.
  joined :
      (n k total adr : ℕ) (t : List ℕ) (s : Sys spi.Flash con.Net)
      → n + k ≡ total
      → adr + n < 2 ^ 32
      → shown (adr + n) k (record s {
        temp = t;
        bytes_on_line = (shown adr n s).bytes_on_line;
        net = (shown adr n s).net;
      })
        ≡ shown adr total s
  joined n k total adr t s e word =
      let d : Dump con.Net = record { bytes_on_line = s.bytes_on_line; net = s.net } in
      sym (
        ap (λ bs. dump_bytes con true adr bs d)
          (bytes-add (spi.peek s.flash) adr (adr + n) total n refl k e)
        ∙ dump_bytes-append con (bytes (spi.peek s.flash) adr n)
            (bytes (spi.peek s.flash) (adr + n) k) adr (adr + n) d
            (omega (arith, length-bytes (spi.peek s.flash) adr n)) word)

  -- The globals behind one turn.
  abbrev turned : ℕ → ℕ → Sys spi.Flash con.Net → Sys spi.Flash con.Net
  turned adr n s = record s {
    temp = put_at s.temp 0 (spi.read s.flash adr n);
    bytes_on_line = (shown adr n s).bytes_on_line;
    net = (shown adr n s).net;
  }

  dump_loop-turn :
      (fuel adr len done : ℕ) (s : Sys spi.Flash con.Net)
      → con.connected s.net ≡ true
      → 0 < block_size len
      → done < len
      → done + block_size len < 2 ^ 32
      → adr + block_size len ≤ chip.flash_size
      → dump_loop spi con parser (suc fuel) adr len done s
        ≡ dump_loop spi con parser fuel
            (adr + block_size len)
            len
            (done + block_size len)
            (turned adr (block_size len) s)
  unfolding dump_loop
  dump_loop-turn fuel adr len done s here pos more word fits =
      let n = block_size len in
      let next : u32 (done + n) ≡ done + n = omega (arith, word) in
      let at : u32 (adr + n) ≡ adr + n = omega (arith, fits, small) in
      rw (here, lt→ltb done len more, next, at)
        (ap (dump_loop spi con parser fuel (adr + n) len (done + n))
          (dump_hex-shows adr n (put_at s.temp 0 (spi.read s.flash adr n)) s pos fits))

  dump_loop_lem :
      (k fuel adr len done : ℕ) (s : Sys spi.Flash con.Net)
      → con.connected s.net ≡ true
      → 0 < block_size len
      → k < fuel
      → done + k * block_size len < 2 ^ 32
      → len ≤ done + k * block_size len
      → (0 < k → done + k * block_size len < len + block_size len)
      → adr + k * block_size len ≤ chip.flash_size
      → Shows adr (k * block_size len) s (dump_loop spi con parser fuel adr len done s)
  unfolding dump_loop
  dump_loop_lem zero zero adr len done s here pos h w a b fits = absurd (omega arith)
  dump_loop_lem (suc k) zero adr len done s here pos h w a b fits = absurd (omega arith)
  dump_loop_lem zero (suc fuel) adr len done s here pos h w a b fits =
      let nothing : 0 ≡ 0 * block_size len = omega arith in
      (
        s.temp,
        rw (here, le→ltb done len (omega arith)) refl
            ∙ ap
                (λ (d : Dump con.Net).
                  returns (record s { bytes_on_line = d.bytes_on_line; net = d.net }))
                (sym (dump_bytes-nil con adr _) ∙ ap (λ n. shown adr n s) nothing),
      )
  dump_loop_lem (suc k) (suc fuel) adr len done s here pos h w a b fits =
      let n = block_size len in
      let room = b (omega arith) in
      let (t, rest) =
        dump_loop_lem k fuel (adr + n) len (done + n) (turned adr n s)
          (dump_bytes-connected con stays (bytes (spi.peek s.flash) adr n) adr _ here) pos
          (omega arith) (omega (arith, w)) (omega (arith, a)) (λ _. omega (arith, room))
          (omega (arith, fits)) in
      (
        t,
        dump_loop-turn fuel adr len done s here pos (omega (arith, room)) (omega (arith, w))
              (omega (arith, fits))
            ∙ rest
            ∙ ap
                (λ (d : Dump con.Net).
                  returns (record s { temp = t; bytes_on_line = d.bytes_on_line; net = d.net }))
                (joined n (k * n) (suc k * n) adr (turned adr n s).temp s (omega arith)
                  (omega (arith, fits, small))),
      )

  block_size-le : (len : ℕ) → 0 < len → (0 < block_size len) × (block_size len ≤ len)
  block_size-le len pos = elim (dec_lt temp_size len) [
    | yes h ↦ rw (lt→ltb temp_size len h) (omega arith, omega arith)
    | no h ↦ rw (le→ltb temp_size len (omega arith)) (pos, omega arith)
  ]

-- `dump` with a length, of which `k` whole blocks are too few and `k + 1` enough, a block being 1024 bytes, or
-- the length where that is less: it shows all `k + 1` blocks, as one series of `m` rows of 16 bytes of
-- the flash from the address on. Each row starts with its address in 8 digits, has its bytes in two
-- digits, with a space between them, and ends with a newline; the last may be shorter. Then the output
-- is flushed, the count of the line is 0, and the answer is RESULT_OK. The line and the output were
-- complete before, the blocks are on the flash, and the connection is there and stays.
pub dump_cmd_lem :
    (spi : Spi) (con : Console) (parser : Parser) (chip : FlashInfo) (k m adr len : ℕ)
    (line rest : List ℕ) (s : Sys spi.Flash con.Net)
    → IsNor spi chip
    → chip.flash_size < 2 ^ 31
    → Stays con
    → con.connected s.net ≡ true
    → s.bytes_on_line ≡ 0
    → get_adr_and_len spi con parser line s
      ≡ record { result = result_ok; value = (adr, len); rest = rest; state = s }
    → 0 < len
    → k * block_size len < len
    → len ≤ suc k * block_size len
    → adr + suc k * block_size len ≤ chip.flash_size
    → suc k * block_size len ≤ 16 * m
    → 16 * m < suc k * block_size len + 16
    → (t : List ℕ) × (dump_cmd spi con parser line s
        ≡ returns (
          result_ok,
          record s {
            temp = t;
            bytes_on_line = 0;
            net = con.flush (
                puts_all con
                  (rows m adr (bytes (spi.peek s.flash) adr (suc k * block_size len)))
                  s.net);
          },
        ))
unfolding dump_cmd dump_hex
dump_cmd_lem spi con parser chip k m adr len line rest s nor small stays here clear parsed pos below
      enough fits above tight =
    let n = block_size len in
    let (some_n, _) = block_size-le spi con parser chip nor small stays len pos in
    let (t, ran) =
      dump_loop_lem spi con parser chip nor small stays (suc k) (len + 1) adr len 0 s here some_n
        (omega (arith, turns)) (omega (arith, fits, small)) (omega (arith, enough))
        (λ _. omega (arith, below)) fits in
    let size = length-bytes (spi.peek s.flash) adr (suc k * n) in
    let text =
      dump_bytes-rows con m adr (bytes (spi.peek s.flash) adr (suc k * n)) s.net
        (omega (arith, size, above)) (omega (arith, size, tight))
        (omega (arith, size, fits, small)) in
    (
      t,
      started
          ∙ ap (λ o. o >>= λ s'. returns (result_ok, dump_hex spi con parser [] 0 s')) ran
          ∙ ap
              (λ (d : Dump con.Net).
                returns
                  (result_ok, record s { temp = t; bytes_on_line = d.bytes_on_line; net = d.net }))
              (net_dump_hex-end con 0 _
                ∙ ap
                    (λ c. dump_end con (
                      dump_bytes con true adr (bytes (spi.peek s.flash) adr (suc k * n))
                        (record { bytes_on_line = c; net = s.net })))
                    clear
                ∙ text),
    )
  where
    started : dump_cmd spi con parser line s ≡ (
        dump_loop spi con parser (len + 1) adr len 0 s >>= λ s'.
        returns (result_ok, dump_hex spi con parser [] 0 s'))
    started = rw parsed refl

    turns : k * 1 ≤ k * block_size len
    turns =
        let positive = (block_size-le spi con parser chip nor small stays len pos).0 in grind arith
