-- ===== src/Board/Empty.antt =====
-- `CheckEmpty` with a page of ones behind the first page of `gTemp`.
use panog2_ldr.Base.{
  ℕ, zero, suc, ◌+◌, ◌*◌, ◌/◌, ◌^◌, ◌≤◌, ◌<◌, ◌≡◌, refl, sym, subst, ap, ap₂, ◌∙◌, arith, Bool,
  true, false, ◌&&◌, List, take, drop, length, replicate, put_at, length-put_at, length-replicate,
  take-put_at, drop-put_at, bytes, bytes-add, length-bytes, same_bytes, same_bytes_ones, all_ones,
  all_ones-append, if◌then◌else◌, Bool-cases, inl, inr, u32, returns,
}
use panog2_ldr.Spi.{FlashInfo, Spi, IsNor}
use panog2_ldr.Board.{temp_size, check_empty_loop, check_empty}

-- `gTemp` with ones in its second page.
pub record HasOnes (page : ℕ) (temp : List ℕ) : Type 0 where
  pub size : length temp ≡ temp_size
  pub ones : take page (drop page temp) ≡ replicate page 255

module _ (spi : Spi) (chip : FlashInfo) (nor : IsNor spi chip) (page : ℕ)
    (fits : 2 * page ≤ temp_size) (small : chip.flash_size < 2 ^ 31) (f : spi.Flash) where
  -- `gTemp` with a page of the flash in its first page.
  abbrev with_page : ℕ → List ℕ → List ℕ
  with_page adr temp = put_at (put_at temp 0 (replicate page 0xaa)) 0 (spi.read f adr page)

  module _ (adr : ℕ) (temp : List ℕ) (inside : adr + page ≤ chip.flash_size)
      (h : HasOnes page temp) where
    read_page : spi.read f adr page ≡ bytes (spi.peek f) adr page
    read_page = nor.read_lem f adr page inside

    read_size : length (spi.read f adr page) ≡ page
    read_size = ap length read_page ∙ length-bytes _ adr page

    with_page-HasOnes : HasOnes page (with_page adr temp)
    with_page-HasOnes = record {
      size =
          length-put_at (put_at temp 0 (replicate page 0xaa)) 0 (spi.read f adr page)
          ∙ length-put_at temp 0 (replicate page 0xaa)
          ∙ h.size;
      ones =
          ap (take page) (
            drop-put_at (put_at temp 0 (replicate page 0xaa)) (spi.read f adr page) page read_size
            ∙ drop-put_at temp (replicate page 0xaa) page (length-replicate page 0xaa))
          ∙ h.ones;
    }

    with_page_same :
        same_bytes (take page (with_page adr temp)) (take page (drop page (with_page adr temp)))
        ≡ all_ones (bytes (spi.peek f) adr page)
    with_page_same =
        ap₂ same_bytes
          (take-put_at (put_at temp 0 (replicate page 0xaa)) (spi.read f adr page) page read_size
              (omega (arith, length-put_at temp 0 (replicate page 0xaa), h.size))
            ∙ read_page)
          (with_page-HasOnes.ones
            ∙ ap (λ n. replicate n 255) (sym (length-bytes (spi.peek f) adr page)))
        ∙ same_bytes_ones (bytes (spi.peek f) adr page)

    -- One turn of the loop, by whether the page is erased.
    check_empty_loop-turn :
        (rounds : ℕ) (b : Bool)
        → all_ones (bytes (spi.peek f) adr page) ≡ b
        → check_empty_loop spi (suc rounds) adr page temp f ≡ (
            if b
            then check_empty_loop spi rounds (adr + page) page (with_page adr temp) f
            else (false, with_page adr temp))
    unfolding check_empty_loop
    check_empty_loop-turn rounds b e =
        let next : u32 (adr + page) ≡ adr + page = omega arith in
        ap₂
          (λ c a.
            if c
            then check_empty_loop spi rounds a page (with_page adr temp) f
            else (false, with_page adr temp))
          (with_page_same ∙ e) next

  -- The verdict on `n` bytes, and the page of ones is still there.
  abbrev pub Judges : ℕ → ℕ → Bool × List ℕ → Type 0
  Judges adr n r = (r.0 ≡ all_ones (bytes (spi.peek f) adr n)) × HasOnes page r.1

  pub check_empty_loop_lem :
      (rounds adr n : ℕ) (temp : List ℕ)
      → n ≡ rounds * page
      → adr + n ≤ chip.flash_size
      → HasOnes page temp
      → Judges adr n (check_empty_loop spi rounds adr page temp f)
  unfolding check_empty_loop all_ones
  check_empty_loop_lem zero adr n temp e inside h =
      (ap (λ k. all_ones (bytes (spi.peek f) adr k)) {x = 0} (omega arith), h)
  check_empty_loop_lem (suc rounds) adr n temp e inside h =
      let k = rounds * page in
      let parts : all_ones (bytes (spi.peek f) adr n)
          ≡ all_ones (bytes (spi.peek f) adr page) && all_ones (bytes (spi.peek f) (adr + page) k) =
        ap all_ones (bytes-add (spi.peek f) adr (adr + page) n page refl k (omega arith))
        ∙ all_ones-append (bytes (spi.peek f) adr page) _ in
      elim (Bool-cases (all_ones (bytes (spi.peek f) adr page))) [
        | inl clean ↦
            let rest =
              check_empty_loop_lem rounds (adr + page) k (with_page adr temp) refl (omega arith)
                (with_page-HasOnes adr temp (omega arith) h) in
            subst (Judges adr n)
              (sym (check_empty_loop-turn adr temp (omega arith) h rounds true clean))
              (
                rest.0
                    ∙ sym
                        (parts ∙ ap (λ c. c && all_ones (bytes (spi.peek f) (adr + page) k)) clean),
                rest.1,
              )
        | inr used ↦
            subst (Judges adr n)
              (sym (check_empty_loop-turn adr temp (omega arith) h rounds false used))
              (
                sym (parts ∙ ap (λ c. c && all_ones (bytes (spi.peek f) (adr + page) k)) used),
                with_page-HasOnes adr temp (omega arith) h,
              )
      ]

pub check_empty-loop :
    (spi : Spi) (adr page size : ℕ) (temp : List ℕ) (f : spi.Flash)
    → 2 * page ≤ temp_size
    → check_empty spi adr page size temp f
      ≡ returns (check_empty_loop spi (size / page) adr page temp f)
unfolding check_empty
check_empty-loop spi adr page size temp f h = ground arith
