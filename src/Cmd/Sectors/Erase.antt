-- ===== src/Cmd/Sectors/Erase.antt =====
-- The `erase` command on whole sectors.
use panog2_ldr.Base.{
  ℕ, zero, suc, ◌+◌, ◌-◌, ◌*◌, ◌/◌, ◌%◌, ◌^◌, ◌≤◌, ◌<◌, ◌≡◌, ◌⊎◌, inl, inr, refl, ap, ◌∙◌, arith,
  returns, fault, Outcome, List, Option, some, none, not, if◌then◌else◌, ◌>>=◌, u32, lt→ltb, eq→==,
}
use native.Mathlib.Decide.{dec_lt}
use native.Mathlib.Nat.{mul-mod_left}
use panog2_ldr.Spi.{FlashInfo, Spi, IsNor}
use panog2_ldr.Tftp.Flash.{IsChip}
use panog2_ldr.Tftp.Sector.{aligned_next}
use panog2_ldr.Console.{Console, dot, erased}
use panog2_ldr.Cmd.{Sys, Parser, Parsing, Result, result_ok, is_ok, get_adr}
use panog2_ldr.Cmd.Bounds.{get_adr-ok}
use panog2_ldr.Cmd.Sectors.{erase_loop, erase_range, erase_cmd}

module _ (spi : Spi) (con : Console) (parser : Parser) (chip : FlashInfo) (nor : IsNor spi chip)
    (geo : IsChip chip) where
  -- `f'` is `f` with the bytes from `a` up to `b` erased.
  pub record IsErased (a b : ℕ) (f f' : spi.Flash) : Type 0 where
    pub inside : (x : ℕ) → a ≤ x → x < b → spi.peek f' x ≡ 255
    pub outside : (x : ℕ) → (x < a) ⊎ (b ≤ x) → spi.peek f' x ≡ spi.peek f x

  erase_loop-stop :
      (fuel adr end : ℕ) (s : Sys spi.Flash con.Net)
      → end ≤ adr
      → erase_loop spi con parser (suc fuel) chip.erase_size adr end s ≡ returns s
  unfolding erase_loop
  erase_loop-stop fuel adr end s h = ground arith

  erase_loop-step :
      (fuel adr end : ℕ) (s : Sys spi.Flash con.Net)
      → adr < end
      → adr + chip.erase_size < 2 ^ 32
      → erase_loop spi con parser (suc fuel) chip.erase_size adr end s
        ≡ erase_loop spi con parser fuel chip.erase_size
            (adr + chip.erase_size)
            end
            (record s { flash = spi.erase s.flash adr chip.erase_size; net = con.print dot s.net })
  unfolding erase_loop
  erase_loop-step fuel adr end s h small =
      let e : u32 (adr + chip.erase_size) ≡ adr + chip.erase_size = omega arith in
      rw (lt→ltb adr end h, e) refl

  erase_loop_lem :
      (k fuel adr end : ℕ) (s : Sys spi.Flash con.Net)
      → adr % chip.erase_size ≡ 0
      → adr + k * chip.erase_size ≡ end
      → end ≤ chip.flash_size
      → 2 ≤ chip.erase_size
      → k < fuel
      → (s' : Sys spi.Flash con.Net) × (erase_loop spi con parser fuel chip.erase_size adr
            (end - 1)
            s
          ≡ returns s')
        × IsErased adr end s.flash s'.flash
  erase_loop_lem zero zero adr end s al e fits two h = absurd (omega arith)
  erase_loop_lem (suc k) zero adr end s al e fits two h = absurd (omega arith)
  erase_loop_lem zero (suc fuel) adr end s al e fits two h = (
    s,
    erase_loop-stop fuel adr (end - 1) s (omega arith),
    record { inside = λ x p q. absurd (omega arith); outside = λ x p. refl },
  )
  erase_loop_lem (suc k) (suc fuel) adr end s al e fits two h =
      let s1 = record s {
        flash = spi.erase s.flash adr chip.erase_size;
        net = con.print dot s.net;
      } in
      let (s', run, er) =
        erase_loop_lem k fuel (adr + chip.erase_size) end s1 (aligned_next chip.erase_size adr al)
          (omega arith) fits two (omega arith) in
      let room : adr + chip.erase_size ≤ chip.flash_size = omega arith in
      (
        s',
        erase_loop-step fuel adr (end - 1) s (omega arith) (omega (arith, geo.small)) ∙ run,
        record {
          inside = λ x p q. elim (dec_lt x (adr + chip.erase_size)) [
            | yes b ↦ er.outside x (inl b) ∙ nor.erase_in s.flash adr x al room p b
            | no b ↦ er.inside x (omega arith) q
          ];
          outside =
              λ x p. er.outside x (beyond x p) ∙ nor.erase_out s.flash adr x al room (around x p);
        },
      )
    where
      beyond : (x : ℕ) → (x < adr) ⊎ (end ≤ x) → (x < adr + chip.erase_size) ⊎ (end ≤ x)
      beyond x (inl p) = inl (omega arith)
      beyond x (inr p) = inr p

      around : (x : ℕ) → (x < adr) ⊎ (end ≤ x) → (x < adr) ⊎ (adr + chip.erase_size ≤ x)
      around x (inl p) = inl p
      around x (inr p) = inr (omega arith)

-- `erase` of `k` whole sectors of the flash, from the first byte of one to the last byte of another: the
-- command ends with RESULT_OK, the range is erased, and no byte outside it has changed.
pub erase_range_lem :
    (spi : Spi) (con : Console) (parser : Parser) (chip : FlashInfo) (k adr end : ℕ)
    (s : Sys spi.Flash con.Net)
    → IsNor spi chip
    → IsChip chip
    → 2 ≤ chip.erase_size
    → adr % chip.erase_size ≡ 0
    → 0 < k
    → adr + k * chip.erase_size ≡ end
    → end ≤ chip.flash_size
    → (s' : Sys spi.Flash con.Net) × (erase_range spi con parser chip.erase_size adr (end - 1) s
        ≡ returns (result_ok, s'))
      × ((x : ℕ) → adr ≤ x → x < end → spi.peek s'.flash x ≡ 255)
      × ((x : ℕ) → (x < adr) ⊎ (end ≤ x) → spi.peek s'.flash x ≡ spi.peek s.flash x)
unfolding erase_range
erase_range_lem spi con parser chip k adr end s nor geo two al pos e fits =
    let (s', run, er) =
      erase_loop_lem spi con parser chip nor geo k (end - 1 + 1) adr end s al e fits two enough in
    (
      record s' { net = con.print (erased (u32 (end - 1 + 2 ^ 32 - adr + 1) / 1024)) s'.net },
      rw
          (
            eq→== (adr % chip.erase_size) 0 al,
            eq→== (u32 (end - 1 + 2 ^ 32 - adr + 1) % chip.erase_size) 0 whole,
          )
          (ap
            (λ r. r >>= λ (t : Sys spi.Flash con.Net). returns (
              result_ok,
              record t { net = con.print (erased (u32 (end - 1 + 2 ^ 32 - adr + 1) / 1024)) t.net },
            ))
            run),
      er.inside,
      er.outside,
    )
  where
    sectors : k * 2 ≤ k * chip.erase_size
    sectors = grind arith

    enough : k < end - 1 + 1
    enough = omega (arith, sectors)

    length_lem : u32 (end - 1 + 2 ^ 32 - adr + 1) ≡ k * chip.erase_size
    length_lem = omega (arith, geo.small, sectors)

    whole : u32 (end - 1 + 2 ^ 32 - adr + 1) % chip.erase_size ≡ 0
    whole = ap (λ t. t % chip.erase_size) length_lem ∙ mul-mod_left k chip.erase_size

-- `erase` with two addresses on the flash.
pub erase_cmd-range :
    (spi : Spi) (con : Console) (parser : Parser) (chip : FlashInfo) (line rest rest' : List ℕ)
    (adr last : ℕ) (s : Sys spi.Flash con.Net)
    → spi.info ≡ some chip
    → parser.convert_value line ≡ some (adr, rest)
    → parser.convert_value rest ≡ some (last, rest')
    → adr ≤ chip.flash_size
    → last ≤ chip.flash_size
    → erase_cmd spi con parser line s ≡ erase_range spi con parser chip.erase_size adr last s
unfolding erase_cmd
erase_cmd-range spi con parser chip line rest rest' adr last s has first second fits fits' =
    ap (λ o. after o (get_adr spi con parser 0 line s)) has
    ∙ ap (after (some chip)) (get_adr-ok spi con parser chip line rest adr 0 s has first fits)
    ∙ ap between (get_adr-ok spi con parser chip rest rest' last 0 s has second fits')
  where
    ends :
        Option FlashInfo
        → Parsing spi con parser ℕ
        → Parsing spi con parser ℕ
        → Outcome (Result × Sys spi.Flash con.Net)
    ends o a e = elim o [
      | none ↦ fault
      | some c ↦
          if not (is_ok a.result)
          then returns (a.result, a.state)
          else if not (is_ok e.result)
          then returns (e.result, e.state)
          else erase_range spi con parser c.erase_size a.value e.value e.state
    ]

    after : Option FlashInfo → Parsing spi con parser ℕ → Outcome (Result × Sys spi.Flash con.Net)
    after o a = ends o a (get_adr spi con parser 0 a.rest a.state)

    between : Parsing spi con parser ℕ → Outcome (Result × Sys spi.Flash con.Net)
    between e =
        ends (some chip) (record { result = result_ok; value = adr; rest = rest; state = s }) e
