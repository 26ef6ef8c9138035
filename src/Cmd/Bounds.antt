-- ===== src/Cmd/Bounds.antt =====
-- `GetAdrAndLen`: the ranges that it lets through.
use panog2_ldr.Base.{
  ℕ, ◌+◌, ◌-◌, ◌^◌, ◌≤◌, ◌<◌, ◌≡◌, ◌⊎◌, inl, inr, ap, ◌∙◌, if◌then◌else◌, arith, List, Option, none,
  some, min,
}
use native.Mathlib.Decide.{dec_lt}
use panog2_ldr.Spi.{FlashInfo, Spi}
use panog2_ldr.Console.{Console}
use panog2_ldr.Cmd.{
  result_ok, Sys, Parser, is_ok, Parsing, get_adr, get_len, cut_len, get_adr_and_len,
}

module _ (spi : Spi) (con : Console) (parser : Parser) (chip : FlashInfo) where
  pub get_adr-ok :
      (line rest : List ℕ) (adr old : ℕ) (s : Sys spi.Flash con.Net)
      → spi.info ≡ some chip
      → parser.convert_value line ≡ some (adr, rest)
      → adr ≤ chip.flash_size
      → get_adr spi con parser old line s
        ≡ record { result = result_ok; value = adr; rest = rest; state = s }
  unfolding get_adr
  get_adr-ok line rest adr old s has conv fits = ground arith

  get_len_ok :
      (line rest : List ℕ) (adr len : ℕ) (s : Sys spi.Flash con.Net)
      → parser.convert_value line ≡ some (len, rest)
      → ((get_len spi con parser chip adr line s).result ≡ result_ok)
        × ((get_len spi con parser chip adr line s).value
            ≡ (adr, cut_len spi con parser chip adr len))
  unfolding get_len
  get_len_ok line rest adr len s conv = (ground arith, ground arith)

  cut_small :
      (adr len : ℕ)
      → adr ≤ chip.flash_size
      → chip.flash_size < 2 ^ 31
      → adr + len < 2 ^ 32
      → cut_len spi con parser chip adr len ≡ min len (chip.flash_size - adr)
  cut_small adr len fits small h = ground arith

  cut_wraps :
      (adr len : ℕ)
      → adr ≤ chip.flash_size
      → chip.flash_size < 2 ^ 31
      → len < 2 ^ 32
      → 2 ^ 32 ≤ adr + len
      → cut_len spi con parser chip adr len ≡ len
  cut_wraps adr len fits small word h = ground arith

  -- A successful parse of an address gives one that is not past the end of the flash.
  pub get_adr-le_size :
      (line : List ℕ) (old : ℕ) (s : Sys spi.Flash con.Net)
      → spi.info ≡ some chip
      → (get_adr spi con parser old line s).result ≡ result_ok
      → (get_adr spi con parser old line s).value ≤ chip.flash_size
  unfolding get_adr
  get_adr-le_size line old s has h = ground arith

  entered :
      (line rest rest' : List ℕ) (adr len : ℕ) (s : Sys spi.Flash con.Net)
      → spi.info ≡ some chip
      → parser.convert_value line ≡ some (adr, rest)
      → parser.convert_value rest ≡ some (len, rest')
      → adr ≤ chip.flash_size
      → ((get_adr_and_len spi con parser line s).result ≡ result_ok)
        × ((get_adr_and_len spi con parser line s).value
            ≡ (adr, cut_len spi con parser chip adr len))
  unfolding get_adr_and_len
  entered line rest rest' adr len s has conv conv' fits =
      let r = get_len_ok rest rest' adr len s conv' in
      (
        ap (λ (a : Parsing spi con parser (ℕ × ℕ)). a.result) enters ∙ r.0,
        ap (λ (a : Parsing spi con parser (ℕ × ℕ)). a.value) enters ∙ r.1,
      )
    where
      after : Option FlashInfo → Parsing spi con parser ℕ → Parsing spi con parser (ℕ × ℕ)
      after o a = elim o [
        | none ↦ record { result = a.result; value = (a.value, 0); rest = a.rest; state = a.state }
        | some c ↦
            if is_ok a.result
            then get_len spi con parser c a.value a.rest a.state
            else record { result = a.result; value = (a.value, 0); rest = a.rest; state = a.state }
      ]

      enters : get_adr_and_len spi con parser line s ≡ get_len spi con parser chip adr rest s
      enters =
          ap (λ o. after o (get_adr spi con parser 0 line s)) has
          ∙ ap (after (some chip)) (get_adr-ok line rest adr 0 s has conv fits)

  -- An address on the flash and a length whose sum fits 32 bits: the length is cut to what lies behind
  -- the address, so that the range ends within the flash.
  get_adr_and_len-cuts :
      (line rest rest' : List ℕ) (adr len : ℕ) (s : Sys spi.Flash con.Net)
      → spi.info ≡ some chip
      → parser.convert_value line ≡ some (adr, rest)
      → parser.convert_value rest ≡ some (len, rest')
      → adr ≤ chip.flash_size
      → chip.flash_size < 2 ^ 31
      → adr + len < 2 ^ 32
      → ((get_adr_and_len spi con parser line s).result ≡ result_ok)
        × ((get_adr_and_len spi con parser line s).value ≡ (adr, min len (chip.flash_size - adr)))
        × (adr + min len (chip.flash_size - adr) ≤ chip.flash_size)
  get_adr_and_len-cuts line rest rest' adr len s has conv conv' fits small sum =
      let e = entered line rest rest' adr len s has conv conv' fits in
      (e.0, e.1 ∙ ap (λ n. (adr, n)) (cut_small adr len fits small sum), omega arith)

  -- Where the sum passes 2 ^ 32, the length is let through as it is.
  get_adr_and_len-wraps :
      (line rest rest' : List ℕ) (adr len : ℕ) (s : Sys spi.Flash con.Net)
      → spi.info ≡ some chip
      → parser.convert_value line ≡ some (adr, rest)
      → parser.convert_value rest ≡ some (len, rest')
      → adr ≤ chip.flash_size
      → chip.flash_size < 2 ^ 31
      → len < 2 ^ 32
      → 2 ^ 32 ≤ adr + len
      → ((get_adr_and_len spi con parser line s).result ≡ result_ok)
        × ((get_adr_and_len spi con parser line s).value ≡ (adr, len))
        × (chip.flash_size < adr + len)
  get_adr_and_len-wraps line rest rest' adr len s has conv conv' fits small word sum =
      let e = entered line rest rest' adr len s has conv conv' fits in
      (e.0, e.1 ∙ ap (λ n. (adr, n)) (cut_wraps adr len fits small word sum), omega arith)

  -- An address on the flash and a length are let through, in one of two ways. Where their sum fits 32 bits
  -- the length is cut to what lies behind the address, so that the range ends within the flash; where the
  -- sum passes 2 ^ 32, the length stays as it is, and the range ends behind the flash.
  pub get_adr_and_len_lem :
      (line rest rest' : List ℕ) (adr len : ℕ) (s : Sys spi.Flash con.Net)
      → spi.info ≡ some chip
      → parser.convert_value line ≡ some (adr, rest)
      → parser.convert_value rest ≡ some (len, rest')
      → adr ≤ chip.flash_size
      → chip.flash_size < 2 ^ 31
      → len < 2 ^ 32
      → let a = get_adr_and_len spi con parser line s in
        (a.result ≡ result_ok)
        × ((adr + len < 2 ^ 32)
              × (a.value ≡ (adr, min len (chip.flash_size - adr)))
              × (adr + min len (chip.flash_size - adr) ≤ chip.flash_size)
            ⊎ (2 ^ 32 ≤ adr + len) × (a.value ≡ (adr, len)) × (chip.flash_size < adr + len))
  get_adr_and_len_lem line rest rest' adr len s has conv conv' fits small word =
      elim (dec_lt (adr + len) (2 ^ 32)) [
        | yes h ↦
            let (ok, cut, inside) =
              get_adr_and_len-cuts line rest rest' adr len s has conv conv' fits small h in
            (ok, inl (h, cut, inside))
        | no h ↦
            let (ok, kept, past) =
              get_adr_and_len-wraps line rest rest' adr len s has conv conv' fits small word
                (omega arith) in
            (ok, inr (omega arith, kept, past))
      ]
