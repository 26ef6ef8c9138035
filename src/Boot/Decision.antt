-- ===== src/Boot/Decision.antt =====
-- The boot decision, on the looks at the button that the loops take.
use panog2_ldr.Base.{
  ℕ, zero, suc, ◌≡◌, refl, ap, ◌∙◌, Bool, true, false, List, [], ◌∷◌, ◌++◌, ltb, if◌then◌else◌,
  returns, ◌>>=◌,
}
use panog2_ldr.Cmd.{Sys, auto_boot_delayed, re_boot}
use panog2_ldr.Boot.{Sample, button_pressed, auto_boot_delay, held_wait, press_wait, decide}

-- Every look finds the button pressed, or released.
pub data Look (pressed : Bool) : List Sample → Type 0 where
  none : Look pressed []
  one :
      (x : Sample) (xs : List Sample)
      → button_pressed x.input ≡ pressed
      → Look pressed xs
      → Look pressed (x ∷ xs)

-- The looks that come more than 10 seconds after the start.
unfoldable pub late_looks : List Sample → ℕ
late_looks [] = 0
late_looks (x ∷ xs) = if ltb 10000 x.now then suc (late_looks xs) else late_looks xs

-- What requests of a boot from `adr` write to the GPIO registers, the last write first: the address to
-- GPIO_BASE + BOOT_SPI_ADR, then a 1 and a 0 to GPIO_BASE + REBOOT_ADR.
unfoldable pub requests : ℕ → ℕ → List (ℕ × ℕ) → List (ℕ × ℕ)
requests zero adr gpio = gpio
requests (suc n) adr gpio =
    requests n adr ((0x9400_0030, 0) ∷ (0x9400_0030, 1) ∷ (0x9400_002c, adr) ∷ gpio)

held_wait-skips :
    (held rest : List Sample) (up : Sample)
    → Look true held
    → button_pressed up.input ≡ false
    → held_wait (held ++ up ∷ rest) ≡ returns rest
unfolding held_wait
held_wait-skips [] rest up none hu = rw hu refl
held_wait-skips (x ∷ xs) rest up (one _ _ h look) hu = rw h (held_wait-skips xs rest up look hu)

module _ {F N : Type 0} where
  press_wait-counts :
      (up rest : List Sample) (press : Sample) (s : Sys F N)
      → Look false up
      → button_pressed press.input ≡ true
      → press_wait (up ++ press ∷ rest) s
        ≡ returns (rest, record s { gpio = requests (late_looks up) s.auto_boot_adr s.gpio })
  unfolding press_wait late_looks requests re_boot
  press_wait-counts [] rest press s none hp = rw hp refl
  press_wait-counts (x ∷ xs) rest press s (one _ _ h look) hp =
      rw h
        (elim (ltb auto_boot_delay x.now)
          as (λ b.
            press_wait (xs ++ press ∷ rest) (if b then re_boot s.auto_boot_adr s else s)
            ≡ returns (
              rest,
              record s {
                gpio =
                    requests (if b then suc (late_looks xs) else late_looks xs) s.auto_boot_adr
                      s.gpio;
              },
            )) [
              | true ↦ press_wait-counts xs rest press (re_boot s.auto_boot_adr s) look hp
              | false ↦ press_wait-counts xs rest press s look hp
            ])

  decide-waits :
      (samples : List Sample) (s : Sys F N)
      → s.auto_boot ≡ auto_boot_delayed
      → decide samples s ≡ (held_wait samples >>= λ xs. press_wait xs s)
  unfolding decide
  decide-waits samples s mode = simp mode refl

  -- In the delayed mode, looks at a held button are skipped; then each look at a released button that
  -- comes more than 10 seconds after the start requests a boot from the auto boot address, and no other
  -- does; the first look at a pressed button ends the wait, and nothing but the three register writes of
  -- each request has changed.
  pub decide-delayed :
      (held up rest : List Sample) (release press : Sample) (s : Sys F N)
      → s.auto_boot ≡ auto_boot_delayed
      → Look true held
      → button_pressed release.input ≡ false
      → Look false up
      → button_pressed press.input ≡ true
      → decide (held ++ release ∷ (up ++ press ∷ rest)) s
        ≡ returns (rest, record s { gpio = requests (late_looks up) s.auto_boot_adr s.gpio })
  decide-delayed held up rest release press s mode look hr look' hp =
      decide-waits (held ++ release ∷ (up ++ press ∷ rest)) s mode
      ∙ ap (λ o. o >>= λ xs. press_wait xs s)
          (held_wait-skips held (up ++ press ∷ rest) release look hr)
      ∙ press_wait-counts up rest press s look' hp
