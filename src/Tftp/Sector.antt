-- ===== src/Tftp/Sector.antt =====
-- Erase sectors: `adr - adr % erase_size` for a size that is a parameter of the chip.
use native.Mathlib.Nat.{
  mod-add-mod, mod-eq_of_lt, zero-add, div-add-mod', mul-mod_left, mod-lt, mod-eq-sub-mod,
}
use native.Mathlib.Decide.{dec_lt}
use panog2_ldr.Base.{ℕ, ◌+◌, ◌-◌, ◌/◌, ◌%◌, ◌≤◌, ◌<◌, ◌≡◌, ap, sym, ◌∙◌, arith}
use panog2_ldr.Tftp.{sector_of}

module _ (e s : ℕ) (aligned : s % e ≡ 0) where
  mod-add_aligned : (r : ℕ) → r < e → (s + r) % e ≡ r
  mod-add_aligned r h =
      sym (mod-add-mod s e r)
      ∙ ap (λ t. (t + r) % e) aligned
      ∙ ap (λ t. t % e) (zero-add r)
      ∙ mod-eq_of_lt h

  -- Every address of a sector has that sector.
  pub sector_of_lem : (x : ℕ) → s ≤ x → x < s + e → sector_of e x ≡ s
  sector_of_lem x p q = omega (arith, ap (λ t. t % e) back, mod-add_aligned (x - s) (omega arith))
    where
      back : s + (x - s) ≡ x
      back = omega arith

  -- The next sector is aligned too.
  pub aligned_next : (s + e) % e ≡ 0
  aligned_next = grind arith

  pub aligned_prev : e ≤ s → (s - e) % e ≡ 0
  aligned_prev h = sym (mod-eq-sub-mod h) ∙ aligned

  -- A later aligned address is at least a sector away.
  pub aligned_gap : (t : ℕ) → t % e ≡ 0 → s < t → s + e ≤ t
  aligned_gap t h p = elim (dec_lt t (s + e)) [
    | yes q ↦ absurd (omega (arith, sector_of_lem t (omega arith) q))
    | no q ↦ omega arith
  ]

-- The sector of an address begins at a multiple of the size, and holds the address.
pub sector_of-aligned : (e x : ℕ) → sector_of e x % e ≡ 0
sector_of-aligned e x = ap (λ t. t % e) (omega (arith, div-add-mod' x e)) ∙ mul-mod_left (x / e) e

pub sector_of-above : (e x : ℕ) → 0 < e → x < sector_of e x + e
sector_of-above e x pos = omega (arith, mod-lt x pos)

-- An aligned address begins its sector.
pub sector_of_start : (e x : ℕ) → x % e ≡ 0 → sector_of e x ≡ x
sector_of_start e x h = omega (arith, h)
