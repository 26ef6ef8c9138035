-- ===== src/Rand/Bijection.antt =====
-- A step of the generator loses nothing: on 32-bit states it is injective and never reaches 0.
use panog2_ldr.Base.{
  ℕ, zero, suc, ◌*◌, ◌/◌, ◌%◌, ◌^◌, ◌<◌, bit_xor, u32, ◌≡◌, refl, ap, sym, ◌∙◌, arith, ◌≢◌,
  bit_xor-zero, bit_xor_self, bit_xor_comm, bit_xor_assoc, bit_xor-shl, bit_xor-shr, bit_xor-mod,
}
use panog2_ldr.Rand.{xor_shl13, xor_shr17, xor_shl5, rand_r, rand, srand}

bit_xor_cancel : (a b : ℕ) → bit_xor (bit_xor a b) b ≡ a
bit_xor_cancel a b = rw (bit_xor_assoc, bit_xor_self) (bit_xor-zero a)

eq_of_xor_zero : (a b : ℕ) → bit_xor a b ≡ 0 → a ≡ b
eq_of_xor_zero a b h =
    sym (bit_xor_cancel a b) ∙ ap (λ t. bit_xor t b) h ∙ bit_xor_comm 0 b ∙ bit_xor-zero b

interchange :
    (a b c d : ℕ) → bit_xor (bit_xor a b) (bit_xor c d) ≡ bit_xor (bit_xor a c) (bit_xor b d)
interchange a b c d =
    bit_xor_assoc a b (bit_xor c d)
    ∙ ap (bit_xor a)
        (sym (bit_xor_assoc b c d) ∙ ap (λ t. bit_xor t d) (bit_xor_comm b c) ∙ bit_xor_assoc c b d)
    ∙ sym (bit_xor_assoc a c (bit_xor b d))

bit_xor-lt : (a b : ℕ) → a < 2 ^ 32 → b < 2 ^ 32 → bit_xor a b < 2 ^ 32
bit_xor-lt a b p q = rw (← small) (omega arith)
  where
    keep : (x : ℕ) → x < 2 ^ 32 → x % 2 ^ 32 ≡ x
    keep x h = omega arith

    small : bit_xor a b % 2 ^ 32 ≡ bit_xor a b
    small =
        sym (bit_xor-mod 32 a b)
        ∙ ap (λ t. bit_xor t (b % 2 ^ 32)) (keep a p)
        ∙ ap (bit_xor a) (keep b q)

-- `x ^= L x` is injective where `L` is linear and fixes nothing but 0.
module _ (L : ℕ → ℕ) (linear : (a b : ℕ) → bit_xor (L a) (L b) ≡ L (bit_xor a b))
    (no_fixed : (d : ℕ) → d < 2 ^ 32 → d ≡ L d → d ≡ 0) where
  xor_linear-injective :
      (s t : ℕ) → s < 2 ^ 32 → t < 2 ^ 32 → bit_xor s (L s) ≡ bit_xor t (L t) → s ≡ t
  xor_linear-injective s t p q e =
      eq_of_xor_zero s t (no_fixed (bit_xor s t) (bit_xor-lt s t p q) (eq_of_xor_zero _ _ both))
    where
      both : bit_xor (bit_xor s t) (L (bit_xor s t)) ≡ 0
      both =
          ap (bit_xor (bit_xor s t)) (sym (linear s t))
          ∙ interchange s t (L s) (L t)
          ∙ ap (λ x. bit_xor x (bit_xor t (L t))) e
          ∙ bit_xor_self _

abbrev shl : ℕ → ℕ → ℕ
shl k s = u32 (s * 2 ^ k)

shl_linear : (k a b : ℕ) → bit_xor (shl k a) (shl k b) ≡ shl k (bit_xor a b)
shl_linear k a b = bit_xor-mod 32 (a * 2 ^ k) (b * 2 ^ k) ∙ ap u32 (bit_xor-shl k a b)

xor_shl13-injective : (s t : ℕ) → s < 2 ^ 32 → t < 2 ^ 32 → xor_shl13 s ≡ xor_shl13 t → s ≡ t
unfolding xor_shl13
xor_shl13-injective = xor_linear-injective (shl 13) (shl_linear 13) (λ d h e. omega arith)

xor_shl5-injective : (s t : ℕ) → s < 2 ^ 32 → t < 2 ^ 32 → xor_shl5 s ≡ xor_shl5 t → s ≡ t
unfolding xor_shl5
xor_shl5-injective = xor_linear-injective (shl 5) (shl_linear 5) (λ d h e. omega arith)

xor_shr17-injective : (s t : ℕ) → s < 2 ^ 32 → t < 2 ^ 32 → xor_shr17 s ≡ xor_shr17 t → s ≡ t
unfolding xor_shr17
xor_shr17-injective = xor_linear-injective (λ x. x / 2 ^ 17) (bit_xor-shr 17) (λ d h e. omega arith)

xor_shl13-lt : (s : ℕ) → s < 2 ^ 32 → xor_shl13 s < 2 ^ 32
unfolding xor_shl13
xor_shl13-lt s h = bit_xor-lt s (shl 13 s) h (omega arith)

xor_shr17-lt : (s : ℕ) → s < 2 ^ 32 → xor_shr17 s < 2 ^ 32
unfolding xor_shr17
xor_shr17-lt s h = bit_xor-lt s (s / 2 ^ 17) h (omega arith)

xor_shl5-lt : (s : ℕ) → s < 2 ^ 32 → xor_shl5 s < 2 ^ 32
unfolding xor_shl5
xor_shl5-lt s h = bit_xor-lt s (shl 5 s) h (omega arith)

-- A step keeps the state a 32-bit number.
pub rand_r-lt : (s : ℕ) → s < 2 ^ 32 → rand_r s < 2 ^ 32
unfolding rand_r
rand_r-lt s h = xor_shl5-lt _ (xor_shr17-lt _ (xor_shl13-lt s h))

-- Two different 32-bit seeds never step to the same state.
pub rand_r-injective : (s t : ℕ) → s < 2 ^ 32 → t < 2 ^ 32 → rand_r s ≡ rand_r t → s ≡ t
unfolding rand_r
rand_r-injective s t p q e = xor_shl13-injective s t p q (
    xor_shr17-injective _ _ (xor_shl13-lt s p) (xor_shl13-lt t q) (
      xor_shl5-injective _ _ (xor_shr17-lt _ (xor_shl13-lt s p)) (xor_shr17-lt _ (xor_shl13-lt t q))
        e))

rand_r-zero : rand_r 0 ≡ 0
unfolding rand_r xor_shl13 xor_shr17 xor_shl5
rand_r-zero = refl

-- The state after `n` calls of `rand`.
abbrev pub after : ℕ → ℕ → ℕ
after zero y = y
after (suc n) y = (rand (after n y)).y

-- From a seed that is a 32-bit number other than 0, every later state is a 32-bit number other
-- than 0: `rand` never gets stuck.
pub rand_never_zero :
    (n seed : ℕ)
    → seed ≢ 0
    → seed < 2 ^ 32
    → (after n (srand seed) ≢ 0) × (after n (srand seed) < 2 ^ 32)
unfolding rand srand
rand_never_zero zero seed ne h = (ne, h)
rand_never_zero (suc n) seed ne h =
    let ih = rand_never_zero n seed ne h in
    (λ e. ih.0 (rand_r-injective _ 0 ih.1 (omega arith) (e ∙ sym rand_r-zero)), rand_r-lt _ ih.1)
