-- ===== src/Base/Bits.antt =====
-- Laws of `bit_xor` and `bit_and` at variables, from one equation for the lowest binary digit.
use Prim.Native.Nat.{
  ℕ, zero, suc, ◌+◌, ◌-◌, ◌*◌, ◌/◌, ◌%◌, ◌^◌, ◌≤◌, ◌<◌, min, max, bit_and, bit_xor,
}
use Prim.Native.Nat.{digits, bit_and-bitwise, bit_xor-bitwise, differ}
use mathlib.Core.Path.{◌≡◌, refl, ap}
use mathlib.Core.Bool.{Bool, true, ◌&&◌}
use native.Mathlib.Nat.{pow-suc, div-div-eq-div-mul, mul_comm, div-add-mod}
use native.Mathlib.Omega.{arith}
use panog2_ldr.Base.Nums.{◌==◌, ==_iff}

-- More fuel than digits changes nothing.
module _ (rest : ℕ → ℕ) (digit : ℕ → ℕ → ℕ) where
  enough_fuel :
      (x low high y : ℕ)
      → x ≤ low
      → low ≤ high
      → digits rest digit high x y ≡ digits rest digit low x y
  enough_fuel zero (suc low) (suc high) y h k = refl
  enough_fuel zero zero (suc high) y h k = refl
  enough_fuel zero zero zero y h k = refl
  enough_fuel zero (suc low) zero y h k = absurd (omega arith)
  enough_fuel (suc x) (suc low) (suc high) y h k =
      let halves = enough_fuel (suc x / 2) low high (y / 2) (omega arith) (omega arith) in
      ap (λ t. t * 2 + digit (suc x % 2) (y % 2)) halves
  enough_fuel (suc x) zero high y h k = absurd (omega arith)
  enough_fuel (suc x) (suc low) zero y h k = absurd (omega arith)

differ-eq-sub : (a b : ℕ) → differ a b ≡ max a b - min a b
differ-eq-sub zero b = omega arith
differ-eq-sub (suc a) zero = omega arith
differ-eq-sub (suc a) (suc b) = omega (arith, differ-eq-sub a b)

pub bit_xor_step : (a b : ℕ) → bit_xor a b ≡ bit_xor (a / 2) (b / 2) * 2 + (a + b) % 2
bit_xor_step zero b = omega (arith, bit_xor-bitwise 0 b, bit_xor-bitwise 0 (b / 2))
bit_xor_step (suc a) b = omega (
  arith,
  bit_xor-bitwise (suc a) b,
  bit_xor-bitwise (suc a / 2) (b / 2),
  enough_fuel (λ y. y) differ (suc a / 2) (suc a / 2) a (b / 2) (omega arith) (omega arith),
  differ-eq-sub (suc a % 2) (b % 2),
)

zero-bit_xor : (b : ℕ) → bit_xor 0 b ≡ b
zero-bit_xor b = bit_xor-bitwise 0 b

-- Strong induction over two or three numbers, by a bound.
bit_xor-zero_below : (n a : ℕ) → a ≤ n → bit_xor a 0 ≡ a
bit_xor-zero_below n zero h = zero-bit_xor 0
bit_xor-zero_below zero (suc a) h = absurd (omega arith)
bit_xor-zero_below (suc n) (suc a) h =
    omega (arith, bit_xor_step (suc a) 0, bit_xor-zero_below n (suc a / 2) (omega arith))

pub bit_xor-zero : (a : ℕ) → bit_xor a 0 ≡ a
bit_xor-zero a = bit_xor-zero_below a a (omega arith)

bit_xor_self_below : (n a : ℕ) → a ≤ n → bit_xor a a ≡ 0
bit_xor_self_below n zero h = zero-bit_xor 0
bit_xor_self_below zero (suc a) h = absurd (omega arith)
bit_xor_self_below (suc n) (suc a) h =
    omega (arith, bit_xor_step (suc a) (suc a), bit_xor_self_below n (suc a / 2) (omega arith))

pub bit_xor_self : (a : ℕ) → bit_xor a a ≡ 0
bit_xor_self a = bit_xor_self_below a a (omega arith)

bit_xor_comm_below : (n a b : ℕ) → a ≤ n → b ≤ n → bit_xor a b ≡ bit_xor b a
bit_xor_comm_below zero a b p q = ap₂_zero (omega arith) (omega arith)
  where
    ap₂_zero : a ≡ 0 → b ≡ 0 → bit_xor a b ≡ bit_xor b a
    ap₂_zero e e' = rw (e, e')
bit_xor_comm_below (suc n) a b p q = omega (
  arith,
  bit_xor_step a b,
  bit_xor_step b a,
  bit_xor_comm_below n (a / 2) (b / 2) (omega arith) (omega arith),
)

pub bit_xor_comm : (a b : ℕ) → bit_xor a b ≡ bit_xor b a
bit_xor_comm a b = bit_xor_comm_below (a + b) a b (omega arith) (omega arith)

-- The halves and the last digit of an exclusive or.
pub bit_xor-half : (a b : ℕ) → bit_xor a b / 2 ≡ bit_xor (a / 2) (b / 2)
bit_xor-half a b = omega (arith, bit_xor_step a b)

pub bit_xor-digit : (a b : ℕ) → bit_xor a b % 2 ≡ (a + b) % 2
bit_xor-digit a b = omega (arith, bit_xor_step a b)

bit_xor_assoc_below :
    (n a b c : ℕ) → a ≤ n → b ≤ n → c ≤ n → bit_xor (bit_xor a b) c ≡ bit_xor a (bit_xor b c)
bit_xor_assoc_below zero a b c p q r = at_zero (omega arith) (omega arith) (omega arith)
  where
    at_zero : a ≡ 0 → b ≡ 0 → c ≡ 0 → bit_xor (bit_xor a b) c ≡ bit_xor a (bit_xor b c)
    at_zero e e' e'' = rw (e, e', e'')
bit_xor_assoc_below (suc n) a b c p q r =
    rw
      (
        bit_xor_step (bit_xor a b) c,
        bit_xor_step a (bit_xor b c),
        bit_xor-half a b,
        bit_xor-half b c,
      )
      (omega (
        arith,
        bit_xor_assoc_below n (a / 2) (b / 2) (c / 2) (omega arith) (omega arith) (omega arith),
        bit_xor-digit a b,
        bit_xor-digit b c,
      ))

pub bit_xor_assoc : (a b c : ℕ) → bit_xor (bit_xor a b) c ≡ bit_xor a (bit_xor b c)
bit_xor_assoc a b c =
    bit_xor_assoc_below (a + b + c) a b c (omega arith) (omega arith) (omega arith)

-- Shifts and low masks go through an exclusive or.
pub bit_xor-double : (a b : ℕ) → bit_xor (a * 2) (b * 2) ≡ bit_xor a b * 2
bit_xor-double a b = rw (bit_xor_step (a * 2) (b * 2), half a, half b) (omega arith)
  where
    half : (x : ℕ) → x * 2 / 2 ≡ x
    half x = omega arith

pub bit_xor-shl : (k a b : ℕ) → bit_xor (a * 2 ^ k) (b * 2 ^ k) ≡ bit_xor a b * 2 ^ k
bit_xor-shl zero a b = rw (one a, one b) (omega arith)
  where
    one : (x : ℕ) → x * 1 ≡ x
    one x = omega arith
bit_xor-shl (suc k) a b =
    rw (out a, out b, bit_xor-double, bit_xor-shl k a b) (omega (arith, out (bit_xor a b)))
  where
    out : (x : ℕ) → x * 2 ^ suc k ≡ x * 2 ^ k * 2
    out x = omega (arith, ap (λ (t : ℕ). x * t) (pow-suc 2 k))

div_two_pow-suc : (k x : ℕ) → x / 2 ^ suc k ≡ x / 2 / 2 ^ k
div_two_pow-suc k x = rw (div-div-eq-div-mul, pow-suc, mul_comm (2 ^ k) 2) refl

pub bit_xor-shr : (k a b : ℕ) → bit_xor (a / 2 ^ k) (b / 2 ^ k) ≡ bit_xor a b / 2 ^ k
bit_xor-shr zero a b = rw (one a, one b) (omega arith)
  where
    one : (x : ℕ) → x / 1 ≡ x
    one x = omega arith
bit_xor-shr (suc k) a b =
    rw (div_two_pow-suc k a, div_two_pow-suc k b, div_two_pow-suc k (bit_xor a b), bit_xor-half)
      (bit_xor-shr k (a / 2) (b / 2))

mod_two_pow-suc : (k x : ℕ) → x % 2 ^ suc k ≡ x / 2 % 2 ^ k * 2 + x % 2
mod_two_pow-suc k x = omega (
  arith,
  div-add-mod x (2 ^ suc k),
  div-add-mod (x / 2) (2 ^ k),
  ap (λ (t : ℕ). x / 2 / 2 ^ k * t) (pow-suc 2 k),
  ap (λ (t : ℕ). t * 2 ^ suc k) (div_two_pow-suc k x),
)

pub bit_xor-mod : (k a b : ℕ) → bit_xor (a % 2 ^ k) (b % 2 ^ k) ≡ bit_xor a b % 2 ^ k
bit_xor-mod zero a b = rw (none a, none b, none (bit_xor a b)) refl
  where
    none : (x : ℕ) → x % 1 ≡ 0
    none x = omega arith
bit_xor-mod (suc k) a b = omega (
  arith,
  bit_xor_step (a % 2 ^ suc k) (b % 2 ^ suc k),
  mod_two_pow-suc k a,
  mod_two_pow-suc k b,
  mod_two_pow-suc k (bit_xor a b),
  ap (λ (t : ℕ). t % 2 ^ k) (bit_xor-half a b),
  bit_xor-digit a b,
  halves,
  bit_xor-mod k (a / 2) (b / 2),
)
  where
    low : (x : ℕ) → x % 2 ^ suc k / 2 ≡ x / 2 % 2 ^ k
    low x = omega (arith, mod_two_pow-suc k x)

    halves :
        bit_xor (a % 2 ^ suc k / 2) (b % 2 ^ suc k / 2) ≡ bit_xor (a / 2 % 2 ^ k) (b / 2 % 2 ^ k)
    halves = rw (low a, low b) refl

nothing-bit_and : (y : ℕ) → bit_and 0 y ≡ 0
nothing-bit_and = bit_and-bitwise 0

-- The last digit of an `and`, and the rest of it.
bit_and_split : (x y : ℕ) → bit_and x y ≡ min (x % 2) (y % 2) + 2 * bit_and (x / 2) (y / 2)
bit_and_split (suc x) y =
    let fuel =
      enough_fuel (λ t. 0) min (suc x / 2) (suc x / 2) x (y / 2) (omega arith) (omega arith) in
    omega (arith, bit_and-bitwise (suc x / 2) (y / 2), fuel, bit_and-bitwise (suc x) y)
bit_and_split zero y = omega (arith, nothing-bit_and (y / 2), nothing-bit_and y)

bit_and-le_below : (bound x y : ℕ) → x ≤ bound → bit_and x y ≤ x
bit_and-le_below bound zero y h = omega (arith, nothing-bit_and y)
bit_and-le_below zero (suc x) y h = absurd (omega arith)
bit_and-le_below (suc bound) (suc x) y h =
    let halves = bit_and-le_below bound (suc x / 2) (y / 2) (omega arith) in
    omega (arith, halves, bit_and_split (suc x) y)

-- An `and` only clears bits.
pub bit_and-le : (x y : ℕ) → bit_and x y ≤ x
bit_and-le x y = bit_and-le_below x x y (omega arith)

-- `test` holds of the `count` numbers from 0 on.
holds_up_to : (ℕ → Bool) → ℕ → Bool
holds_up_to test zero = true
holds_up_to test (suc count) = holds_up_to test count && test count

holds_at :
    (test : ℕ → Bool) (count i : ℕ) → i < count → holds_up_to test count ≡ true → test i ≡ true
unfolding holds_up_to
holds_at test (suc count) i small h = ground (arith, holds_at test count i)
holds_at test zero i small h = absurd (omega arith)

bytes_pass : holds_up_to (λ v. bit_and 255 v == v) 256 ≡ true
unfolding holds_up_to
bytes_pass = refl

-- Clearing the bits of an erased byte leaves the byte written.
pub bit_and_ones : (v : ℕ) → v < 256 → bit_and 255 v ≡ v
bit_and_ones v small =
    (==_iff (bit_and 255 v) v).0 (holds_at (λ t. bit_and 255 t == t) 256 v small bytes_pass)
