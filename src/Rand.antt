-- ===== src/Rand.antt =====
-- The pseudo random generator of fw/pano_ldr/rand.c (`unsigned int` has 32 bits), and
-- `lwip_port_rand` of main.c.
pub mod Bijection
use panog2_ldr.Base.{ℕ, ◌*◌, ◌/◌, ◌^◌, bit_xor, u32}

-- `s ^= s << 13`, `s ^= s >> 17` and `s ^= s << 5`.
pub xor_shl13 : ℕ → ℕ
xor_shl13 s = bit_xor s (u32 (s * 2 ^ 13))

pub xor_shr17 : ℕ → ℕ
xor_shr17 s = bit_xor s (s / 2 ^ 17)

pub xor_shl5 : ℕ → ℕ
xor_shl5 s = bit_xor s (u32 (s * 2 ^ 5))

-- The new value of `*seedp`, which is also what is returned.
pub rand_r : ℕ → ℕ
rand_r seed = xor_shl5 (xor_shr17 (xor_shl13 seed))

-- The static `y` is the state: `rand` returns the number and the new state.
pub record Drawn : Type 0 where
  pub number : ℕ
  pub y : ℕ

abbrev pub initial_y : ℕ
initial_y = 1

pub rand : ℕ → Drawn
rand y = let next = rand_r y in record { number = next; y = next }

-- The new `y`.
pub srand : ℕ → ℕ
srand seed = seed

pub lwip_port_rand : ℕ → Drawn
lwip_port_rand y = rand y
