-- ===== src/Spi/Nor.antt =====
-- A chip that meets the interface: a function from addresses to bytes.
use panog2_ldr.Base.{
  ℕ, ◌+◌, ◌-◌, ◌%◌, ◌&&◌, Bool, List, some, bit_and, length, get_or, leb, ltb, if◌then◌else◌, arith,
  bytes, bit_and-le, refl,
}
use panog2_ldr.Spi.{FlashInfo, Spi, IsNor}

abbrev pub Cells : Type 0
Cells = ℕ → ℕ

abbrev pub in_range : ℕ → ℕ → ℕ → Bool
in_range a n x = leb a x && ltb x (a + n)

abbrev pub erase_cells : Cells → ℕ → ℕ → Cells
erase_cells f a n x = if in_range a n x then 255 else f x

-- Reading gives bytes whatever the function holds.
abbrev pub peek_cells : Cells → ℕ → ℕ
peek_cells f x = f x % 256

abbrev pub write_cells : Cells → ℕ → List ℕ → Cells
write_cells f a bs x =
    if in_range a (length bs) x then bit_and (peek_cells f x) (get_or bs (x - a) 0) else f x

abbrev pub cells_spi : FlashInfo → Spi
cells_spi chip = record {
  Flash = Cells;
  info = some chip;
  peek = peek_cells;
  read = λ f a n. bytes (peek_cells f) a n;
  erase = erase_cells;
  write = write_cells;
}

pub cells_spi-IsNor : (chip : FlashInfo) → IsNor (cells_spi chip) chip
cells_spi-IsNor chip = record {
  peek-lt = λ f x. omega arith;
  read_lem = λ f a n h. refl;
  erase_in = λ f a x h k p q. ground arith;
  erase_out = λ f a x h k p. ground arith;
  write_in = λ f a x bs h p q. ground (arith, bit_and-le (peek_cells f x) (get_or bs (x - a) 0));
  write_out = λ f a x bs h p. ground arith;
}
