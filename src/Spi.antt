-- ===== src/Spi.antt =====
-- The SPI flash driver (common/spi_drv.c of the pano firmware submodule), which the sources only
-- call: the interface that its callers take as a parameter, and what they rely on.
pub mod Nor
use panog2_ldr.Base.{
  ℕ, ◌+◌, ◌-◌, ◌%◌, ◌^◌, ◌≤◌, ◌<◌, ◌≡◌, ◌⊎◌, List, Option, bit_and, length, get_or,
}
use panog2_ldr.Base.{bytes}

-- `FlashInfo_t`.
pub record FlashInfo : Type 0 where
  pub desc : List ℕ
  pub flash_size : ℕ
  pub page_size : ℕ
  pub erase_size : ℕ

-- `spi_get_flashinfo` (`none` is NULL), `spi_read`, `spi_erase` and `spi_write`. `peek` is the byte
-- that the chip holds at an address.
pub record Spi : Type 1 where
  pub Flash : Type 0
  pub info : Option FlashInfo
  pub peek : Flash → ℕ → ℕ
  pub read : Flash → ℕ → ℕ → List ℕ
  pub erase : Flash → ℕ → ℕ → Flash
  pub write : Flash → ℕ → List ℕ → Flash

-- What README.md and the callers rely on, within the chip: a read shows the stored bytes, erasing
-- a sector sets its bytes to 0xff, a write only clears bits, and neither touches another byte.
pub record IsNor (spi : Spi) (chip : FlashInfo) : Type 0 where
  pub peek-lt : (f : spi.Flash) (x : ℕ) → spi.peek f x < 256
  pub read_lem :
      (f : spi.Flash) (a n : ℕ) → a + n ≤ chip.flash_size → spi.read f a n ≡ bytes (spi.peek f) a n
  pub erase_in :
      (f : spi.Flash) (a x : ℕ)
      → a % chip.erase_size ≡ 0
      → a + chip.erase_size ≤ chip.flash_size
      → a ≤ x
      → x < a + chip.erase_size
      → spi.peek (spi.erase f a chip.erase_size) x ≡ 255
  pub erase_out :
      (f : spi.Flash) (a x : ℕ)
      → a % chip.erase_size ≡ 0
      → a + chip.erase_size ≤ chip.flash_size
      → (x < a) ⊎ (a + chip.erase_size ≤ x)
      → spi.peek (spi.erase f a chip.erase_size) x ≡ spi.peek f x
  pub write_in :
      (f : spi.Flash) (a x : ℕ) (bs : List ℕ)
      → a + length bs ≤ chip.flash_size
      → a ≤ x
      → x < a + length bs
      → spi.peek (spi.write f a bs) x ≡ bit_and (spi.peek f x) (get_or bs (x - a) 0)
  pub write_out :
      (f : spi.Flash) (a x : ℕ) (bs : List ℕ)
      → a + length bs ≤ chip.flash_size
      → (x < a) ⊎ (a + length bs ≤ x)
      → spi.peek (spi.write f a bs) x ≡ spi.peek f x
