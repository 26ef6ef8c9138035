-- ===== src/Board/Block.antt =====
-- `ParseDataBlock` on a flash whose last sector holds entries.
use panog2_ldr.Base.{
  Outcome, returns, ℕ, zero, suc, ◌+◌, ◌-◌, ◌^◌, ◌≤◌, ◌<◌, ◌≡◌, refl, ap, ap₂, ◌∙◌, arith, List,
  ◌++◌, some, length, replicate, bytes, u32,
}
use panog2_ldr.Spi.{FlashInfo, Spi, IsNor}
use panog2_ldr.Board.{
  Board, temp_size, parse_fuel, Parsed, free_at, parse_loop, data_page_offset, finish_parse,
  parse_data_block,
}
use panog2_ldr.Board.Entries.{Entry, AreEntries, encode, apply_all, length-encode_ge}
use panog2_ldr.Board.Parse.{parse_loop_lem, free_word}

-- A chip with more than one sector, none smaller than `gTemp`.
pub record HasBlock (chip : FlashInfo) : Type 0 where
  pub room : temp_size ≤ chip.erase_size
  pub others : chip.erase_size < chip.flash_size
  pub small : chip.flash_size < 2 ^ 31

-- The start of the last sector.
abbrev pub block_start : FlashInfo → ℕ
block_start chip = chip.flash_size - chip.erase_size

-- The data block holds `es`, and `free` erased bytes, a word of them at least.
pub record Holds (spi : Spi) (chip : FlashInfo) (f : spi.Flash) (es : List Entry) (free : ℕ)
    : Type 0 where
  pub entries : AreEntries es
  pub block : bytes (spi.peek f) (block_start chip) temp_size ≡ encode es ++ replicate free 255
  pub size : length (encode es) + free ≡ temp_size
  pub ends : 4 ≤ free

module _ (spi : Spi) (chip : FlashInfo) (has : spi.info ≡ some chip) (nor : IsNor spi chip)
    (geo : HasBlock chip) where
  pub start_lem : data_page_offset chip ≡ block_start chip
  start_lem = omega (arith, geo.others, geo.small)

  replicate_four : (k : ℕ) → 4 ≤ k → replicate k 255 ≡ free_word ++ replicate (k - 4) 255
  replicate_four zero h = absurd (omega arith)
  replicate_four (suc zero) h = absurd (omega arith)
  replicate_four (suc (suc zero)) h = absurd (omega arith)
  replicate_four (suc (suc (suc zero))) h = absurd (omega arith)
  replicate_four (suc (suc (suc (suc k)))) h = ap (λ n. free_word ++ replicate n 255) (omega arith)

  -- The block, read into `gTemp`, with the settings that it stands for.
  abbrev pub parsed : List Entry → Board spi.Flash → Board spi.Flash
  parsed es b = record b {
    temp = bytes (spi.peek b.flash) (block_start chip) temp_size;
    config = apply_all es b.config;
  }

  -- `ParseDataBlock` of a block of entries returns the address of the first free word, and leaves every
  -- setting at its last entry, and the flash as it is.
  pub parse_data_block_lem :
      (b : Board spi.Flash) (es : List Entry) (free : ℕ)
      → Holds spi chip b.flash es free
      → parse_data_block spi b ≡ returns (block_start chip + length (encode es), parsed es b)
  unfolding parse_data_block finish_parse
  parse_data_block_lem b es free h =
      by_info ∙ ap₂ after read_block loop ∙ ap (λ n. returns (n, parsed es b)) place
    where
      after : List ℕ → Parsed → Outcome (ℕ × Board spi.Flash)
      after temp p = finish_parse spi chip (record b { temp = temp }) p

      temp : List ℕ
      temp = bytes (spi.peek b.flash) (block_start chip) temp_size

      by_info :
          parse_data_block spi b
          ≡ after (spi.read b.flash (data_page_offset chip) temp_size) (
              parse_loop parse_fuel (spi.read b.flash (data_page_offset chip) temp_size) b.config 0)
      by_info = rw has refl

      read_block : spi.read b.flash (data_page_offset chip) temp_size ≡ temp
      read_block =
          ap (λ a. spi.read b.flash a temp_size) start_lem
          ∙ nor.read_lem b.flash (block_start chip) temp_size (omega (arith, geo.room, geo.others))

      shape : temp ≡ encode es ++ (free_word ++ replicate (free - 4) 255)
      shape = h.block ∙ ap (λ t. encode es ++ t) (replicate_four free h.ends)

      loop :
          parse_loop parse_fuel (spi.read b.flash (data_page_offset chip) temp_size) b.config 0
          ≡ free_at (apply_all es b.config) (length (encode es))
      loop =
          ap (λ t. parse_loop parse_fuel t b.config 0) read_block
          ∙ parse_loop_lem es parse_fuel 0 (length (encode es)) temp (replicate (free - 4) 255)
              b.config h.entries (omega (arith, length-encode_ge es, h.size)) shape (omega arith)
              (omega (arith, h.size, h.ends))

      place :
          u32 (data_page_offset chip + length (encode es)) ≡ block_start chip + length (encode es)
      place = omega (arith, start_lem, geo.small, geo.room, geo.others, h.size)
