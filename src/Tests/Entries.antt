-- ===== src/Tests/Entries.antt =====
-- The theorems on the data block, at concrete inputs.
use panog2_ldr.Base.{
  ℕ, ◌+◌, ◌-◌, ◌*◌, ◌≤◌, ◌<◌, ◌≡◌, ◌≢◌, ◌⊎◌, inl, inr, refl, arith, List, [], ◌∷◌, ◌++◌, some,
  bytes, get_or, replicate, le32, ltb, if◌then◌else◌, returns, fault, u32, ap, ap₂,
}
use panog2_ldr.Spi.Nor.{Cells, cells_spi, cells_spi-IsNor, peek_cells}
use panog2_ldr.Board.{
  Board, initial_config, no_tag, tag_auto_boot, tag_auto_boot_adr, load32, parse_loop,
  parse_no_fuel, parse_fuel, parse_data_block, add_board_info, round_up,
}
use panog2_ldr.Board.Entries.{Entry, encode}
use panog2_ldr.Board.Block.{HasBlock, Holds, parse_data_block_lem}
use panog2_ldr.Board.Add.{word_entry, add_board_info_lem}
use panog2_ldr.Board.Limits.{
  Visits, ShortLengths, first, next, parse_loop_terminates, parse_loop_hangs,
  parse_data_block-overreads, add_board_info-full, add_board_info-overflows,
}
use panog2_ldr.Tests.{block_chip, board}

pub block_chip-HasBlock : HasBlock block_chip
block_chip-HasBlock = record { room = omega arith; others = omega arith; small = omega arith }

-- A flash whose last sector starts with `bs`, and is erased otherwise.
abbrev holding : List ℕ → Cells
holding bs x = if ltb x 3072 then 0 else get_or bs (x - 3072) 255

abbrev pub delayed : Entry
delayed = word_entry tag_auto_boot 2

abbrev pub delayed_flash : Cells
delayed_flash = holding (encode (delayed ∷ []))

pub delayed_flash-Holds : Holds (cells_spi block_chip) block_chip delayed_flash (delayed ∷ []) 1012
unfolding round_up
delayed_flash-Holds = record {
  entries = (
    record {
      tag-lt = omega arith;
      tag-ne = omega arith;
      first-lt = omega arith;
      len-lt = omega arith;
      words = refl;
    },
    tt,
  );
  block = refl;
  size = refl;
  ends = omega arith;
}

parse_data_block_example :
    parse_data_block (cells_spi block_chip) (board delayed_flash)
    ≡ returns (
      3084,
      record {
        temp = bytes (peek_cells delayed_flash) 3072 1024;
        config = record initial_config { auto_boot = 2 };
        flash = delayed_flash;
      },
    )
parse_data_block_example =
    parse_data_block_lem (cells_spi block_chip) block_chip refl (cells_spi-IsNor block_chip)
      block_chip-HasBlock (board delayed_flash) (delayed ∷ []) 1012 delayed_flash-Holds

-- The auto boot address behind the auto boot mode.
abbrev at_64k : Entry
at_64k = word_entry tag_auto_boot_adr 0x10000

add_board_info_example :
    (b' : Board Cells) × (add_board_info
        (cells_spi block_chip)
        tag_auto_boot_adr
        (le32 0x10000)
        (board delayed_flash)
      ≡ returns b')
    × (b'.config ≡ record initial_config { auto_boot = 2; auto_boot_adr = 0x10000 })
    × Holds (cells_spi block_chip) block_chip b'.flash (delayed ∷ at_64k ∷ []) 1000
    × ((x : ℕ) → (x < 3084) ⊎ (3096 ≤ x) → peek_cells b'.flash x ≡ peek_cells delayed_flash x)
add_board_info_example =
    add_board_info_lem (cells_spi block_chip) block_chip (board delayed_flash) (delayed ∷ []) 1012
      tag_auto_boot_adr 0x10000 refl (cells_spi-IsNor block_chip) block_chip-HasBlock
      delayed_flash-Holds (omega arith) (omega arith) (omega arith) (omega arith)

-- One entry of `n` zero words: the block is nearly full.
abbrev wide : ℕ → Entry
wide n = record { tag = 7; len = 4 + 4 * n; first = 0; more = replicate n 0 }

abbrev wide_flash : ℕ → Cells
wide_flash n x =
    if ltb x 3072
    then 0
    else if ltb x (3084 + 4 * n)
    then get_or (le32 7 ++ le32 (4 + 4 * n)) (x - 3072) 0
    else 255

three_words-Holds : Holds (cells_spi block_chip) block_chip (wide_flash 250) (wide 250 ∷ []) 12
unfolding round_up
three_words-Holds = record {
  entries = (
    record {
      tag-lt = omega arith;
      tag-ne = omega arith;
      first-lt = omega arith;
      len-lt = omega arith;
      words = refl;
    },
    tt,
  );
  block = refl;
  size = refl;
  ends = omega arith;
}

two_words-Holds : Holds (cells_spi block_chip) block_chip (wide_flash 251) (wide 251 ∷ []) 8
unfolding round_up
two_words-Holds = record {
  entries = (
    record {
      tag-lt = omega arith;
      tag-ne = omega arith;
      first-lt = omega arith;
      len-lt = omega arith;
      words = refl;
    },
    tt,
  );
  block = refl;
  size = refl;
  ends = omega arith;
}

add_board_info-full_example :
    add_board_info (cells_spi block_chip) tag_auto_boot (le32 1) (board (wide_flash 250))
    ≡ returns (record {
      temp = bytes (peek_cells (wide_flash 250)) 3072 1024;
      config = initial_config;
      flash = wide_flash 250;
    })
add_board_info-full_example =
    add_board_info-full (cells_spi block_chip) block_chip (board (wide_flash 250)) (wide 250 ∷ [])
      12 tag_auto_boot 1 refl (cells_spi-IsNor block_chip) block_chip-HasBlock three_words-Holds
      (omega arith) (omega arith)

add_board_info-overflows_example :
    add_board_info (cells_spi block_chip) tag_auto_boot (le32 1) (board (wide_flash 251)) ≡ fault
add_board_info-overflows_example =
    add_board_info-overflows (cells_spi block_chip) block_chip (board (wide_flash 251))
      (wide 251 ∷ []) 8 tag_auto_boot 1 refl (cells_spi-IsNor block_chip) block_chip-HasBlock
      two_words-Holds (omega arith)

abbrev looping : List ℕ
looping = le32 7 ++ (le32 0xffff_fff8 ++ le32 1)

parse_loop_hangs_example : parse_loop 1000 looping initial_config 0 ≡ parse_no_fuel
parse_loop_hangs_example =
    parse_loop_hangs 1000 0 7 1 looping initial_config refl (omega arith) refl refl (omega arith)

-- An entry that leaves one word, which is a tag.
abbrev late_flash : Cells
late_flash x = if ltb x 4092 then wide_flash 252 x else get_or (le32 7) (x - 4092) 255

parse_data_block-overreads_example :
    parse_data_block (cells_spi block_chip) (board late_flash) ≡ fault
unfolding round_up
parse_data_block-overreads_example =
    parse_data_block-overreads (cells_spi block_chip) block_chip (board late_flash) (wide 252 ∷ [])
      7 refl (cells_spi-IsNor block_chip) block_chip-HasBlock
      (
        record {
          tag-lt = omega arith;
          tag-ne = omega arith;
          first-lt = omega arith;
          len-lt = omega arith;
          words = refl;
        },
        tt,
      )
      refl (omega arith) (omega arith) refl

abbrev one_entry : List ℕ
one_entry = encode (delayed ∷ []) ++ replicate 1012 255

-- The only entry stands at 0, and has a length of 4.
entry_at :
    (off tag len : ℕ)
    → (off ≡ 0) ⊎ (off ≡ 12)
    → load32 one_entry off ≡ some tag
    → tag ≢ no_tag
    → load32 one_entry (off + 4) ≡ some len
    → (off ≡ 0) × (len ≡ 4)
entry_at off tag len (inl z) t ne l =
    let four : load32 one_entry (0 + 4) ≡ some 4 = refl in
    let at : load32 one_entry (off + 4) ≡ load32 one_entry (0 + 4) =
      ap (λ o. load32 one_entry (o + 4)) z in
    (z, cc)
entry_at off tag len (inr z) t ne l =
    let ends : load32 one_entry 12 ≡ some no_tag = refl in
    let at : load32 one_entry off ≡ load32 one_entry 12 = ap (load32 one_entry) z in
    let same : tag ≡ no_tag = cc in absurd (ne same)

visited : (off : ℕ) → Visits one_entry off → (off ≡ 0) ⊎ (off ≡ 12)
unfolding round_up
visited off first = inl refl
visited off (next o tag len v t ne l) =
    let (z, four) = entry_at o tag len (visited o v) t ne l in
    inr (ap₂ (λ a b. u32 (a + 8 + round_up b)) z four)

one_entry-ShortLengths : ShortLengths one_entry
one_entry-ShortLengths off tag len v t ne l =
    let (z, four) = entry_at off tag len (visited off v) t ne l in omega arith

parse_loop_terminates_example : parse_loop parse_fuel one_entry initial_config 0 ≢ parse_no_fuel
parse_loop_terminates_example =
    parse_loop_terminates one_entry initial_config one_entry-ShortLengths
