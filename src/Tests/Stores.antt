-- ===== src/Tests/Stores.antt =====
-- The theorem on a series of settings, at a concrete input.
use panog2_ldr.Base.{ℕ, ◌≡◌, refl, arith, List, [], ◌∷◌, returns}
use panog2_ldr.Spi.Nor.{Cells, cells_spi, cells_spi-IsNor}
use panog2_ldr.Board.{Board, Config, tag_auto_boot, tag_tftp_srv, parse_data_block}
use panog2_ldr.Board.Entries.{Entry}
use panog2_ldr.Board.Block.{Holds}
use panog2_ldr.Board.Store.{add_all, puts, store_of, settings_of, AreWords, add_all-refines}
use panog2_ldr.Tests.{block_chip, board}
use panog2_ldr.Tests.Entries.{block_chip-HasBlock, delayed, delayed_flash, delayed_flash-Holds}

-- The mode is set twice, and the server between.
abbrev three_words : List (ℕ × ℕ)
three_words = (tag_auto_boot, 1) ∷ (tag_tftp_srv, 5) ∷ (tag_auto_boot, 0) ∷ []

add_all_example :
    (b' : Board Cells) × (es' : List Entry) × (add_all
        (cells_spi block_chip)
        three_words
        (board delayed_flash)
      ≡ returns b')
    × Holds (cells_spi block_chip) block_chip b'.flash es' 976
    × (store_of es' ≡ puts three_words (store_of (delayed ∷ [])))
    × ((c : Config) (temp : List ℕ)
        → (at : ℕ) × (next : Board Cells) × (parse_data_block
              (cells_spi block_chip)
              (record { config = c; temp = temp; flash = b'.flash })
            ≡ returns (at, next))
          × (next.config ≡ settings_of (puts three_words (store_of (delayed ∷ []))) c))
add_all_example =
    add_all-refines (cells_spi block_chip) block_chip three_words (board delayed_flash)
      (delayed ∷ []) 1012 refl (cells_spi-IsNor block_chip) block_chip-HasBlock delayed_flash-Holds
      (omega arith) (omega arith, λ e. absurd (omega (arith, e)), omega arith, two)
  where
    one : AreWords ((tag_auto_boot, 0) ∷ [])
    one = (omega arith, λ e. absurd (omega (arith, e)), omega arith, tt)

    two : AreWords ((tag_tftp_srv, 5) ∷ (tag_auto_boot, 0) ∷ [])
    two = (omega arith, λ e. absurd (omega (arith, e)), omega arith, one)
