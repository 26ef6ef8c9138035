-- ===== src/Boot/Stored.antt =====
-- The next start after a command that stores a setting.
use panog2_ldr.Base.{
  ℕ, ◌-◌, ◌^◌, ◌≤◌, ◌<◌, ◌≡◌, ap, ◌∙◌, true, List, [], ◌∷◌, ◌++◌, some, returns, ◌>>=◌,
}
use panog2_ldr.Spi.{FlashInfo, Spi, IsNor}
use panog2_ldr.Board.{initial_config}
use panog2_ldr.Board.Entries.{Entry}
use panog2_ldr.Board.Settings.{apply_all-eq-settings}
use panog2_ldr.Board.Block.{HasBlock, Holds, parsed, parse_data_block_lem}
use panog2_ldr.Board.Add.{word_entry}
use panog2_ldr.Board.Store.{put, store_of, settings_of, store_of-put}
use panog2_ldr.Console.{Console}
use panog2_ldr.Cmd.{result_ok, Sys, Parser}
use panog2_ldr.Cmd.Settings.{board_of, with_board}
use panog2_ldr.Cmd.Settings.Stored.{Setting, tag_of, value_of, setting_cmd, setting_cmd_lem}
use panog2_ldr.Boot.{Sample, decide, power_up, start_up, init_leds}

module _ (spi : Spi) (con : Console) (parser : Parser) (chip : FlashInfo)
    (has : spi.info ≡ some chip) (nor : IsNor spi chip) (geo : HasBlock chip) where
  -- All settings of a start are those of the block.
  start_up-settings :
      (direction : ℕ) (samples : List Sample) (s : Sys spi.Flash con.Net) (es : List Entry)
      (free : ℕ)
      → Holds spi chip s.flash es free
      → (t : Sys spi.Flash con.Net) × (start_up spi con parser direction samples s
          ≡ decide samples t)
        × ((board_of spi con parser t).config
            ≡ settings_of (store_of es) (board_of spi con parser s).config)
  unfolding start_up init_leds
  start_up-settings direction samples s es free h =
      let e = init_leds direction (record s { ldr = record s.ldr { auto_erase = true } }) in
      (
        with_board spi con parser e (parsed spi chip has nor geo es (board_of spi con parser e)),
        ap (λ r. r >>= λ (_, b). decide samples (with_board spi con parser e b))
            (parse_data_block_lem spi chip has nor geo (board_of spi con parser e) es free h),
        apply_all-eq-settings es (board_of spi con parser s).config,
      )

  -- The next start has the settings of the block before, with the new word.
  pub next_start-setting :
      (k : Setting) (c : ℕ) (line : List ℕ) (v : ℕ) (s : Sys spi.Flash con.Net) (es : List Entry)
      (free : ℕ)
      → value_of spi con parser k (c ∷ line) ≡ some v
      → v < 2 ^ 32
      → Holds spi chip s.flash es free
      → 16 ≤ free
      → (s' : Sys spi.Flash con.Net) × (setting_cmd spi con parser k (c ∷ line) s
          ≡ returns (result_ok, s'))
        × ((direction : ℕ) (samples : List Sample) (n : con.Net)
            → (t : Sys spi.Flash con.Net) × (start_up spi con parser direction samples
                  (power_up n s'.flash)
                ≡ decide samples t)
              × ((board_of spi con parser t).config
                  ≡ settings_of (put (tag_of k) v (store_of es)) initial_config))
  unfolding power_up
  next_start-setting k c line v s es free arg hv h room =
      let (s', runs, holds) =
        setting_cmd_lem spi con parser chip has nor geo k c line v s es free arg hv h room in
      (
        s',
        runs,
        λ direction samples n.
            let (t, start, config) =
              start_up-settings direction samples (power_up n s'.flash)
                (es ++ word_entry (tag_of k) v ∷ []) (free - 12) holds in
            (
              t,
              start,
              config ∙ ap (λ m. settings_of m initial_config) (store_of-put es (tag_of k) v),
            ),
      )
