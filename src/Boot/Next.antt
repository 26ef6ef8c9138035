-- ===== src/Boot/Next.antt =====
-- The next start after the command `autoboot`.
use panog2_ldr.Base.{
  ℕ, ◌-◌, ◌≤◌, ◌≡◌, refl, ap, ◌∙◌, true, List, [], ◌∷◌, ◌++◌, some, returns, ◌>>=◌,
}
use panog2_ldr.Spi.{FlashInfo, Spi, IsNor}
use panog2_ldr.Board.{initial_config, tag_auto_boot}
use panog2_ldr.Board.Entries.{Entry, apply_all, apply_entry, apply_all-append}
use panog2_ldr.Board.Block.{HasBlock, Holds, parsed, parse_data_block_lem}
use panog2_ldr.Board.Add.{word_entry}
use panog2_ldr.Console.{Console, auto_boot_mode}
use panog2_ldr.Cmd.{result_ok, Sys, Parser}
use panog2_ldr.Cmd.Settings.{board_of, with_board, auto_boot_arg, auto_boot_cmd}
use panog2_ldr.Cmd.Settings.Saved.{auto_boot_cmd_lem}
use panog2_ldr.Boot.{Sample, decide, power_up, start_up, init_leds}

module _ (spi : Spi) (con : Console) (parser : Parser) (chip : FlashInfo)
    (has : spi.info ≡ some chip) (nor : IsNor spi chip) (geo : HasBlock chip) where
  -- `start_up` of a block of entries: the LED registers, the block's settings, and the decision.
  pub start_up_lem :
      (direction : ℕ) (samples : List Sample) (s : Sys spi.Flash con.Net) (es : List Entry)
      (free : ℕ)
      → Holds spi chip s.flash es free
      → (s' : Sys spi.Flash con.Net) × (start_up spi con parser direction samples s
          ≡ decide samples s')
        × (s'.auto_boot ≡ (apply_all es (board_of spi con parser s).config).auto_boot)
        × (s'.auto_boot_adr ≡ (apply_all es (board_of spi con parser s).config).auto_boot_adr)
        × (s'.flash ≡ s.flash)
  unfolding start_up init_leds
  start_up_lem direction samples s es free h =
      let e = init_leds direction (record s { ldr = record s.ldr { auto_erase = true } }) in
      (
        with_board spi con parser e (parsed spi chip has nor geo es (board_of spi con parser e)),
        ap (λ r. r >>= λ (_, b). decide samples (with_board spi con parser e b))
            (parse_data_block_lem spi chip has nor geo (board_of spi con parser e) es free h),
        refl,
        refl,
        refl,
      )

-- `autoboot` with an argument that names a mode, on a data block with four free words or more, answers
-- RESULT_OK and prints the mode; whatever the button and the network do at the next power-up, `main` then
-- takes the boot decision in that mode, with the auto boot address of the block's last entry for it (the
-- golden image where it has none), on the flash that the command left.
pub next_start_lem :
    (spi : Spi) (con : Console) (parser : Parser) (chip : FlashInfo) (c : ℕ) (line : List ℕ)
    (mode : ℕ) (s : Sys spi.Flash con.Net) (es : List Entry) (free : ℕ)
    → spi.info ≡ some chip
    → IsNor spi chip
    → HasBlock chip
    → auto_boot_arg spi con parser (c ∷ line) ≡ some mode
    → Holds spi chip s.flash es free
    → 16 ≤ free
    → (s' : Sys spi.Flash con.Net) × (auto_boot_cmd spi con parser (c ∷ line) s
        ≡ returns (result_ok, s'))
      × (s'.net ≡ con.print (auto_boot_mode mode) s.net)
      × ((direction : ℕ) (samples : List Sample) (n : con.Net)
          → (t : Sys spi.Flash con.Net) × (start_up spi con parser direction samples
                (power_up n s'.flash)
              ≡ decide samples t)
            × (t.auto_boot ≡ mode)
            × (t.auto_boot_adr ≡ (apply_all es initial_config).auto_boot_adr)
            × (t.flash ≡ s'.flash))
unfolding power_up
next_start_lem spi con parser chip c line mode s es free has nor geo arg h room =
    let (s', runs, holds, shown) =
      auto_boot_cmd_lem spi con parser chip has nor geo c line mode s es free arg h room in
    let es' = es ++ word_entry tag_auto_boot mode ∷ [] in
    let last : apply_all es' initial_config
        ≡ apply_entry (word_entry tag_auto_boot mode) (apply_all es initial_config) =
      apply_all-append es (word_entry tag_auto_boot mode ∷ []) initial_config in
    (
      s',
      runs,
      shown,
      λ direction samples n.
          let (t, start, boot, adr, same) =
            start_up_lem spi con parser chip has nor geo direction samples (power_up n s'.flash) es'
              (free - 12) holds in
          (t, start, boot ∙ ap (λ k. k.auto_boot) last, adr ∙ ap (λ k. k.auto_boot_adr) last, same),
    )
