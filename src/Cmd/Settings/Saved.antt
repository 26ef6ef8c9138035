-- ===== src/Cmd/Settings/Saved.antt =====
-- The command `autoboot` on a flash whose data block holds entries.
use panog2_ldr.Base.{
  ℕ, ◌-◌, ◌≤◌, ◌≡◌, refl, ap, ◌∙◌, arith, List, [], ◌∷◌, ◌++◌, Option, some, none, Outcome, returns,
  ◌>>=◌, le→ltb,
}
use panog2_ldr.Spi.{FlashInfo, Spi, IsNor}
use panog2_ldr.Board.{tag_auto_boot}
use panog2_ldr.Board.Entries.{Entry}
use panog2_ldr.Board.Block.{HasBlock, Holds}
use panog2_ldr.Board.Add.{word_entry, add_board_info_lem}
use panog2_ldr.Console.{Console, auto_boot_mode}
use panog2_ldr.Cmd.{Result, result_ok, result_bad_arg, Sys, Parser, say}
use panog2_ldr.Cmd.Settings.{
  board_of, with_board, add_info, show_auto_boot, auto_boot_arg, auto_boot_cmd,
}

module _ (spi : Spi) (con : Console) (parser : Parser) (chip : FlashInfo)
    (has : spi.info ≡ some chip) (nor : IsNor spi chip) (geo : HasBlock chip) where
  auto_boot_arg_le :
      (line : List ℕ) (mode : ℕ) → auto_boot_arg spi con parser line ≡ some mode → mode ≤ 2
  unfolding auto_boot_arg
  auto_boot_arg_le line mode e = grind arith

  show_auto_boot-mode :
      (mode : ℕ) (s : Sys spi.Flash con.Net)
      → mode ≤ 2
      → s.auto_boot ≡ mode
      → show_auto_boot spi con parser s
        ≡ returns (result_ok, say spi con parser s (con.print (auto_boot_mode mode) s.net))
  unfolding show_auto_boot
  show_auto_boot-mode mode s small e =
      simp (le→ltb 2 s.auto_boot (omega arith))
        (ap (λ m. returns (result_ok, say spi con parser s (con.print (auto_boot_mode m) s.net))) e)

  auto_boot_cmd-mode :
      (c : ℕ) (line : List ℕ) (mode : ℕ) (s : Sys spi.Flash con.Net)
      → auto_boot_arg spi con parser (c ∷ line) ≡ some mode
      → auto_boot_cmd spi con parser (c ∷ line) s
        ≡ (add_info spi con parser tag_auto_boot mode s >>= show_auto_boot spi con parser)
  unfolding auto_boot_cmd
  auto_boot_cmd-mode c line mode s arg = ap run arg
    where
      run : Option ℕ → Outcome (Result × Sys spi.Flash con.Net)
      run o = elim o [
        | none ↦ returns (result_bad_arg, s)
        | some m ↦ add_info spi con parser tag_auto_boot m s >>= show_auto_boot spi con parser
      ]

  pub auto_boot_cmd_lem :
      (c : ℕ) (line : List ℕ) (mode : ℕ) (s : Sys spi.Flash con.Net) (es : List Entry) (free : ℕ)
      → auto_boot_arg spi con parser (c ∷ line) ≡ some mode
      → Holds spi chip s.flash es free
      → 16 ≤ free
      → (s' : Sys spi.Flash con.Net) × (auto_boot_cmd spi con parser (c ∷ line) s
          ≡ returns (result_ok, s'))
        × Holds spi chip s'.flash (es ++ word_entry tag_auto_boot mode ∷ []) (free - 12)
        × (s'.net ≡ con.print (auto_boot_mode mode) s.net)
  unfolding add_info
  auto_boot_cmd_lem c line mode s es free arg h room =
      let small : mode ≤ 2 = auto_boot_arg_le (c ∷ line) mode arg in
      let (b, runs, config, holds, _) =
        add_board_info_lem spi chip (board_of spi con parser s) es free tag_auto_boot mode has nor
          geo h room (omega arith) (omega arith) (omega arith) in
      let s1 = with_board spi con parser s b in
      (
        say spi con parser s1 (con.print (auto_boot_mode mode) s.net),
        auto_boot_cmd-mode c line mode s arg
            ∙ (ap
                  (λ o.
                    (o >>= λ b'. returns (with_board spi con parser s b'))
                    >>= show_auto_boot spi con parser)
                  runs
                ∙ show_auto_boot-mode mode s1 small (ap (λ k. k.auto_boot) config)),
        holds,
        refl,
      )
