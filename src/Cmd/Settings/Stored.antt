-- ===== src/Cmd/Settings/Stored.antt =====
-- The three commands that store a setting, on a flash whose data block holds entries.
use panog2_ldr.Base.{
  ℕ, ◌-◌, ◌^◌, ◌≤◌, ◌<◌, ◌≡◌, ◌≢◌, ap, ◌∙◌, arith, List, [], ◌∷◌, ◌++◌, Option, some, none, Outcome,
  returns, ◌>>=◌,
}
use panog2_ldr.Spi.{FlashInfo, Spi, IsNor}
use panog2_ldr.Board.{tag_auto_boot, tag_auto_boot_adr, tag_tftp_srv, no_tag}
use panog2_ldr.Board.Entries.{Entry}
use panog2_ldr.Board.Block.{HasBlock, Holds}
use panog2_ldr.Board.Add.{word_entry, add_board_info_lem}
use panog2_ldr.Console.{Console}
use panog2_ldr.Cmd.{Result, result_ok, result_bad_arg, Sys, Parser}
use panog2_ldr.Cmd.Settings.{
  board_of, with_board, add_info, auto_boot_arg, auto_boot_cmd, show_boot_adr, boot_adr_cmd,
  tftp_cmd,
}
use panog2_ldr.Cmd.Settings.Saved.{auto_boot_cmd_lem}

-- `autoboot`, `bootadr` and `tftp`.
pub data Setting : Type 0 where
  boot_mode boot_address tftp_server : Setting

abbrev pub tag_of : Setting → ℕ
tag_of boot_mode = tag_auto_boot
tag_of boot_address = tag_auto_boot_adr
tag_of tftp_server = tag_tftp_srv

module _ (spi : Spi) (con : Console) (parser : Parser) where
  -- The word that an argument names.
  abbrev pub value_of : Setting → List ℕ → Option ℕ
  value_of boot_mode line = auto_boot_arg spi con parser line
  value_of boot_address line = elim (parser.convert_value line) [
    | none ↦ none
    | some (adr, _) ↦ some adr
  ]
  value_of tftp_server line = parser.ip_addr line

  abbrev pub setting_cmd :
      Setting → List ℕ → Sys spi.Flash con.Net → Outcome (Result × Sys spi.Flash con.Net)
  setting_cmd boot_mode = auto_boot_cmd spi con parser
  setting_cmd boot_address = boot_adr_cmd spi con parser
  setting_cmd tftp_server = tftp_cmd spi con parser

  module _ (chip : FlashInfo) (has : spi.info ≡ some chip) (nor : IsNor spi chip)
      (geo : HasBlock chip) where
    add_info_lem :
        (tag v : ℕ) (s : Sys spi.Flash con.Net) (es : List Entry) (free : ℕ)
        → Holds spi chip s.flash es free
        → 16 ≤ free
        → tag < 2 ^ 32
        → tag ≢ no_tag
        → v < 2 ^ 32
        → (s' : Sys spi.Flash con.Net) × (add_info spi con parser tag v s ≡ returns s')
          × Holds spi chip s'.flash (es ++ word_entry tag v ∷ []) (free - 12)
    unfolding add_info
    add_info_lem tag v s es free h room ht ne hv =
        let (b, runs, _, holds, _) =
          add_board_info_lem spi chip (board_of spi con parser s) es free tag v has nor geo h room
            ht ne hv in
        (
          with_board spi con parser s b,
          ap (λ o. o >>= λ b'. returns (with_board spi con parser s b')) runs,
          holds,
        )

    -- A command whose argument names a word adds an entry with its tag.
    pub setting_cmd_lem :
        (k : Setting) (c : ℕ) (line : List ℕ) (v : ℕ) (s : Sys spi.Flash con.Net) (es : List Entry)
        (free : ℕ)
        → value_of k (c ∷ line) ≡ some v
        → v < 2 ^ 32
        → Holds spi chip s.flash es free
        → 16 ≤ free
        → (s' : Sys spi.Flash con.Net) × (setting_cmd k (c ∷ line) s ≡ returns (result_ok, s'))
          × Holds spi chip s'.flash (es ++ word_entry (tag_of k) v ∷ []) (free - 12)
    unfolding boot_adr_cmd tftp_cmd
    setting_cmd_lem boot_mode c line v s es free arg hv h room =
        let (s', runs, holds, _) =
          auto_boot_cmd_lem spi con parser chip has nor geo c line v s es free arg h room in
        (s', runs, holds)
    setting_cmd_lem boot_address c line v s es free arg hv h room =
        let (s', runs, holds) =
          add_info_lem tag_auto_boot_adr v s es free h room (omega arith) (omega arith) hv in
        (
          (show_boot_adr spi con parser s').1,
          by_value (parser.convert_value (c ∷ line)) arg
              ∙ ap (λ o. o >>= λ t. returns (show_boot_adr spi con parser t)) runs,
          holds,
        )
      where
        run : Option (ℕ × List ℕ) → Outcome (Result × Sys spi.Flash con.Net)
        run o = elim o [
          | none ↦ returns (result_bad_arg, s)
          | some (adr, rest) ↦ add_info spi con parser tag_auto_boot_adr adr s >>= λ t.
              returns (show_boot_adr spi con parser t)
        ]

        by_value :
            (o : Option (ℕ × List ℕ))
            → elim o [ none ↦ none | some (adr, _) ↦ some adr ] ≡ some v
            → run o ≡ (
                add_info spi con parser tag_auto_boot_adr v s >>= λ t.
                returns (show_boot_adr spi con parser t))
        by_value none e = cc
        by_value (some (adr, rest)) e =
            ap
              (λ (m : ℕ). add_info spi con parser tag_auto_boot_adr m s >>= λ t.
                returns (show_boot_adr spi con parser t))
              (cc)
    setting_cmd_lem tftp_server c line v s es free arg hv h room =
        let (s', runs, holds) =
          add_info_lem tag_tftp_srv v s es free h room (omega arith) (omega arith) hv in
        (s', ap run arg ∙ ap (λ o. o >>= λ t. returns (result_ok, t)) runs, holds)
      where
        run : Option ℕ → Outcome (Result × Sys spi.Flash con.Net)
        run o = elim o [
          | none ↦ returns (result_bad_arg, s)
          | some ip ↦ add_info spi con parser tag_tftp_srv ip s >>= λ t. returns (result_ok, t)
        ]
