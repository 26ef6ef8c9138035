-- ===== src/Board/Store.antt =====
-- The data block as a map from tags to words: what a series of `AddBoardInfo` calls means.
use panog2_ldr.Base.{
  ℕ, ◌+◌, ◌-◌, ◌*◌, ◌^◌, ◌≤◌, ◌<◌, ◌≡◌, ◌≢◌, refl, subst, ap, ◌∙◌, arith, List, [], ◌∷◌, ◌++◌,
  Option, some, length, le32, ◌==◌, if◌then◌else◌, Outcome, returns, ◌>>=◌,
}
use panog2_ldr.Spi.{FlashInfo, Spi, IsNor}
use panog2_ldr.Board.{
  Board, Config, tag_auto_boot, tag_auto_boot_adr, tag_tftp_srv, no_tag, add_board_info,
  parse_data_block,
}
use panog2_ldr.Board.Entries.{Entry}
use panog2_ldr.Board.Settings.{last_value, or_old, apply_all-eq-settings}
use panog2_ldr.Board.Block.{HasBlock, Holds, parse_data_block_lem}
use panog2_ldr.Board.Add.{word_entry, add_board_info_lem}

-- The abstract store: the word of each tag, where it has one.
abbrev pub Store : Type 0
Store = ℕ → Option ℕ

pub put : ℕ → ℕ → Store → Store
put tag v m t = if tag == t then some v else m t

pub puts : List (ℕ × ℕ) → Store → Store
puts [] m = m
puts ((tag, v) ∷ ws) m = puts ws (put tag v m)

-- The settings that a store gives over the defaults.
abbrev pub settings_of : Store → Config → Config
settings_of m c = record {
  auto_boot = or_old (m tag_auto_boot) c.auto_boot;
  auto_boot_adr = or_old (m tag_auto_boot_adr) c.auto_boot_adr;
  server_ip = or_old (m tag_tftp_srv) c.server_ip;
}

-- What the entries of a block stand for.
abbrev pub store_of : List Entry → Store
store_of es t = last_value t es

-- A series of `AddBoardInfo` calls with a word each.
pub add_all : (spi : Spi) → List (ℕ × ℕ) → Board spi.Flash → Outcome (Board spi.Flash)
add_all spi [] b = returns b
add_all spi ((tag, v) ∷ ws) b = add_board_info spi tag (le32 v) b >>= add_all spi ws

abbrev pub AreWords : List (ℕ × ℕ) → Type 0
AreWords [] = Unit
AreWords ((tag, v) ∷ ws) = (tag < 2 ^ 32) × (tag ≢ no_tag) × (v < 2 ^ 32) × AreWords ws

last_value-append :
    (es : List Entry) (tag v t : ℕ)
    → last_value t (es ++ word_entry tag v ∷ []) ≡ put tag v (store_of es) t
unfolding put
last_value-append [] tag v t = refl
last_value-append (e ∷ es) tag v t = ground (arith, last_value-append es tag v t)

pub store_of-put :
    (es : List Entry) (tag v : ℕ) → store_of (es ++ word_entry tag v ∷ []) ≡ put tag v (store_of es)
store_of-put es tag v i t = last_value-append es tag v t i

-- A series of `AddBoardInfo` calls refines the updates of the map: on a block with a free word behind the
-- room that the entries take, all calls end well, the block then stands for the updated map, and at any
-- later start `ParseDataBlock` gives exactly the settings of that map over the defaults, however the
-- entries are ordered and repeated.
pub add_all-refines :
    (spi : Spi) (chip : FlashInfo) (ws : List (ℕ × ℕ)) (b : Board spi.Flash) (es : List Entry)
    (free : ℕ)
    → spi.info ≡ some chip
    → IsNor spi chip
    → HasBlock chip
    → Holds spi chip b.flash es free
    → 12 * length ws + 4 ≤ free
    → AreWords ws
    → (b' : Board spi.Flash) × (es' : List Entry) × (add_all spi ws b ≡ returns b')
      × Holds spi chip b'.flash es' (free - 12 * length ws)
      × (store_of es' ≡ puts ws (store_of es))
      × ((c : Config) (temp : List ℕ)
          → (at : ℕ) × (next : Board spi.Flash) × (parse_data_block spi
                (record { config = c; temp = temp; flash = b'.flash })
              ≡ returns (at, next))
            × (next.config ≡ settings_of (puts ws (store_of es)) c))
unfolding add_all puts
add_all-refines spi chip [] b es free has nor geo h room ok = (
  b,
  es,
  refl,
  subst (Holds spi chip b.flash es) (omega arith) h,
  refl,
  λ c temp. (
    _,
    _,
    parse_data_block_lem spi chip has nor geo (record { config = c; temp = temp; flash = b.flash })
        es free h,
    apply_all-eq-settings es c,
  ),
)
add_all-refines spi chip ((tag, v) ∷ ws) b es free has nor geo h room (ht, ne, hv, ok) =
    let (b1, e, _, holds, _) =
      add_board_info_lem spi chip b es free tag v has nor geo h (omega arith) ht ne hv in
    let (b', es', run, holds', same, reads) =
      add_all-refines spi chip ws b1 (es ++ word_entry tag v ∷ []) (free - 12) has nor geo holds
        (omega arith) ok in
    (
      b',
      es',
      ap (λ o. o >>= add_all spi ws) e ∙ run,
      subst (Holds spi chip b'.flash es') (omega arith) holds',
      same ∙ ap (puts ws) (store_of-put es tag v),
      λ c temp.
          let (at, next, parses, config) = reads c temp in
          (at, next, parses, config ∙ ap (λ m. settings_of (puts ws m) c) (store_of-put es tag v)),
    )
