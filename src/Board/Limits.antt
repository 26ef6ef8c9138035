-- ===== src/Board/Limits.antt =====
-- Where `ParseDataBlock` and `AddBoardInfo` stop: the loop's fuel, a full block, and the accesses past
-- the end of `gTemp`.
use panog2_ldr.Base.{
  returns, fault, ℕ, zero, suc, ◌+◌, ◌-◌, ◌*◌, ◌^◌, ◌≤◌, ◌<◌, ◌≡◌, ◌≢◌, inl, inr, refl, ◌∙◌, arith,
  List, none, some, length, le32, u32, ne→==, le→ltb, lt→ltb, Option-cases, [], ◌∷◌, drop,
  length-drop, length-append, bytes, ap, ◌++◌,
}
use panog2_ldr.Spi.{FlashInfo, Spi, IsNor}
use panog2_ldr.Board.{
  Config, Board, no_tag, temp_size, data_page_offset, round_up, load32, first_word, apply_tag,
  parse_no_fuel, parse_fault, parse_loop, parse_fuel, add_entry, add_board_info, finish_parse,
  parse_data_block,
}
use panog2_ldr.Board.Entries.{
  Entry, AreEntries, encode, apply_all, length-encode_ge, first_word-le32,
}
use panog2_ldr.Board.Parse.{parse_loop-entries}
use panog2_ldr.Board.Block.{HasBlock, block_start, Holds, start_lem, parsed, parse_data_block_lem}
use panog2_ldr.Board.Add.{add_board_info-step}

-- The offsets at which the loop looks for an entry.
pub data Visits (temp : List ℕ) : ℕ → Type 0 where
  first : Visits temp 0
  next :
      (off tag len : ℕ)
      → Visits temp off
      → load32 temp off ≡ some tag
      → tag ≢ no_tag
      → load32 temp (off + 4) ≡ some len
      → Visits temp (u32 (off + 8 + round_up len))

-- No entry that the loop comes to has a length of 2 ^ 31 or more.
abbrev pub ShortLengths : List ℕ → Type 0
ShortLengths temp =
    (off tag len : ℕ)
    → Visits temp off
    → load32 temp off ≡ some tag
    → tag ≢ no_tag
    → load32 temp (off + 4) ≡ some len
    → len < 2 ^ 31

round_up_bounds : (len : ℕ) → len < 2 ^ 31 → (len ≤ round_up len) × (round_up len ≤ len + 3)
unfolding round_up
round_up_bounds len h = ground arith

-- A loop that goes on has moved on past an entry.
went_on :
    (fuel off : ℕ) (temp : List ℕ) (c : Config)
    → parse_loop (suc fuel) temp c off ≡ parse_no_fuel
    → (tag : ℕ) × (len : ℕ) × (c' : Config) × (load32 temp off ≡ some tag)
      × (tag ≢ no_tag)
      × (load32 temp (off + 4) ≡ some len)
      × (u32 (off + 8 + round_up len) ≤ temp_size - 4)
      × (parse_loop fuel temp c' (u32 (off + 8 + round_up len)) ≡ parse_no_fuel)
unfolding parse_loop
went_on fuel off temp c h = elim (Option-cases (load32 temp off)) [
  | inl e ↦ ground arith
  | inr (tag, e) ↦ elim (Option-cases (load32 temp (off + 4))) [
    | inl e' ↦ ground arith
    | inr (len, e') ↦ elim (Option-cases (apply_tag tag (load32 temp (off + 8)) c)) [
      | inl e'' ↦ ground arith
      | inr (c', e'') ↦ (tag, len, c', e, (λ q. ground arith), e', ground arith, ground arith)
    ]
  ]
]

parse_loop-stops :
    (fuel off : ℕ) (temp : List ℕ) (c : Config)
    → ShortLengths temp
    → Visits temp off
    → temp_size ≤ off + 8 * fuel
    → off ≤ temp_size - 4
    → parse_loop (suc fuel) temp c off ≢ parse_no_fuel
parse_loop-stops zero off temp c short seen enough fits h = absurd (omega arith)
parse_loop-stops (suc fuel) off temp c short seen enough fits h =
    let (tag, len, c', t, ne, l, within, more) = went_on (suc fuel) off temp c h in
    let small = short off tag len seen t ne l in
    let bounds = round_up_bounds len small in
    parse_loop-stops fuel (u32 (off + 8 + round_up len)) temp c' short
      (next off tag len seen t ne l) (omega arith) within more

-- The fuel of `ParseDataBlock` is enough for every block, however damaged, in which the loop comes to no
-- entry with a length of 2 ^ 31 or more: the loop ends.
pub parse_loop_terminates :
    (temp : List ℕ) (c : Config)
    → ShortLengths temp
    → parse_loop parse_fuel temp c 0 ≢ parse_no_fuel
parse_loop_terminates temp c short =
    parse_loop-stops 128 0 temp c short first (omega arith) (omega arith)

-- The length 0xfffffff8 moves the pointer back to its own entry: whatever the fuel, the loop never ends.
pub parse_loop_hangs :
    (fuel off tag v : ℕ) (temp : List ℕ) (c : Config)
    → load32 temp off ≡ some tag
    → tag ≢ no_tag
    → load32 temp (off + 4) ≡ some (2 ^ 32 - 8)
    → load32 temp (off + 8) ≡ some v
    → off ≤ temp_size - 4
    → parse_loop fuel temp c off ≡ parse_no_fuel
unfolding parse_loop round_up apply_tag
parse_loop_hangs zero off tag v temp c t ne l lv fits = refl
parse_loop_hangs (suc fuel) off tag v temp c t ne l lv fits =
    let back : u32 (off + 8 + (2 ^ 32 - 8)) ≡ off = omega arith in
    elim (Option-cases (apply_tag tag (some v) c)) [
      | inl e ↦ ground arith
      | inr (c', e) ↦ ground (arith, parse_loop_hangs fuel off tag v temp c' t ne l lv fits)
    ]

no_length :
    (fuel off tag : ℕ) (temp : List ℕ) (c : Config)
    → load32 temp off ≡ some tag
    → tag ≢ no_tag
    → load32 temp (off + 4) ≡ none
    → parse_loop (suc fuel) temp c off ≡ parse_fault
unfolding parse_loop
no_length fuel off tag temp c t ne l = ground arith

-- Entries that fill the data block up to its last word, which is another tag: `ParseDataBlock`, from its
-- start on, walks over all of them, and then reads the length of the last one past the end of `gTemp`.
pub parse_data_block-overreads :
    (spi : Spi) (chip : FlashInfo) (b : Board spi.Flash) (es : List Entry) (tag : ℕ)
    → spi.info ≡ some chip
    → IsNor spi chip
    → HasBlock chip
    → AreEntries es
    → length (encode es) ≡ temp_size - 4
    → tag < 2 ^ 32
    → tag ≢ no_tag
    → bytes (spi.peek b.flash) (block_start chip) temp_size ≡ encode es ++ le32 tag
    → parse_data_block spi b ≡ fault
unfolding parse_data_block finish_parse
parse_data_block-overreads spi chip b es tag has nor geo entries full lt ne block =
    by_info ∙ ap (finish_parse spi chip (record b { temp = temp })) loop
  where
    temp : List ℕ
    temp = spi.read b.flash (data_page_offset chip) temp_size

    by_info :
        parse_data_block spi b
        ≡ finish_parse spi chip (record b { temp = temp }) (parse_loop parse_fuel temp b.config 0)
    by_info = rw has refl

    shape : temp ≡ encode es ++ le32 tag
    shape =
        ap (λ a. spi.read b.flash a temp_size) (omega (arith, geo.others, geo.small))
        ∙ nor.read_lem b.flash (block_start chip) temp_size (omega (arith, geo.room, geo.others))
        ∙ block

    nothing : (xs : List ℕ) → length xs ≡ 0 → first_word xs ≡ none
    nothing [] e = refl
    nothing (x ∷ xs) e = absurd (omega arith)

    past : load32 temp temp_size ≡ none
    past = nothing (drop temp_size temp) (
        omega (
          arith,
          length-drop temp_size temp,
          ap length shape,
          length-append (encode es) (le32 tag),
        ))

    loop : parse_loop parse_fuel temp b.config 0 ≡ parse_fault
    loop =
        let count = length-encode_ge es in
        let (walk, behind) =
          parse_loop-entries es parse_fuel (suc (parse_fuel - length es - 1)) 0 (temp_size - 4) temp
            (le32 tag) b.config entries (omega arith) shape (omega arith) (omega arith) in
        walk
        ∙ no_length (parse_fuel - length es - 1) (temp_size - 4) tag temp (apply_all es b.config)
            (ap first_word behind ∙ first_word-le32 tag [] lt) ne past

module _ (spi : Spi) (chip : FlashInfo) (has : spi.info ≡ some chip) (geo : HasBlock chip)
    (start : data_page_offset chip ≡ block_start chip) (tag v : ℕ) (b : Board spi.Flash) where
  at_lem :
      (off : ℕ)
      → off ≤ temp_size
      → u32 (block_start chip + off + 2 ^ 32 - data_page_offset chip) ≡ off
  at_lem off h = omega (arith, start, geo.small)

  add_entry-full :
      (off : ℕ)
      → temp_size < off + 16
      → off + 12 ≤ temp_size
      → add_entry spi chip tag (le32 v) (block_start chip + off) b ≡ returns b
  unfolding add_entry
  add_entry-full off p q =
      rw
        (
          ne→== (block_start chip + off) 0 (omega (arith, geo.others)),
          at_lem off (omega arith),
          lt→ltb (u32 (u32 (temp_size + 2 ^ 32 - off) + 2 ^ 32 - 12)) 4 (omega arith),
        )
        refl

  add_entry-overflows :
      (off : ℕ)
      → temp_size < off + 12
      → off ≤ temp_size
      → add_entry spi chip tag (le32 v) (block_start chip + off) b ≡ fault
  unfolding add_entry
  add_entry-overflows off p q =
      rw
        (
          ne→== (block_start chip + off) 0 (omega (arith, geo.others)),
          at_lem off q,
          le→ltb (u32 (u32 (temp_size + 2 ^ 32 - off) + 2 ^ 32 - 12)) 4 (omega arith),
          lt→ltb temp_size (off + 12) p,
        )
        refl

-- A block with three free words, room for exactly the entry but not for the word behind it, is full: the
-- setting is dropped, and only `gTemp` and the settings of the block are loaded.
pub add_board_info-full :
    (spi : Spi) (chip : FlashInfo) (b : Board spi.Flash) (es : List Entry) (free tag v : ℕ)
    (has : spi.info ≡ some chip) (nor : IsNor spi chip) (geo : HasBlock chip)
    → Holds spi chip b.flash es free
    → 12 ≤ free
    → free < 16
    → add_board_info spi tag (le32 v) b ≡ returns (parsed spi chip has nor geo es b)
add_board_info-full spi chip b es free tag v has nor geo h low high =
    let b1 = parsed spi chip has nor geo es b in
    let off = length (encode es) in
    add_board_info-step spi chip has tag v b b1 (block_start chip + off)
      (parse_data_block_lem spi chip has nor geo b es free h)
    ∙ add_entry-full spi chip has geo (start_lem spi chip has nor geo) tag v b1 off
        (omega (arith, h.size)) (omega (arith, h.size))

-- A block with one or two free words: the unsigned `BytesAvailable` wraps, the test passes, and the entry
-- is copied past the end of `gTemp`.
pub add_board_info-overflows :
    (spi : Spi) (chip : FlashInfo) (b : Board spi.Flash) (es : List Entry) (free tag v : ℕ)
    → spi.info ≡ some chip
    → IsNor spi chip
    → HasBlock chip
    → Holds spi chip b.flash es free
    → free < 12
    → add_board_info spi tag (le32 v) b ≡ fault
add_board_info-overflows spi chip b es free tag v has nor geo h low =
    let b1 = parsed spi chip has nor geo es b in
    let off = length (encode es) in
    add_board_info-step spi chip has tag v b b1 (block_start chip + off)
      (parse_data_block_lem spi chip has nor geo b es free h)
    ∙ add_entry-overflows spi chip has geo (start_lem spi chip has nor geo) tag v b1 off
        (omega (arith, h.size)) (omega (arith, h.size))
