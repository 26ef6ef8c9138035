-- ===== src/Board/Add.antt =====
-- `AddBoardInfo` of a word on a flash whose last sector holds entries.
use panog2_ldr.Base.{
  Outcome, returns, fault, ◌>>=◌, ℕ, zero, suc, ◌+◌, ◌-◌, ◌^◌, ◌≤◌, ◌<◌, ◌≡◌, ◌≢◌, ◌⊎◌, inl, inr,
  refl, sym, ap, ap₂, ◌∙◌, arith, List, [], ◌∷◌, ◌++◌, append_assoc, some, bit_and, bit_and_ones,
  length, length-append, get_or, replicate, append_cancel_left, le32, bytes, length-bytes,
  bytes-add, bytes_ext, bytes_const, bytes_of_get_or, get_or-bytes, u32, put_at, none, Option,
  ne→==, le→ltb,
}
use panog2_ldr.Spi.{FlashInfo, Spi, IsNor}
use panog2_ldr.Board.{
  Board, no_tag, temp_size, data_page_offset, round_up, parse_data_block, new_entry, add_entry,
  add_board_info,
}
use panog2_ldr.Board.Entries.{
  Entry, IsEntry, encode, apply_entry, apply_all, encode-append, apply_all-append,
  AreEntries-append,
}
use panog2_ldr.Board.Settings.{apply_all_again}
use panog2_ldr.Board.Block.{HasBlock, block_start, Holds, start_lem, parsed, parse_data_block_lem}

IsBytes-le32 :
    (v : ℕ) (xs : List ℕ)
    → ((i : ℕ) → get_or xs i 0 < 256)
    → (i : ℕ) → get_or (le32 v ++ xs) i 0 < 256
IsBytes-le32 v xs hs zero = omega arith
IsBytes-le32 v xs hs (suc zero) = omega arith
IsBytes-le32 v xs hs (suc (suc zero)) = omega arith
IsBytes-le32 v xs hs (suc (suc (suc zero))) = omega arith
IsBytes-le32 v xs hs (suc (suc (suc (suc i)))) = hs i

get_or-replicate : (n v d i : ℕ) → i < n → get_or (replicate n v) i d ≡ v
get_or-replicate zero v d i h = absurd (omega arith)
get_or-replicate (suc n) v d zero h = refl
get_or-replicate (suc n) v d (suc i) h = get_or-replicate n v d i (omega arith)

-- The entry for a word.
abbrev pub word_entry : ℕ → ℕ → Entry
word_entry tag v = record { tag = tag; len = 4; first = v; more = [] }

word_entry-IsEntry :
    (tag v : ℕ) → tag < 2 ^ 32 → tag ≢ no_tag → v < 2 ^ 32 → IsEntry (word_entry tag v)
unfolding round_up
word_entry-IsEntry tag v h ne hv = record {
  tag-lt = h;
  tag-ne = ne;
  first-lt = hv;
  len-lt = omega arith;
  words = refl;
}

module _ (spi : Spi) (chip : FlashInfo) (nor : IsNor spi chip) (geo : HasBlock chip) (f : spi.Flash)
    (es : List Entry) (free : ℕ) (h : Holds spi chip f es free) (tag v : ℕ) where
  abbrev used : ℕ
  used = length (encode es)

  abbrev base : ℕ
  base = block_start chip

  -- The flash with the entry written to the first free word.
  abbrev with_entry : spi.Flash
  with_entry = spi.write f (base + used) (new_entry tag (le32 v))

  halves :
      (bytes (spi.peek f) base used ≡ encode es)
      × (bytes (spi.peek f) (base + used) free ≡ replicate free 255)
  halves = append_cancel_left (bytes (spi.peek f) base used) (encode es) _ _ (length-bytes _ _ _) (
      sym (bytes-add _ base (base + used) temp_size used refl free (omega (arith, h.size)))
      ∙ h.block)

  erased : (i : ℕ) → i < free → spi.peek f (base + used + i) ≡ 255
  erased i p =
      sym (get_or-bytes (spi.peek f) (base + used) free i p)
      ∙ ap (λ t. get_or t i 0) halves.1
      ∙ get_or-replicate free 255 0 i p

  module _ (room : 16 ≤ free) where
    inside : base + used + length (new_entry tag (le32 v)) ≤ chip.flash_size
    inside = omega (arith, geo.room, geo.others, h.size)

    old_bytes : bytes (spi.peek with_entry) base used ≡ encode es
    old_bytes =
        bytes_ext _ (spi.peek f) base used
          (λ x p q. nor.write_out f (base + used) x (new_entry tag (le32 v)) inside (inl q))
        ∙ halves.0

    new_byte :
        (i : ℕ)
        → i < 12
        → spi.peek with_entry (base + used + i) ≡ get_or (new_entry tag (le32 v)) i 0
    new_byte i p =
        nor.write_in f (base + used) (base + used + i) (new_entry tag (le32 v)) inside (omega arith)
          (omega arith)
        ∙ ap₂ bit_and (erased i (omega arith))
            (ap (λ t. get_or (new_entry tag (le32 v)) t 0) (omega arith))
        ∙ bit_and_ones _ (
            IsBytes-le32 tag (le32 4 ++ le32 v)
              (IsBytes-le32 4 (le32 v) (IsBytes-le32 v [] (λ j. omega arith))) i)

    new_bytes : bytes (spi.peek with_entry) (base + used) 12 ≡ new_entry tag (le32 v)
    new_bytes =
        bytes_of_get_or (spi.peek with_entry) (new_entry tag (le32 v)) (base + used) 12 refl
          new_byte

    free_bytes :
        bytes (spi.peek with_entry) (base + used + 12) (free - 12) ≡ replicate (free - 12) 255
    free_bytes = bytes_const _ 255 (base + used + 12) (free - 12) (λ x p q.
        nor.write_out f (base + used) x (new_entry tag (le32 v)) inside (inr (omega arith))
        ∙ ap (spi.peek f) (omega arith)
        ∙ erased (x - (base + used)) (omega arith))

    -- The written flash holds one entry more.
    pub with_entry-Holds :
        tag < 2 ^ 32
        → tag ≢ no_tag
        → v < 2 ^ 32
        → Holds spi chip with_entry (es ++ word_entry tag v ∷ []) (free - 12)
    with_entry-Holds ht ne hv = record {
      entries = AreEntries-append es _ h.entries (word_entry-IsEntry tag v ht ne hv, tt);
      block =
          bytes-add _ base (base + used) temp_size used refl free (omega (arith, h.size))
          ∙ ap₂ ◌++◌ old_bytes (
              bytes-add _ (base + used) (base + used + 12) free 12 refl (free - 12) (omega arith)
              ∙ ap₂ ◌++◌ new_bytes free_bytes)
          ∙ sym (append_assoc (encode es) (new_entry tag (le32 v)) (replicate (free - 12) 255))
          ∙ ap (λ t. t ++ replicate (free - 12) 255)
              (sym (encode-append es (word_entry tag v ∷ [])));
      size = omega (
        arith,
        h.size,
        ap length (encode-append es (word_entry tag v ∷ [])),
        length-append (encode es) (new_entry tag (le32 v)),
      );
      ends = omega arith;
    }

module _ (spi : Spi) (chip : FlashInfo) (has : spi.info ≡ some chip) (tag v : ℕ) where
  pub add_board_info-step :
      (b b1 : Board spi.Flash) (at : ℕ)
      → parse_data_block spi b ≡ returns (at, b1)
      → add_board_info spi tag (le32 v) b ≡ add_entry spi chip tag (le32 v) at b1
  unfolding add_board_info
  add_board_info-step b b1 at e =
      ap (λ r. r >>= λ (w, b'). after spi.info w b') e ∙ ap (λ o. after o at b1) has
    where
      after : Option FlashInfo → ℕ → Board spi.Flash → Outcome (Board spi.Flash)
      after o w b' = elim o [ none ↦ fault | some c ↦ add_entry spi c tag (le32 v) w b' ]

  module _ (geo : HasBlock chip) (b : Board spi.Flash) (off : ℕ)
      (start : data_page_offset chip ≡ block_start chip) where
    -- The entry is written, and the block read again.
    add_entry-fits :
        {w : ℕ} {b' : Board spi.Flash}
        → off + 16 ≤ temp_size
        → parse_data_block spi (record b {
          temp = put_at b.temp off (new_entry tag (le32 v));
          flash = spi.write b.flash (block_start chip + off) (new_entry tag (le32 v));
        })
          ≡ returns (w, b')
        → add_entry spi chip tag (le32 v) (block_start chip + off) b ≡ returns b'
    unfolding add_entry
    add_entry-fits {w} {b'} room e =
        rw
          (
            ne→== (block_start chip + off) 0 (omega (arith, geo.others)),
            at,
            le→ltb (u32 (u32 (temp_size + 2 ^ 32 - off) + 2 ^ 32 - 12)) 4 (omega arith),
            le→ltb temp_size (off + 12) (omega arith),
          )
          (ap (λ r. r >>= λ (n, c). returns c) e)
      where
        at : u32 (block_start chip + off + 2 ^ 32 - data_page_offset chip) ≡ off
        at = omega (arith, start, geo.small)

-- Adding a word to a block with four free words or more writes one entry behind the others and reads
-- the block again: the entry's setting gets the word and the others stay at their last entries; nothing
-- outside the block's first three free words changes, and the next call finds the entry in the block.
pub add_board_info_lem :
    (spi : Spi) (chip : FlashInfo) (b : Board spi.Flash) (es : List Entry) (free tag v : ℕ)
    → spi.info ≡ some chip
    → IsNor spi chip
    → HasBlock chip
    → Holds spi chip b.flash es free
    → 16 ≤ free
    → tag < 2 ^ 32
    → tag ≢ no_tag
    → v < 2 ^ 32
    → (b' : Board spi.Flash) × (add_board_info spi tag (le32 v) b ≡ returns b')
      × (b'.config ≡ apply_entry (word_entry tag v) (apply_all es b.config))
      × Holds spi chip b'.flash (es ++ word_entry tag v ∷ []) (free - 12)
      × ((x : ℕ)
          → (x < block_start chip + length (encode es))
            ⊎ (block_start chip + length (encode es) + 12 ≤ x)
          → spi.peek b'.flash x ≡ spi.peek b.flash x)
add_board_info_lem spi chip b es free tag v has nor geo h room ht ne hv =
    let b1 = parsed spi chip has nor geo es b in
    let f' = with_entry spi chip nor geo b.flash es free h tag v in
    let es' = es ++ word_entry tag v ∷ [] in
    let off = length (encode es) in
    let b2 : Board spi.Flash = record b1 {
      temp = put_at b1.temp off (new_entry tag (le32 v));
      flash = f';
    } in
    let holds = with_entry-Holds spi chip nor geo b.flash es free h tag v room ht ne hv in
    (
      parsed spi chip has nor geo es' b2,
      add_board_info-step spi chip has tag v b b1 (block_start chip + off)
            (parse_data_block_lem spi chip has nor geo b es free h)
          ∙ add_entry-fits spi chip has tag v geo b1 off (start_lem spi chip has nor geo)
              (omega (arith, h.size))
              (parse_data_block_lem spi chip has nor geo b2 es' (free - 12) holds),
      apply_all-append es (word_entry tag v ∷ []) (apply_all es b.config)
          ∙ ap (apply_entry (word_entry tag v)) (apply_all_again es b.config),
      holds,
      λ x p.
          nor.write_out b.flash (block_start chip + off) x (new_entry tag (le32 v))
            (omega (arith, h.size, geo.room, geo.others)) p,
    )
