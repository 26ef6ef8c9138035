-- ===== src/Board/Parse.antt =====
-- `ParseDataBlock` on a block of entries: it finds them all, and the first free word.
use panog2_ldr.Base.{
  ℕ, zero, suc, ◌+◌, ◌-◌, ◌*◌, ◌≤◌, ◌<◌, ◌≡◌, ◌≢◌, refl, sym, ap, ap₂, ◌∙◌, arith, List, [], ◌∷◌,
  ◌++◌, some, length, length-append, drop, drop-drop, drop-append, le32, append_assoc, u32,
}
use panog2_ldr.Board.{Config, no_tag, round_up, first_word, load32, free_at, parse_loop, temp_size}
use panog2_ldr.Board.Entries.{
  Entry, AreEntries, encode, encode_entry, apply_entry, apply_all, length-encode_entry,
  first_word-le32, apply_tag_lem,
}

-- One entry.
parse_loop-entry :
    (fuel off next : ℕ) (temp : List ℕ) (c : Config) (e : Entry)
    → load32 temp off ≡ some e.tag
    → load32 temp (off + 4) ≡ some e.len
    → load32 temp (off + 8) ≡ some e.first
    → e.tag ≢ no_tag
    → u32 (off + 8 + round_up e.len) ≡ next
    → next ≤ temp_size - 4
    → parse_loop (suc fuel) temp c off ≡ parse_loop fuel temp (apply_entry e c) next
unfolding parse_loop
parse_loop-entry fuel off next temp c e t l f ne to fits = ground (arith, apply_tag_lem e c)

parse_loop-end :
    (fuel off : ℕ) (temp : List ℕ) (c : Config)
    → load32 temp off ≡ some no_tag
    → parse_loop (suc fuel) temp c off ≡ free_at c off
unfolding parse_loop
parse_loop-end fuel off temp c e = ground arith

-- What a block with erased bytes behind its entries holds from some offset on.
abbrev pub free_word : List ℕ
free_word = le32 no_tag

-- The loop walks over entries, whatever stands behind them.
pub parse_loop-entries :
    (es : List Entry) (k fuel off end : ℕ) (temp rest : List ℕ) (c : Config)
    → AreEntries es
    → k ≡ length es + fuel
    → drop off temp ≡ encode es ++ rest
    → off + length (encode es) ≡ end
    → end ≤ temp_size - 4
    → (parse_loop k temp c off ≡ parse_loop fuel temp (apply_all es c) end) × (drop end temp ≡ rest)
parse_loop-entries [] k fuel off end temp rest c v h d e fits =
    let here : off ≡ end = omega arith in
    let same : k ≡ fuel = omega arith in
    (ap₂ (λ n at. parse_loop n temp c at) same here, ap (λ at. drop at temp) (sym here) ∙ d)
parse_loop-entries (x ∷ es) zero fuel off end temp rest c v h d e fits = absurd (omega arith)
parse_loop-entries (x ∷ es) (suc k) fuel off end temp rest c v h d e fits =
    let (walk, behind) =
      parse_loop-entries es k fuel next end temp rest (apply_entry x c) v.1 (omega arith) later
        (omega (arith, whole, size)) fits in
    (
      parse_loop-entry k off next temp c x tag len first v.0.tag-ne
            (omega (arith, v.0.words, whole, size)) (omega (arith, whole, size))
          ∙ walk,
      behind,
    )
  where
    size : length (encode_entry x) ≡ 12 + 4 * length x.more
    size = length-encode_entry x

    whole : length (encode (x ∷ es)) ≡ length (encode_entry x) + length (encode es)
    whole = length-append (encode_entry x) (encode es)

    next : ℕ
    next = off + (12 + 4 * length x.more)

    block : List ℕ
    block = encode es ++ rest

    d' : drop off temp ≡ encode_entry x ++ block
    d' = d ∙ append_assoc (encode_entry x) (encode es) rest

    tag : load32 temp off ≡ some x.tag
    tag = ap first_word d' ∙ first_word-le32 x.tag [] v.0.tag-lt

    len : load32 temp (off + 4) ≡ some x.len
    len =
        ap first_word (sym (drop-drop off 4 (off + 4) temp refl) ∙ ap (drop 4) d')
        ∙ first_word-le32 x.len [] (omega (arith, v.0.len-lt))

    first : load32 temp (off + 8) ≡ some x.first
    first =
        ap first_word (sym (drop-drop off 8 (off + 8) temp refl) ∙ ap (drop 8) d')
        ∙ first_word-le32 x.first [] v.0.first-lt

    later : drop next temp ≡ block
    later =
        sym (drop-drop off (12 + 4 * length x.more) next temp refl)
        ∙ ap (drop (12 + 4 * length x.more)) d'
        ∙ drop-append (encode_entry x) block (12 + 4 * length x.more) size

-- Erased bytes behind the entries end it.
pub parse_loop_lem :
    (es : List Entry) (fuel off end : ℕ) (temp rest : List ℕ) (c : Config)
    → AreEntries es
    → length es < fuel
    → drop off temp ≡ encode es ++ (free_word ++ rest)
    → off + length (encode es) ≡ end
    → end ≤ temp_size - 4
    → parse_loop fuel temp c off ≡ free_at (apply_all es c) end
parse_loop_lem es fuel off end temp rest c v h d e fits =
    let (walk, behind) =
      parse_loop-entries es fuel (suc (fuel - length es - 1)) off end temp (free_word ++ rest) c v
        (omega arith) d e fits in
    walk ∙ parse_loop-end (fuel - length es - 1) end temp (apply_all es c) (ap first_word behind)
