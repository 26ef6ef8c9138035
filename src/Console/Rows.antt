-- ===== src/Console/Rows.antt =====
-- What `NetDumpHex` shows: rows of 16 bytes.
use panog2_ldr.Base.{
  ℕ, zero, suc, ◌+◌, ◌-◌, ◌*◌, ◌^◌, ◌≤◌, ◌<◌, ◌≡◌, refl, sym, ap, ◌∙◌, arith, Bool, true, false,
  List, [], ◌∷◌, ◌++◌, length, take, drop, ◌==◌, if◌then◌else◌, u32, ne→==, lt→ltb, length-take,
  length-drop,
}
use native.Mathlib.Decide.{dec_lt}
use panog2_ldr.Console.{
  Console, Dump, hex, two_spaces, dump_lead, dump_bytes, dump_end, net_dump_hex,
}

-- The texts of the bytes of a row behind the first, and of a row: its address, and its bytes.
abbrev pub more_bytes : List ℕ → List (List ℕ)
more_bytes [] = []
more_bytes (b ∷ bs) = (32 ∷ []) ∷ hex 2 b ∷ more_bytes bs

abbrev pub open_row : ℕ → List ℕ → List (List ℕ)
open_row adr [] = []
open_row adr (b ∷ bs) = hex 8 adr ∷ two_spaces ∷ hex 2 b ∷ more_bytes bs

abbrev pub row : ℕ → List ℕ → List (List ℕ)
row adr bs = open_row adr bs ++ (10 ∷ []) ∷ []

-- `m` rows of 16 bytes, the last of which may be shorter.
unfoldable pub rows : ℕ → ℕ → List ℕ → List (List ℕ)
rows zero adr bs = []
rows (suc m) adr bs = row adr (take 16 bs) ++ rows m (adr + 16) (drop 16 bs)

split_row : (k : ℕ) (bs : List ℕ) → take k bs ++ drop k bs ≡ bs
split_row zero bs = refl
split_row (suc k) [] = refl
split_row (suc k) (b ∷ bs) = ap (λ t. b ∷ t) (split_row k bs)

take_all : (k : ℕ) (bs : List ℕ) → length bs ≤ k → take k bs ≡ bs
take_all zero [] h = refl
take_all zero (b ∷ bs) h = absurd (omega arith)
take_all (suc k) [] h = refl
take_all (suc k) (b ∷ bs) h = ap (λ t. b ∷ t) (take_all k bs (omega arith))

module _ (con : Console) where
  open con use {Net, puts, flush}

  -- Texts shown one after the other.
  unfoldable pub puts_all : List (List ℕ) → Net → Net
  puts_all [] n = n
  puts_all (t ∷ ts) n = puts_all ts (puts t n)

  pub puts_all-append :
      (xs ys : List (List ℕ)) (n : Net) → puts_all (xs ++ ys) n ≡ puts_all ys (puts_all xs n)
  unfolding puts_all
  puts_all-append [] ys n = refl
  puts_all-append (x ∷ xs) ys n = puts_all-append xs ys (puts x n)

  -- The line after `t` bytes: the 16th ends it.
  abbrev after : ℕ → Net → Dump Net
  after t n =
      if t == 16
      then record { bytes_on_line = 0; net = puts (10 ∷ []) n }
      else record { bytes_on_line = t; net = n }

  dump_bytes-more :
      (bs : List ℕ) (col adr : ℕ) (n : Net)
      → 0 < col
      → col < 16
      → col + length bs ≤ 16
      → dump_bytes con true adr bs (record { bytes_on_line = col; net = n })
        ≡ after (col + length bs) (puts_all (more_bytes bs) n)
  unfolding dump_bytes puts_all
  dump_bytes-more [] col adr n pos short fits =
      let here : col + 0 ≡ col = omega arith in
      sym (ap (λ t. after t n) here ∙ rw (ne→== col 16 (omega arith)) refl)
  dump_bytes-more (b ∷ []) col adr n pos short fits = rw (ne→== col 0 (omega arith)) refl
  dump_bytes-more (b ∷ x ∷ xs) col adr n pos short fits =
      let shown = puts (hex 2 b) (puts (32 ∷ []) n) in
      let rest = length xs in
      let next : col + 1 + suc rest ≡ col + suc (suc rest) = omega arith in
      rw (ne→== col 0 (omega arith), ne→== (col + 1) 16 (omega arith))
        (dump_bytes-more (x ∷ xs) (col + 1) (u32 (adr + 1)) shown (omega arith) (omega arith)
            (omega arith)
          ∙ ap (λ t. after t (puts_all (more_bytes (x ∷ xs)) shown)) next)

  -- From the start of a line.
  dump_bytes-row :
      (bs : List ℕ) (adr : ℕ) (n : Net)
      → 0 < length bs
      → length bs ≤ 16
      → dump_bytes con true adr bs (record { bytes_on_line = 0; net = n })
        ≡ after (length bs) (puts_all (open_row adr bs) n)
  unfolding dump_bytes puts_all
  dump_bytes-row [] adr n pos fits = absurd (omega arith)
  dump_bytes-row (b ∷ bs) adr n pos fits =
      let next : 1 + length bs ≡ suc (length bs) = omega arith in
      let shown = puts (hex 2 b) (puts two_spaces (puts (hex 8 adr) n)) in
      dump_bytes-more bs 1 (u32 (adr + 1)) shown (omega arith) (omega arith) (omega arith)
      ∙ ap (λ t. after t (puts_all (more_bytes bs) shown)) next

  pub dump_bytes-append :
      (xs ys : List ℕ) (adr next : ℕ) (d : Dump Net)
      → adr + length xs ≡ next
      → next < 2 ^ 32
      → dump_bytes con true adr (xs ++ ys) d
        ≡ dump_bytes con true next ys (dump_bytes con true adr xs d)
  unfolding dump_bytes
  dump_bytes-append [] ys adr next d e small =
      let here : adr ≡ next = omega arith in ap (λ a. dump_bytes con true a ys d) here
  dump_bytes-append (x ∷ xs) ys adr next d e small =
      dump_bytes-append xs ys (u32 (adr + 1)) next _ (omega arith) small

  row_text :
      (adr : ℕ) (bs : List ℕ) (n : Net)
      → puts (10 ∷ []) (puts_all (open_row adr bs) n) ≡ puts_all (row adr bs) n
  unfolding puts_all
  row_text adr bs n = sym (puts_all-append (open_row adr bs) ((10 ∷ []) ∷ []) n)

  last_row :
      (bs : List ℕ) (adr : ℕ) (n : Net)
      → 0 < length bs
      → length bs < 16
      → dump_end con (after (length bs) (puts_all (open_row adr bs) n))
        ≡ record { bytes_on_line = 0; net = flush (puts_all (row adr bs) n) }
  unfolding dump_end
  last_row bs adr n pos short =
      rw (ne→== (length bs) 16 (omega arith), lt→ltb 0 (length bs) pos)
        (ap (λ x. record { bytes_on_line = 0; net = flush x }) (row_text adr bs n))

  -- Bytes from the start of a line on, and the end of the dump: rows, each with its newline.
  pub dump_bytes-rows :
      (m adr : ℕ) (bs : List ℕ) (n : Net)
      → length bs ≤ 16 * m
      → 16 * m < length bs + 16
      → adr + length bs < 2 ^ 32
      → dump_end con (dump_bytes con true adr bs (record { bytes_on_line = 0; net = n }))
        ≡ record { bytes_on_line = 0; net = flush (puts_all (rows m adr bs) n) }
  unfolding dump_end rows puts_all dump_bytes
  dump_bytes-rows zero adr [] n h k small = refl
  dump_bytes-rows zero adr (b ∷ bs) n h k small = absurd (omega arith)
  dump_bytes-rows (suc m) adr bs n h k small = elim (dec_lt (length bs) 16) [
    | yes part ↦
        let single : m ≡ 0 = omega arith in
        ap (dump_end con) (dump_bytes-row bs adr n (omega arith) (omega arith))
        ∙ last_row bs adr n (omega arith) part
        ∙ ap (λ x. record { bytes_on_line = 0; net = flush x })
            (sym (
              puts_all-append (row adr (take 16 bs)) (rows m (adr + 16) (drop 16 bs)) n
              ∙ ap
                  (λ j.
                    puts_all (rows j (adr + 16) (drop 16 bs)) (puts_all (row adr (take 16 bs)) n))
                  single
              ∙ ap (λ t. puts_all (row adr t) n) (take_all 16 bs (omega arith))))
    | no full ↦
        let size : length (take 16 bs) ≡ 16 = length-take 16 bs ∙ omega arith in
        let behind : length (drop 16 bs) ≡ length bs - 16 = length-drop 16 bs in
        ap (λ t. dump_end con (dump_bytes con true adr t (record { bytes_on_line = 0; net = n })))
          (sym (split_row 16 bs))
        ∙ ap (dump_end con) (
            dump_bytes-append (take 16 bs) (drop 16 bs) adr (adr + 16) _ (omega arith) (omega arith)
            ∙ ap (dump_bytes con true (adr + 16) (drop 16 bs)) (
                dump_bytes-row (take 16 bs) adr n (omega arith) (omega arith)
                ∙ ap (λ t. after t (puts_all (open_row adr (take 16 bs)) n)) size
                ∙ ap (λ x. record { bytes_on_line = 0; net = x }) (row_text adr (take 16 bs) n)))
        ∙ dump_bytes-rows m (adr + 16) (drop 16 bs) (puts_all (row adr (take 16 bs)) n)
            (omega arith) (omega arith) (omega arith)
        ∙ ap (λ x. record { bytes_on_line = 0; net = flush x })
            (sym (puts_all-append (row adr (take 16 bs)) (rows m (adr + 16) (drop 16 bs)) n))
  ]

  -- The connection stays while texts are shown.
  abbrev pub Stays : Type 0
  Stays = (t : List ℕ) (n : Net) → con.connected n ≡ true → con.connected (puts t n) ≡ true

  dump_lead-connected :
      (stays : Stays) (adr : ℕ) (d : Dump Net)
      → con.connected d.net ≡ true
      → con.connected (dump_lead con true adr d) ≡ true
  dump_lead-connected stays adr d h =
      elim (d.bytes_on_line == 0)
        as (λ c.
          con.connected
            (if c then puts two_spaces (puts (hex 8 adr) d.net) else puts (32 ∷ []) d.net)
          ≡ true) [
            | true ↦ stays two_spaces (puts (hex 8 adr) d.net) (stays (hex 8 adr) d.net h)
            | false ↦ stays (32 ∷ []) d.net h
          ]

  either-connected :
      (c : Bool) (x y : Dump Net)
      → con.connected x.net ≡ true
      → con.connected y.net ≡ true
      → con.connected (if c then x else y).net ≡ true
  either-connected true x y h k = h
  either-connected false x y h k = k

  pub dump_bytes-connected :
      (stays : Stays) (bs : List ℕ) (adr : ℕ) (d : Dump Net)
      → con.connected d.net ≡ true
      → con.connected (dump_bytes con true adr bs d).net ≡ true
  unfolding dump_bytes
  dump_bytes-connected stays [] adr d h = h
  dump_bytes-connected stays (b ∷ bs) adr d h =
      let shown = puts (hex 2 b) (dump_lead con true adr d) in
      let byte : con.connected shown ≡ true =
        stays (hex 2 b) (dump_lead con true adr d) (dump_lead-connected stays adr d h) in
      dump_bytes-connected stays bs (u32 (adr + 1)) _ (
        either-connected (d.bytes_on_line + 1 == 16)
          (record { bytes_on_line = 0; net = puts (10 ∷ []) shown })
          (record { bytes_on_line = d.bytes_on_line + 1; net = shown }) (stays (10 ∷ []) shown byte)
          byte)

  pub dump_bytes-nil : (adr : ℕ) (d : Dump Net) → dump_bytes con true adr [] d ≡ d
  unfolding dump_bytes
  dump_bytes-nil adr d = refl

  -- `NetDumpHex` of bytes, and of none.
  pub net_dump_hex-bytes :
      (bs : List ℕ) (adr : ℕ) (d : Dump Net)
      → 0 < length bs
      → net_dump_hex con bs true adr d ≡ dump_bytes con true adr bs d
  unfolding net_dump_hex
  net_dump_hex-bytes [] adr d pos = absurd (omega arith)
  net_dump_hex-bytes (b ∷ bs) adr d pos = refl

  pub net_dump_hex-end : (adr : ℕ) (d : Dump Net) → net_dump_hex con [] true adr d ≡ dump_end con d
  unfolding net_dump_hex
  net_dump_hex-end adr d = refl
