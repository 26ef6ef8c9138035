-- ===== src/Board/Entries.antt =====
-- What a data block means: a list of entries, and the bytes that stand for it.
use panog2_ldr.Base.{
  ℕ, ◌+◌, ◌*◌, ◌^◌, ◌≤◌, ◌<◌, ◌≡◌, ◌≢◌, refl, sym, ap, ◌∙◌, arith, List, [], ◌∷◌, ◌++◌, some,
  length, length-append, le32, ◌==◌, if◌then◌else◌, append_assoc,
}
use panog2_ldr.Board.{
  Config, tag_auto_boot, tag_auto_boot_adr, tag_tftp_srv, no_tag, round_up, first_word, apply_tag,
}

-- An entry whose value is not empty: `len` bytes, in the words `first` and `more`.
pub record Entry : Type 0 where
  pub tag : ℕ
  pub len : ℕ
  pub first : ℕ
  pub more : List ℕ

pub record IsEntry (e : Entry) : Type 0 where
  pub tag-lt : e.tag < 2 ^ 32
  pub tag-ne : e.tag ≢ no_tag
  pub first-lt : e.first < 2 ^ 32
  pub len-lt : e.len < 2 ^ 31
  pub words : round_up e.len ≡ 4 + 4 * length e.more

abbrev pub AreEntries : List Entry → Type 0
AreEntries [] = Unit
AreEntries (e ∷ es) = IsEntry e × AreEntries es

abbrev pub encode_words : List ℕ → List ℕ
encode_words [] = []
encode_words (w ∷ ws) = le32 w ++ encode_words ws

abbrev pub encode_entry : Entry → List ℕ
encode_entry e = le32 e.tag ++ (le32 e.len ++ (le32 e.first ++ encode_words e.more))

abbrev pub encode : List Entry → List ℕ
encode [] = []
encode (e ∷ es) = encode_entry e ++ encode es

-- The setting that an entry changes; an unknown tag changes none.
abbrev pub apply_entry : Entry → Config → Config
apply_entry e config =
    if e.tag == tag_auto_boot
    then record config { auto_boot = e.first }
    else if e.tag == tag_auto_boot_adr
    then record config { auto_boot_adr = e.first }
    else if e.tag == tag_tftp_srv
    then record config { server_ip = e.first }
    else config

-- The entries in order: the last one of a tag counts.
abbrev pub apply_all : List Entry → Config → Config
apply_all [] config = config
apply_all (e ∷ es) config = apply_all es (apply_entry e config)

pub length-encode_words : (ws : List ℕ) → length (encode_words ws) ≡ 4 * length ws
length-encode_words [] = refl
length-encode_words (w ∷ ws) = omega (arith, length-encode_words ws)

pub length-encode_entry : (e : Entry) → length (encode_entry e) ≡ 12 + 4 * length e.more
length-encode_entry e = omega (arith, length-encode_words e.more)

pub length-encode_ge : (es : List Entry) → 12 * length es ≤ length (encode es)
length-encode_ge [] = omega arith
length-encode_ge (e ∷ es) =
    omega (
      arith,
      length-append (encode_entry e) (encode es),
      length-encode_entry e,
      length-encode_ge es,
    )

pub encode-append : (es ds : List Entry) → encode (es ++ ds) ≡ encode es ++ encode ds
encode-append [] ds = refl
encode-append (e ∷ es) ds =
    ap (λ t. encode_entry e ++ t) (encode-append es ds)
    ∙ sym (append_assoc (encode_entry e) (encode es) (encode ds))

pub apply_all-append :
    (es ds : List Entry) (c : Config) → apply_all (es ++ ds) c ≡ apply_all ds (apply_all es c)
apply_all-append [] ds c = refl
apply_all-append (e ∷ es) ds c = apply_all-append es ds (apply_entry e c)

-- Reading back a stored word.
pub first_word-le32 : (v : ℕ) (rest : List ℕ) → v < 2 ^ 32 → first_word (le32 v ++ rest) ≡ some v
first_word-le32 v rest h = ap some (omega arith)

pub apply_tag_lem :
    (e : Entry) (c : Config) → apply_tag e.tag (some e.first) c ≡ some (apply_entry e c)
unfolding apply_tag
apply_tag_lem e c = ground arith

pub AreEntries-append : (es ds : List Entry) → AreEntries es → AreEntries ds → AreEntries (es ++ ds)
AreEntries-append [] ds h k = k
AreEntries-append (e ∷ es) ds h k = (h.0, AreEntries-append es ds h.1 k)
