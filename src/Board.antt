-- ===== src/Board.antt =====
-- The data block of fw/pano_ldr/main.c: settings kept in the last erase sector of the flash, as
-- <tag> <length> <value> entries up to a word of ones (`ParseDataBlock`, `AddBoardInfo`, `CheckEmpty`).
pub mod Empty
pub mod Entries
pub mod Parse
pub mod Settings
pub mod Block
pub mod Add
pub mod Limits
pub mod Store
use panog2_ldr.Base.{
  Outcome, returns, fault, no_fuel, ◌>>=◌, ℕ, zero, suc, ◌+◌, ◌-◌, ◌*◌, ◌/◌, ◌%◌, ◌^◌, Bool, true,
  false, List, ◌∷◌, ◌++◌, Option, none, some, length, take, drop, replicate, put_at, le32, of_le32,
  ltb, ◌==◌, if◌then◌else◌, u32, same_bytes,
}
use panog2_ldr.Spi.{FlashInfo, Spi}

-- `sizeof(gTemp)`
abbrev pub temp_size : ℕ
temp_size = 1024

-- `Tag_t`
abbrev pub tag_auto_boot : ℕ
tag_auto_boot = 449220

abbrev pub tag_auto_boot_adr : ℕ
tag_auto_boot_adr = 449221

abbrev pub tag_tftp_srv : ℕ
tag_tftp_srv = 449222

-- The word that ends the entries: erased flash.
abbrev pub no_tag : ℕ
no_tag = 0xffff_ffff

-- `gAutoBoot`, `gAutoBootAdr` and `gTftp.ServerIP`.
pub record Config : Type 0 where
  pub auto_boot : ℕ
  pub auto_boot_adr : ℕ
  pub server_ip : ℕ

-- GOLDEN_IMAGE_ADR, and the values before the block is read.
abbrev pub golden_image_adr : ℕ
golden_image_adr = 0x40000

abbrev pub initial_config : Config
initial_config = record { auto_boot = 0; auto_boot_adr = golden_image_adr; server_ip = 0 }

-- What the functions below read and write: the settings, `gTemp`, and the flash.
pub record Board (F : Type 0) : Type 0 where
  pub config : Config
  pub temp : List ℕ
  pub flash : F

abbrev pub first_word : List ℕ → Option ℕ
first_word (a ∷ b ∷ c ∷ d ∷ rest) = some (of_le32 a b c d)
first_word _ = none

-- `*(uint32_t *) &gTemp[off]`
abbrev pub load32 : List ℕ → ℕ → Option ℕ
load32 temp off = first_word (drop off temp)

-- What the loop of `ParseDataBlock` ends with: the offset of the first free word, or `pU32 == NULL`.
pub data Parsed : Type 0 where
  free_at : Config → ℕ → Parsed
  invalid : Config → Parsed
  parse_fault parse_no_fuel : Parsed

-- A length rounded up to a multiple of four.
unfoldable pub round_up : ℕ → ℕ
round_up len = if len % 4 == 0 then len else u32 (len + (4 - len % 4))

-- The `switch` on the tag. `none` is a read outside `gTemp`.
pub apply_tag : ℕ → Option ℕ → Config → Option Config
apply_tag tag value config =
    if tag == tag_auto_boot
    then elim value [ none ↦ none | some v ↦ some (record config { auto_boot = v }) ]
    else if tag == tag_auto_boot_adr
    then elim value [ none ↦ none | some v ↦ some (record config { auto_boot_adr = v }) ]
    else if tag == tag_tftp_srv
    then elim value [ none ↦ none | some v ↦ some (record config { server_ip = v }) ]
    else some config

-- The loop, at offset `off` of `gTemp`.
pub parse_loop : ℕ → List ℕ → Config → ℕ → Parsed
parse_loop zero temp config off = parse_no_fuel
parse_loop (suc fuel) temp config off = elim (load32 temp off) [
  | none ↦ parse_fault
  | some tag ↦
      let entry : Parsed = elim (load32 temp (off + 4)) [
        | none ↦ parse_fault
        | some len ↦
            let next = u32 (off + 8 + round_up len) in
            let rest : Parsed = elim (apply_tag tag (load32 temp (off + 8)) config) [
              | none ↦ parse_fault
              | some config' ↦ parse_loop fuel temp config' next
            ] in
            if ltb (temp_size - 4) next then invalid config else rest
      ] in
      if tag == no_tag then free_at config off else entry
]

-- Each entry takes eight bytes or more, unless its length wraps.
abbrev pub parse_fuel : ℕ
parse_fuel = 129

-- `DataPageOffset`
abbrev pub data_page_offset : FlashInfo → ℕ
data_page_offset chip = u32 (chip.flash_size + 2 ^ 32 - chip.erase_size)

-- The bytes of a new entry.
abbrev pub new_entry : ℕ → List ℕ → List ℕ
new_entry tag value = le32 tag ++ le32 (length value) ++ value

module _ (spi : Spi) where
  open spi use {Flash, info, read, write}

  -- The loop of `CheckEmpty`, with `rounds` pages left: whether all of them equal the bytes behind the
  -- first page of `gTemp`, and what is left in `gTemp`.
  pub check_empty_loop : ℕ → ℕ → ℕ → List ℕ → Flash → Bool × List ℕ
  check_empty_loop zero adr page_size temp flash = (true, temp)
  check_empty_loop (suc rounds) adr page_size temp flash =
      let temp' = put_at (put_at temp 0 (replicate page_size 0xaa)) 0 (read flash adr page_size) in
      let rest = check_empty_loop rounds (u32 (adr + page_size)) page_size temp' flash in
      if same_bytes (take page_size temp') (take page_size (drop page_size temp'))
      then rest
      else (false, temp')

  -- `CheckEmpty`. `fault` is a page that does not fit `gTemp` twice.
  pub check_empty : ℕ → ℕ → ℕ → List ℕ → Flash → Outcome (Bool × List ℕ)
  check_empty adr page_size erase_size temp flash =
      if ltb temp_size (2 * page_size)
      then fault
      else returns (check_empty_loop (erase_size / page_size) adr page_size temp flash)

  -- What `ParseDataBlock` returns after its loop.
  pub finish_parse : FlashInfo → Board Flash → Parsed → Outcome (ℕ × Board Flash)
  finish_parse chip board (free_at config off) =
      returns (u32 (data_page_offset chip + off), record board { config = config })
  finish_parse chip board (invalid config) = do
    (empty, temp) ←
        check_empty (data_page_offset chip) chip.page_size chip.erase_size board.temp board.flash
    returns
        (if empty then data_page_offset chip else 0, record board { config = config; temp = temp })
  finish_parse chip board parse_fault = fault
  finish_parse chip board parse_no_fuel = no_fuel

  -- `ParseDataBlock`: the flash address of the first free word, or 0.
  pub parse_data_block : Board Flash → Outcome (ℕ × Board Flash)
  parse_data_block board = elim info [
    | none ↦ fault
    | some chip ↦
        let temp = read board.flash (data_page_offset chip) temp_size in
        finish_parse chip (record board { temp = temp }) (parse_loop parse_fuel temp board.config 0)
  ]

  -- `AddBoardInfo` after its first call of `ParseDataBlock`. `fault` is a `memcpy` past the end of
  -- `gTemp`.
  pub add_entry : FlashInfo → ℕ → List ℕ → ℕ → Board Flash → Outcome (Board Flash)
  add_entry chip tag value write_offset board =
      let entry_len = 4 * 2 + length value in
      let buf_offset = u32 (write_offset + 2 ^ 32 - data_page_offset chip) in
      let bytes_available = u32 (u32 (temp_size + 2 ^ 32 - buf_offset) + 2 ^ 32 - entry_len) in
      let written = record board {
        temp = put_at board.temp buf_offset (new_entry tag value);
        flash = write board.flash write_offset (new_entry tag value);
      } in
      let reload : Outcome (Board Flash) = do (_, board') ← parse_data_block written; returns board'
      in if write_offset == 0
        then returns board
        else if ltb bytes_available 4
        then returns board
        else if ltb temp_size (buf_offset + entry_len)
        then fault
        else reload

  -- `AddBoardInfo`
  pub add_board_info : ℕ → List ℕ → Board Flash → Outcome (Board Flash)
  add_board_info tag value board = do
    (write_offset, board') ← parse_data_block board
    elim info [ none ↦ fault | some chip ↦ add_entry chip tag value write_offset board' ]
