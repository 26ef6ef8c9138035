-- ===== src/Tftp.antt =====
-- fw/pano_ldr/tftp_ldr.h and tftp_ldr.c: the callbacks that lwIP's TFTP client calls during a
-- transfer, and `ldr_tftp_init`, which starts one.
pub mod Sector
pub mod Flash
pub mod Start
pub mod Save
pub mod Compare
pub mod Verify
pub mod Transfer
pub mod Straddle
pub mod Plain
pub mod Chain
use panog2_ldr.Base.{
  ℕ, suc, ◌+◌, ◌-◌, ◌*◌, ◌%◌, ◌^◌, Bool, true, false, ◌||◌, List, [], ◌∷◌, Option, none, some, ◌&&◌,
  not, length, take, set, put_at, ltb, ◌==◌, if◌then◌else◌, u16, u32, same_bytes,
}
use panog2_ldr.Spi.{FlashInfo, Spi}

-- `TransferType_t`. `unset` is the 0 of a static object, `other n` the value 5 + n.
pub data TransferType : Type 0 where
  unset type_ram type_flash type_compare type_save : TransferType
  other : ℕ → TransferType

abbrev pub type_code : TransferType → ℕ
type_code unset = 0
type_code type_ram = 1
type_code type_flash = 2
type_code type_compare = 3
type_code type_save = 4
type_code (other n) = 5 + n

-- TFTP_TYPE_LAST
abbrev pub type_last : ℕ
type_last = type_code type_save

-- `TransferResult_t`.
pub data TransferResult : Type 0 where
  tftp_ok err_buf_too_small err_compare_fail in_progress err_failed err_internal : TransferResult

abbrev pub is_in_progress : TransferResult → Bool
is_in_progress in_progress = true
is_in_progress _ = false

abbrev pub max_filename_len : ℕ
max_filename_len = 32

abbrev pub max_err_msg_len : ℕ
max_err_msg_len = 32

abbrev pub progress_size : ℕ
progress_size = 64 * 1024

abbrev pub invalid_flash_adr : ℕ
invalid_flash_adr = 0xffff_ffff

-- `tftp_ldr_internal` without the pointer `Ram`, whose bytes are in `Io`.
pub record Ldr : Type 0 where
  pub server_ip : ℕ
  pub filename : List ℕ
  pub err_msg : List ℕ
  pub bytes_transfered : ℕ
  pub max_bytes : ℕ
  pub send_len : ℕ
  pub transfer_type : TransferType
  pub flash_adr : ℕ
  pub last_erase_adr : ℕ
  pub last_progress : ℕ
  pub error : TransferResult
  pub auto_erase : Bool

-- What a callback reads and writes: the structure, the bytes at `p->Ram`, and the flash.
pub record Io (F : Type 0) : Type 0 where
  pub ldr : Ldr
  pub ram : List ℕ
  pub flash : F

abbrev pub set_error : {F : Type 0} → Io F → TransferResult → Io F
set_error io e = record io { ldr = record io.ldr { error = e } }

abbrev pub advance : {F : Type 0} → ℕ → Io F → Io F
advance n io = record io { ldr = record io.ldr { bytes_transfered = io.ldr.bytes_transfered + n } }

-- `struct pbuf`: the payloads of the chain, and `tot_len` of its first buffer.
pub record Pbuf : Type 0 where
  pub tot_len : ℕ
  pub chain : List (List ℕ)

-- The `int` that `tftp_write` returns: 0 or -1.
pub data Ret : Type 0 where
  good fail : Ret

-- The handle that `tftp_open` returns: NULL.
pub tftp_open : List ℕ → List ℕ → Bool → Option Ldr
tftp_open name mode is_write = none

unfoldable pub tftp_close : Ldr → Ldr
tftp_close p = if is_in_progress p.error then record p { error = tftp_ok } else p

-- How many leading bytes two buffers share (the loop that finds the point of failure).
pub match_len : List ℕ → List ℕ → ℕ
match_len [] ys = 0
match_len (x ∷ xs) [] = 0
match_len (x ∷ xs) (y ∷ ys) = let rest = match_len xs ys in if x == y then suc rest else 0

-- The address of the sector that holds `adr`.
abbrev pub sector_of : ℕ → ℕ → ℕ
sector_of erase_size adr = adr - adr % erase_size

-- The `Len` that `tftp_read` cuts down to what is left of the region.
abbrev pub send_size : ℕ → Ldr → ℕ
send_size len p =
    if ltb p.send_len (u32 (p.bytes_transfered + len))
    then u32 (p.send_len + 2 ^ 32 - p.bytes_transfered)
    else len

-- `bAutoErase && LastEraseAdr != EraseEnd`, for `len` bytes at `adr`.
unfoldable pub needs_erase : FlashInfo → ℕ → ℕ → Ldr → Bool
needs_erase chip adr len p =
    let last_adr = u32 (adr + len + 2 ^ 32 - 1) in
    let erase_end = sector_of chip.erase_size last_adr in
    p.auto_erase && not (p.last_erase_adr == erase_end)

-- The sector that is erased then.
unfoldable pub next_erase : FlashInfo → ℕ → Ldr → ℕ
next_erase chip adr p =
    if p.last_erase_adr == invalid_flash_adr
    then sector_of chip.erase_size adr
    else u32 (p.last_erase_adr + chip.erase_size)

module _ (spi : Spi) where
  open spi use {Flash, info, read, erase, write}

  -- `TFTP_TYPE_RAM`. `none` is a write past the end of the buffer.
  pub write_ram : ℕ → List ℕ → Io Flash → Option (Io Flash)
  write_ram total payload io =
      if ltb io.ldr.max_bytes (io.ldr.bytes_transfered + total)
      then some (set_error io err_buf_too_small)
      else if ltb (length io.ram) (io.ldr.bytes_transfered + length payload)
      then none
      else some (record io { ram = put_at io.ram io.ldr.bytes_transfered payload })

  -- The auto erase of `TFTP_TYPE_FLASH`: at most one sector for each buffer.
  unfoldable pub auto_erase_step : FlashInfo → ℕ → ℕ → Io Flash → Io Flash
  auto_erase_step chip adr len io =
      let next = next_erase chip adr io.ldr in
      if needs_erase chip adr len io.ldr
      then record io {
        ldr = record io.ldr { last_erase_adr = next };
        flash = erase io.flash next chip.erase_size;
      }
      else io

  -- `TFTP_TYPE_FLASH`. `none` is the use of a null `FlashInfo_t` pointer.
  unfoldable pub write_flash : ℕ → List ℕ → Io Flash → Option (Io Flash)
  write_flash adr payload io = elim info [
    | none ↦ none
    | some chip ↦
        let erased = auto_erase_step chip adr (length payload) io in
        some (record erased { flash = write erased.flash adr payload })
  ]

  -- `TFTP_TYPE_COMPARE`. `none` is a write past the end of the buffer.
  pub compare_flash : ℕ → List ℕ → Io Flash → Option (Io Flash)
  compare_flash adr payload io =
      let n = length payload in
      let ram = put_at io.ram 0 (read io.flash adr n) in
      let loaded = record io { ram = ram } in
      if ltb io.ldr.max_bytes n
      then some (set_error io err_buf_too_small)
      else if ltb (length io.ram) n
      then none
      else if same_bytes (take n ram) payload
      then some loaded
      else some (record loaded {
        ldr = record io.ldr {
          bytes_transfered = io.ldr.bytes_transfered + match_len (take n ram) payload;
          error = err_compare_fail;
        };
      })

  -- The `switch` of `tftp_write` on one buffer of the chain.
  unfoldable pub write_block : ℕ → ℕ → List ℕ → Io Flash → TransferType → Option (Io Flash)
  write_block adr total payload io type_ram = write_ram total payload io
  write_block adr total payload io type_flash = write_flash adr payload io
  write_block adr total payload io type_compare = compare_flash adr payload io
  write_block adr total payload io _ = some (set_error io err_internal)

  -- The loop of `tftp_write`. Its `Adr` is computed once, before the loop. `none` is a fault: one of
  -- the above, or a chain that ends before `tot_len` bytes.
  unfoldable pub write_loop : ℕ → ℕ → ℕ → List (List ℕ) → Io Flash → Option (Ret × Io Flash)
  write_loop adr total len [] io = if ltb len total then none else some (good, io)
  write_loop adr total len (payload ∷ chain) io =
      let step = write_block adr total payload io io.ldr.transfer_type in
      let next : Option (Ret × Io Flash) = elim step [
        | none ↦ none
        | some io' ↦
            let rest =
              write_loop adr total (u16 (len + length payload)) chain
                (advance (length payload) io') in
            if is_in_progress io'.ldr.error then rest else some (fail, io')
      ] in
      if ltb len total then next else some (good, io)

  unfoldable pub tftp_write : Pbuf → Io Flash → Option (Ret × Io Flash)
  tftp_write p io =
      write_loop (u32 (io.ldr.flash_adr + io.ldr.bytes_transfered)) p.tot_len 0 p.chain io

  -- The two branches of `tftp_read`.
  pub read_by_type : TransferType → ℕ → Io Flash → Option (List ℕ) × Io Flash
  read_by_type type_save len io =
      let n = send_size len io.ldr in
      (some (read io.flash (u32 (io.ldr.flash_adr + io.ldr.bytes_transfered)) n), advance n io)
  read_by_type _ len io = (none, io)

  -- `tftp_read`: the bytes put into `Buf` (their number is the result), or `none` for -1.
  pub tftp_read : ℕ → Io Flash → Option (List ℕ) × Io Flash
  tftp_read len io = read_by_type io.ldr.transfer_type len io

-- `tftp_error`. `none` is a `memcpy` past the end of the message, or of `ErrMsg`.
unfoldable pub tftp_error : List ℕ → ℕ → Ldr → Option Ldr
tftp_error msg size p =
    let n = if ltb max_err_msg_len size then max_err_msg_len else size in
    if ltb (length msg) n || ltb (max_err_msg_len + 1) n
    then none
    else some (record p {
      err_msg = set (put_at p.err_msg 0 (take n msg)) max_err_msg_len 0;
      error = err_failed;
    })

-- `err_t` of lwIP.
pub data Err : Type 0 where
  err_ok err_val : Err
  err_code : ℕ → Err

-- lwIP's TFTP client: what `tftp_init_client`, `tftp_put` and `tftp_get` return.
pub record Client : Type 0 where
  pub init_client : Err
  pub put : ℕ → List ℕ → Err
  pub get : ℕ → List ℕ → Err

abbrev pub start_transfer : Client → Ldr → TransferType → Err
start_transfer client p type_save = client.put p.server_ip p.filename
start_transfer client p _ = client.get p.server_ip p.filename

-- The fields that `ldr_tftp_init` resets.
abbrev pub reset : Ldr → Ldr
reset p = record p {
  error = tftp_ok;
  last_erase_adr = invalid_flash_adr;
  bytes_transfered = 0;
  last_progress = 0;
  err_msg = set p.err_msg 0 0;
}

-- `ldr_tftp_init`, of a pointer that may be null. The array `Filename` is never NULL.
unfoldable pub ldr_tftp_init : Client → Option Ldr → Err × Option Ldr
ldr_tftp_init client none = (err_val, none)
ldr_tftp_init client (some p) =
    if p.server_ip == 0 || ltb type_last (type_code p.transfer_type)
    then (err_val, some p)
    else elim client.init_client [
      | err_ok ↦ elim (start_transfer client (reset p) p.transfer_type) [
        | err_ok ↦ (err_ok, some (record (reset p) { error = in_progress }))
        | err_val ↦ (err_val, some (reset p))
        | err_code c ↦ (err_code c, some (reset p))
      ]
      | err_val ↦ (err_val, some (reset p))
      | err_code c ↦ (err_code c, some (reset p))
    ]
