-- ===== src/Console.antt =====
-- The telnet console as the commands see it: what they print, and the interface to the network side
-- (`NetPrintf`, `NetPuts`, `NetWaitBufEmpty`, `gTcpCon` of fw/pano_ldr/main.c).
pub mod Rows
use panog2_ldr.Base.{
  ℕ, zero, suc, ◌+◌, ◌/◌, ◌%◌, Bool, List, [], ◌∷◌, ◌++◌, ltb, ◌==◌, if◌then◌else◌, u32,
}
use panog2_ldr.Tftp.{Err, TransferResult}

-- `NetPrintf` by its format; the arguments are those that the call gives.
pub data Msg : Type 0 where
  prompt version not_at_boundary not_a_multiple dot newline booting server_not_set
        filename_too_long :
      Msg
  erased flashed saved verified server_adr boot_adr length_reduced compare_failed : ℕ → Msg
  past_end : ℕ → ℕ → Msg
  transfer_failed : Err → Msg
  verify_failed : Err → TransferResult → Msg
  failed : TransferResult → Msg
  error_text : List ℕ → Msg
  auto_boot_mode : ℕ → Msg
  auto_erase_mode : Bool → Msg
  map_header : List ℕ → ℕ → ℕ → Msg
  map_start : ℕ → Msg
  map_region : ℕ → ℕ → Bool → Msg

-- The network side: `gTcpCon != NULL`, `NetPrintf`, `NetPuts`, `NetPrintFillPcb`, `NetWaitBufEmpty`, and
-- `tcp_close(gTcpCon); gTcpCon = NULL`.
pub record Console : Type 1 where
  pub Net : Type 0
  pub connected : Net → Bool
  pub print : Msg → Net → Net
  pub puts : List ℕ → Net → Net
  pub flush : Net → Net
  pub wait_empty : Net → Net
  pub close : Net → Net

-- `NetDumpHex`: the count `BytesOnLine` and the console.
pub record Dump (N : Type 0) : Type 0 where
  pub bytes_on_line : ℕ
  pub net : N

abbrev pub hex_digit : ℕ → ℕ
hex_digit d = if ltb d 10 then 48 + d else 87 + d

-- `%08x` and `%02x`.
abbrev pub hex : ℕ → ℕ → List ℕ
hex zero v = []
hex (suc k) v = hex k (v / 16) ++ (hex_digit (v % 16) ∷ [])

abbrev pub two_spaces : List ℕ
two_spaces = 32 ∷ 32 ∷ []

module _ (con : Console) where
  open con use {Net, puts, flush}

  -- What stands before a byte.
  abbrev pub dump_lead : Bool → ℕ → Dump Net → Net
  dump_lead with_adr adr d =
      if d.bytes_on_line == 0
      then if with_adr then puts two_spaces (puts (hex 8 adr) d.net) else d.net
      else puts (32 ∷ []) d.net

  -- The loop over the bytes, at address `adr`.
  pub dump_bytes : Bool → ℕ → List ℕ → Dump Net → Dump Net
  dump_bytes with_adr adr [] d = d
  dump_bytes with_adr adr (b ∷ bs) d =
      let shown = puts (hex 2 b) (dump_lead with_adr adr d) in
      dump_bytes with_adr (u32 (adr + 1)) bs (
        if d.bytes_on_line + 1 == 16
        then record { bytes_on_line = 0; net = puts (10 ∷ []) shown }
        else record { bytes_on_line = d.bytes_on_line + 1; net = shown })

  -- The call with length 0 that ends a dump.
  pub dump_end : Dump Net → Dump Net
  dump_end d = record {
    bytes_on_line = 0;
    net = flush (if ltb 0 d.bytes_on_line then puts (10 ∷ []) d.net else d.net);
  }

  pub net_dump_hex : List ℕ → Bool → ℕ → Dump Net → Dump Net
  net_dump_hex [] with_adr adr d = dump_end d
  net_dump_hex (b ∷ bs) with_adr adr d = dump_bytes with_adr adr (b ∷ bs) d
