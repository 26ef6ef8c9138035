-- ===== src/Cmd/Sectors.antt =====
-- The commands that read and erase the flash: `dump`, `erase` and `map`.
pub mod Erase
pub mod Blocks
pub mod Regions
use panog2_ldr.Base.{
  ℕ, suc, zero, ◌+◌, ◌-◌, ◌*◌, ◌/◌, ◌%◌, ◌^◌, Bool, true, false, not, ◌&&◌, ◌||◌, List, [], ◌∷◌,
  ◌++◌, Option, none, some, replicate, put_at, ltb, ◌==◌, if◌then◌else◌, Outcome, returns, fault,
  no_fuel, ◌>>=◌, u32, min,
}
use panog2_ldr.Spi.{FlashInfo, Spi}
use panog2_ldr.Board.{temp_size, check_empty}
use panog2_ldr.Console.{
  Console, net_dump_hex, dump_end, not_at_boundary, not_a_multiple, dot, erased, map_header,
  map_start, map_region,
}
use panog2_ldr.Cmd.{
  Result, result_ok, result_err, result_internal_err, is_ok, Sys, Parser, say, get_adr,
  get_adr_and_len,
}

-- `a == b` of two flags.
abbrev pub same_flag : Bool → Bool → Bool
same_flag true b = b
same_flag false b = not b

module _ (spi : Spi) (con : Console) (parser : Parser) where
  open spi use {Flash, info, read, erase}
  open con use {Net, print, connected, wait_empty}

  -- `NetDumpHex` of bytes, or of nothing to end the dump.
  pub dump_hex : List ℕ → ℕ → Sys Flash Net → Sys Flash Net
  dump_hex bs adr s =
      let d =
        net_dump_hex con bs true adr (record { bytes_on_line = s.bytes_on_line; net = s.net }) in
      record s { bytes_on_line = d.bytes_on_line; net = d.net }

  -- The loop of `DumpCmd`. Each turn reads `Len` bytes, or as many as `gTemp` holds.
  pub dump_loop : ℕ → ℕ → ℕ → ℕ → Sys Flash Net → Outcome (Sys Flash Net)
  dump_loop zero adr len bytes_read s = no_fuel
  dump_loop (suc fuel) adr len bytes_read s =
      let n = if ltb temp_size len then temp_size else len in
      let got = read s.flash adr n in
      let turn =
        dump_loop fuel (u32 (adr + n)) len (u32 (bytes_read + n))
          (dump_hex got adr (record s { temp = put_at s.temp 0 got })) in
      if connected s.net && ltb bytes_read len then turn else returns s

  pub dump_cmd : List ℕ → Sys Flash Net → Outcome (Result × Sys Flash Net)
  dump_cmd line s =
      let a = get_adr_and_len spi con parser line s in
      let run : Outcome (Result × Sys Flash Net) = do
        s' ← dump_loop (a.value.1 + 1) a.value.0 a.value.1 0 a.state
        returns (result_ok, dump_hex [] 0 s')
      in if is_ok a.result then run else returns (a.result, dump_hex [] 0 a.state)

  -- The loop of `EraseCmd`.
  unfoldable pub erase_loop : ℕ → ℕ → ℕ → ℕ → Sys Flash Net → Outcome (Sys Flash Net)
  erase_loop zero erase_size adr end_adr s = no_fuel
  erase_loop (suc fuel) erase_size adr end_adr s =
      let turn =
        erase_loop fuel erase_size (u32 (adr + erase_size)) end_adr
          (record s { flash = erase s.flash adr erase_size; net = print dot s.net }) in
      if ltb adr end_adr then turn else returns s

  -- `EraseCmd` after its arguments.
  unfoldable pub erase_range : ℕ → ℕ → ℕ → Sys Flash Net → Outcome (Result × Sys Flash Net)
  erase_range erase_size adr end_adr s =
      let len = u32 (end_adr + 2 ^ 32 - adr + 1) in
      let run : Outcome (Result × Sys Flash Net) = do
        s' ← erase_loop (end_adr + 1) erase_size adr end_adr s
        returns (result_ok, record s' { net = print (erased (len / 1024)) s'.net })
      in if not (adr % erase_size == 0)
        then returns (result_err, record s { net = print not_at_boundary s.net })
        else if not (len % erase_size == 0)
        then returns (result_err, record s { net = print not_a_multiple s.net })
        else run

  unfoldable pub erase_cmd : List ℕ → Sys Flash Net → Outcome (Result × Sys Flash Net)
  erase_cmd line s =
      let a = get_adr spi con parser 0 line s in
      let e = get_adr spi con parser 0 a.rest a.state in
      elim info [
        | none ↦ fault
        | some chip ↦
            if not (is_ok a.result)
            then returns (a.result, a.state)
            else if not (is_ok e.result)
            then returns (e.result, e.state)
            else erase_range chip.erase_size a.value e.value e.state
      ]

  -- The variables of the loop of `MapCmd`.
  pub record Scan : Type 0 where
    pub adr : ℕ
    pub last_adr : ℕ
    pub was_empty : Bool
    pub print_start : Bool

  -- One turn of the loop, from the verdict of `CheckEmpty` on the sector at the new address.
  pub map_turn : FlashInfo → Bool → Scan → Net → Scan × Net
  map_turn chip found c n =
      let started = if c.print_start then wait_empty (print (map_start c.adr) n) else n in
      let adr = u32 (c.adr + chip.erase_size) in
      let empty =
        if same_flag c.was_empty found && (adr == chip.flash_size) then not found else found in
      if same_flag c.was_empty empty
      then (record c { adr = adr; print_start = false }, started)
      else (
        record { adr = adr; last_adr = adr; was_empty = empty; print_start = true },
        print
            (map_region (u32 (adr + 2 ^ 32 - 1)) (u32 (adr + 2 ^ 32 - c.last_adr) / 1024)
              (not empty))
            started,
      )

  pub map_loop : ℕ → FlashInfo → Scan → Sys Flash Net → Outcome (Sys Flash Net)
  map_loop zero chip c s = no_fuel
  map_loop (suc fuel) chip c s =
      let turn : Outcome (Sys Flash Net) = do
        (found, temp) ←
            check_empty spi (u32 (c.adr + chip.erase_size)) chip.page_size chip.erase_size s.temp
              s.flash
        let t = map_turn chip found c s.net
        map_loop fuel chip t.0 (record s { temp = temp; net = t.1 })
      in if ltb c.adr chip.flash_size then turn else returns s

  -- `MapCmd`. The page of ones behind the first page of `gTemp` is what `CheckEmpty` compares with.
  pub map_cmd : Sys Flash Net → Outcome (Result × Sys Flash Net)
  map_cmd s = elim info [
    | none ↦ returns (result_internal_err, s)
    | some chip ↦ do
      let ones = put_at s.temp chip.page_size (replicate chip.page_size 0xff)
      let first = put_at ones 0 (read s.flash 0 chip.page_size)
      (found, temp) ← check_empty spi 0 chip.page_size chip.erase_size first s.flash
      let headed =
          print (map_header chip.desc (chip.flash_size / (1024 * 1024)) (chip.erase_size / 1024))
            s.net
      s' ←
          map_loop (chip.flash_size + 1) chip
            (record { adr = 0; last_adr = 0; was_empty = found; print_start = true })
            (record s { temp = temp; net = headed })
      returns (result_ok, s')
  ]
