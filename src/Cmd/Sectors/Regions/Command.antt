-- ===== src/Cmd/Sectors/Regions/Command.antt =====
-- The command `map`.
use panog2_ldr.Base.{
  ℕ, zero, suc, ◌+◌, ◌*◌, ◌/◌, ◌≤◌, ◌<◌, ◌≡◌, sym, ap, ◌∙◌, arith, Bool, true, List, ◌∷◌, some,
  take, length, length-put_at, length-replicate, drop-put_at, take-drop-put_at, length-bytes,
  put_at, replicate, Option, none, Outcome, returns, ◌>>=◌,
}
use panog2_ldr.Spi.{FlashInfo, Spi, IsNor}
use panog2_ldr.Board.{temp_size, check_empty}
use panog2_ldr.Board.Empty.{HasOnes, check_empty-loop}
use panog2_ldr.Console.{Console, map_header}
use panog2_ldr.Cmd.{Result, result_ok, result_internal_err, Sys, Parser}
use panog2_ldr.Cmd.Sectors.{Scan, map_loop, map_cmd}
use panog2_ldr.Cmd.Sectors.Regions.{
  verdicts, all_runs, all_runs-expand, all_runs-Alternates, expand, Alternates, show_runs,
  show_runs-start,
}
use panog2_ldr.Cmd.Sectors.Regions.Walk.{HasPages}
use panog2_ldr.Cmd.Sectors.Regions.Loop.{judged, judged_lem, map_loop_lem}

le_mul : (k n : ℕ) → 0 < n → k ≤ k * n
le_mul zero n h = omega arith
le_mul (suc k) n h = omega (arith, le_mul k n h)

module _ (spi : Spi) (con : Console) (parser : Parser) (chip : FlashInfo) (nor : IsNor spi chip)
    (geo : HasPages chip) (has : spi.info ≡ some chip) (s : Sys spi.Flash con.Net) where
  -- `gTemp` with a page of ones, and the first page of the flash.
  abbrev prepared : List ℕ
  prepared =
      put_at (put_at s.temp chip.page_size (replicate chip.page_size 0xff)) 0
        (spi.read s.flash 0 chip.page_size)

  prepared-HasOnes :
      length s.temp ≡ temp_size → chip.page_size ≤ chip.flash_size → HasOnes chip.page_size prepared
  prepared-HasOnes size fits =
      let ones = put_at s.temp chip.page_size (replicate chip.page_size 0xff) in
      let page = spi.read s.flash 0 chip.page_size in
      record {
        size = length-put_at ones 0 page ∙ length-put_at s.temp chip.page_size _ ∙ size;
        ones =
            ap (take chip.page_size) (
              drop-put_at ones page chip.page_size (
                ap length (nor.read_lem s.flash 0 chip.page_size (omega arith))
                ∙ length-bytes _ 0 _))
            ∙ take-drop-put_at s.temp (replicate chip.page_size 0xff) chip.page_size chip.page_size
                (length-replicate chip.page_size 0xff) (omega (arith, geo.fits));
      }

  abbrev headed : con.Net
  headed =
      con.print (map_header chip.desc (chip.flash_size / (1024 * 1024)) (chip.erase_size / 1024))
        s.net

  -- The command after `CheckEmpty` of the first sector.
  abbrev walk : Bool × List ℕ → Outcome (Result × Sys spi.Flash con.Net)
  walk (found, temp) =
      map_loop spi con parser (chip.flash_size + 1) chip
        (record { adr = 0; last_adr = 0; was_empty = found; print_start = true })
        (record s { temp = temp; net = headed })
      >>= λ s'. returns (result_ok, s')

  map_cmd-walk :
      map_cmd spi con parser s
      ≡ walk (judged spi con parser chip nor geo 0 (record s { temp = prepared }))
  unfolding map_cmd
  map_cmd-walk =
      ap go has
      ∙ ap (λ o. o >>= walk)
          (check_empty-loop spi 0 chip.page_size chip.erase_size prepared s.flash geo.fits)
    where
      go : Option FlashInfo → Outcome (Result × Sys spi.Flash con.Net)
      go o = elim o [
        | none ↦ returns (result_internal_err, s)
        | some c ↦
            check_empty spi 0 c.page_size c.erase_size
              (put_at (put_at s.temp c.page_size (replicate c.page_size 0xff)) 0
                (spi.read s.flash 0 c.page_size))
              s.flash
            >>= λ (found, temp).
                map_loop spi con parser (c.flash_size + 1) c
                  (record { adr = 0; last_adr = 0; was_empty = found; print_start = true })
                  (record s {
                    temp = temp;
                    net =
                        con.print
                          (map_header c.desc (c.flash_size / (1024 * 1024)) (c.erase_size / 1024))
                          s.net;
                  })
                >>= λ s'. returns (result_ok, s')
      ]

-- `map`, on a chip of whole sectors of whole pages with two pages in `gTemp`, answers RESULT_OK, leaves the
-- flash as it is, and shows, behind the header, a list of runs of sectors from address 0 on. The runs
-- cover the flash: written out they are the sectors in order, each erased (every byte 0xff) or not, as
-- its run says; and each run is as long as it can be, since no two neighbours say the same.
pub map_cmd_lem :
    (spi : Spi) (con : Console) (parser : Parser) (chip : FlashInfo) (k : ℕ)
    (s : Sys spi.Flash con.Net)
    → spi.info ≡ some chip
    → IsNor spi chip
    → HasPages chip
    → chip.flash_size ≡ suc k * chip.erase_size
    → length s.temp ≡ temp_size
    → (s' : Sys spi.Flash con.Net) × (rs : List (ℕ × Bool)) × (map_cmd spi con parser s
        ≡ returns (result_ok, s'))
      × (s'.flash ≡ s.flash)
      × (s'.net
          ≡ show_runs con chip.erase_size 0 rs (
              con.print
                (map_header chip.desc (chip.flash_size / (1024 * 1024)) (chip.erase_size / 1024))
                s.net))
      × (expand rs ≡ verdicts (spi.peek s.flash) chip.erase_size (suc k) 0)
      × Alternates rs
map_cmd_lem spi con parser chip k s has nor geo sectors size =
    let head = headed spi con parser chip nor geo has s in
    let ready : Sys spi.Flash con.Net = record s {
      temp = prepared spi con parser chip nor geo has s;
    } in
    let r = judged spi con parser chip nor geo 0 ready in
    let (verdict, ones) = judged_lem spi con parser chip nor geo 0 ready (omega (arith, sectors)) (
      prepared-HasOnes spi con parser chip nor geo has s size
        (omega (arith, sectors, geo.page_small))) in
    let c : Scan spi con parser = record {
      adr = 0;
      last_adr = 0;
      was_empty = r.0;
      print_start = true;
    } in
    let (s', run, net, kept) =
      map_loop_lem spi con parser chip nor geo k (chip.flash_size + 1) 1 c
        (record s { temp = r.1; net = head }) (omega arith) (omega (arith, sectors)) ones
        (omega (arith, sectors, le_mul (suc k) chip.erase_size geo.erase_pos)) in
    let vs = verdicts (spi.peek s.flash) chip.erase_size k (0 + chip.erase_size) in
    let first = ap (λ b. b ∷ vs) verdict in
    (
      s',
      all_runs (r.0 ∷ vs),
      map_cmd-walk spi con parser chip nor geo has s
          ∙ ap (λ o. o >>= λ t. returns (result_ok, t)) run,
      kept,
      net ∙ sym (show_runs-start con chip.erase_size 0 1 r.0 vs head),
      all_runs-expand (r.0 ∷ vs) ∙ first,
      all_runs-Alternates (r.0 ∷ vs),
    )
