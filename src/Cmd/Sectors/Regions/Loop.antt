-- ===== src/Cmd/Sectors/Regions/Loop.antt =====
-- The loop of `MapCmd`, and the command.
use panog2_ldr.Base.{
  ℕ, zero, suc, ◌+◌, ◌*◌, ◌/◌, ◌≤◌, ◌<◌, ◌≡◌, refl, sym, ap, ◌∙◌, arith, Bool, true, false, not,
  List, bytes, all_ones, u32, inl, inr, Outcome, returns, ◌>>=◌, lt→ltb, le→ltb,
}
use panog2_ldr.Spi.{FlashInfo, Spi, IsNor}
use panog2_ldr.Board.{check_empty, check_empty_loop}
use panog2_ldr.Board.Empty.{HasOnes, check_empty_loop_lem, check_empty-loop}
use panog2_ldr.Console.{Console}
use panog2_ldr.Cmd.{Sys, Parser}
use panog2_ldr.Cmd.Sectors.{Scan, map_turn, map_loop}
use panog2_ldr.Cmd.Sectors.Regions.{
  verdicts, runs, runs_same, runs_new, flag-cases, show_end, show_runs, show_rest, show_runs-start,
}
use panog2_ldr.Cmd.Sectors.Regions.Walk.{
  HasPages, started, map_turn_same, map_turn_new, map_turn_end,
}

module _ (spi : Spi) (con : Console) (parser : Parser) (chip : FlashInfo) (nor : IsNor spi chip)
    (geo : HasPages chip) where
  abbrev size : ℕ
  size = chip.erase_size

  -- `CheckEmpty` of the sector at an address.
  abbrev pub judged : ℕ → Sys spi.Flash con.Net → Bool × List ℕ
  judged a s = check_empty_loop spi (size / chip.page_size) a chip.page_size s.temp s.flash

  pub judged_lem :
      (a : ℕ) (s : Sys spi.Flash con.Net)
      → a + size ≤ chip.flash_size
      → HasOnes chip.page_size s.temp
      → ((judged a s).0 ≡ all_ones (bytes (spi.peek s.flash) a size))
        × HasOnes chip.page_size (judged a s).1
  judged_lem a s inside h =
      check_empty_loop_lem spi chip nor chip.page_size geo.fits geo.small s.flash
        (size / chip.page_size) a size s.temp (sym geo.pages) inside h

  map_loop_over :
      (fuel : ℕ) (c : Scan spi con parser) (s : Sys spi.Flash con.Net)
      → c.adr ≡ chip.flash_size
      → map_loop spi con parser (suc fuel) chip c s ≡ returns s
  unfolding map_loop
  map_loop_over fuel c s e = rw (le→ltb c.adr chip.flash_size (omega arith)) refl

  -- What is left to do after a turn.
  abbrev after :
      ℕ
      → List ℕ
      → Sys spi.Flash con.Net
      → Scan spi con parser × con.Net
      → Outcome (Sys spi.Flash con.Net)
  after fuel temp s t = map_loop spi con parser fuel chip t.0 (record s { temp = temp; net = t.1 })

  map_loop_step :
      (fuel : ℕ) (c : Scan spi con parser) (s : Sys spi.Flash con.Net)
      → c.adr + size ≤ chip.flash_size
      → map_loop spi con parser (suc fuel) chip c s
        ≡ after fuel
            (judged (c.adr + size) s).1
            s
            (map_turn spi con parser chip (judged (c.adr + size) s).0 c s.net)
  unfolding map_loop
  map_loop_step fuel c s h = rw (lt→ltb c.adr chip.flash_size (omega (arith, geo.erase_pos))) (
      ap
        (λ (o : Outcome (Bool × List ℕ)).
          o >>= λ (found, temp). after fuel temp s (map_turn spi con parser chip found c s.net))
        (ap (λ a. check_empty spi a chip.page_size size s.temp s.flash) wide
          ∙ check_empty-loop spi (c.adr + size) chip.page_size size s.temp s.flash geo.fits))
    where
      wide : u32 (c.adr + size) ≡ c.adr + size
      wide = omega (arith, geo.small)

  -- The loop from the sector at `c.adr`, with `count` sectors of the run so far and `k` more after it.
  abbrev pub Shows :
      ℕ → ℕ → Scan spi con parser → Sys spi.Flash con.Net → Outcome (Sys spi.Flash con.Net) → Type 0
  Shows count k c s o =
      (s' : Sys spi.Flash con.Net) × (o ≡ returns s')
      × (s'.net
          ≡ show_rest con size c.last_adr
              (runs count c.was_empty (verdicts (spi.peek s.flash) size k (c.adr + size)))
              (started spi con parser chip geo c s.net))
      × (s'.flash ≡ s.flash)

  pub map_loop_lem :
      (k fuel count : ℕ) (c : Scan spi con parser) (s : Sys spi.Flash con.Net)
      → c.adr + size ≡ c.last_adr + count * size
      → c.adr + size + k * size ≡ chip.flash_size
      → HasOnes chip.page_size s.temp
      → k + 1 < fuel
      → Shows count k c s (map_loop spi con parser fuel chip c s)
  unfolding runs
  map_loop_lem k zero count c s here ends ones h = absurd (omega arith)
  map_loop_lem k (suc zero) count c s here ends ones h = absurd (omega arith)
  map_loop_lem zero (suc (suc fuel)) count c s here ends ones h =
      let r = judged (c.adr + size) s in
      let t = map_turn spi con parser chip r.0 c s.net in
      let (over, net) =
        map_turn_end spi con parser chip geo c s.net count here (omega arith) r.0 (omega arith) in
      (
        record s { temp = r.1; net = t.1 },
        map_loop_step (suc fuel) c s (omega arith)
            ∙ map_loop_over fuel t.0 (record s { temp = r.1; net = t.1 }) over,
        net,
        refl,
      )
  map_loop_lem (suc k) (suc (suc fuel)) count c s here ends ones h =
      let next = c.adr + size in
      let r = judged next s in
      let judge = judged_lem next s (omega arith) ones in
      let vs = verdicts (spi.peek s.flash) size k (next + size) in
      let shown = started spi con parser chip geo c s.net in
      let step = map_loop_step (suc fuel) c s (omega arith) in
      elim (flag-cases r.0 c.was_empty) [
        | inl same ↦
            let c1 : Scan spi con parser = record c { adr = next; print_start = false } in
            let (s', run, net, kept) =
              map_loop_lem k (suc fuel) (count + 1) c1 (record s { temp = r.1; net = shown })
                (omega arith) (omega arith) judge.1 (omega arith) in
            (
              s',
              step
                  ∙ ap (after (suc fuel) r.1 s) (
                      ap (λ b. map_turn spi con parser chip b c s.net) same
                      ∙ map_turn_same spi con parser chip geo c s.net count here (omega arith)
                          (omega (arith, geo.erase_pos)))
                  ∙ run,
              net
                  ∙ ap (λ rs. show_rest con size c.last_adr rs shown)
                      (sym (runs_same count c.was_empty _ vs (sym judge.0 ∙ same))),
              kept,
            )
        | inr new ↦
            let c2 : Scan spi con parser = record {
              adr = next;
              last_adr = next;
              was_empty = not c.was_empty;
              print_start = true;
            } in
            let ended = show_end con size c.last_adr count c.was_empty shown in
            let (s', run, net, kept) =
              map_loop_lem k (suc fuel) 1 c2 (record s { temp = r.1; net = ended }) (omega arith)
                (omega arith) judge.1 (omega arith) in
            (
              s',
              step
                  ∙ ap (after (suc fuel) r.1 s) (
                      ap (λ b. map_turn spi con parser chip b c s.net) new
                      ∙ map_turn_new spi con parser chip geo c s.net count here (omega arith))
                  ∙ run,
              net
                  ∙ sym (show_runs-start con size next 1 (not c.was_empty) vs ended)
                  ∙ ap (λ a. show_runs con size a (runs 1 (not c.was_empty) vs) ended) here
                  ∙ ap (λ rs. show_rest con size c.last_adr rs shown)
                      (sym (runs_new count c.was_empty _ vs (sym judge.0 ∙ new))),
              kept,
            )
      ]
