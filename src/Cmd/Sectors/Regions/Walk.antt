-- ===== src/Cmd/Sectors/Regions/Walk.antt =====
-- The loop of `MapCmd` over the sectors.
use panog2_ldr.Base.{
  ℕ, ◌+◌, ◌-◌, ◌*◌, ◌/◌, ◌^◌, ◌≤◌, ◌<◌, ◌≡◌, refl, ap, ap₂, ◌∙◌, arith, Bool, true, false, not,
  ◌&&◌, ◌==◌, if◌then◌else◌, u32, ne→==, eq→==,
}
use panog2_ldr.Spi.{FlashInfo, Spi}
use panog2_ldr.Board.{temp_size}
use panog2_ldr.Console.{Console, map_region}
use panog2_ldr.Cmd.{Parser}
use panog2_ldr.Cmd.Sectors.{same_flag, Scan, map_turn}
use panog2_ldr.Cmd.Sectors.Regions.{show_end, show_start}

-- A chip of whole sectors of whole pages, two of which fit `gTemp`.
pub record HasPages (chip : FlashInfo) : Type 0 where
  pub fits : 2 * chip.page_size ≤ temp_size
  pub pages : chip.erase_size / chip.page_size * chip.page_size ≡ chip.erase_size
  pub page_small : chip.page_size ≤ chip.erase_size
  pub erase_pos : 0 < chip.erase_size
  pub small : chip.flash_size < 2 ^ 31

module _ (spi : Spi) (con : Console) (parser : Parser) (chip : FlashInfo)
    (geo : HasPages chip) where
  -- What is on the console when the start of the line is there.
  abbrev pub started : Scan spi con parser → con.Net → con.Net
  started c n = if c.print_start then show_start con chip.erase_size c.adr n else n

  module _ (c : Scan spi con parser) (n : con.Net) (count : ℕ)
      (here : c.adr + chip.erase_size ≡ c.last_adr + count * chip.erase_size)
      (inside : c.adr + chip.erase_size ≤ chip.flash_size) where
    abbrev next : ℕ
    next = c.adr + chip.erase_size

    -- A turn, by its next address, the end and the size of the run, and whether it is the last.
    abbrev walked : ℕ → ℕ → ℕ → Bool → Bool → Bool → Scan spi con parser × con.Net
    walked adr last kb ends was found =
        let empty = if same_flag was found && ends then not found else found in
        if same_flag was empty
        then (
          record { adr = adr; last_adr = c.last_adr; was_empty = was; print_start = false },
          started c n,
        )
        else (
          record { adr = adr; last_adr = adr; was_empty = empty; print_start = true },
          con.print (map_region last kb (not empty)) (started c n),
        )

    map_turn-walked :
        (found : Bool)
        → map_turn spi con parser chip found c n
          ≡ walked next
              (c.last_adr + count * chip.erase_size - 1)
              (count * chip.erase_size / 1024)
              (next == chip.flash_size)
              c.was_empty
              found
    unfolding map_turn
    map_turn-walked found =
        ap₂
          (λ a l.
            walked a l (u32 (u32 next + 2 ^ 32 - c.last_adr) / 1024) (a == chip.flash_size)
              c.was_empty found)
          wide last
        ∙ ap
            (λ kb.
              walked next (c.last_adr + count * chip.erase_size - 1) (kb / 1024)
                (next == chip.flash_size) c.was_empty found)
            size
      where
        wide : u32 next ≡ next
        wide = omega (arith, geo.small)

        last : u32 (u32 next + 2 ^ 32 - 1) ≡ c.last_adr + count * chip.erase_size - 1
        last = omega (arith, geo.small, geo.erase_pos)

        size : u32 (u32 next + 2 ^ 32 - c.last_adr) ≡ count * chip.erase_size
        size = omega (arith, geo.small)

    walked_same :
        (adr last kb : ℕ) (was : Bool)
        → walked adr last kb false was was ≡ (
          record { adr = adr; last_adr = c.last_adr; was_empty = was; print_start = false },
          started c n,
        )
    walked_same adr last kb true = refl
    walked_same adr last kb false = refl

    walked_new :
        (adr last kb : ℕ) (ends was : Bool)
        → walked adr last kb ends was (not was) ≡ (
          record { adr = adr; last_adr = adr; was_empty = not was; print_start = true },
          con.print (map_region last kb was) (started c n),
        )
    walked_new adr last kb ends true = refl
    walked_new adr last kb ends false = refl

    walked_end :
        (adr last kb : ℕ) (was found : Bool)
        → ((walked adr last kb true was found).0.adr ≡ adr)
          × ((walked adr last kb true was found).1
              ≡ con.print (map_region last kb was) (started c n))
    walked_end adr last kb true true = (refl, refl)
    walked_end adr last kb true false = (refl, refl)
    walked_end adr last kb false true = (refl, refl)
    walked_end adr last kb false false = (refl, refl)

    -- A sector like the one before it, and not the end.
    pub map_turn_same :
        next < chip.flash_size
        → map_turn spi con parser chip c.was_empty c n
          ≡ (record c { adr = next; print_start = false }, started c n)
    map_turn_same h =
        let more : (next == chip.flash_size) ≡ false = ne→== next chip.flash_size (omega arith) in
        map_turn-walked c.was_empty
        ∙ ap
            (λ b.
              walked next (c.last_adr + count * chip.erase_size - 1)
                (count * chip.erase_size / 1024) b c.was_empty c.was_empty)
            more
        ∙ walked_same next (c.last_adr + count * chip.erase_size - 1)
            (count * chip.erase_size / 1024) c.was_empty

    -- A sector that differs.
    pub map_turn_new : map_turn spi con parser chip (not c.was_empty) c n ≡ (
      record { adr = next; last_adr = next; was_empty = not c.was_empty; print_start = true },
      show_end con chip.erase_size c.last_adr count c.was_empty (started c n),
    )
    map_turn_new = map_turn-walked (not c.was_empty) ∙ walked_new next _ _ _ c.was_empty

    -- The end of the flash, whatever is read there.
    pub map_turn_end :
        (found : Bool)
        → next ≡ chip.flash_size
        → ((map_turn spi con parser chip found c n).0.adr ≡ chip.flash_size)
          × ((map_turn spi con parser chip found c n).1
              ≡ show_end con chip.erase_size c.last_adr count c.was_empty (started c n))
    map_turn_end found e =
        let whole =
          map_turn-walked found
          ∙ ap
              (λ b.
                walked next (c.last_adr + count * chip.erase_size - 1)
                  (count * chip.erase_size / 1024) b c.was_empty found)
              (eq→== next chip.flash_size e) in
        let (adr, net) =
          walked_end next (c.last_adr + count * chip.erase_size - 1)
            (count * chip.erase_size / 1024) c.was_empty found in
        (
          ap (λ (t : Scan spi con parser × con.Net). t.0.adr) whole ∙ adr ∙ e,
          ap (λ (t : Scan spi con parser × con.Net). t.1) whole ∙ net,
        )
