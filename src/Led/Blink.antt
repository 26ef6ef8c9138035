-- ===== src/Led/Blink.antt =====
-- What the LEDs show, and how they blink.
use panog2_ldr.Base.{
  ◌+◌, ◌-◌, ◌^◌, ◌<◌, ◌≡◌, ◌⊎◌, inl, inr, refl, sym, subst, ap, ap₂, ◌∙◌, arith, Bool, true, false,
  List, [], ◌∷◌, if◌then◌else◌, u32,
}
use native.Mathlib.Decide.{dec_lt}
use panog2_ldr.Led.{
  Leds, off, red, green, blue, all, Output, Lamps, Status, blink_rate, is_off, choose, update_leds,
}

-- The LEDs that are lit are those of `led`.
abbrev pub shown : Leds → Output
shown off = record { red_bit = false; green_bit = false; blue_bit = false }
shown red = record { red_bit = true; green_bit = false; blue_bit = false }
shown green = record { red_bit = false; green_bit = true; blue_bit = false }
shown blue = record { red_bit = false; green_bit = false; blue_bit = true }
shown all = record { red_bit = true; green_bit = true; blue_bit = true }

-- The colour for a state of the network: the comment above `UpdateLEDs`.
abbrev pub colour : Status → Leds
colour st =
    if st.connected
    then green
    else if st.link_up
    then (if st.has_address then green else blue)
    else red

abbrev pub Due : Status → Lamps → Type 0
Due st l = blink_rate < u32 (st.now + 2 ^ 32 - l.last_update)

-- The LEDs at power-up: the output register is 0, as `main` has written it, although `Led` starts with
-- all three bits.
abbrev pub initial_lamps : Lamps
initial_lamps = record { last_update = 0; led = all; output = shown off }

-- What is lit is what the static `Led` says, or the LEDs are still those of power-up.
abbrev pub IsLamps : Lamps → Type 0
IsLamps l = (l ≡ initial_lamps) ⊎ (l.output ≡ shown l.led)

-- One colour at most is lit after an update.
pub update_leds_shows :
    (st : Status) (l : Lamps)
    → IsLamps l
    → Due st l
    → (update_leds st l).output ≡ shown (update_leds st l).led
unfolding update_leds choose
update_leds_shows st l (inl start) due =
    let led = ap (λ (k : Lamps). k.led) start in
    let output = ap (λ (k : Lamps). k.output) start in ground (arith, led, output)
update_leds_shows st l (inr h) due = ground arith

-- Nothing changes until the blink time has passed.
pub update_leds_waits : (st : Status) (l : Lamps) → ¬ Due st l → update_leds st l ≡ l
unfolding update_leds
update_leds_waits st l h = ground arith

pub update_leds-IsLamps : (st : Status) (l : Lamps) → IsLamps l → IsLamps (update_leds st l)
update_leds-IsLamps st l h = elim (dec_lt blink_rate (u32 (st.now + 2 ^ 32 - l.last_update))) [
  | yes due ↦ inr (update_leds_shows st l h due)
  | no early ↦ subst IsLamps (sym (update_leds_waits st l early)) h
]

-- The output register after each of a series of calls.
unfoldable pub outputs : List Status → Lamps → List Output
outputs [] l = []
outputs (st ∷ sts) l = (update_leds st l).output ∷ outputs sts (update_leds st l)

-- The calls come more than the blink time apart.
abbrev pub ArePaced : List Status → Lamps → Type 0
ArePaced [] l = Unit
ArePaced (st ∷ sts) l = Due st l × ArePaced sts (update_leds st l)

-- The light of the comment above `UpdateLEDs`: solid green while someone is connected, and else flashing,
-- dark and in the colour of the network by turns. The flag says that it was dark before.
abbrev pub light : Bool → Status → Leds
light dark st = if st.connected then green else if dark then colour st else off

unfoldable pub lights : Bool → List Status → List Output
lights dark [] = []
lights dark (st ∷ sts) = shown (light dark st) ∷ lights (is_off (light dark st)) sts

update_leds-led :
    (st : Status) (l : Lamps) → Due st l → (update_leds st l).led ≡ light (is_off l.led) st
unfolding update_leds choose
update_leds-led st l due = ground arith

-- A series of calls, each more than the blink time after the last update, from power-up or from any state
-- of the LEDs in which `Led` says what is lit: after each of them the output register lights exactly what
-- the comment above `UpdateLEDs` says: solid green with a connection; without one, all LEDs dark and one
-- of them by turns, red without link, blue without an address, else green. It begins dark, unless a
-- connection is there, or `Led` was 0 already.
pub update_leds_lem :
    (sts : List Status) (l : Lamps)
    → IsLamps l
    → ArePaced sts l
    → outputs sts l ≡ lights (is_off l.led) sts
unfolding outputs lights
update_leds_lem [] l h p = refl
update_leds_lem (st ∷ sts) l h (due, p) =
    let to = update_leds-led st l due in
    ap₂ ◌∷◌ (update_leds_shows st l h due ∙ ap shown to) (
      update_leds_lem sts (update_leds st l) (update_leds-IsLamps st l h) p
      ∙ ap (λ led. lights (is_off led) sts) to)
