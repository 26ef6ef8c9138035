-- ===== src/Led.antt =====
-- `UpdateLEDs` of fw/pano_ldr/main.c, with its two static variables, and the output register of the GPIO
-- block, whose bits GPIO_OUTPUT_SET sets and GPIO_OUTPUT_CLR clears.
pub mod Blink
use panog2_ldr.Base.{ℕ, ◌+◌, ◌-◌, ◌^◌, Bool, true, false, ltb, if◌then◌else◌, u32}

-- `Led`: no LED, one of them, or the initial value GPIO_LED_BITS, all three.
pub data Leds : Type 0 where
  off red green blue all : Leds

-- The bits of the three LEDs.
pub record Output : Type 0 where
  pub red_bit : Bool
  pub green_bit : Bool
  pub blue_bit : Bool

-- GPIO_BIT_RED_LED, GPIO_BIT_GREEN_LED and GPIO_BIT_BLUE_LED, and the static `Led` as a register value.
abbrev pub led_bits : Leds → ℕ
led_bits off = 0x00
led_bits red = 0x04
led_bits green = 0x08
led_bits blue = 0x10
led_bits all = 0x1c

abbrev pub set_output : Leds → Output → Output
set_output off o = o
set_output red o = record o { red_bit = true }
set_output green o = record o { green_bit = true }
set_output blue o = record o { blue_bit = true }
set_output all o = record { red_bit = true; green_bit = true; blue_bit = true }

abbrev pub clear_output : Leds → Output → Output
clear_output off o = o
clear_output red o = record o { red_bit = false }
clear_output green o = record o { green_bit = false }
clear_output blue o = record o { blue_bit = false }
clear_output all o = record { red_bit = false; green_bit = false; blue_bit = false }

pub record Lamps : Type 0 where
  pub last_update : ℕ
  pub led : Leds
  pub output : Output

-- What the function reads: the time, a telnet connection, the link, and an address from DHCP.
pub record Status : Type 0 where
  pub now : ℕ
  pub connected : Bool
  pub link_up : Bool
  pub has_address : Bool

-- LED_BLINK_RATE
abbrev pub blink_rate : ℕ
blink_rate = 250

abbrev pub is_off : Leds → Bool
is_off off = true
is_off _ = false

-- The ladder of the update: the new `Led`, and the output after the LEDs that it turns off.
unfoldable pub choose : Status → Leds → Output → Leds × Output
choose st led o =
    if st.connected
    then (green, clear_output led o)
    else if is_off led
    then (if st.link_up then (if st.has_address then green else blue) else red, o)
    else (off, clear_output led o)

unfoldable pub update_leds : Status → Lamps → Lamps
update_leds st l =
    let c = choose st l.led l.output in
    if ltb blink_rate (u32 (st.now + 2 ^ 32 - l.last_update))
    then record { last_update = st.now; led = c.0; output = set_output c.0 c.1 }
    else l
