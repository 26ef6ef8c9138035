-- ===== src/Boot.antt =====
-- The start of `main` of fw/pano_ldr/main.c, up to `lwip_init`: the LEDs, the data block, and the boot
-- decision.
pub mod Decision
pub mod Next
pub mod Stored
use panog2_ldr.Base.{
  ℕ, ◌+◌, Bool, true, false, not, ◌&&◌, List, [], ◌∷◌, replicate, bit_and, bit_or, ltb, ◌==◌,
  if◌then◌else◌, Outcome, returns, no_fuel, ◌>>=◌,
}
use panog2_ldr.Spi.{Spi}
use panog2_ldr.Tftp.{Ldr, unset, tftp_ok}
use panog2_ldr.Board.{temp_size, golden_image_adr, parse_data_block}
use panog2_ldr.Console.{Console}
use panog2_ldr.Cmd.{Sys, Parser, gpio_base, auto_boot_off, auto_boot_on, auto_boot_delayed, re_boot}
use panog2_ldr.Cmd.Settings.{board_of, with_board}

-- AUTO_BOOT_DELAY, in milliseconds.
abbrev pub auto_boot_delay : ℕ
auto_boot_delay = 10000

-- GPIO_DIRECTION, GPIO_OUTPUT, and the bits of the LEDs.
abbrev pub gpio_direction : ℕ
gpio_direction = 0x0

abbrev pub gpio_output : ℕ
gpio_output = 0x8

abbrev pub gpio_led_bits : ℕ
gpio_led_bits = 0x1c

-- GPIO_BIT_PANO_BUTTON, and `ButtonPressed` of what GPIO_INPUT reads: the bit is low while the button is
-- pressed.
abbrev pub gpio_bit_pano_button : ℕ
gpio_bit_pano_button = 0x02

abbrev pub button_pressed : ℕ → Bool
button_pressed input = bit_and input gpio_bit_pano_button == 0

-- One look at the button, and the time that `timer_now` would return then.
pub record Sample : Type 0 where
  pub input : ℕ
  pub now : ℕ

-- `while(ButtonPressed());`
pub held_wait : List Sample → Outcome (List Sample)
held_wait [] = no_fuel
held_wait (x ∷ xs) = let rest = held_wait xs in if button_pressed x.input then rest else returns xs

module _ {F N : Type 0} where
  -- The loop up to the next press, with a reboot in each turn past the delay.
  pub press_wait : List Sample → Sys F N → Outcome (List Sample × Sys F N)
  press_wait [] s = no_fuel
  press_wait (x ∷ xs) s =
      let rest =
        press_wait xs (if ltb auto_boot_delay x.now then re_boot s.auto_boot_adr s else s) in
      if button_pressed x.input then returns (xs, s) else rest

  -- The boot decision. A look at the button is taken only in the modes that read it.
  pub decide : List Sample → Sys F N → Outcome (List Sample × Sys F N)
  decide samples s =
      let now : Outcome (List Sample × Sys F N) = elim samples [
        | [] ↦ no_fuel
        | (x ∷ xs) ↦ returns (xs, if button_pressed x.input then s else re_boot s.auto_boot_adr s)
      ] in
      let later : Outcome (List Sample × Sys F N) = (do xs ← held_wait samples; press_wait xs s) in
      if s.auto_boot == auto_boot_on
      then now
      else if s.auto_boot == auto_boot_delayed
      then later
      else returns (samples, s)

  -- The globals at power-up, with what the flash holds.
  pub power_up : N → F → Sys F N
  power_up n f = record {
    ldr = record {
      server_ip = 0;
      filename = [];
      err_msg = replicate 33 0;
      bytes_transfered = 0;
      max_bytes = 0;
      send_len = 0;
      transfer_type = unset;
      flash_adr = 0;
      last_erase_adr = 0;
      last_progress = 0;
      error = tftp_ok;
      auto_erase = false;
    };
    temp = replicate temp_size 0;
    flash = f;
    auto_boot = 0;
    auto_boot_adr = golden_image_adr;
    net = n;
    bytes_on_line = 0;
    gpio = [];
  }

  -- The LEDs become outputs, and go off. `direction` is what GPIO_DIRECTION reads.
  pub init_leds : ℕ → Sys F N → Sys F N
  init_leds direction s = record s {
    gpio =
        (gpio_base + gpio_output, 0)
        ∷ (gpio_base + gpio_direction, bit_or direction gpio_led_bits)
        ∷ s.gpio;
  }

module _ (spi : Spi) (con : Console) (parser : Parser) where
  -- `main` up to `lwip_init`. `spi_init` and `spi_chip_init` are the driver's.
  pub start_up :
      ℕ → List Sample → Sys spi.Flash con.Net → Outcome (List Sample × Sys spi.Flash con.Net)
  start_up direction samples s = do
    let erasing = init_leds direction (record s { ldr = record s.ldr { auto_erase = true } })
    (_, b) ← parse_data_block spi (board_of spi con parser erasing)
    decide samples (with_board spi con parser erasing b)
