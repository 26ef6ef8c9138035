-- ===== src/Tests/Inputs.antt =====
-- The theorems on the line input, the LEDs and the random numbers, at concrete inputs.
use panog2_ldr.Base.{
  ℕ, ◌<◌, ◌≡◌, ◌≢◌, inl, refl, arith, true, false, List, [], ◌∷◌, some, replicate, ◌^◌,
}
use panog2_ldr.Rx.{backspace, carriage_return, Echo, Input, tcp_recv}
use panog2_ldr.Rx.Steps.{IsRx}
use panog2_ldr.Rx.Line.{tcp_recv_rub_out}
use panog2_ldr.Led.{off, red, green, blue, choose, Status, update_leds}
use panog2_ldr.Led.Blink.{shown, initial_lamps, outputs, lights, update_leds_lem}
use panog2_ldr.Rand.{srand}
use panog2_ldr.Rand.Bijection.{after, rand_never_zero}

-- What is echoed, the last text first.
abbrev list_echo : Echo
list_echo = record { Net = List (List ℕ); puts = λ text n. text ∷ n; hang_up = λ n. n }

-- `ma` has been typed.
abbrev typing : Input (List (List ℕ))
typing = record {
  rx = record { rx_buf = 109 ∷ 97 ∷ replicate 78 0; rx_count = 2; input_ready = false };
  net = [];
}

typing-IsRx : IsRx typing.rx
typing-IsRx = record { size = refl; below = omega arith }

-- A backspace, a `p` and a carriage return.
tcp_recv_rub_out_example :
    (tcp_recv list_echo (some (backspace ∷ 112 ∷ carriage_return ∷ [])) typing).rx ≡ typing.rx
tcp_recv_rub_out_example =
    tcp_recv_rub_out list_echo backspace (112 ∷ carriage_return ∷ []) typing typing-IsRx
      (omega arith) (inl refl) refl

-- From power-up: nobody is connected and the link is down, then it is up, then somebody connects.
abbrev looks : List Status
looks =
    record { now = 300; connected = false; link_up = false; has_address = false }
    ∷ record { now = 600; connected = false; link_up = false; has_address = false }
    ∷ record { now = 900; connected = false; link_up = true; has_address = false }
    ∷ record { now = 1200; connected = false; link_up = true; has_address = false }
    ∷ record { now = 1500; connected = true; link_up = true; has_address = true }
    ∷ []

update_leds_example :
    outputs looks initial_lamps ≡ shown off ∷ shown red ∷ shown off ∷ shown blue ∷ shown green ∷ []
unfolding update_leds choose lights
update_leds_example =
    update_leds_lem looks initial_lamps (inl refl)
      (omega arith, (omega arith, (omega arith, (omega arith, (omega arith, tt)))))

rand_never_zero_example : (after 100 (srand 7) ≢ 0) × (after 100 (srand 7) < 2 ^ 32)
rand_never_zero_example = rand_never_zero 100 7 (omega arith) (omega arith)
