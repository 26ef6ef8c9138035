-- ===== src/Tests/Boots.antt =====
-- The theorems on the start and the main loop, at concrete inputs.
use panog2_ldr.Base.{ℕ, ◌≡◌, refl, List, [], ◌∷◌, returns}
use panog2_ldr.Spi.Nor.{Cells}
use panog2_ldr.Tftp.{type_flash}
use panog2_ldr.Console.{Msg}
use panog2_ldr.Cmd.{Sys}
use panog2_ldr.Boot.{Sample, decide}
use panog2_ldr.Boot.Decision.{none, one, late_looks, requests, decide-delayed}
use panog2_ldr.Tests.{transfer, system}
use panog2_ldr.Tests.Entries.{delayed_flash}

-- The button is held at 1 ms, released from 2 ms to 10002 ms, and pressed at 10003 ms.
abbrev held_at : ℕ → Sample
held_at t = record { input = 0; now = t }

abbrev up_at : ℕ → Sample
up_at t = record { input = 2; now = t }

abbrev waiting : Sys Cells (List Msg)
waiting = record (system (transfer type_flash 0) delayed_flash) {
  auto_boot = 2;
  auto_boot_adr = 0x40000;
}

decide-delayed_example :
    decide
      (held_at 1 ∷ up_at 2 ∷ up_at 9999 ∷ up_at 10001 ∷ up_at 10002 ∷ held_at 10003 ∷ [])
      waiting
    ≡ returns (
      [],
      record waiting {
        gpio =
            (0x9400_0030, 0)
            ∷ (0x9400_0030, 1)
            ∷ (0x9400_002c, 0x40000)
            ∷ (0x9400_0030, 0)
            ∷ (0x9400_0030, 1)
            ∷ (0x9400_002c, 0x40000)
            ∷ [];
      },
    )
unfolding late_looks requests
decide-delayed_example =
    decide-delayed (held_at 1 ∷ []) (up_at 9999 ∷ up_at 10001 ∷ up_at 10002 ∷ []) [] (up_at 2)
      (held_at 10003) waiting refl (one _ _ refl none) refl
      (one _ _ refl (one _ _ refl (one _ _ refl none))) refl
