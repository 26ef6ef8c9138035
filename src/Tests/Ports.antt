-- ===== src/Tests/Ports.antt =====
-- The theorems on the Ethernet FIFOs and the clock, at concrete inputs.
use panog2_ldr.Base.{ℕ, ◌≡◌, refl, arith, true, fault, replicate, List, [], ◌∷◌, ◌++◌, returns}
use panog2_ldr.Ether.{Pool, netif_output, netif_poll}
use panog2_ldr.Ether.Frames.{output_poll, netif_poll_overruns}
use panog2_ldr.Uptime.{initial_clock}
use panog2_ldr.Uptime.Timer.{readings, sys_now-eq-timer}

abbrev large_pool : Pool
large_pool = record { alloc = λ n. true }

-- Two buffers, and a byte of the next frame behind them.
output_poll_example :
    (wire : List ℕ) × (netif_output (record { tot_len = 3; chain = (1 ∷ 2 ∷ []) ∷ (3 ∷ []) ∷ [] })
      ≡ returns wire)
    × (netif_poll large_pool (record { rx_fifo = wire ++ 9 ∷ []; frames = [] })
        ≡ returns (record { rx_fifo = 9 ∷ []; frames = (1 ∷ 2 ∷ 3 ∷ []) ∷ [] }))
output_poll_example =
    output_poll large_pool ((1 ∷ 2 ∷ []) ∷ (3 ∷ []) ∷ []) (9 ∷ []) []
      (omega arith, (omega arith, tt)) (omega arith) (omega arith) refl

-- A frame of 600 bytes.
netif_poll_overruns_example :
    netif_poll large_pool (record { rx_fifo = 2 ∷ 88 ∷ replicate 600 7 ++ []; frames = [] }) ≡ fault
netif_poll_overruns_example =
    netif_poll_overruns large_pool (replicate 600 7) [] [] (omega arith) (omega arith) refl

-- The timer goes from 800000 back to 5, and the uptime with it.
sys_now_example : (readings (700000 ∷ 800000 ∷ 5 ∷ []) initial_clock).uptime ≡ 5
sys_now_example = sys_now-eq-timer (700000 ∷ 800000 ∷ []) 5
