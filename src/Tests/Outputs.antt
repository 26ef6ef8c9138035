-- ===== src/Tests/Outputs.antt =====
-- The theorems on the transmit buffer, at concrete inputs.
use panog2_ldr.Base.{
  ℕ, ◌<◌, ◌≡◌, refl, arith, true, List, [], ◌∷◌, get_or, length, replicate, returns,
}
use panog2_ldr.Print.{NetPrint, Tcp, acked, chunk, fill_pcb, wait_empty, net_puts}
use panog2_ldr.Print.Queue.{IsQueue, text_delivered, fill_pcb_resends}
use panog2_ldr.Print.Stream.{IsIdle, stream, replies, net_puts-stream}

-- A side with room for 60 bytes, which takes every chunk.
abbrev open_side : Tcp
open_side = record { sndbuf = λ w. 60; accepts = λ w bs. true }

-- `abcde` in the buffer, of which nothing has been written.
abbrev fresh : NetPrint
fresh = record {
  print_buf = 97 ∷ 98 ∷ 99 ∷ 100 ∷ 101 ∷ replicate 115 0;
  len = 5;
  bytes_queued = 0;
  bytes_sent = 0;
  connected = true;
  wire = [];
}

text_delivered_example :
    wait_empty open_side (acked 2 ∷ acked 3 ∷ []) (fill_pcb open_side fresh)
    ≡ returns ([], record fresh { len = 0; wire = 97 ∷ 98 ∷ 99 ∷ 100 ∷ 101 ∷ [] })
text_delivered_example =
    text_delivered open_side (2 ∷ 3 ∷ []) fresh refl refl refl (omega arith) (omega arith) refl
      (omega arith, (omega arith, tt)) refl

-- Three bytes have been written, and one of them acknowledged.
abbrev partly : NetPrint
partly = record fresh { bytes_queued = 3; bytes_sent = 1; wire = 97 ∷ 98 ∷ 99 ∷ [] }

partly-IsQueue : IsQueue partly
partly-IsQueue = record {
  size = refl;
  sent = omega arith;
  queued = omega arith;
  fits = omega arith;
}

-- The next chunk is `bc`, where `de` is what is left.
fill_pcb_resends_example :
    ((fill_pcb open_side partly).wire ≡ 97 ∷ 98 ∷ 99 ∷ 98 ∷ 99 ∷ [])
    × (0 < length (chunk open_side partly))
    × (get_or (chunk open_side partly) 0 256 ≡ get_or partly.print_buf 1 256)
fill_pcb_resends_example =
    fill_pcb_resends open_side partly refl partly-IsQueue (omega arith) (omega arith) (omega arith)
      refl

-- A side with room for 1072 bytes, and 130 bytes behind the five.
abbrev wide_side : Tcp
wide_side = record { sndbuf = λ w. 1072; accepts = λ w bs. true }

abbrev two_flushes : List (List ℕ)
two_flushes = (60 ∷ 60 ∷ []) ∷ (120 ∷ []) ∷ []

net_puts-stream_example :
    (later : List (List ℕ)) × (q : NetPrint) × (net_puts wide_side
        (replicate 130 65)
        (acked 60 ∷ acked 60 ∷ acked 120 ∷ [])
        fresh
      ≡ returns (replies later, q))
    × IsIdle q
    × (stream q ≡ 97 ∷ 98 ∷ 99 ∷ 100 ∷ 101 ∷ replicate 130 65)
net_puts-stream_example =
    net_puts-stream wide_side (replicate 130 65) two_flushes fresh
      (record { room = λ w. omega arith; takes = λ w bs. refl })
      (record { up = refl; size = refl; fits = omega arith; none_queued = refl; none_sent = refl })
      ((omega arith, (omega arith, tt)), refl, ((omega arith, tt), refl, tt)) (omega arith)
