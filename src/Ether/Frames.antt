-- ===== src/Ether/Frames.antt =====
-- A frame that is sent is received.
use panog2_ldr.Base.{
  ℕ, suc, zero, ◌+◌, ◌*◌, ◌/◌, ◌≤◌, ◌<◌, ◌≡◌, refl, ap, ◌∙◌, sym, arith, List, [], ◌∷◌, ◌++◌,
  append_assoc, append-nil, true, fault, lt→ltb, length, length-append, take-append, drop-append,
  returns, le→ltb, ne→==, u8, u16, ltb, ◌||◌, if◌then◌else◌, ◌==◌,
}
use panog2_ldr.Ether.{
  max_eth_frame_len, pbuf_pool_bufsize, tx_loop, netif_output, Ether, Pool, rx_frame, netif_poll,
  clear_rx_fifo,
}

-- The bytes of a chain.
abbrev pub joined : List (List ℕ) → List ℕ
joined [] = []
joined (b ∷ bs) = b ++ joined bs

-- No buffer of the chain is empty.
abbrev pub NonEmpty : List (List ℕ) → Type 0
NonEmpty [] = Unit
NonEmpty (b ∷ bs) = (0 < length b) × NonEmpty bs

tx_loop_lem :
    (k : ℕ) (cur : List ℕ) (next : List (List ℕ)) (out : List ℕ)
    → NonEmpty next
    → k ≡ length cur + length (joined next)
    → tx_loop k cur next out ≡ returns (out ++ (cur ++ joined next))
unfolding tx_loop
tx_loop_lem zero [] [] out h e = ap returns (sym (append-nil out))
tx_loop_lem zero [] (b ∷ bs) out h e = absurd (omega (arith, h.0, length-append b (joined bs)))
tx_loop_lem zero (c ∷ cs) next out h e = absurd (omega arith)
tx_loop_lem (suc k) [] [] out h e = absurd (omega arith)
tx_loop_lem (suc k) [] ([] ∷ next) out h e = absurd (omega (arith, h.0))
tx_loop_lem (suc k) [] ((b ∷ bs) ∷ next) out h e =
    tx_loop_lem k bs next (out ++ b ∷ []) h.1 (omega (arith, length-append bs (joined next)))
    ∙ ap returns (append_assoc out (b ∷ []) (bs ++ joined next))
tx_loop_lem (suc k) (c ∷ cs) next out h e =
    tx_loop_lem k cs next (out ++ c ∷ []) h (omega arith)
    ∙ ap returns (append_assoc out (c ∷ []) (cs ++ joined next))

-- The read of a frame that stands at the front of the FIFO.
rx_frame_lem :
    (pool : Pool) (bs more : List ℕ) (frames : List (List ℕ))
    → 0 < length bs
    → length bs ≤ pbuf_pool_bufsize
    → pool.alloc (length bs) ≡ true
    → rx_frame pool (length bs) (record { rx_fifo = bs ++ more; frames = frames })
      ≡ returns (record { rx_fifo = more; frames = bs ∷ frames })
unfolding rx_frame
rx_frame_lem pool bs more frames pos fits ok =
    rw
      (
        ok,
        ne→== (length bs) 0 (omega arith),
        le→ltb pbuf_pool_bufsize (length bs) fits,
        le→ltb (length (bs ++ more)) (length bs) (omega (arith, length-append bs more)),
        take-append bs more (length bs) refl,
        drop-append bs more (length bs) refl,
      )
      refl

netif_poll_lem :
    (pool : Pool) (bs more : List ℕ) (frames : List (List ℕ))
    → 0 < length bs
    → length bs ≤ max_eth_frame_len
    → netif_poll pool
        (record { rx_fifo = u8 (length bs / 256) ∷ u8 (length bs) ∷ bs ++ more; frames = frames })
      ≡ rx_frame pool (length bs) (record { rx_fifo = bs ++ more; frames = frames })
unfolding netif_poll
netif_poll_lem pool bs more frames pos small =
    ap
      (λ n.
        if n == 0 || ltb max_eth_frame_len n
        then rx_frame pool n cleared
        else rx_frame pool n front)
      count
    ∙ rw (ne→== (length bs) 0 (omega arith), le→ltb max_eth_frame_len (length bs) small) refl
  where
    cleared : Ether
    cleared = record { rx_fifo = clear_rx_fifo (bs ++ more); frames = frames }

    front : Ether
    front = record { rx_fifo = bs ++ more; frames = frames }

    count : u16 (u8 (length bs / 256) * 256 + u8 (length bs)) ≡ length bs
    count = omega arith

-- A chain of buffers that are not empty, of 1 to 592 bytes in all, is written as its length and its
-- bytes; a poll that finds what was written at the front of the FIFO, with a buffer for it, hands exactly
-- those bytes to lwIP, and leaves what follows.
pub output_poll :
    (pool : Pool) (chain : List (List ℕ)) (more : List ℕ) (frames : List (List ℕ))
    → NonEmpty chain
    → 0 < length (joined chain)
    → length (joined chain) ≤ pbuf_pool_bufsize
    → pool.alloc (length (joined chain)) ≡ true
    → (wire : List ℕ) × (netif_output (record { tot_len = length (joined chain); chain = chain })
        ≡ returns wire)
      × (netif_poll pool (record { rx_fifo = wire ++ more; frames = frames })
          ≡ returns (record { rx_fifo = more; frames = joined chain ∷ frames }))
unfolding netif_output
output_poll pool [] more frames full pos fits ok = absurd (omega arith)
output_poll pool (b ∷ next) more frames full pos fits ok =
    let bytes = joined (b ∷ next) in
    let lengths : List ℕ = u8 (length bytes / 256) ∷ u8 (length bytes) ∷ [] in
    (
      lengths ++ bytes,
      tx_loop_lem (length bytes) b next lengths full.1 (length-append b (joined next)),
      netif_poll_lem pool bytes more frames pos (omega arith)
          ∙ rx_frame_lem pool bytes more frames pos fits ok,
    )

-- A frame of a length that the check lets through and that is longer than a buffer of the pool, 593 to
-- 1518 bytes, is written past the end of the first buffer of its chain.
pub netif_poll_overruns :
    (pool : Pool) (bs more : List ℕ) (frames : List (List ℕ))
    → pbuf_pool_bufsize < length bs
    → length bs ≤ max_eth_frame_len
    → pool.alloc (length bs) ≡ true
    → netif_poll pool
        (record { rx_fifo = u8 (length bs / 256) ∷ u8 (length bs) ∷ bs ++ more; frames = frames })
      ≡ fault
unfolding rx_frame
netif_poll_overruns pool bs more frames long small ok =
    netif_poll_lem pool bs more frames (omega arith) small
    ∙ rw (ok, ne→== (length bs) 0 (omega arith), lt→ltb pbuf_pool_bufsize (length bs) long) refl
