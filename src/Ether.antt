-- ===== src/Ether.antt =====
-- The Ethernet side of fw/pano_ldr/main.c: `pano_netif_output`, `pano_netif_poll` and `ClearRxFifo`, on the
-- FIFOs behind ETH_TX and ETH_RX.
pub mod Frames
use panog2_ldr.Base.{
  ℕ, suc, zero, ◌+◌, ◌-◌, ◌*◌, ◌/◌, ◌%◌, List, [], ◌∷◌, ◌++◌, Bool, true, false, ◌||◌, take, drop,
  length, ltb, ◌==◌, if◌then◌else◌, Outcome, returns, fault, ◌>>=◌, u8, u16,
}
use panog2_ldr.Tftp.{Pbuf}

-- MAX_ETH_FRAME_LEN, and the reads of `ClearRxFifo`.
abbrev pub max_eth_frame_len : ℕ
max_eth_frame_len = 1518

abbrev pub clear_reads : ℕ
clear_reads = 2048

-- The loop of `pano_netif_output`, with what is left of the buffer and of the chain, and what has been
-- written. A chain that ends early ends the frame; an empty buffer inside it is read past.
pub tx_loop : ℕ → List ℕ → List (List ℕ) → List ℕ → Outcome (List ℕ)
tx_loop zero cur next out = returns out
tx_loop (suc k) [] [] out = returns out
tx_loop (suc k) [] ([] ∷ next) out = fault
tx_loop (suc k) [] ((b ∷ bs) ∷ next) out = tx_loop k bs next (out ++ b ∷ [])
tx_loop (suc k) (b ∷ bs) next out = tx_loop k bs next (out ++ b ∷ [])

-- `pano_netif_output`: what is written to ETH_TX.
pub netif_output : Pbuf → Outcome (List ℕ)
netif_output p = elim p.chain [
  | [] ↦ fault
  | (b ∷ next) ↦ tx_loop p.tot_len b next (u8 (p.tot_len / 256) ∷ u8 p.tot_len ∷ [])
]

-- The receive side: the bytes behind ETH_RX, which is empty where ETH_STATUS_RXEMPTY is set, and the frames
-- handed to lwIP, the last one first.
pub record Ether : Type 0 where
  pub rx_fifo : List ℕ
  pub frames : List (List ℕ)

-- TCP_MSS, PBUF_LINK_HLEN, PBUF_LINK_ENCAPSULATION_HLEN and MEM_ALIGNMENT of lwipopts.h.
abbrev pub tcp_mss : ℕ
tcp_mss = 536

abbrev pub pbuf_link_hlen : ℕ
pbuf_link_hlen = 14

abbrev pub pbuf_link_encapsulation_hlen : ℕ
pbuf_link_encapsulation_hlen = 0

abbrev pub mem_alignment : ℕ
mem_alignment = 4

-- PBUF_POOL_BUFSIZE: what one buffer of the pool holds. A longer packet is a chain of them.
abbrev pub pbuf_pool_bufsize : ℕ
pbuf_pool_bufsize =
    (tcp_mss + 40 + pbuf_link_encapsulation_hlen + pbuf_link_hlen + (mem_alignment - 1))
    / mem_alignment
    * mem_alignment

-- lwIP's side: whether `pbuf_alloc` gives a chain for a length.
pub record Pool : Type 0 where
  pub alloc : ℕ → Bool

pub clear_rx_fifo : List ℕ → List ℕ
clear_rx_fifo fifo = drop clear_reads fifo

-- The frame of `count` bytes; one byte is read at least. `fault` is a read from the empty FIFO, or a write
-- past the first buffer of the chain.
abbrev pub read_size : ℕ → ℕ
read_size count = if count == 0 then 1 else count

pub rx_frame : Pool → ℕ → Ether → Outcome Ether
rx_frame pool count e =
    if pool.alloc count
    then if ltb pbuf_pool_bufsize (read_size count) || ltb (length e.rx_fifo) (read_size count)
      then fault
      else returns (record {
        rx_fifo = drop (read_size count) e.rx_fifo;
        frames = take count e.rx_fifo ∷ e.frames;
      })
    else if ltb (length e.rx_fifo) count
    then fault
    else returns (record e { rx_fifo = drop count e.rx_fifo })

-- `pano_netif_poll` without lwIP's timers. A frame of an invalid length clears the FIFO, and is read on.
pub netif_poll : Pool → Ether → Outcome Ether
netif_poll pool e = elim e.rx_fifo [
  | [] ↦ returns e
  | (h ∷ rest) ↦ elim rest [
    | [] ↦ fault
    | (l ∷ fifo) ↦
        let count = u16 (h * 256 + l) in
        if count == 0 || ltb max_eth_frame_len count
        then rx_frame pool count (record e { rx_fifo = clear_rx_fifo fifo })
        else rx_frame pool count (record e { rx_fifo = fifo })
  ]
]
