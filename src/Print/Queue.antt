-- ===== src/Print/Queue.antt =====
-- The counters of the transmit buffer, and what reaches the peer.
use panog2_ldr.Base.{
  append-nil, sym, ℕ, suc, zero, ◌+◌, ◌≤◌, ◌<◌, ◌≡◌, refl, ap, ap₂, ◌∙◌, arith, Bool, true, List,
  [], ◌∷◌, ◌++◌, take, drop, length, get_or, returns, ltb, lt→ltb, if◌then◌else◌, ◌&&◌,
}
use panog2_ldr.Print.{
  net_print_buf_len, NetPrint, Tcp, Poll, acked, chunk, chunk_size, fill_pcb, tcp_sent, poll,
  wait_empty,
}

-- What has been acknowledged has been queued, and what has been queued is in the buffer.
pub record IsQueue (p : NetPrint) : Type 0 where
  pub size : length p.print_buf ≡ net_print_buf_len
  pub sent : p.bytes_sent ≤ p.bytes_queued
  pub queued : p.bytes_queued ≤ p.len
  pub fits : p.len ≤ net_print_buf_len

pub fill_pcb-IsQueue : (tcp : Tcp) (p : NetPrint) → IsQueue p → IsQueue (fill_pcb tcp p)
unfolding fill_pcb
fill_pcb-IsQueue tcp p v = ground arith

-- An acknowledgement of bytes that are under way keeps the counters in order, whatever lwIP takes next.
pub tcp_sent-IsQueue :
    (tcp : Tcp) (n : ℕ) (p : NetPrint)
    → IsQueue p
    → p.bytes_sent + n ≤ p.bytes_queued
    → IsQueue (tcp_sent tcp n p)
unfolding tcp_sent
tcp_sent-IsQueue tcp n p v h =
    let sent =
      fill_pcb-IsQueue tcp (record p { bytes_sent = p.bytes_sent + n })
        (record { size = v.size; sent = h; queued = v.queued; fits = v.fits }) in
    ground arith

abbrev pub sum : List ℕ → ℕ
sum [] = 0
sum (n ∷ ns) = n + sum ns

abbrev pub acks : List ℕ → List Poll
acks [] = []
acks (n ∷ ns) = acked n ∷ acks ns

-- Every acknowledgement is for a byte at least.
abbrev pub AllPos : List ℕ → Type 0
AllPos [] = Unit
AllPos (n ∷ ns) = (0 < n) × AllPos ns

-- The buffer is empty.
abbrev pub emptied : NetPrint → NetPrint
emptied p = record p { len = 0; bytes_queued = 0; bytes_sent = 0 }

fill_pcb-full : (tcp : Tcp) (p : NetPrint) → p.len ≤ p.bytes_queued → fill_pcb tcp p ≡ p
unfolding fill_pcb
fill_pcb-full tcp p h = ground arith

tcp_sent-all :
    (tcp : Tcp) (n : ℕ) (p : NetPrint) → p.bytes_sent + n ≡ p.len → tcp_sent tcp n p ≡ emptied p
unfolding tcp_sent
tcp_sent-all tcp n p h = ground arith

tcp_sent-more :
    (tcp : Tcp) (n : ℕ) (p : NetPrint)
    → p.bytes_sent + n < p.len
    → p.len ≤ p.bytes_queued
    → tcp_sent tcp n p ≡ record p { bytes_sent = p.bytes_sent + n }
unfolding tcp_sent
tcp_sent-more tcp n p h full =
    let same = fill_pcb-full tcp (record p { bytes_sent = p.bytes_sent + n }) full in ground arith

wait_over :
    (tcp : Tcp) (rest : List Poll) (p : NetPrint)
    → p.len ≡ p.bytes_sent
    → wait_empty tcp rest p ≡ returns (rest, p)
unfolding wait_empty
wait_over tcp [] p h = ground arith
wait_over tcp (e ∷ rest) p h = ground arith

wait_turn :
    (tcp : Tcp) (e : Poll) (events : List Poll) (p : NetPrint)
    → p.connected ≡ true
    → p.bytes_sent < p.len
    → wait_empty tcp (e ∷ events) p ≡ wait_empty tcp events (poll tcp e p)
unfolding wait_empty
wait_turn tcp e events p c h = ground arith

-- A wait that gets the acknowledgements of what is under way ends with the buffer empty.
pub acks_drain :
    (tcp : Tcp) (ns : List ℕ) (rest : List Poll) (p : NetPrint)
    → p.connected ≡ true
    → AllPos ns
    → p.bytes_sent < p.len
    → p.len ≤ p.bytes_queued
    → p.bytes_sent + sum ns ≡ p.len
    → wait_empty tcp (acks ns ++ rest) p ≡ returns (rest, emptied p)
unfolding poll
acks_drain tcp [] rest p c pos h full total = absurd (omega arith)
acks_drain tcp (n ∷ []) rest p c pos h full total =
    wait_turn tcp (acked n) rest p c h
    ∙ ap (wait_empty tcp rest) (tcp_sent-all tcp n p (omega arith))
    ∙ wait_over tcp rest (emptied p) refl
acks_drain tcp (n ∷ m ∷ ns) rest p c pos h full total =
    let positive = pos.1.0 in
    wait_turn tcp (acked n) (acks (m ∷ ns) ++ rest) p c h
    ∙ ap (wait_empty tcp (acks (m ∷ ns) ++ rest)) (tcp_sent-more tcp n p (omega arith) full)
    ∙ acks_drain tcp (m ∷ ns) rest (record p { bytes_sent = p.bytes_sent + n }) c pos.1
        (omega arith) full (omega arith)

pub fill_pcb-whole :
    (tcp : Tcp) (p : NetPrint)
    → p.connected ≡ true
    → p.bytes_queued ≡ 0
    → p.bytes_sent ≡ 0
    → 0 < p.len
    → p.len ≤ tcp.sndbuf p.wire
    → tcp.accepts p.wire (take p.len p.print_buf) ≡ true
    → fill_pcb tcp p ≡ record p { bytes_queued = p.len; wire = p.wire ++ take p.len p.print_buf }
unfolding fill_pcb
fill_pcb-whole tcp p c q z pos room ok =
    ap
      (λ b.
        go b (tcp.accepts p.wire (chunk tcp p)) (p.bytes_queued + chunk_size tcp p) (chunk tcp p))
      due
    ∙ ap (λ bs. go true (tcp.accepts p.wire bs) (p.bytes_queued + chunk_size tcp p) bs) text
    ∙ ap (λ b. go true b (p.bytes_queued + chunk_size tcp p) (take p.len p.print_buf)) ok
    ∙ ap (λ n. go true true n (take p.len p.print_buf)) (omega (arith, size))
  where
    go : Bool → Bool → ℕ → List ℕ → NetPrint
    go b taken n bs =
        if b then if taken then record p { bytes_queued = n; wire = p.wire ++ bs } else p else p

    due : p.connected && ltb p.bytes_queued p.len ≡ true
    due = rw (c, lt→ltb p.bytes_queued p.len (omega arith)) refl

    size : chunk_size tcp p ≡ p.len
    size = ground arith

    text : chunk tcp p ≡ take p.len p.print_buf
    text = ap₂ (λ n k. take n (drop k p.print_buf)) size z

-- A text in the buffer that lwIP has room for is written whole and once, and a wait that gets its
-- acknowledgements, in parts of any size, ends with the buffer empty.
pub text_delivered :
    (tcp : Tcp) (ns : List ℕ) (p : NetPrint)
    → p.connected ≡ true
    → p.bytes_queued ≡ 0
    → p.bytes_sent ≡ 0
    → 0 < p.len
    → p.len ≤ tcp.sndbuf p.wire
    → tcp.accepts p.wire (take p.len p.print_buf) ≡ true
    → AllPos ns
    → sum ns ≡ p.len
    → wait_empty tcp (acks ns) (fill_pcb tcp p)
      ≡ returns ([], emptied (record p { wire = p.wire ++ take p.len p.print_buf }))
text_delivered tcp ns p c q z pos room ok all total =
    ap (wait_empty tcp (acks ns)) (fill_pcb-whole tcp p c q z pos room ok)
    ∙ ap (λ es. wait_empty tcp es written) (sym (append-nil (acks ns)))
    ∙ acks_drain tcp ns [] written c all (omega arith) (omega arith) (omega arith)
  where
    written : NetPrint
    written = record p { bytes_queued = p.len; wire = p.wire ++ take p.len p.print_buf }

-- After a part of the text has been acknowledged, and another part is under way, the next write starts
-- again at the first byte that is not acknowledged, one that has been written before.
pub fill_pcb_resends :
    (tcp : Tcp) (p : NetPrint)
    → p.connected ≡ true
    → IsQueue p
    → p.bytes_sent < p.bytes_queued
    → p.bytes_queued < p.len
    → 0 < tcp.sndbuf p.wire
    → tcp.accepts p.wire (chunk tcp p) ≡ true
    → ((fill_pcb tcp p).wire ≡ p.wire ++ chunk tcp p)
      × (0 < length (chunk tcp p))
      × (get_or (chunk tcp p) 0 256 ≡ get_or p.print_buf p.bytes_sent 256)
unfolding fill_pcb
fill_pcb_resends tcp p c v under more room ok = (ground arith, starts.0, starts.1)
  where
    some_bytes : 0 < chunk_size tcp p
    some_bytes = ground arith

    head :
        (n k : ℕ) (bs : List ℕ)
        → 0 < n
        → k < length bs
        → (0 < length (take n (drop k bs))) × (get_or (take n (drop k bs)) 0 256 ≡ get_or bs k 256)
    head zero k bs h b = absurd (omega arith)
    head (suc n) k [] h b = absurd (omega arith)
    head (suc n) zero (x ∷ bs) h b = (omega arith, refl)
    head (suc n) (suc k) (x ∷ bs) h b = head (suc n) k bs h (omega arith)

    starts :
        (0 < length (chunk tcp p))
        × (get_or (chunk tcp p) 0 256 ≡ get_or p.print_buf p.bytes_sent 256)
    starts =
        head (chunk_size tcp p) p.bytes_sent p.print_buf some_bytes (omega (arith, v.size, v.fits))
