-- ===== src/Print/Stream.antt =====
-- `NetPuts` as a stream: the buffer and its flushes do not show.
use panog2_ldr.Base.{
  ℕ, suc, ◌+◌, ◌*◌, ◌≤◌, ◌<◌, ◌≡◌, refl, sym, ap, ◌∙◌, arith, true, List, [], ◌∷◌, ◌++◌, append-nil,
  append_assoc, take, set, length, length-set, take-set_self, Outcome, returns, ◌>>=◌,
}
use native.Mathlib.Decide.{dec_lt}
use panog2_ldr.Print.{
  NetPrint, Tcp, Poll, net_print_buf_len, fill_pcb, wait_empty, put, puts_loop, net_puts,
}
use panog2_ldr.Print.Queue.{sum, acks, AllPos, emptied, acks_drain, fill_pcb-whole}

-- lwIP always has room for the buffer, and takes what it is given.
pub record IsOpen (tcp : Tcp) : Type 0 where
  pub room : (w : List ℕ) → net_print_buf_len ≤ tcp.sndbuf w
  pub takes : (w bs : List ℕ) → tcp.accepts w bs ≡ true

-- A connection on which nothing is under way.
pub record IsIdle (p : NetPrint) : Type 0 where
  pub up : p.connected ≡ true
  pub size : length p.print_buf ≡ net_print_buf_len
  pub fits : p.len ≤ net_print_buf_len
  pub none_queued : p.bytes_queued ≡ 0
  pub none_sent : p.bytes_sent ≡ 0

-- What was written, and what is in the buffer.
abbrev pub stream : NetPrint → List ℕ
stream p = p.wire ++ take p.len p.print_buf

-- The replies to the flushes: for each, acknowledgements of the whole buffer, in parts of any size.
abbrev pub AreReplies : List (List ℕ) → Type 0
AreReplies [] = Unit
AreReplies (ns ∷ rest) = AllPos ns × (sum ns ≡ net_print_buf_len) × AreReplies rest

abbrev pub replies : List (List ℕ) → List Poll
replies [] = []
replies (ns ∷ rest) = acks ns ++ replies rest

puts_stored :
    (tcp : Tcp) (c : ℕ) (text : List ℕ) (cp : ℕ) (events : List Poll) (p : NetPrint)
    → p.connected ≡ true
    → p.len < net_print_buf_len
    → puts_loop tcp (c ∷ text) cp events p ≡ puts_loop tcp text (cp + 1) events (put cp c p)
unfolding puts_loop
puts_stored tcp c text cp events p up room = ground arith

puts_flushed :
    (tcp : Tcp) (c : ℕ) (text : List ℕ) (cp : ℕ) (events : List Poll) (p : NetPrint)
    → p.connected ≡ true
    → net_print_buf_len ≤ p.len
    → puts_loop tcp (c ∷ text) cp events p
      ≡ (wait_empty tcp events (fill_pcb tcp p) >>= λ r. puts_loop tcp text 1 r.0 (put 0 c r.1))
unfolding puts_loop
puts_flushed tcp c text cp events p up full = ground arith

put-stream :
    (c : ℕ) (p : NetPrint)
    → IsIdle p
    → p.len < net_print_buf_len
    → stream (put p.len c p) ≡ stream p ++ c ∷ []
put-stream c p v h =
    ap (λ t. p.wire ++ t)
      (ap (λ n. take n (set p.print_buf p.len c)) {y = suc p.len} (omega arith)
        ∙ take-set_self p.print_buf p.len c (omega (arith, v.size)))
    ∙ sym (append_assoc p.wire (take p.len p.print_buf) (c ∷ []))

put-IsIdle : (c : ℕ) (p : NetPrint) → IsIdle p → p.len < net_print_buf_len → IsIdle (put p.len c p)
put-IsIdle c p v h = record {
  up = v.up;
  size = length-set p.print_buf p.len c ∙ v.size;
  fits = omega arith;
  none_queued = v.none_queued;
  none_sent = v.none_sent;
}

-- A flush of the full buffer.
flushed :
    (tcp : Tcp) (ns : List ℕ) (rest : List Poll) (p : NetPrint)
    → IsOpen tcp
    → IsIdle p
    → p.len ≡ net_print_buf_len
    → AllPos ns
    → sum ns ≡ net_print_buf_len
    → wait_empty tcp (acks ns ++ rest) (fill_pcb tcp p)
      ≡ returns (rest, emptied (record p { wire = stream p }))
flushed tcp ns rest p o v full pos total =
    ap (wait_empty tcp (acks ns ++ rest)) (
      fill_pcb-whole tcp p v.up v.none_queued v.none_sent (omega arith)
        (omega (arith, o.room p.wire)) (o.takes _ _))
    ∙ acks_drain tcp ns rest (record p { bytes_queued = p.len; wire = stream p }) v.up pos
        (omega (arith, v.none_sent)) (omega arith) (omega (arith, v.none_sent))

emptied-IsIdle : (p : NetPrint) → IsIdle p → IsIdle (emptied (record p { wire = stream p }))
emptied-IsIdle p v = record {
  up = v.up;
  size = v.size;
  fits = omega arith;
  none_queued = refl;
  none_sent = refl;
}

module _ (tcp : Tcp) (o : IsOpen tcp) where
  -- The text is at the end of the stream, and nothing is under way.
  abbrev pub Delivers : List ℕ → Outcome (List Poll × NetPrint) → NetPrint → Type 0
  Delivers text r p =
      (later : List (List ℕ)) × (q : NetPrint) × (r ≡ returns (replies later, q))
      × IsIdle q
      × (stream q ≡ stream p ++ text)

  after_store :
      (c : ℕ) (text : List ℕ) (cp : ℕ) (events : List Poll) (p : NetPrint)
      → cp ≡ p.len
      → IsIdle p
      → p.len < net_print_buf_len
      → Delivers text (puts_loop tcp text (cp + 1) events (put p.len c p)) (put p.len c p)
      → Delivers (c ∷ text) (puts_loop tcp (c ∷ text) cp events p) p
  after_store c text cp events p e v room (later, q, run, idle, all) = (
    later,
    q,
    puts_stored tcp c text cp events p v.up room
        ∙ ap (λ k. puts_loop tcp text (cp + 1) events (put k c p)) e
        ∙ run,
    idle,
    all ∙ ap (λ t. t ++ text) (put-stream c p v room) ∙ append_assoc (stream p) (c ∷ []) text,
  )

  -- The buffer after a flush, with the next character.
  abbrev restarted : ℕ → NetPrint → NetPrint
  restarted c p = put 0 c (emptied (record p { wire = stream p }))

  restarted-stream : (c : ℕ) (p : NetPrint) → IsIdle p → stream (restarted c p) ≡ stream p ++ c ∷ []
  restarted-stream c p v =
      put-stream c (emptied (record p { wire = stream p })) (emptied-IsIdle p v) (omega arith)
      ∙ ap (λ t. t ++ c ∷ []) (append-nil (stream p))

  after_flush :
      (c : ℕ) (text : List ℕ) (cp : ℕ) (ns : List ℕ) (rest : List Poll) (p : NetPrint)
      → IsIdle p
      → p.len ≡ net_print_buf_len
      → AllPos ns
      → sum ns ≡ net_print_buf_len
      → Delivers text (puts_loop tcp text 1 rest (restarted c p)) (restarted c p)
      → Delivers (c ∷ text) (puts_loop tcp (c ∷ text) cp (acks ns ++ rest) p) p
  after_flush c text cp ns rest p v full pos total (later, q, run, idle, all) = (
    later,
    q,
    puts_flushed tcp c text cp (acks ns ++ rest) p v.up (omega arith)
        ∙ ap (λ r. r >>= λ (t : List Poll × NetPrint). puts_loop tcp text 1 t.0 (put 0 c t.1))
            (flushed tcp ns rest p o v full pos total)
        ∙ run,
    idle,
    all ∙ ap (λ t. t ++ text) (restarted-stream c p v) ∙ append_assoc (stream p) (c ∷ []) text,
  )

  puts_loop-stream :
      (text : List ℕ) (flushes : List (List ℕ)) (cp : ℕ) (p : NetPrint)
      → cp ≡ p.len
      → IsIdle p
      → AreReplies flushes
      → length text + p.len ≤ length flushes * net_print_buf_len + net_print_buf_len
      → Delivers text (puts_loop tcp text cp (replies flushes) p) p
  puts_loop-stream [] flushes cp p e v are enough =
      (flushes, p, unfold puts_loop in refl, v, sym (append-nil (stream p)))
  puts_loop-stream (c ∷ text) [] cp p e v are enough =
      let room : p.len < net_print_buf_len = omega arith in
      after_store c text cp [] p e v room (
        puts_loop-stream text [] (cp + 1) (put p.len c p) (omega arith) (put-IsIdle c p v room) are
          (omega arith))
  puts_loop-stream (c ∷ text) (ns ∷ rest) cp p e v are enough =
      elim (dec_lt p.len net_print_buf_len) [
        | yes room ↦ after_store c text cp (replies (ns ∷ rest)) p e v room (
            puts_loop-stream text (ns ∷ rest) (cp + 1) (put p.len c p) (omega arith)
              (put-IsIdle c p v room) are (omega arith))
        | no full ↦
            after_flush c text cp ns (replies rest) p v (omega (arith, v.fits)) are.0 are.1 (
              puts_loop-stream text rest 1 (restarted c p) (omega arith)
                (put-IsIdle c (emptied (record p { wire = stream p })) (emptied-IsIdle p v)
                  (omega arith))
                are.2 (omega arith))
      ]

-- Text of any length, on an idle connection to a side that has room: what was written and what is in the
-- buffer grow by exactly the text, in order, and the connection is idle again, if each flush of the full
-- buffer is acknowledged, in parts of any size, and there are replies for as many flushes as the text can
-- need.
pub net_puts-stream :
    (tcp : Tcp) (text : List ℕ) (flushes : List (List ℕ)) (p : NetPrint)
    → IsOpen tcp
    → IsIdle p
    → AreReplies flushes
    → length text ≤ length flushes * net_print_buf_len
    → (later : List (List ℕ)) × (q : NetPrint) × (net_puts tcp text (replies flushes) p
        ≡ returns (replies later, q))
      × IsIdle q
      × (stream q ≡ stream p ++ text)
unfolding net_puts
net_puts-stream tcp text flushes p o v are enough =
    puts_loop-stream tcp o text flushes p.len p refl v are (omega (arith, v.fits))
