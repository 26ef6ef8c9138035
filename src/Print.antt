-- ===== src/Print.antt =====
-- The transmit buffer `gNetPrint` of fw/pano_ldr/main.c: `NetPrintFillPcb`, `TcpSent`, `NetPuts` and
-- `NetWaitBufEmptyInternal`.
pub mod Queue
pub mod Stream
use panog2_ldr.Base.{
  ℕ, suc, zero, ◌+◌, ◌-◌, Bool, true, false, ◌&&◌, not, ◌||◌, put_at, fault, List, [], ◌∷◌, ◌++◌,
  take, drop, set, length, ltb, leb, ◌==◌, if◌then◌else◌, min, Outcome, returns, no_fuel, ◌>>=◌,
}

-- NET_PRINT_BUF_LEN
abbrev pub net_print_buf_len : ℕ
net_print_buf_len = 120

-- `NetPrintInternal_t`, with `gTcpCon != NULL` and all the bytes that `tcp_write` has taken, in order.
pub record NetPrint : Type 0 where
  pub print_buf : List ℕ
  pub len : ℕ
  pub bytes_queued : ℕ
  pub bytes_sent : ℕ
  pub connected : Bool
  pub wire : List ℕ

-- lwIP's side: `tcp_sndbuf` after the bytes written so far, and whether `tcp_write` takes a chunk.
pub record Tcp : Type 0 where
  pub sndbuf : List ℕ → ℕ
  pub accepts : List ℕ → List ℕ → Bool

-- What a `pano_netif_poll` brings to the buffer: nothing, `TcpPoll`, `TcpSent` of `n` bytes, `TcpRecv` of
-- a peer that has closed, or `TcpAccept` of a new connection.
pub data Poll : Type 0 where
  quiet ticked : Poll
  acked : ℕ → Poll
  closed opened : Poll

-- What `tcp_write` is given: `Byte2Write` bytes, cut to what can be sent, from `BytesSent` on.
abbrev pub chunk_size : Tcp → NetPrint → ℕ
chunk_size tcp p =
    if ltb (tcp.sndbuf p.wire) (p.len - p.bytes_queued)
    then tcp.sndbuf p.wire
    else p.len - p.bytes_queued

abbrev pub chunk : Tcp → NetPrint → List ℕ
chunk tcp p = take (chunk_size tcp p) (drop p.bytes_sent p.print_buf)

-- `NetPrintFillPcb` of a connection. `tcp_output` is lwIP's.
pub fill_pcb : Tcp → NetPrint → NetPrint
fill_pcb tcp p =
    let queued = record p {
      bytes_queued = p.bytes_queued + chunk_size tcp p;
      wire = p.wire ++ chunk tcp p;
    } in
    if p.connected && ltb p.bytes_queued p.len
    then if tcp.accepts p.wire (chunk tcp p) then queued else p
    else p

-- `TcpSent`
pub tcp_sent : Tcp → ℕ → NetPrint → NetPrint
tcp_sent tcp n p =
    let sent = record p { bytes_sent = p.bytes_sent + n } in
    if sent.bytes_sent == p.len
    then record sent { bytes_sent = 0; len = 0; bytes_queued = 0 }
    else fill_pcb tcp sent

-- `TcpAccept`: the bytes of a new connection are counted anew.
abbrev pub open_con : NetPrint → NetPrint
open_con p = record p { connected = true; bytes_sent = 0; len = 0; bytes_queued = 0; wire = [] }

pub poll : Tcp → Poll → NetPrint → NetPrint
poll tcp quiet p = p
poll tcp ticked p = fill_pcb tcp p
poll tcp (acked n) p = tcp_sent tcp n p
poll tcp closed p = record p { connected = false }
poll tcp opened p = open_con p

-- `NetWaitBufEmptyInternal` on the events of its polls, with those that are left. `no_fuel` is a wait that
-- goes on.
pub wait_empty : Tcp → List Poll → NetPrint → Outcome (List Poll × NetPrint)
wait_empty tcp [] p =
    if p.connected && not (p.len == p.bytes_sent) then no_fuel else returns ([], p)
wait_empty tcp (e ∷ events) p =
    let turn = wait_empty tcp events (poll tcp e p) in
    if p.connected && not (p.len == p.bytes_sent) then turn else returns (e ∷ events, p)

-- `*cp++ = *String++; p->Len++`
abbrev pub put : ℕ → ℕ → NetPrint → NetPrint
put cp c p = record p { print_buf = set p.print_buf cp c; len = p.len + 1 }

-- The loop of `NetPuts`, with `cp` as an index of the buffer.
pub puts_loop : Tcp → List ℕ → ℕ → List Poll → NetPrint → Outcome (List Poll × NetPrint)
puts_loop tcp [] cp events p = returns (events, p)
puts_loop tcp (c ∷ string) cp events p =
    let flushed : Outcome (List Poll × NetPrint) = do
      (later, q) ← wait_empty tcp events (fill_pcb tcp p)
      puts_loop tcp string 1 later (put 0 c q)
    in let stored = puts_loop tcp string (cp + 1) events (put cp c p) in
      if not p.connected
      then returns (events, p)
      else if leb net_print_buf_len p.len
      then flushed
      else stored

pub net_puts : Tcp → List ℕ → List Poll → NetPrint → Outcome (List Poll × NetPrint)
net_puts tcp string events p = puts_loop tcp string p.len events p

-- What `vsnprintf` leaves in the buffer: the text cut to 119 bytes, and a 0.
abbrev pub formatted : List ℕ → NetPrint → NetPrint
formatted text p = record p {
  print_buf = put_at p.print_buf 0 (take (net_print_buf_len - 1) text ++ 0 ∷ []);
  len = length text;
}

-- `NetPrintf`, by the text that its format stands for; `Len` is the length of the whole text. `fault` is
-- `tcp_sndbuf(NULL)`, or a `tcp_write` of bytes behind the buffer.
pub net_printf : Tcp → List ℕ → List Poll → NetPrint → Outcome (List Poll × NetPrint)
net_printf tcp text events p = do
  (later, q) ← wait_empty tcp events p
  let r = formatted text q
  if not r.connected || ltb net_print_buf_len (chunk_size tcp r)
      then fault
      else returns (later, fill_pcb tcp r)

-- `SendPrompt`: "ldr> ".
abbrev pub prompt_text : List ℕ
prompt_text = 108 ∷ 100 ∷ 114 ∷ 62 ∷ 32 ∷ []

pub send_prompt : Tcp → List Poll → NetPrint → Outcome (List Poll × NetPrint)
send_prompt tcp = net_printf tcp prompt_text
