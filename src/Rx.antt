-- ===== src/Rx.antt =====
-- The telnet line input of fw/pano_ldr/main.c: `TcpRecv`, with the globals `gRxBuf`, `gRxCount` and
-- `gInputReady`.
pub mod Steps
pub mod Line
use panog2_ldr.Base.{
  ℕ, zero, suc, ◌+◌, ◌-◌, Bool, true, false, ◌||◌, not, List, [], ◌∷◌, Option, none, some, length,
  set, drop, ltb, ◌==◌, if◌then◌else◌,
}

-- RX_BUF_LEN
abbrev pub rx_buf_len : ℕ
rx_buf_len = 80

abbrev pub telnet_iac : ℕ
telnet_iac = 0xff

abbrev pub backspace : ℕ
backspace = 8

abbrev pub del : ℕ
del = 127

abbrev pub carriage_return : ℕ
carriage_return = 13

-- `"\b \b"` and `"\a"`.
abbrev pub rub_out : List ℕ
rub_out = 8 ∷ 32 ∷ 8 ∷ []

abbrev pub beep : List ℕ
beep = 7 ∷ []

pub record Rx : Type 0 where
  pub rx_buf : List ℕ
  pub rx_count : ℕ
  pub input_ready : Bool

-- The part of the console that the input uses: its state, `NetPuts`, and `gTcpCon = NULL`.
pub record Echo : Type 1 where
  pub Net : Type 0
  pub puts : List ℕ → Net → Net
  pub hang_up : Net → Net

pub record Input (N : Type 0) : Type 0 where
  pub rx : Rx
  pub net : N

-- The common end of the three branches: `gRxCount++` up to the last index.
abbrev pub count_up : Rx → Rx
count_up r = if ltb r.rx_count (rx_buf_len - 1) then record r { rx_count = r.rx_count + 1 } else r

abbrev pub is_rub_out : ℕ → Bool
is_rub_out c = c == backspace || c == del

-- Storing a byte at `gRxBuf[gRxCount]`, or the 0 that ends the line.
abbrev pub store : ℕ → Rx → Rx
store c r = record r { rx_buf = set r.rx_buf r.rx_count c }

module _ (echo : Echo) where
  open echo use {Net, puts, hang_up}

  -- Backspace or delete.
  pub rub_out_char : Input Net → Input Net
  rub_out_char s =
      if ltb 0 s.rx.rx_count
      then record s {
        rx = count_up (record s.rx { rx_count = s.rx.rx_count - 1 });
        net = puts rub_out s.net;
      }
      else record s { rx = count_up s.rx; net = puts beep s.net }

  unfoldable pub end_line : Input Net → Input Net
  end_line s = record s { rx = count_up (store 0 (record s.rx { input_ready = true })) }

  unfoldable pub put_char : ℕ → Input Net → Input Net
  put_char c s = record s { rx = count_up (store c s.rx) }

  -- The loop of `TcpRecv` at index `i` of `len` bytes; the list is what `cp` points at, which a
  -- backspace and a carriage return do not move on. The empty list is never met: `cp` is not ahead
  -- of `i`.
  unfoldable pub recv_loop : ℕ → ℕ → ℕ → List ℕ → Input Net → Input Net
  recv_loop zero i len cp s = s
  recv_loop (suc fuel) i len [] s = s
  recv_loop (suc fuel) i len (c ∷ cp) s =
      let skipped = recv_loop fuel (i + 3) len (drop 2 cp) s in
      let rubbed = recv_loop fuel (i + 1) len (c ∷ cp) (rub_out_char s) in
      let ended = recv_loop fuel (i + 1) len (c ∷ cp) (end_line s) in
      let stored = recv_loop fuel (i + 1) len cp (put_char c s) in
      if not (ltb i len) || s.rx.input_ready
      then s
      else if c == telnet_iac
      then skipped
      else if is_rub_out c
      then rubbed
      else if c == carriage_return
      then ended
      else stored

  -- `TcpRecv` of the first buffer of a packet, or of NULL when the peer has closed. `tcp_recved` and
  -- `pbuf_free` are lwIP's.
  unfoldable pub tcp_recv : Option (List ℕ) → Input Net → Input Net
  tcp_recv none s = record s { net = hang_up s.net }
  tcp_recv (some payload) s = recv_loop (length payload) 0 (length payload) payload s
