-- ===== src/Rx/Steps.antt =====
-- One turn of the loop of `TcpRecv`, and the bounds of its buffer.
use panog2_ldr.Base.{
  ℕ, zero, suc, ◌+◌, ◌<◌, ◌≡◌, ◌≢◌, refl, arith, true, false, List, [], ◌∷◌, some, length,
  length-set, drop,
}
use panog2_ldr.Rx.{
  rx_buf_len, telnet_iac, backspace, del, carriage_return, Rx, Echo, Input, is_rub_out,
  rub_out_char, end_line, put_char, recv_loop, tcp_recv,
}

-- The buffer has its size, and the count is an index of it.
pub record IsRx (r : Rx) : Type 0 where
  pub size : length r.rx_buf ≡ rx_buf_len
  pub below : r.rx_count < rx_buf_len

-- A byte that is stored as it is.
pub record IsPlain (c : ℕ) : Type 0 where
  pub not_iac : c ≢ telnet_iac
  pub not_backspace : c ≢ backspace
  pub not_del : c ≢ del
  pub not_return : c ≢ carriage_return

abbrev pub ArePlain : List ℕ → Type 0
ArePlain [] = Unit
ArePlain (c ∷ cs) = IsPlain c × ArePlain cs

module _ (echo : Echo) where
  pub put_char-IsRx : (c : ℕ) (s : Input echo.Net) → IsRx s.rx → IsRx (put_char echo c s).rx
  unfolding put_char
  put_char-IsRx c s v = ground (arith, length-set s.rx.rx_buf s.rx.rx_count c)

  pub end_line-IsRx : (s : Input echo.Net) → IsRx s.rx → IsRx (end_line echo s).rx
  unfolding end_line
  end_line-IsRx s v = ground (arith, length-set s.rx.rx_buf s.rx.rx_count 0)

  pub rub_out_char-IsRx : (s : Input echo.Net) → IsRx s.rx → IsRx (rub_out_char echo s).rx
  unfolding rub_out_char
  rub_out_char-IsRx s v = ground arith

  recv_loop-IsRx :
      (fuel i len : ℕ) (cp : List ℕ) (s : Input echo.Net)
      → IsRx s.rx
      → IsRx (recv_loop echo fuel i len cp s).rx
  unfolding recv_loop
  recv_loop-IsRx zero i len cp s v = v
  recv_loop-IsRx (suc fuel) i len [] s v = v
  recv_loop-IsRx (suc fuel) i len (c ∷ cp) s v = ground (
    arith,
    recv_loop-IsRx fuel (i + 3) len (drop 2 cp) s v,
    recv_loop-IsRx fuel (i + 1) len (c ∷ cp) (rub_out_char echo s) (rub_out_char-IsRx s v),
    recv_loop-IsRx fuel (i + 1) len (c ∷ cp) (end_line echo s) (end_line-IsRx s v),
    recv_loop-IsRx fuel (i + 1) len cp (put_char echo c s) (put_char-IsRx c s v),
  )

  -- Whatever bytes a packet holds, the count stays an index of the buffer, so that no byte is stored
  -- outside it.
  pub tcp_recv-IsRx :
      (payload : List ℕ) (s : Input echo.Net) → IsRx s.rx → IsRx (tcp_recv echo (some payload) s).rx
  unfolding tcp_recv
  tcp_recv-IsRx payload s v = recv_loop-IsRx (length payload) 0 (length payload) payload s v

  pub recv_ready :
      (fuel i len : ℕ) (cp : List ℕ) (s : Input echo.Net)
      → s.rx.input_ready ≡ true
      → recv_loop echo fuel i len cp s ≡ s
  unfolding recv_loop
  recv_ready zero i len cp s h = refl
  recv_ready (suc fuel) i len [] s h = refl
  recv_ready (suc fuel) i len (c ∷ cp) s h = ground arith

  pub recv_char :
      (fuel i len c : ℕ) (cp : List ℕ) (s : Input echo.Net)
      → i < len
      → s.rx.input_ready ≡ false
      → IsPlain c
      → recv_loop echo (suc fuel) i len (c ∷ cp) s
        ≡ recv_loop echo fuel (i + 1) len cp (put_char echo c s)
  unfolding recv_loop
  recv_char fuel i len c cp s h r p = ground arith

  pub recv_return :
      (fuel i len : ℕ) (cp : List ℕ) (s : Input echo.Net)
      → i < len
      → s.rx.input_ready ≡ false
      → recv_loop echo (suc fuel) i len (carriage_return ∷ cp) s
        ≡ recv_loop echo fuel (i + 1) len (carriage_return ∷ cp) (end_line echo s)
  unfolding recv_loop
  recv_return fuel i len cp s h r = ground arith

  pub recv_rub_out :
      (fuel i len c : ℕ) (cp : List ℕ) (s : Input echo.Net)
      → i < len
      → s.rx.input_ready ≡ false
      → is_rub_out c ≡ true
      → c ≢ telnet_iac
      → recv_loop echo (suc fuel) i len (c ∷ cp) s
        ≡ recv_loop echo fuel (i + 1) len (c ∷ cp) (rub_out_char echo s)
  unfolding recv_loop
  recv_rub_out fuel i len c cp s h r p q = ground arith
