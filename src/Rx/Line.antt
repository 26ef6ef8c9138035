-- ===== src/Rx/Line.antt =====
-- What `TcpRecv` makes of the bytes that a telnet client sends.
use panog2_ldr.Base.{
  ℕ, zero, suc, ◌+◌, ◌-◌, ◌≤◌, ◌<◌, ◌≡◌, ◌≢◌, refl, sym, ap, ap₂, ◌∙◌, arith, true, false, List, [],
  ◌∷◌, ◌++◌, append_assoc, append-nil, some, length, length-append, length-set, get_or,
  get_or-set_self, set, take, take-set_self, take-set_before, ◌⊎◌, ltb, lt→ltb,
}
use panog2_ldr.Rx.{
  rx_buf_len, telnet_iac, backspace, del, carriage_return, rub_out, Echo, Input, is_rub_out,
  rub_out_char, end_line, put_char, recv_loop, tcp_recv,
}
use panog2_ldr.Rx.Steps.{IsRx, ArePlain, recv_ready, recv_char, recv_return, recv_rub_out}

module _ (echo : Echo) where
  -- The characters of a line, stored one by one.
  abbrev type_all : List ℕ → Input echo.Net → Input echo.Net
  type_all [] s = s
  type_all (c ∷ cs) s = type_all cs (put_char echo c s)

  record IsTyped (cs : List ℕ) (s t : Input echo.Net) : Type 0 where
    valid : IsRx t.rx
    count : t.rx.rx_count ≡ s.rx.rx_count + length cs
    chars : take t.rx.rx_count t.rx.rx_buf ≡ take s.rx.rx_count s.rx.rx_buf ++ cs
    waiting : t.rx.input_ready ≡ false
    quiet : t.net ≡ s.net

  put_char-IsTyped :
      (c : ℕ) (s : Input echo.Net)
      → IsRx s.rx
      → s.rx.input_ready ≡ false
      → s.rx.rx_count + 1 < rx_buf_len
      → IsTyped (c ∷ []) s (put_char echo c s)
  unfolding put_char
  put_char-IsTyped c s v r h =
      let up : ltb s.rx.rx_count (rx_buf_len - 1) ≡ true = lt→ltb _ _ (omega arith) in
      let next : s.rx.rx_count + 1 ≡ suc s.rx.rx_count = omega arith in
      rw up (record {
        valid = record { size = length-set s.rx.rx_buf s.rx.rx_count c ∙ v.size; below = h };
        count = refl;
        chars =
            ap (λ n. take n (set s.rx.rx_buf s.rx.rx_count c)) next
            ∙ take-set_self s.rx.rx_buf s.rx.rx_count c (omega (arith, v.size, v.below));
        waiting = r;
        quiet = refl;
      })

  type_all-IsTyped :
      (cs : List ℕ) (s : Input echo.Net)
      → IsRx s.rx
      → s.rx.input_ready ≡ false
      → s.rx.rx_count + length cs < rx_buf_len
      → IsTyped cs s (type_all cs s)
  type_all-IsTyped [] s v r h = record {
    valid = v;
    count = omega arith;
    chars = sym (append-nil _);
    waiting = r;
    quiet = refl;
  }
  type_all-IsTyped (c ∷ cs) s v r h =
      let one = put_char-IsTyped c s v r (omega arith) in
      let rest =
        type_all-IsTyped cs (put_char echo c s) one.valid one.waiting (omega (arith, one.count)) in
      record {
        valid = rest.valid;
        count = omega (arith, rest.count, one.count);
        chars = rest.chars ∙ ap (λ t. t ++ cs) one.chars ∙ append_assoc _ (c ∷ []) cs;
        waiting = rest.waiting;
        quiet = rest.quiet ∙ one.quiet;
      }

  recv_type_all :
      (cs rest : List ℕ) (fuel k i j len : ℕ) (s : Input echo.Net)
      → ArePlain cs
      → fuel ≡ length cs + k
      → i + length cs ≡ j
      → j ≤ len
      → IsRx s.rx
      → s.rx.input_ready ≡ false
      → s.rx.rx_count + length cs < rx_buf_len
      → recv_loop echo fuel i len (cs ++ rest) s ≡ recv_loop echo k j len rest (type_all cs s)
  recv_type_all [] rest fuel k i j len s p e e' h v r room =
      ap₂ (λ f n. recv_loop echo f n len rest s) (omega arith) (omega arith)
  recv_type_all (c ∷ cs) rest zero k i j len s p e e' h v r room = absurd (omega arith)
  recv_type_all (c ∷ cs) rest (suc fuel) k i j len s p e e' h v r room =
      let one = put_char-IsTyped c s v r (omega arith) in
      recv_char echo fuel i len c (cs ++ rest) s (omega arith) r p.0
      ∙ recv_type_all cs rest fuel k (i + 1) j len (put_char echo c s) p.1 (omega arith)
          (omega arith) h one.valid one.waiting (omega (arith, one.count))

  end_line-IsTyped :
      (t : Input echo.Net)
      → IsRx t.rx
      → ((end_line echo t).rx.input_ready ≡ true)
        × (take t.rx.rx_count (end_line echo t).rx.rx_buf ≡ take t.rx.rx_count t.rx.rx_buf)
        × (get_or (end_line echo t).rx.rx_buf t.rx.rx_count 1 ≡ 0)
        × ((end_line echo t).net ≡ t.net)
  unfolding end_line
  end_line-IsTyped t v = ground (
    arith,
    take-set_before t.rx.rx_buf t.rx.rx_count t.rx.rx_count 0,
    get_or-set_self t.rx.rx_buf t.rx.rx_count 0 1,
  )

  pub tcp_recv_line :
      (cs rest : List ℕ) (s : Input echo.Net)
      → ArePlain cs
      → IsRx s.rx
      → s.rx.input_ready ≡ false
      → s.rx.rx_count + length cs < rx_buf_len
      → let t = tcp_recv echo (some (cs ++ carriage_return ∷ rest)) s in
        let n = s.rx.rx_count + length cs in
        (t.rx.input_ready ≡ true)
        × (take n t.rx.rx_buf ≡ take s.rx.rx_count s.rx.rx_buf ++ cs)
        × (get_or t.rx.rx_buf n 1 ≡ 0)
        × (t.net ≡ s.net)
  unfolding tcp_recv
  tcp_recv_line cs rest s p v r room =
      rw (run, ← typed.count) (ended.0, ended.1 ∙ typed.chars, ended.2, ended.3 ∙ typed.quiet)
    where
      whole : length (cs ++ carriage_return ∷ rest) ≡ length cs + suc (length rest)
      whole = length-append cs (carriage_return ∷ rest)

      typed : IsTyped cs s (type_all cs s)
      typed = type_all-IsTyped cs s v r room

      t : Input echo.Net
      t = type_all cs s

      len : ℕ
      len = length (cs ++ carriage_return ∷ rest)

      ended :
          ((end_line echo t).rx.input_ready ≡ true)
          × (take t.rx.rx_count (end_line echo t).rx.rx_buf ≡ take t.rx.rx_count t.rx.rx_buf)
          × (get_or (end_line echo t).rx.rx_buf t.rx.rx_count 1 ≡ 0)
          × ((end_line echo t).net ≡ t.net)
      ended = end_line-IsTyped t typed.valid

      run : recv_loop echo len 0 len (cs ++ carriage_return ∷ rest) s ≡ end_line echo t
      run =
          recv_type_all cs (carriage_return ∷ rest) len (suc (length rest)) 0 (length cs) len s p
            whole (omega arith) (omega (arith, whole)) v r room
          ∙ recv_return echo (length rest) (length cs) len rest t (omega (arith, whole))
              typed.waiting
          ∙ recv_ready echo (length rest) (length cs + 1) len (carriage_return ∷ rest)
              (end_line echo t) ended.0

  -- Rubbing out takes a character back and then counts it up again.
  rub_out_char-keeps :
      (s : Input echo.Net)
      → IsRx s.rx
      → 0 < s.rx.rx_count
      → rub_out_char echo s ≡ record s { net = echo.puts rub_out s.net }
  unfolding rub_out_char
  rub_out_char-keeps s v h = ground arith

  recv_loop-rubs :
      (fuel i len c : ℕ) (cp : List ℕ) (s : Input echo.Net)
      → IsRx s.rx
      → 0 < s.rx.rx_count
      → is_rub_out c ≡ true
      → c ≢ telnet_iac
      → s.rx.input_ready ≡ false
      → i + fuel ≤ len
      → (recv_loop echo fuel i len (c ∷ cp) s).rx ≡ s.rx
  recv_loop-rubs zero i len c cp s v h e ne r fits = ap (λ (t : Input echo.Net). t.rx) stays
    where
      stays : recv_loop echo zero i len (c ∷ cp) s ≡ s
      stays = unfold recv_loop in refl
  recv_loop-rubs (suc fuel) i len c cp s v h e ne r fits =
      ap (λ (t : Input echo.Net). t.rx)
        (recv_rub_out echo fuel i len c cp s (omega arith) r e ne
          ∙ ap (recv_loop echo fuel (i + 1) len (c ∷ cp)) (rub_out_char-keeps s v h))
      ∙ recv_loop-rubs fuel (i + 1) len c cp (record s { net = echo.puts rub_out s.net }) v h e ne r
          (omega arith)

  -- A packet that begins with a backspace or delete, on a line with characters: neither the line nor its
  -- length changes, and the rest of the packet, a carriage return included, is lost.
  pub tcp_recv_rub_out :
      (c : ℕ) (rest : List ℕ) (s : Input echo.Net)
      → IsRx s.rx
      → 0 < s.rx.rx_count
      → (c ≡ backspace) ⊎ (c ≡ del)
      → s.rx.input_ready ≡ false
      → (tcp_recv echo (some (c ∷ rest)) s).rx ≡ s.rx
  unfolding tcp_recv
  tcp_recv_rub_out c rest s v h e r =
      recv_loop-rubs (suc (length rest)) 0 (suc (length rest)) c rest s v h (ground arith)
        (ground arith) r (omega arith)
