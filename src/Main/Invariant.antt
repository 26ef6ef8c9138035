-- ===== src/Main/Invariant.antt =====
-- What the main loop keeps.
use panog2_ldr.Base.{
  ℕ, ◌≡◌, refl, sym, subst, ◌∙◌, replicate, length-replicate, arith, false, List, [], ◌∷◌, none,
  some, length, Bool-cases, inl, inr, Outcome, returns, fault, no_fuel, ◌>>=◌,
}
use panog2_ldr.Spi.{Spi}
use panog2_ldr.Console.{Console}
use panog2_ldr.Cmd.{Result, Sys, Parser}
use panog2_ldr.Rx.{Rx, tcp_recv}
use panog2_ldr.Rx.Steps.{IsRx, tcp_recv-IsRx}
use panog2_ldr.Led.Blink.{initial_lamps, IsLamps, update_leds-IsLamps}
use panog2_ldr.Rx.{rx_buf_len}
use panog2_ldr.Main.Table.{Command}
use panog2_ldr.Main.{
  World, Callback, accepted, accept_failed, failed, ticked, received, acked, Link, Shell, Turn,
  is_link_up, Globals, echo_of, tcp_accept, callback, net_poll, check_button, show_leds, check_link,
  check_address, welcome, type_ahead, run_line, turn, turns,
}
use panog2_ldr.Main.Line.{parsed, line_left, run_line_parses, run_line_idle}

-- The telnet line is within its buffer, the LEDs are those of power-up or show what the static `Led` says,
-- and lwIP has been told the state of the link that `gEthStatus` holds.
pub record IsMain {F N : Type 0} (w : World F N) : Type 0 where
  pub line : IsRx w.rx
  pub leds : IsLamps w.lamps
  pub link : w.netif_link ≡ is_link_up w.eth_status

-- `ParseCmd` leaves the line in its place.
abbrev pub KeepsLine : {F N : Type 0} → Shell F N → Type 0
KeepsLine {F} {N} shell =
    (table : List (List ℕ × Command))
    (run : Command → List ℕ → Sys F N → Outcome (Result × Sys F N)) (buf left : List ℕ)
    (s s' : Sys F N)
    → shell.parse_cmd table run buf s ≡ returns (left, s')
    → length left ≡ length buf

module _ (spi : Spi) (con : Console) (parser : Parser) (link : Link con.Net)
    (shell : Shell spi.Flash con.Net) where
  callback-IsMain :
      (c : Callback) (w : Globals spi con parser link shell)
      → IsMain w
      → IsMain (callback spi con parser link shell c w)
  unfolding callback tcp_accept tcp_recv
  callback-IsMain (accepted ip) w v = record {
    line = record { size = v.line.size; below = omega arith };
    leds = v.leds;
    link = v.link;
  }
  callback-IsMain accept_failed w v = v
  callback-IsMain failed w v = v
  callback-IsMain ticked w v = record { line = v.line; leds = v.leds; link = v.link }
  callback-IsMain (received none) w v = record { line = v.line; leds = v.leds; link = v.link }
  callback-IsMain (received (some p)) w v = record {
    line =
        tcp_recv-IsRx (echo_of spi con parser link shell) p (record { rx = w.rx; net = w.sys.net })
          v.line;
    leds = v.leds;
    link = v.link;
  }
  callback-IsMain (acked n) w v = record { line = v.line; leds = v.leds; link = v.link }

  net_poll-IsMain :
      (cs : List Callback) (w : Globals spi con parser link shell)
      → IsMain w
      → IsMain (net_poll spi con parser link shell cs w)
  unfolding net_poll
  net_poll-IsMain [] w v = v
  net_poll-IsMain (c ∷ cs) w v = net_poll-IsMain cs _ (callback-IsMain c w v)

  check_button-IsMain :
      (i : Turn) (w : Globals spi con parser link shell)
      → IsMain w
      → IsMain (check_button spi con parser link shell i w)
  unfolding check_button
  check_button-IsMain i w v = ground arith

  show_leds-IsMain :
      (i : Turn) (w : Globals spi con parser link shell)
      → IsMain w
      → IsMain (show_leds spi con parser link shell i w)
  unfolding show_leds
  show_leds-IsMain i w v = record {
    line = v.line;
    leds = update_leds-IsLamps _ w.lamps v.leds;
    link = v.link;
  }

  check_link-IsMain :
      (i : Turn) (w : Globals spi con parser link shell)
      → IsMain w
      → IsMain (check_link spi con parser link shell i w)
  unfolding check_link
  check_link-IsMain i w v = ground arith

  check_address-IsMain :
      (i : Turn) (w : Globals spi con parser link shell)
      → IsMain w
      → IsMain (check_address spi con parser link shell i w)
  unfolding check_address
  check_address-IsMain i w v = ground arith

  welcome-IsMain :
      (w : Globals spi con parser link shell)
      → IsMain w
      → IsMain (welcome spi con parser link shell w)
  unfolding welcome
  welcome-IsMain w v = ground arith

  type_ahead-IsRx :
      (ps : List (List ℕ)) (n : con.Net) (r : Rx)
      → IsRx r
      → IsRx (type_ahead spi con parser link shell ps n r)
  unfolding type_ahead
  type_ahead-IsRx [] n r v = v
  type_ahead-IsRx (p ∷ ps) n r v =
      type_ahead-IsRx ps n _
        (tcp_recv-IsRx (echo_of spi con parser link shell) p (record { rx = r; net = n }) v)

  -- What holds of the result, where there is one.
  abbrev Ends : Outcome (Globals spi con parser link shell) → Type 0
  Ends (returns w) = IsMain w
  Ends _ = Unit

  Ends-bind :
      (o : Outcome (Globals spi con parser link shell))
      (f : Globals spi con parser link shell → Outcome (Globals spi con parser link shell))
      → Ends o
      → ((u : Globals spi con parser link shell) → IsMain u → Ends (f u))
      → Ends (o >>= f)
  Ends-bind (returns u) f h next = next u h
  Ends-bind fault f h next = tt
  Ends-bind no_fuel f h next = tt

  module _ (keeps : KeepsLine shell) where
    line_left-IsMain :
        (i : Turn) (w : Globals spi con parser link shell)
        → IsMain w
        → (o : Outcome (List ℕ × Sys spi.Flash con.Net)) → parsed spi con parser link shell i w ≡ o
        → Ends (o >>= λ r. returns (line_left spi con parser link shell i.typed w r))
    line_left-IsMain i w v (returns (left, s)) e =
        let ahead =
          type_ahead-IsRx i.typed s.net (record w.rx { input_ready = false; rx_buf = left })
            (record { size = keeps _ _ _ left w.sys s e ∙ v.line.size; below = v.line.below }) in
        record {
          line = record { size = ahead.size; below = omega arith };
          leds = v.leds;
          link = v.link;
        }
    line_left-IsMain i w v fault e = tt
    line_left-IsMain i w v no_fuel e = tt

    run_line-IsMain :
        (i : Turn) (w : Globals spi con parser link shell)
        → IsMain w
        → Ends (run_line spi con parser link shell i w)
    run_line-IsMain i w v = elim (Bool-cases w.rx.input_ready) [
      | inl ready ↦
          subst Ends (sym (run_line_parses spi con parser link shell i w ready))
            (line_left-IsMain i w v (parsed spi con parser link shell i w) refl)
      | inr waits ↦ subst Ends (sym (run_line_idle spi con parser link shell i w waits)) v
    ]

    turn-IsMain :
        (i : Turn) (w : Globals spi con parser link shell)
        → IsMain w
        → Ends (turn spi con parser link shell i w)
    unfolding turn
    turn-IsMain i w v = run_line-IsMain i _ (
        welcome-IsMain _ (
          check_address-IsMain i _ (
            check_link-IsMain i _
              (net_poll-IsMain i.polled _ (show_leds-IsMain i _ (check_button-IsMain i w v))))))

    turns-Ends :
        (is : List Turn) (w : Globals spi con parser link shell)
        → IsMain w
        → Ends (turns spi con parser link shell is w)
    unfolding turns
    turns-Ends [] w v = v
    turns-Ends (i ∷ is) w v =
        Ends-bind (turn spi con parser link shell i w) (turns spi con parser link shell is)
          (turn-IsMain i w v) (turns-Ends is)

-- The globals when `main` gets to its loop, with what the start has left of those that the commands share:
-- the others are 0, but for the static `Led`, whose LEDs are dark all the same.
abbrev pub loop_start : {F N : Type 0} → Sys F N → World F N
loop_start s = record {
  sys = s;
  rx = record { rx_buf = replicate rx_buf_len 0; rx_count = 0; input_ready = false };
  lamps = initial_lamps;
  eth_status = 0;
  have_ip = false;
  send_welcome = false;
  netif_link = false;
  serial = [];
}

loop_start-IsMain : {F N : Type 0} → (s : Sys F N) → IsMain (loop_start s)
loop_start-IsMain s = record {
  line = record { size = length-replicate {A = ℕ} rx_buf_len 0; below = omega arith };
  leds = inl refl;
  link = refl;
}

-- Whatever the start of `main` leaves in the globals of the commands, and however the turns of the main loop
-- then go, with any packets, connections, links, buttons and commands: if `ParseCmd` keeps the line in
-- its place, then after every number of turns that end the count of the telnet line is an index of its
-- buffer, the LEDs are those of power-up, dark although `Led` has all three, or those that are lit are
-- exactly the LEDs of the static `Led`, and lwIP has been told the link that `gEthStatus` holds.
pub turns-IsMain :
    (spi : Spi) (con : Console) (parser : Parser) (link : Link con.Net)
    (shell : Shell spi.Flash con.Net) (is : List Turn) (s : Sys spi.Flash con.Net)
    (w' : World spi.Flash con.Net)
    → KeepsLine shell
    → turns spi con parser link shell is (loop_start s) ≡ returns w'
    → IsMain w'
turns-IsMain spi con parser link shell is s w' keeps e =
    subst (Ends spi con parser link shell) e
      (turns-Ends spi con parser link shell keeps is (loop_start s) (loop_start-IsMain s))
