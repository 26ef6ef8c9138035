-- ===== src/Main/Line.antt =====
-- A typed line becomes a command.
use panog2_ldr.Base.{
  ℕ, ◌+◌, ◌<◌, ◌≡◌, refl, sym, subst, ap, ◌∙◌, arith, Bool, true, false, List, [], ◌∷◌, ◌++◌, some,
  take, length, get_or, if◌then◌else◌, Outcome, returns, ◌>>=◌,
}
use panog2_ldr.Spi.{Spi}
use panog2_ldr.Console.{Console, prompt}
use panog2_ldr.Cmd.{Sys, Parser}
use panog2_ldr.Rx.{rx_buf_len, carriage_return, Rx, Input, tcp_recv}
use panog2_ldr.Rx.Steps.{IsRx, ArePlain}
use panog2_ldr.Rx.Line.{tcp_recv_line}
use panog2_ldr.Main.Table.{command_table, execute, c_string}
use panog2_ldr.Main.Table.Text.{NoZero, c_string-text}
use panog2_ldr.Main.{
  received, Link, Shell, Turn, Globals, echo_of, tcp_recv_on, callback, net_poll, check_button,
  show_leds, check_link, check_address, welcome, type_ahead, run_line, turn,
}

module _ (spi : Spi) (con : Console) (parser : Parser) (link : Link con.Net)
    (shell : Shell spi.Flash con.Net) where
  -- What is left behind a command that ran while nothing was typed.
  abbrev pub line_done :
      Globals spi con parser link shell
      → List ℕ × Sys spi.Flash con.Net
      → Globals spi con parser link shell
  line_done w (left, s) = record w {
    sys = record s { net = con.print prompt s.net };
    rx = record { rx_buf = left; rx_count = 0; input_ready = false };
  }

  -- The same with what was typed meanwhile.
  abbrev pub line_left :
      List (List ℕ)
      → Globals spi con parser link shell
      → List ℕ × Sys spi.Flash con.Net
      → Globals spi con parser link shell
  line_left ps w (left, s) = record w {
    sys = record s { net = con.print prompt s.net };
    rx =
        record (type_ahead spi con parser link shell ps s.net
          (record w.rx { input_ready = false; rx_buf = left })) { rx_count = 0 };
  }

  -- `ParseCmd(gRxBuf)`
  abbrev pub parsed :
      Turn → Globals spi con parser link shell → Outcome (List ℕ × Sys spi.Flash con.Net)
  parsed i w =
      shell.parse_cmd command_table (execute spi con parser shell.help i.client i.transfer)
        w.rx.rx_buf w.sys

  pub run_line_parses :
      (i : Turn) (w : Globals spi con parser link shell)
      → w.rx.input_ready ≡ true
      → run_line spi con parser link shell i w
        ≡ (parsed i w >>= λ r. returns (line_left i.typed w r))
  unfolding run_line
  run_line_parses i w ready = ap go ready
    where
      go : Bool → Outcome (Globals spi con parser link shell)
      go b = if b then (parsed i w >>= λ r. returns (line_left i.typed w r)) else returns w

  pub run_line_idle :
      (i : Turn) (w : Globals spi con parser link shell)
      → w.rx.input_ready ≡ false
      → run_line spi con parser link shell i w ≡ returns w
  unfolding run_line
  run_line_idle i w waits = ap go waits
    where
      go : Bool → Outcome (Globals spi con parser link shell)
      go b = if b then (parsed i w >>= λ r. returns (line_left i.typed w r)) else returns w

  pub run_line_quiet :
      (i : Turn) (w : Globals spi con parser link shell)
      → w.rx.input_ready ≡ true
      → i.typed ≡ []
      → run_line spi con parser link shell i w ≡ (parsed i w >>= λ r. returns (line_done w r))
  unfolding type_ahead
  run_line_quiet i w ready quiet =
      run_line_parses i w ready ∙ ap (λ ps. parsed i w >>= λ r. returns (line_left ps w r)) quiet

  -- The command line, the commands' globals and the welcome are the same.
  record IsSame (u v : Globals spi con parser link shell) : Type 0 where
    line : u.rx ≡ v.rx
    globals : u.sys ≡ v.sys
    greets : u.send_welcome ≡ v.send_welcome

  show_leds-IsSame :
      (i : Turn) (w : Globals spi con parser link shell)
      → IsSame (show_leds spi con parser link shell i w) w
  unfolding show_leds
  show_leds-IsSame i w = record { line = refl; globals = refl; greets = refl }

  check_link-IsSame :
      (i : Turn) (w : Globals spi con parser link shell)
      → IsSame (check_link spi con parser link shell i w) w
  unfolding check_link
  check_link-IsSame i w = record {
    line = ground arith;
    globals = ground arith;
    greets = ground arith;
  }

  check_address-IsSame :
      (i : Turn) (w : Globals spi con parser link shell)
      → IsSame (check_address spi con parser link shell i w) w
  unfolding check_address
  check_address-IsSame i w = record {
    line = ground arith;
    globals = ground arith;
    greets = ground arith;
  }

  welcome_done :
      (w : Globals spi con parser link shell)
      → w.send_welcome ≡ false
      → IsSame (welcome spi con parser link shell w) w
  unfolding welcome
  welcome_done w h = record { line = ground arith; globals = ground arith; greets = ground arith }

  check_button_keeps :
      (i : Turn) (w : Globals spi con parser link shell)
      → ((check_button spi con parser link shell i w).rx ≡ w.rx)
        × ((check_button spi con parser link shell i w).send_welcome ≡ w.send_welcome)
  unfolding check_button
  check_button_keeps i w = ground arith

  -- A packet with a line, on an empty line: the line is the C string of the buffer.
  received_line :
      (cs rest : List ℕ) (w : Globals spi con parser link shell)
      → ArePlain cs
      → NoZero cs
      → IsRx w.rx
      → w.rx.input_ready ≡ false
      → w.rx.rx_count ≡ 0
      → length cs < rx_buf_len
      → let v = tcp_recv_on spi con parser link shell (some (cs ++ carriage_return ∷ rest)) w in
        (v.rx.input_ready ≡ true) × (c_string v.rx.rx_buf ≡ cs) × (v.sys ≡ w.sys)
  received_line cs rest w plain nz valid ready zero short =
      let s : Input con.Net = record { rx = w.rx; net = w.sys.net } in
      let t =
        tcp_recv (echo_of spi con parser link shell) (some (cs ++ carriage_return ∷ rest)) s in
      let buf = t.rx.rx_buf in
      let all : length cs ≡ w.rx.rx_count + length cs = omega arith in
      let (done, chars, ends, quiet) =
        tcp_recv_line (echo_of spi con parser link shell) cs rest s plain valid ready
          (omega arith) in
      (
        done,
        c_string-text cs buf nz
            (ap (λ n. take n buf) all ∙ chars ∙ ap (λ n. take n w.rx.rx_buf ++ cs) zero)
            (ap (λ n. get_or buf n 1) all ∙ ends),
        ap (λ n. record w.sys { net = n }) quiet,
      )

  pub typed_line_runs :
      (i : Turn) (cs rest : List ℕ) (w : Globals spi con parser link shell)
      → i.polled ≡ received (some (cs ++ carriage_return ∷ rest)) ∷ []
      → i.typed ≡ []
      → ArePlain cs
      → NoZero cs
      → length cs < rx_buf_len
      → IsRx w.rx
      → w.rx.input_ready ≡ false
      → w.rx.rx_count ≡ 0
      → w.send_welcome ≡ false
      → (v : Globals spi con parser link shell) × (c_string v.rx.rx_buf ≡ cs)
        × (v.sys ≡ (check_button spi con parser link shell i w).sys)
        × (turn spi con parser link shell i w ≡ (parsed i v >>= λ r. returns (line_done v r)))
  unfolding turn net_poll callback
  typed_line_runs i cs rest w one none plain nz short valid ready zero greeted =
      let button = check_button_keeps i w in
      let w1 = show_leds spi con parser link shell i (check_button spi con parser link shell i w) in
      let leds = show_leds-IsSame i (check_button spi con parser link shell i w) in
      let same : w1.rx ≡ w.rx = leds.line ∙ button.0 in
      let v1 = tcp_recv_on spi con parser link shell (some (cs ++ carriage_return ∷ rest)) w1 in
      let v2 = check_link spi con parser link shell i v1 in
      let v3 = check_address spi con parser link shell i v2 in
      let v4 = welcome spi con parser link shell v3 in
      let linked = check_link-IsSame i v1 in
      let named = check_address-IsSame i v2 in
      let met = welcome_done v3 (named.greets ∙ linked.greets ∙ leds.greets ∙ button.1 ∙ greeted) in
      let line : v4.rx ≡ v1.rx = met.line ∙ named.line ∙ linked.line in
      let (done, text, kept) =
        received_line cs rest w1 plain nz (subst IsRx (sym same) valid)
          (ap (λ (r : Rx). r.input_ready) same ∙ ready) (ap (λ (r : Rx). r.rx_count) same ∙ zero)
          short in
      (
        v4,
        ap (λ (r : Rx). c_string r.rx_buf) line ∙ text,
        met.globals ∙ named.globals ∙ linked.globals ∙ kept ∙ leds.globals,
        ap
              (λ es. run_line spi con parser link shell i (
                welcome spi con parser link shell (
                  check_address spi con parser link shell i (
                    check_link spi con parser link shell i
                      (net_poll spi con parser link shell es w1)))))
              one
            ∙ run_line_quiet i v4 (ap (λ (r : Rx). r.input_ready) line ∙ done) none,
      )
