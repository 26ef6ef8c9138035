-- ===== src/Main/Ahead.antt =====
-- What is typed while a command runs.
use panog2_ldr.Base.{
  ℕ, ◌+◌, ◌<◌, ◌≡◌, refl, sym, ap, ◌∙◌, arith, true, false, List, [], ◌∷◌, ◌++◌, some, take,
  take-take, take-append, length-take, length, returns, ◌>>=◌,
}
use panog2_ldr.Spi.{Spi}
use panog2_ldr.Console.{Console}
use panog2_ldr.Cmd.{Sys, Parser}
use panog2_ldr.Rx.{rx_buf_len, carriage_return, Rx, Input, tcp_recv}
use panog2_ldr.Rx.Steps.{ArePlain}
use panog2_ldr.Rx.Line.{tcp_recv_line}
use panog2_ldr.Main.Table.{c_string}
use panog2_ldr.Main.Table.Text.{c_string-part}
use panog2_ldr.Main.{Link, Shell, Turn, Globals, echo_of, type_ahead, run_line}
use panog2_ldr.Main.Line.{parsed, line_left, run_line_parses}

module _ (spi : Spi) (con : Console) (parser : Parser) (link : Link con.Net)
    (shell : Shell spi.Flash con.Net) where
  -- A line that comes while a command runs is not run: it is ready when the command is done, but stands
  -- behind the old one, and with the count back at 0 the buffer's C string, which `ParseCmd` gets in the
  -- next turn, is what `ParseCmd` left of the old line.
  pub typed_ahead_reruns :
      (i : Turn) (cs rest : List ℕ) (w : Globals spi con parser link shell) (left : List ℕ)
      (s : Sys spi.Flash con.Net)
      → w.rx.input_ready ≡ true
      → parsed spi con parser link shell i w ≡ returns (left, s)
      → length left ≡ rx_buf_len
      → length (c_string left) < w.rx.rx_count
      → i.typed ≡ (cs ++ carriage_return ∷ rest) ∷ []
      → ArePlain cs
      → w.rx.rx_count + length cs < rx_buf_len
      → (w' : Globals spi con parser link shell) × (run_line spi con parser link shell i w
          ≡ returns w')
        × (w'.rx.input_ready ≡ true)
        × (w'.rx.rx_count ≡ 0)
        × (c_string w'.rx.rx_buf ≡ c_string left)
  unfolding type_ahead
  typed_ahead_reruns i cs rest w left s ready ran size ends typed plain room =
      let r : Rx = record w.rx { input_ready = false; rx_buf = left } in
      let t : Input con.Net =
        tcp_recv (echo_of spi con parser link shell) (some (cs ++ carriage_return ∷ rest))
          (record { rx = r; net = s.net }) in
      let (done, chars, _, _) =
        tcp_recv_line (echo_of spi con parser link shell) cs rest (record { rx = r; net = s.net })
          plain (record { size = size; below = omega arith }) refl room in
      (
        line_left spi con parser link shell ((cs ++ carriage_return ∷ rest) ∷ []) w (left, s),
        run_line_parses spi con parser link shell i w ready
            ∙ ap (λ o. o >>= λ q. returns (line_left spi con parser link shell i.typed w q)) ran
            ∙ ap (λ ps. returns (line_left spi con parser link shell ps w (left, s))) typed,
        done,
        refl,
        c_string-part w.rx.rx_count left t.rx.rx_buf ends (omega arith) (
            sym (take-take w.rx.rx_count (w.rx.rx_count + length cs) t.rx.rx_buf (omega arith))
            ∙ ap (take w.rx.rx_count) chars
            ∙ take-append (take w.rx.rx_count left) cs w.rx.rx_count
                (omega (arith, length-take w.rx.rx_count left))),
      )
