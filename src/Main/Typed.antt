-- ===== src/Main/Typed.antt =====
-- A typed line, from its packet to what its command leaves.
use panog2_ldr.Base.{
  ℕ, ◌<◌, ◌≡◌, refl, ap, ◌∙◌, false, List, [], ◌∷◌, ◌++◌, some, length, returns, ◌>>=◌,
}
use panog2_ldr.Spi.{FlashInfo, Spi}
use panog2_ldr.Tftp.{err_ok}
use panog2_ldr.Console.{Console, prompt}
use panog2_ldr.Cmd.{Result, Sys, Parser}
use panog2_ldr.Cmd.Transfer.{Event}
use panog2_ldr.Cmd.Transfer.Values.{Names}
use panog2_ldr.Rx.{rx_buf_len, carriage_return}
use panog2_ldr.Rx.Steps.{IsRx, ArePlain}
use panog2_ldr.Main.Table.{Command, execute, c_string}
use panog2_ldr.Main.Table.Text.{NoZero}
use panog2_ldr.Main.{World, received, Link, Shell, Turn, check_button, turn}
use panog2_ldr.Main.Line.{line_done, typed_line_runs}
use panog2_ldr.Main.Dispatch.{Calls}

-- The turn's poll brings one packet with the line `cs`, while the line is empty, nobody is to be welcomed,
-- and nothing is typed while the command runs.
pub record IsTyped {F N : Type 0} (i : Turn) (cs rest : List ℕ) (w : World F N) : Type 0 where
  pub comes : i.polled ≡ received (some (cs ++ carriage_return ∷ rest)) ∷ []
  pub alone : i.typed ≡ []
  pub plain : ArePlain cs
  pub no_zero : NoZero cs
  pub short : length cs < rx_buf_len
  pub line : IsRx w.rx
  pub waits : w.rx.input_ready ≡ false
  pub empty : w.rx.rx_count ≡ 0
  pub greeted : w.send_welcome ≡ false

-- The turn's line names a transfer: a file `name` of the known server, which lwIP's client asks for, and an
-- address on the flash; and `events` are what the polls of its wait bring.
pub record IsTransfer {F N : Type 0} (parser : Parser) (chip : FlashInfo) (i : Turn)
    (cs rest args name : List ℕ) (adr : ℕ) (events : List Event) (w : World F N) : Type 0 where
  pub typed : IsTyped i cs rest w
  pub names : Names parser chip w.sys.ldr.server_ip args name adr
  pub ready : i.client.init_client ≡ err_ok
  pub gets : i.client.get w.sys.ldr.server_ip name ≡ err_ok
  pub brings : i.transfer ≡ events

module _ (spi : Spi) (con : Console) (parser : Parser) (link : Link con.Net)
    (shell : Shell spi.Flash con.Net) (i : Turn) (cs rest : List ℕ) (w : World spi.Flash con.Net)
    (t : IsTyped i cs rest w) (command : Command) (args : List ℕ)
    (k : Calls shell cs command args) where
  -- The state that the command begins with.
  abbrev pub begun : Sys spi.Flash con.Net
  begun = (check_button spi con parser link shell i w).sys

  -- The turn ends with what the function of the command leaves, and a prompt.
  pub typed_command_runs :
      (mem : List ℕ) × (c_string mem ≡ args)
      × ((r : Result) (s : Sys spi.Flash con.Net)
          → execute spi con parser shell.help i.client i.transfer command mem begun ≡ returns (r, s)
          → (w' : World spi.Flash con.Net) × (turn spi con parser link shell i w ≡ returns w')
            × (w'.sys ≡ record s { net = con.print prompt (k.answer r s.net) })
            × (w'.rx.input_ready ≡ false)
            × (w'.rx.rx_count ≡ 0))
  typed_command_runs =
      let (v, text, same, run) =
        typed_line_runs spi con parser link shell i cs rest w t.comes t.alone t.plain t.no_zero
          t.short t.line t.waits t.empty t.greeted in
      (
        k.rest v.rx.rx_buf,
        k.at v.rx.rx_buf text,
        λ r s ran. (
          line_done spi con parser link shell v
              (k.left v.rx.rx_buf, record s { net = k.answer r s.net }),
          run
              ∙ ap (λ o. o >>= λ q. returns (line_done spi con parser link shell v q))
                  (k.calls _ v.rx.rx_buf v.sys s r text (
                    ap
                      (λ u.
                        execute spi con parser shell.help i.client i.transfer command
                          (k.rest v.rx.rx_buf) u)
                      same
                    ∙ ran)),
          refl,
          refl,
          refl,
        ),
      )
