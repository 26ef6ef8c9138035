-- ===== src/Tests/Parsers.antt =====
-- A `ParseCmd` that looks a line's first word up in its table.
use panog2_ldr.Base.{
  ℕ, ◌+◌, ap, ◌∙◌, arith, List, Option, none, some, drop, length, min, Outcome, returns, ◌>>=◌,
}
use panog2_ldr.Spi.Nor.{Cells}
use panog2_ldr.Console.{Msg}
use panog2_ldr.Cmd.{Result, Sys}
use panog2_ldr.Main.Table.{Command, c_string}
use panog2_ldr.Main.Table.Text.{c_string-drop}
use panog2_ldr.Main.{Shell}
use panog2_ldr.Main.Dispatch.{LooksUp, word, find_command}

-- The characters of the first word and of a space behind it.
abbrev pub skipped : List ℕ → ℕ
skipped cs = min (length (word cs) + 1) (length cs)

abbrev pub call :
    Option Command
    → (Command → List ℕ → Sys Cells (List Msg) → Outcome (Result × Sys Cells (List Msg)))
    → List ℕ
    → Sys Cells (List Msg)
    → Outcome (List ℕ × Sys Cells (List Msg))
call none run buf s = returns (buf, s)
call (some command) run buf s =
    run command (drop (skipped (c_string buf)) buf) s >>= λ r. returns (buf, r.1)

abbrev pub table_shell : Shell Cells (List Msg)
table_shell = record {
  parse_cmd = λ table run buf s. call (find_command table (word (c_string buf))) run buf s;
  help = λ n. n;
}

abbrev pub table_shell-LooksUp : LooksUp table_shell
table_shell-LooksUp = record {
  rest = λ buf. drop (skipped (c_string buf)) buf;
  left = λ buf. buf;
  answer = λ r n. n;
  arguments = λ cs. drop (skipped cs) cs;
  at = λ buf. c_string-drop (skipped (c_string buf)) buf (omega arith);
  calls = λ table run buf command s s' r found ran.
      ap (λ o. call o run buf s) found ∙ ap (λ o. o >>= λ q. returns (buf, q.1)) ran;
}
