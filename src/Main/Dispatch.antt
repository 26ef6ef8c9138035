-- ===== src/Main/Dispatch.antt =====
-- How a line finds its function in `gCmdTable`.
use panog2_ldr.Base.{
  ℕ, ◌≡◌, ap, ◌∙◌, List, [], ◌∷◌, Option, none, some, ◌==◌, if◌then◌else◌, same_bytes, Outcome,
  returns,
}
use panog2_ldr.Cmd.{Result, Sys}
use panog2_ldr.Main.Table.{Command, command_table, c_string}
use panog2_ldr.Main.{Shell}

-- A text up to its first space: the first word of a line, or a name of the table without what pads it.
unfoldable pub word : List ℕ → List ℕ
word [] = []
word (c ∷ cs) = let rest = word cs in if c == 32 then [] else c ∷ rest

-- The function of the first entry of a table with a name.
unfoldable pub find_command : List (List ℕ × Command) → List ℕ → Option Command
find_command [] name = none
find_command ((entry, command) ∷ table) name =
    let rest = find_command table name in
    if same_bytes (word entry) name then some command else rest

-- What the sources rely on in `ParseCmd`: for a line whose first word is a name of the table it calls the
-- function of that entry, on a `CmdLine` in the buffer whose C string depends on the line alone, and
-- then does no more than change the line and print.
pub record LooksUp {F N : Type 0} (shell : Shell F N) : Type 0 where
  pub rest : List ℕ → List ℕ
  pub left : List ℕ → List ℕ
  pub answer : Result → N → N
  pub arguments : List ℕ → List ℕ
  pub at : (buf : List ℕ) → c_string (rest buf) ≡ arguments (c_string buf)
  pub calls :
      (table : List (List ℕ × Command))
      (run : Command → List ℕ → Sys F N → Outcome (Result × Sys F N)) (buf : List ℕ)
      (command : Command) (s s' : Sys F N) (r : Result)
      → find_command table (word (c_string buf)) ≡ some command
      → run command (rest buf) s ≡ returns (r, s')
      → shell.parse_cmd table run buf s ≡ returns (left buf, record s' { net = answer r s'.net })

-- `ParseCmd` of a buffer with the line `cs` calls the function of `command`, on a `CmdLine` whose C string
-- is `args`, and then does no more than change the line and print.
pub record Calls {F N : Type 0} (shell : Shell F N) (cs : List ℕ) (command : Command)
    (args : List ℕ) : Type 0 where
  pub rest : List ℕ → List ℕ
  pub left : List ℕ → List ℕ
  pub answer : Result → N → N
  pub at : (buf : List ℕ) → c_string buf ≡ cs → c_string (rest buf) ≡ args
  pub calls :
      (run : Command → List ℕ → Sys F N → Outcome (Result × Sys F N)) (buf : List ℕ)
      (s s' : Sys F N) (r : Result)
      → c_string buf ≡ cs
      → run command (rest buf) s ≡ returns (r, s')
      → shell.parse_cmd command_table run buf s
        ≡ returns (left buf, record s' { net = answer r s'.net })

-- A line with the name of a command calls it.
abbrev pub named_calls :
    {F N : Type 0} {shell : Shell F N}
    → (k : LooksUp shell) (cs name : List ℕ) (command : Command) → word cs ≡ name
    → find_command command_table name ≡ some command
    → Calls shell cs command (k.arguments cs)
named_calls k cs name command named found = record {
  rest = k.rest;
  left = k.left;
  answer = k.answer;
  at = λ buf e. k.at buf ∙ ap k.arguments e;
  calls = λ run buf s s' r e ran.
      k.calls command_table run buf command s s' r
        (ap (λ t. find_command command_table (word t)) e
          ∙ ap (find_command command_table) named
          ∙ found)
        ran;
}

-- The names that are typed.
abbrev pub flash_text : List ℕ
flash_text = 102 ∷ 108 ∷ 97 ∷ 115 ∷ 104 ∷ []

abbrev pub verify_text : List ℕ
verify_text = 118 ∷ 101 ∷ 114 ∷ 105 ∷ 102 ∷ 121 ∷ []

abbrev pub auto_boot_text : List ℕ
auto_boot_text = 97 ∷ 117 ∷ 116 ∷ 111 ∷ 98 ∷ 111 ∷ 111 ∷ 116 ∷ []

abbrev pub boot_adr_text : List ℕ
boot_adr_text = 98 ∷ 111 ∷ 111 ∷ 116 ∷ 97 ∷ 100 ∷ 114 ∷ []

abbrev pub tftp_text : List ℕ
tftp_text = 116 ∷ 102 ∷ 116 ∷ 112 ∷ []
