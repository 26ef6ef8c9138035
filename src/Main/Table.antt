-- ===== src/Main/Table.antt =====
-- `gCmdTable` of fw/pano_ldr/main.c, and what it calls.
pub mod Text
use panog2_ldr.Base.{ℕ, ◌+◌, List, [], ◌∷◌, drop, length, ◌==◌, if◌then◌else◌, Outcome, returns}
use panog2_ldr.Spi.{Spi}
use panog2_ldr.Tftp.{Client}
use panog2_ldr.Console.{Console}
use panog2_ldr.Cmd.{Result, result_ok, Sys, Parser, say}
use panog2_ldr.Cmd.Settings.{
  auto_boot_cmd, auto_erase_cmd, boot_adr_cmd, tftp_cmd, exit_cmd, reboot_cmd,
}
use panog2_ldr.Cmd.Transfer.{Event, flash_cmd, save_cmd, verify_cmd}
use panog2_ldr.Cmd.Sectors.{dump_cmd, erase_cmd, map_cmd}

pub data Command : Type 0 where
  auto_boot_command auto_erase_command boot_adr_command dump_command erase_command : Command
  flash_command map_command exit_command reboot_command save_command tftp_command : Command
  verify_command help_command : Command

-- `gCmdTable` without the texts of the help: the names, padded as they are there.
abbrev pub command_table : List (List ℕ × Command)
command_table =
    (97 ∷ 117 ∷ 116 ∷ 111 ∷ 98 ∷ 111 ∷ 111 ∷ 116 ∷ 32 ∷ [], auto_boot_command)
    ∷ (97 ∷ 117 ∷ 116 ∷ 111 ∷ 101 ∷ 114 ∷ 97 ∷ 115 ∷ 101 ∷ [], auto_erase_command)
    ∷ (98 ∷ 111 ∷ 111 ∷ 116 ∷ 97 ∷ 100 ∷ 114 ∷ 32 ∷ 32 ∷ [], boot_adr_command)
    ∷ (100 ∷ 117 ∷ 109 ∷ 112 ∷ 32 ∷ 32 ∷ 32 ∷ 32 ∷ 32 ∷ [], dump_command)
    ∷ (101 ∷ 114 ∷ 97 ∷ 115 ∷ 101 ∷ 32 ∷ 32 ∷ 32 ∷ 32 ∷ [], erase_command)
    ∷ (102 ∷ 108 ∷ 97 ∷ 115 ∷ 104 ∷ 32 ∷ 32 ∷ 32 ∷ 32 ∷ [], flash_command)
    ∷ (109 ∷ 97 ∷ 112 ∷ 32 ∷ 32 ∷ 32 ∷ 32 ∷ 32 ∷ 32 ∷ [], map_command)
    ∷ (101 ∷ 120 ∷ 105 ∷ 116 ∷ 32 ∷ 32 ∷ 32 ∷ 32 ∷ 32 ∷ [], exit_command)
    ∷ (114 ∷ 101 ∷ 98 ∷ 111 ∷ 111 ∷ 116 ∷ 32 ∷ 32 ∷ 32 ∷ [], reboot_command)
    ∷ (115 ∷ 97 ∷ 118 ∷ 101 ∷ 32 ∷ 32 ∷ 32 ∷ 32 ∷ 32 ∷ [], save_command)
    ∷ (116 ∷ 102 ∷ 116 ∷ 112 ∷ 32 ∷ 32 ∷ 32 ∷ 32 ∷ 32 ∷ [], tftp_command)
    ∷ (118 ∷ 101 ∷ 114 ∷ 105 ∷ 102 ∷ 121 ∷ 32 ∷ 32 ∷ 32 ∷ [], verify_command)
    ∷ (63 ∷ [], help_command)
    ∷ (104 ∷ 101 ∷ 108 ∷ 112 ∷ [], help_command)
    ∷ []

-- A C string at the start of `mem`, and what stands behind its 0.
unfoldable pub c_string : List ℕ → List ℕ
c_string [] = []
c_string (c ∷ mem) = let rest = c_string mem in if c == 0 then [] else c ∷ rest

unfoldable pub behind_string : List ℕ → List ℕ
behind_string mem = drop (length (c_string mem) + 1) mem

module _ (spi : Spi) (con : Console) (parser : Parser) (help : con.Net → con.Net) (client : Client)
    (transfer : List Event) where
  -- The function of a command, on the bytes from `CmdLine` on. `HelpCmd` is the parser's.
  unfoldable pub execute :
      Command → List ℕ → Sys spi.Flash con.Net → Outcome (Result × Sys spi.Flash con.Net)
  execute auto_boot_command mem s = auto_boot_cmd spi con parser (c_string mem) s
  execute auto_erase_command mem s = returns (auto_erase_cmd spi con parser (c_string mem) s)
  execute boot_adr_command mem s = boot_adr_cmd spi con parser (c_string mem) s
  execute dump_command mem s = dump_cmd spi con parser (c_string mem) s
  execute erase_command mem s = erase_cmd spi con parser (c_string mem) s
  execute flash_command mem s =
      flash_cmd spi con parser client transfer (behind_string mem) (c_string mem) s
  execute map_command mem s = map_cmd spi con parser s
  execute exit_command mem s = returns (exit_cmd spi con parser s)
  execute reboot_command mem s = returns (reboot_cmd spi con parser (c_string mem) s)
  execute save_command mem s =
      save_cmd spi con parser client transfer (behind_string mem) (c_string mem) s
  execute tftp_command mem s = tftp_cmd spi con parser (c_string mem) s
  execute verify_command mem s =
      verify_cmd spi con parser client transfer (behind_string mem) (c_string mem) s
  execute help_command mem s = returns (result_ok, say spi con parser s (help s.net))
