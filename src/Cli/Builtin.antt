-- ===== src/Cli/Builtin.antt =====
-- The commands of the server itself, cmd_help and cmd_test of src/cli/cli_server.c.
use cc_utils.Base.{ℕ, ◌+◌, Option, none, some, List, [], ◌∷◌, ◌++◌, length}
use cc_utils.Base.Outcome.{Outcome, ok, ◌>>=◌}
use cc_utils.Base.Bytes.{Bytes, c_string}
use cc_utils.Binlog.Buffer.{Allocator}
use cc_utils.Cli.Output.{CmdPrint, cdp_print}
use cc_utils.Cli.Serve.{text_of}
use cc_utils.Cli.Table.{Command, Commands}

-- CMD_PRINTLN
abbrev pub newline : Bytes
newline = b'\n' ∷ []

-- "register subcomand:"
abbrev pub help_title : Bytes
help_title =
    b'r' ∷ b'e' ∷ b'g' ∷ b'i' ∷ b's' ∷ b't' ∷ b'e' ∷ b'r' ∷ b' ' ∷ b's' ∷ b'u' ∷ b'b' ∷ b'c' ∷ b'o'
    ∷ b'm' ∷ b'a' ∷ b'n' ∷ b'd' ∷ b':' ∷ newline

-- "  %s\t%s"
abbrev pub help_line : Bytes → Bytes → Bytes
help_line subcommand help = b' ' ∷ b' ' ∷ subcommand ++ (b'\t' ∷ help ++ newline)

-- "argc: %d" and "argv[%d] = %s"
abbrev pub argc_line : Bytes → Bytes
argc_line d = b'a' ∷ b'r' ∷ b'g' ∷ b'c' ∷ b':' ∷ b' ' ∷ d ++ newline

abbrev pub argv_line : Bytes → Bytes → Bytes
argv_line d arg =
    b'a' ∷ b'r' ∷ b'g' ∷ b'v' ∷ b'[' ∷ d ++ (b']' ∷ b' ' ∷ b'=' ∷ b' ' ∷ arg ++ newline)

module _ (mem : Allocator) where
  -- A slot of the table; a NULL that is printed is a fault.
  unfoldable pub help_slot : Option ℕ → Command → CmdPrint → Outcome CmdPrint
  help_slot none slot cdp = ok cdp
  help_slot (some f) slot cdp = do
    subcommand ← text_of slot.subcommand
    help ← text_of slot.help
    cdp_print mem cdp (help_line subcommand help)

  unfoldable pub help_loop : List Command → CmdPrint → Outcome CmdPrint
  help_loop [] cdp = ok cdp
  help_loop (slot ∷ slots) cdp = do cdp ← help_slot slot.execute slot cdp; help_loop slots cdp

  unfoldable pub cmd_help : Commands → CmdPrint → Outcome CmdPrint
  cmd_help commands cdp = do cdp ← cdp_print mem cdp help_title; help_loop commands.slots cdp

  -- `sprintf_d` is what vsnprintf makes of "%d".
  module _ (sprintf_d : ℕ → Bytes) where
    unfoldable pub test_loop : ℕ → List Bytes → CmdPrint → Outcome CmdPrint
    test_loop i [] cdp = ok cdp
    test_loop i (arg ∷ argv) cdp = do
      arg ← text_of (c_string arg)
      cdp ← cdp_print mem cdp (argv_line (sprintf_d i) arg)
      test_loop (i + 1) argv cdp

    unfoldable pub cmd_test : List Bytes → CmdPrint → Outcome CmdPrint
    cmd_test argv cdp = do
      cdp ← cdp_print mem cdp (argc_line (sprintf_d (length argv)))
      test_loop 0 argv cdp
