-- ===== src/Cli/Tests.antt =====
-- The theorems of the command line server on a command with two arguments, a table with one command,
-- and a small text.
mod Connection
mod Creation
mod Help
use cc_utils.Base.{
  false, true, Bool, ℕ, ◌+◌, ◌≤◌, ◌<◌, ◌≡◌, refl, none, some, List, [], ◌∷◌, ◌++◌, length,
  replicate, take, ◌⊎◌, All, arith,
}
use mathlib.Core.List.{map}
use cc_utils.Base.Outcome.{ok, fault}
use cc_utils.Base.Bytes.{Bytes, c_string}
use cc_utils.Base.Int.{negsuc}
use cc_utils.Binlog.Plenty.{plenty, plenty-Succeeds}
use cc_utils.Cli.Message.{Decoded, msg_encode, msg_decode}
use cc_utils.Cli.Layout.{message}
use cc_utils.Cli.RoundTrip.{IsShort, msg_decode-msg_encode}
use cc_utils.Cli.Request.{read_request, quiet, IsQuiet, read_request-message}
use cc_utils.Cli.Table.{Commands, empty, cli_register, command_execute}
use cc_utils.Cli.Registered.{
  Registration, slot_of, Dispatches, Holds, command_execute-first_match, cli_register-Holds,
}
use cc_utils.Cli.Output.{CmdPrint, cdp_print, cdp_output}
use cc_utils.Cli.Printed.{Printed, cdp_print-Printed}

-- "set" with the arguments "ab" and ""
abbrev set_text : Bytes
set_text = b's' ∷ b'e' ∷ b't' ∷ []

abbrev set_args : List Bytes
set_args = (b'a' ∷ b'b' ∷ []) ∷ [] ∷ []

set_text-IsShort : IsShort set_text
set_text-IsShort = record { text = (refl, (refl, (refl, tt))); short = omega arith }

set_args-IsShort : All IsShort set_args
set_args-IsShort = (
  record { text = (refl, (refl, tt)); short = omega arith },
  (record { text = tt; short = omega arith }, tt),
)

abbrev buffer : Bytes
buffer = replicate 1024 0

set_room : length (message set_text set_args) ≤ 1024
unfolding message
set_room = omega arith

msg_decode-msg_encode_example :
    (n : ℕ) × (buf' : Bytes) × (d : Decoded) × (msg_encode buffer set_text set_args ≡ ok (n, buf'))
    × (msg_decode buf' ≡ ok d)
    × (c_string d.sub_command ≡ some set_text)
    × (map c_string d.argv ≡ map some set_args)
    × (d.offset + 2 ≡ n)
msg_decode-msg_encode_example =
    msg_decode-msg_encode buffer set_text set_args set_text-IsShort set_args-IsShort (omega arith)
      set_room

set_text-IsQuiet : IsQuiet set_text
unfolding quiet
set_text-IsQuiet = record { short = omega arith; quiet = refl }

set_args-IsQuiet : All IsQuiet set_args
unfolding quiet
set_args-IsQuiet = (
  record { short = omega arith; quiet = refl },
  (record { short = omega arith; quiet = refl }, tt),
)

abbrev help_command : Registration
help_command = record { name = b'h' ∷ []; help = []; execute = 1 }

abbrev set_command : Registration
set_command = record { name = set_text; help = []; execute = 2 }

abbrev one_command : Commands
one_command = record { slots = slot_of help_command ∷ replicate 1023 empty; regcnt = 1 }

one_command-Holds : Holds one_command (help_command ∷ [])
one_command-Holds = record { slots = refl; count = refl; room = omega arith }

command_execute-first_match_example :
    Dispatches (help_command ∷ []) help_command.name (command_execute one_command help_command.name)
command_execute-first_match_example =
    command_execute-first_match one_command (help_command ∷ []) help_command.name one_command-Holds

cli_register-Holds_example :
    ((1 < 1023)
      × ((s' : Commands) × (cli_register true one_command set_text [] 2 ≡ ok (none, s'))
          × Holds s' (help_command ∷ set_command ∷ []))
      × (cli_register false one_command set_text [] 2 ≡ fault))
    ⊎ ((length (help_command ∷ []) ≡ 1023)
        × ((server : Bool)
            → cli_register server one_command set_text [] 2 ≡ ok (some (negsuc 27), one_command)))
cli_register-Holds_example =
    cli_register-Holds one_command (help_command ∷ []) set_command one_command-Holds

-- A buffer with "x" in it.
abbrev one_char : CmdPrint
one_char = record { buf = b'x' ∷ replicate 4095 0; buf_size = 4096; pos = 1 }

one_char-Printed : Printed one_char (b'x' ∷ [])
one_char-Printed = record {
  sized = refl;
  least = omega arith;
  ends = refl;
  inside = omega arith;
  holds = refl;
}

cdp_print-Printed_example :
    (cdp' : CmdPrint) × (cdp_print plenty one_char set_text ≡ ok cdp')
    × Printed cdp' (b'x' ∷ set_text)
    × (take (cdp'.pos + 1) (cdp_output cdp') ≡ b'x' ∷ (set_text ++ (0 ∷ [])))
cdp_print-Printed_example =
    cdp_print-Printed plenty plenty-Succeeds one_char (b'x' ∷ []) set_text one_char-Printed
      (omega arith) (omega arith) (omega arith)
