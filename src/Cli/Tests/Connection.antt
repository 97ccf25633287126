-- ===== src/Cli/Tests/Connection.antt =====
-- A client's message over one connection.
use cc_utils.Base.{
  ◌⊎◌, ◌+◌, ◌≤◌, ◌<◌, ◌≡◌, refl, some, List, [], ◌∷◌, ◌++◌, length, take, drop, replicate, All,
  arith,
}
use mathlib.Core.List.{map}
use cc_utils.Base.Outcome.{ok}
use cc_utils.Base.Bytes.{Bytes, c_string}
use cc_utils.Binlog.Plenty.{plenty, plenty-Succeeds}
use cc_utils.Cli.Layout.{message}
use cc_utils.Cli.RoundTrip.{IsShort}
use cc_utils.Cli.Request.{quiet, IsQuiet}
use cc_utils.Cli.Table.{Commands, empty, command_execute, command_find}
use cc_utils.Cli.Output.{CmdPrint, cdp_output}
use cc_utils.Cli.Io.{done, safe_read, safe_write}
use cc_utils.Cli.Transfer.{calls_of}
use cc_utils.Cli.Calls.{Broken, safe_read-Broken}
use cc_utils.Cli.Sends.{Refused, safe_write-Refused}
use cc_utils.Cli.Serve.{Functions, execute, do_accept}
use cc_utils.Cli.Served.{do_accept-message}
use cc_utils.Cli.Loopback.{Line, loopback, calm}

abbrev greeting : Line
greeting = record { input = b'h' ∷ b'e' ∷ b'y' ∷ []; output = [] }

safe_read-Broken_example :
    ((s' : Line) × (safe_read loopback 5 greeting 3 2 ≡ ok (done (take 2 greeting.input), s'))
      × (s'.input ≡ drop 2 greeting.input)
      × (s'.output ≡ [])
      × (0 ≤ 0))
    ⊎ Broken loopback (calls_of loopback calm) greeting 3 (safe_read loopback 5 greeting 3 2)
safe_read-Broken_example =
    safe_read-Broken loopback (calls_of loopback calm) 5 greeting 3 2 (omega arith)

safe_write-Refused_example :
    ((s' : Line) × (safe_write loopback 5 greeting 3 (1 ∷ 2 ∷ []) ≡ ok (0, s'))
      × (s'.output ≡ [] ++ (1 ∷ 2 ∷ [])))
    ⊎ Refused loopback
        (calls_of loopback calm)
        greeting
        3
        (1 ∷ 2 ∷ [])
        (safe_write loopback 5 greeting 3 (1 ∷ 2 ∷ []))
safe_write-Refused_example =
    safe_write-Refused loopback (calls_of loopback calm) 5 greeting 3 (1 ∷ 2 ∷ []) (omega arith)
      refl

-- "hi" with the argument "x"
abbrev hi : Bytes
hi = b'h' ∷ b'i' ∷ []

abbrev arguments : List Bytes
arguments = (b'x' ∷ []) ∷ []

hi-IsShort : IsShort hi
hi-IsShort = record { text = (refl, (refl, tt)); short = omega arith }

hi-IsQuiet : IsQuiet hi
unfolding quiet
hi-IsQuiet = record { short = omega arith; quiet = refl }

arguments-IsShort : All IsShort arguments
arguments-IsShort = (record { text = (refl, tt); short = omega arith }, tt)

arguments-IsQuiet : All IsQuiet arguments
unfolding quiet
arguments-IsQuiet = (record { short = omega arith; quiet = refl }, tt)

abbrev hi_only : Commands
hi_only = record {
  slots = record { subcommand = some hi; help = some []; execute = some 1 } ∷ replicate 1023 empty;
  regcnt = 1;
}

abbrev reply : Bytes
reply = b'o' ∷ b'k' ∷ []

-- Every function prints "ok".
abbrev prints_ok : Functions
prints_ok f args cdp = ok (record { buf = b'o' ∷ b'k' ∷ 0 ∷ []; buf_size = 4096; pos = 2 })

abbrev nothing_printed : CmdPrint
nothing_printed = record { buf = replicate 4096 0; buf_size = 4096; pos = 0 }

abbrev ok_printed : CmdPrint
ok_printed = record { buf = b'o' ∷ b'k' ∷ 0 ∷ []; buf_size = 4096; pos = 2 }

abbrev calling : Line
calling = record { input = message hi arguments ++ []; output = [] }

hi_room : length (message hi arguments) ≤ 1024
unfolding message
hi_room = omega arith

hi_enough : length (message hi arguments ++ []) + length reply + 1 < 100
unfolding message
hi_enough = omega arith

hi_found :
    (args : List Bytes)
    → map c_string args ≡ map some arguments
    → execute prints_ok (command_execute hi_only hi) args nothing_printed ≡ ok ok_printed
unfolding command_execute command_find
hi_found args e = refl

hi_output : c_string (cdp_output ok_printed) ≡ some reply
unfolding cdp_output
hi_output = refl

do_accept-message_example :
    (s' : Line) × (cdp'' : CmdPrint) × (do_accept loopback plenty prints_ok 100 hi_only
        (replicate 1024 0)
        nothing_printed
        calling
        7
      ≡ ok (cdp'', s'))
    × (s'.output ≡ [] ++ reply)
    × (cdp''.pos ≡ 0)
do_accept-message_example =
    do_accept-message loopback calm plenty prints_ok plenty-Succeeds 100 hi_only (replicate 1024 0)
      nothing_printed ok_printed calling calling 7 3 hi arguments [] reply refl refl refl
      (hi-IsShort, hi-IsQuiet) (arguments-IsShort, arguments-IsQuiet) (omega arith) hi_room hi_found
      hi_output hi_enough
