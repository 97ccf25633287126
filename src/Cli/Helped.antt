-- ===== src/Cli/Helped.antt =====
-- The command "help" of the server, from the accept() of do_accept to its close(), src/cli/cli_server.c.
use cc_utils.Base.{
  ℕ, ◌+◌, ◌<◌, ◌≡◌, true, inl, inr, refl, ap, sym, ◌∙◌, none, some, List, [], ◌∷◌, ◌++◌,
  append_assoc, ◌==◌, if◌then◌else◌, length, take, drop, take-append_drop, All, arith,
}
use mathlib.Core.List.{map}
use cc_utils.Base.Outcome.{ok}
use cc_utils.Base.Bytes.{Bytes, c_string, IsText, c_string-append}
use cc_utils.Binlog.Buffer.{Allocator}
use cc_utils.Binlog.Laws.Growth.{Succeeds}
use cc_utils.Cli.Io.{done, Sockets, Streams}
use cc_utils.Cli.Layout.{message}
use cc_utils.Cli.RoundTrip.{IsShort}
use cc_utils.Cli.Request.{quiet, IsQuiet}
use cc_utils.Cli.Table.{Commands, initial, cli_register}
use cc_utils.Cli.Registered.{
  Registration, first_match, Holds, cli_register-Holds, command_execute-found,
}
use cc_utils.Cli.Output.{CmdPrint, cdp_output}
use cc_utils.Cli.Serve.{Functions, do_accept}
use cc_utils.Cli.Served.{do_accept-message}
use cc_utils.Cli.Builtin.{help_title, cmd_help, cmd_test}
use cc_utils.Cli.Listing.{Filled, IsLine, all_lines, help_of, cmd_help-listing}
use cc_utils.Cli.Lifetime.{
  help_name, help_text, help_address, test_name, test_text, test_address, register_own,
}

-- The functions of a server that was created: its own two, and the program's.
unfoldable pub functions_of : Allocator → (ℕ → Bytes) → Commands → Functions → Functions
functions_of mem sprintf_d commands others f args cdp =
    if f == help_address
    then cmd_help mem commands cdp
    else if f == test_address
    then cmd_test mem sprintf_d args cdp
    else others f args cdp

help_name-IsShort : IsShort help_name
help_name-IsShort = record { text = (refl, (refl, (refl, (refl, tt)))); short = omega arith }

help_name-IsQuiet : IsQuiet help_name
unfolding quiet
help_name-IsQuiet = record { short = omega arith; quiet = refl }

-- The text in front of the first 0.
c_string-take :
    (n : ℕ) (b text : Bytes) → IsText text → take n b ≡ text ++ (0 ∷ []) → c_string b ≡ some text
c_string-take n b text is e =
    ap c_string (
      sym (take-append_drop n b)
      ∙ ap (λ t. t ++ drop n b) e
      ∙ append_assoc text (0 ∷ []) (drop n b))
    ∙ c_string-append text (drop n b) is

-- The title and a line for each command.
abbrev pub listing : List Registration → Bytes
listing rs = help_title ++ all_lines (map help_of rs)

-- do_accept of a connection that brings the message of the command "help" sends the title and a line
-- with the name and the help of each registered command, in their order, and closes the connection, where
-- the command under that name is the server's own. The print buffer is empty before, a line has fewer
-- than 1024 characters, none of the characters is 0, no allocation fails and no signal interrupts.
pub do_accept-help :
    (net : Sockets) (st : Streams net) (mem : Allocator) (others : Functions)
    (sprintf_d : ℕ → Bytes) (fuel : ℕ) (commands : Commands) (rs : List Registration)
    (stale : Bytes) (cdp : CmdPrint) (s s₁ : net.State) (socket_fd fd : ℕ) (more : Bytes)
    → Succeeds mem
    → Holds commands rs
    → first_match rs help_name ≡ some help_address
    → Filled cdp []
    → All IsLine (map help_of rs)
    → IsText (listing rs)
    → net.accept s socket_fd ≡ (done fd, s₁)
    → st.pending s₁ fd ≡ message help_name [] ++ more
    → st.interrupts s₁ ≡ 0
    → length (message help_name [] ++ more) + length (listing rs) + 1 < fuel
    → (s' : net.State) × (cdp'' : CmdPrint) × (do_accept net mem
          (functions_of mem sprintf_d commands others)
          fuel
          commands
          stale
          cdp
          s
          socket_fd
        ≡ ok (cdp'', net.close s' fd))
      × (st.sent s' fd ≡ st.sent s₁ fd ++ listing rs)
unfolding functions_of message
do_accept-help net st mem others sprintf_d fuel commands rs stale cdp s s₁ socket_fd fd more
      succeeds h own f all is came brings calm enough =
    let (cdp', e, _, out) = cmd_help-listing mem succeeds commands rs cdp h f all in
    let found = command_execute-found commands rs help_name h ∙ own in
    let (s', cdp'', served, sent, _) =
      do_accept-message net st mem (functions_of mem sprintf_d commands others) succeeds fuel
        commands stale cdp cdp' s s₁ socket_fd fd help_name [] more (listing rs) came brings calm
        (help_name-IsShort, help_name-IsQuiet) (tt, tt) (omega arith) (omega arith)
        (λ args _. rw found e) (c_string-take (cdp'.pos + 1) (cdp_output cdp') (listing rs) is out)
        enough in
    (s', cdp'', served, sent)

-- The table of a server that was created: its own commands.
abbrev pub own : List Registration
own =
    (record { name = help_name; help = help_text; execute = help_address })
    ∷ (record { name = test_name; help = test_text; execute = test_address })
    ∷ []

register-Holds :
    (s : Commands) (rs : List Registration) (r : Registration)
    → Holds s rs
    → length rs < 1023
    → (s' : Commands) × (cli_register true s r.name r.help r.execute ≡ ok (none, s'))
      × Holds s' (rs ++ (r ∷ []))
register-Holds s rs r h room = elim (cli_register-Holds s rs r h) [
  | inl (_, registered, _) ↦ registered
  | inr (full, _) ↦ absurd (omega arith)
]

initial-Holds : Holds initial []
initial-Holds = record { slots = refl; count = refl; room = omega arith }

-- cli_create leaves the server's own two commands in the table.
register_own-Holds : (s : Commands) × (register_own initial ≡ ok s) × Holds s own
unfolding register_own
register_own-Holds =
    let help : Registration = record {
      name = help_name;
      help = help_text;
      execute = help_address;
    } in
    let test : Registration = record {
      name = test_name;
      help = test_text;
      execute = test_address;
    } in
    let (s, first, h) = register-Holds initial [] help initial-Holds (omega arith) in
    let (s', second, h') = register-Holds s (help ∷ []) test h (omega arith) in
    (s', rw (first, second) refl, h')
