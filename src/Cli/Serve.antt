-- ===== src/Cli/Serve.antt =====
-- do_accept of src/cli/cli_server.c: a connection from its accept() to its close().
use cc_utils.Base.{
  ℕ, zero, suc, ◌+◌, ◌&&◌, Option, none, some, List, [], ◌∷◌, ◌++◌, leb, ◌==◌, if◌then◌else◌,
  length, drop,
}
use cc_utils.Base.Outcome.{Outcome, ok, fault, out_of_fuel, ◌>>=◌}
use cc_utils.Base.Bytes.{Bytes, c_string}
use cc_utils.Binlog.Buffer.{Allocator}
use cc_utils.Cli.Io.{Result, done, failed, Sockets, safe_read, safe_write}
use cc_utils.Cli.Message.{msg_decode}
use cc_utils.Cli.Request.{ends_cr}
use cc_utils.Cli.Table.{Commands, command_execute}
use cc_utils.Cli.Output.{CmdPrint, cdp_reinit, cdp_output}

-- A C string that is read up to its terminator.
abbrev pub text_of : Option Bytes → Outcome Bytes
text_of none = fault
text_of (some s) = ok s

-- The functions that are registered, by their addresses.
abbrev pub Functions : Type 0
Functions = ℕ → List Bytes → CmdPrint → Outcome CmdPrint

abbrev pub execute : Functions → Option ℕ → List Bytes → CmdPrint → Outcome CmdPrint
execute functions none argv cdp = ok cdp
execute functions (some f) argv cdp = functions f argv cdp

module _ (net : Sockets) where
  -- A round of the loop that reads a request, behind its safe_read: `none` once the connection is
  -- closed.
  unfoldable pub request_round :
      (net.State → Bytes → Outcome (Option Bytes × net.State))
      → ℕ
      → Bytes
      → Result Bytes × net.State
      → Outcome (Option Bytes × net.State)
  request_round rest fd cmd (failed e, s) = ok (none, net.close s fd)
  request_round rest fd cmd (done [], s) = ok (none, net.close s fd)
  request_round rest fd cmd (done (x ∷ _), s) =
      let more = rest s (cmd ++ (x ∷ [])) in
      if x == b'\n' && ends_cr cmd
      then ok (some (cmd ++ (x ∷ [])), s)
      else if leb 1024 (length cmd + 1)
      then ok (none, net.close s fd)
      else more

  unfoldable pub request_loop : ℕ → net.State → ℕ → Bytes → Outcome (Option Bytes × net.State)
  request_loop zero s fd cmd = out_of_fuel
  request_loop (suc fuel) s fd cmd =
      safe_read net (suc fuel) s fd 1 >>= request_round (λ s cmd. request_loop fuel s fd cmd) fd cmd

  module _ (mem : Allocator) (functions : Functions) where
    -- What is done with a request: `stale` is what the array `cmd` held before.
    unfoldable pub serve :
        ℕ
        → Commands
        → Bytes
        → ℕ
        → CmdPrint
        → Option Bytes × net.State
        → Outcome (CmdPrint × net.State)
    serve fuel commands stale fd cdp (none, s) = ok (cdp, s)
    serve fuel commands stale fd cdp (some cmd, s) = do
      d ← msg_decode (cmd ++ drop (length cmd) stale)
      subcommand ← text_of (c_string d.sub_command)
      cdp ← execute functions (command_execute commands subcommand) d.argv cdp
      output ← text_of (c_string (cdp_output cdp))
      (_, s) ← safe_write net fuel s fd output
      cdp ← cdp_reinit mem cdp
      ok (cdp, net.close s fd)

    unfoldable pub accepted :
        ℕ → Commands → Bytes → CmdPrint → Result ℕ × net.State → Outcome (CmdPrint × net.State)
    accepted fuel commands stale cdp (failed e, s) = ok (cdp, s)
    accepted fuel commands stale cdp (done fd, s) =
        request_loop fuel s fd [] >>= serve fuel commands stale fd cdp

    unfoldable pub do_accept :
        ℕ → Commands → Bytes → CmdPrint → net.State → ℕ → Outcome (CmdPrint × net.State)
    do_accept fuel commands stale cdp s socket_fd =
        accepted fuel commands stale cdp (net.accept s socket_fd)
