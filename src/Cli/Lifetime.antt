-- ===== src/Cli/Lifetime.antt =====
-- The server from cli_create to cli_destroy, src/cli/cli_server.c: its socket, its pipe and its
-- thread. What is written to the log is left out, and so is the signal handler, which only exits.
use cc_utils.Base.{
  ℕ, zero, suc, ◌+◌, Bool, true, false, Option, none, some, [], ◌∷◌, ltb, ◌==◌, if◌then◌else◌,
  length, ◌-◌,
}
use cc_utils.Base.Outcome.{Outcome, ok, fault, out_of_fuel, ◌>>=◌, ◌>>◌, assert}
use cc_utils.Base.Int.{ℤ, pos, negsuc}
use cc_utils.Base.Bytes.{Bytes}
use cc_utils.Binlog.Buffer.{Allocator}
use cc_utils.Cli.Io.{Result, done, failed, Sockets, safe_write}
use cc_utils.Cli.Output.{CmdPrint, cdp_init, cdp_destroy}
use cc_utils.Cli.Serve.{Functions, do_accept}
use cc_utils.Cli.Table.{Commands, cli_register}

-- CLI_INIT, CLI_DOWN and CLI_FINI
pub data CliState : Type 0 where
  cli_init : CliState
  cli_down : CliState
  cli_fini : CliState

-- The system's calls, over those of the sockets: `none` is a malloc() that fails, a number of
-- pthread_spin_init and pthread_create is what they return, 0 or the number of an error, and `printed`
-- is what sprintf makes of the socket's directory, the name and the process. poll() gives its result
-- and whether the socket is ready, `state` is
-- the handler's state as the server's thread reads it, and at_exit() is atexit() of
-- remove_all_cleanup_files.
pub record System : Type 1 where
  pub net : Sockets
  pub socket : net.State → Result ℕ × net.State
  pub bind : net.State → ℕ → Bytes → Result (Unit {0}) × net.State
  pub listen : net.State → ℕ → Result (Unit {0}) × net.State
  pub malloc : net.State → Option ℕ × net.State
  pub free : net.State → ℕ → net.State
  pub pipe : net.State → Result (ℕ × ℕ) × net.State
  pub spin_init : net.State → ℕ × net.State
  pub thread_create : net.State → ℕ × net.State
  pub thread_join : net.State → net.State
  pub poll : net.State → (ℤ × Bool) × net.State
  pub state : net.State → CliState
  pub set_state : net.State → CliState → net.State
  pub printed : Bytes → Bytes
  pub at_exit : net.State → net.State
  pub unlink : net.State → Bytes → net.State

-- EADDRINUSE, EINVAL and ENOSPC
abbrev pub eaddrinuse : ℕ
eaddrinuse = 98

abbrev pub einval : ℤ
einval = negsuc 21

abbrev pub enospc : ℤ
enospc = negsuc 27

-- `cli_handler_t` at its address, without its state
pub record Handler : Type 0 where
  pub address : ℕ
  pub name : Bytes
  pub socket_fd : ℕ
  pub pipe_rd : ℕ
  pub pipe_wr : ℕ
  pub cdp : CmdPrint

abbrev pub is_down : CliState → Bool
is_down cli_down = true
is_down _ = false

-- The addresses of cmd_help and cmd_test.
abbrev pub help_address : ℕ
help_address = 1

abbrev pub test_address : ℕ
test_address = 2

abbrev pub help_text : Bytes
help_text =
    b'h' ∷ b'e' ∷ b'l' ∷ b'p' ∷ b' ' ∷ b'f' ∷ b'o' ∷ b'r' ∷ b' ' ∷ b's' ∷ b'u' ∷ b'b' ∷ b'c' ∷ b'o'
    ∷ b'm' ∷ b'm' ∷ b'a' ∷ b'n' ∷ b'd' ∷ b' ' ∷ b'd' ∷ b'e' ∷ b't' ∷ b'a' ∷ b'i' ∷ b'l' ∷ b's' ∷ []

abbrev pub test_text : Bytes
test_text =
    b't' ∷ b'e' ∷ b's' ∷ b't' ∷ b' ' ∷ b'c' ∷ b'o' ∷ b'm' ∷ b'm' ∷ b'a' ∷ b'n' ∷ b'd' ∷ b' ' ∷ b'i'
    ∷ b'n' ∷ b'p' ∷ b'u' ∷ b't' ∷ b' ' ∷ b'a' ∷ b'r' ∷ b'g' ∷ b'u' ∷ b'm' ∷ b'e' ∷ b'n' ∷ b't'
    ∷ b's' ∷ []

abbrev pub help_name : Bytes
help_name = b'h' ∷ b'e' ∷ b'l' ∷ b'p' ∷ []

abbrev pub test_name : Bytes
test_name = b't' ∷ b'e' ∷ b's' ∷ b't' ∷ []

-- The server's own commands
unfoldable pub register_own : Commands → Outcome Commands
register_own commands = do
  (_, commands) ← cli_register true commands help_name help_text help_address
  (_, commands) ← cli_register true commands test_name test_text test_address
  ok commands

-- sizeof(address.sun_path)
abbrev pub sun_path_size : ℕ
sun_path_size = 108

module _ (os : System) where
  -- What bind_and_listen does once the socket is bound: the value that it returns, and `*fd` where it is
  -- set.
  unfoldable pub listened : ℕ → Result (Unit {0}) × os.net.State → (ℤ × Option ℕ) × os.net.State
  listened fd (failed e, s) = ((pos e, none), os.net.close s fd)
  listened fd (done _, s) = ((pos 0, some fd), s)

  unfoldable pub listen_on : ℕ → os.net.State → (ℤ × Option ℕ) × os.net.State
  listen_on fd s = listened fd (os.listen s fd)

  -- Behind the second bind().
  unfoldable pub rebound : ℕ → Result (Unit {0}) × os.net.State → (ℤ × Option ℕ) × os.net.State
  rebound fd (failed e, s) =
      let heard = listen_on fd s in if e == 0 then heard else ((pos e, none), os.net.close s fd)
  rebound fd (done _, s) = listen_on fd s

  -- Behind the first one.
  unfoldable pub bound :
      Bytes → ℕ → Result (Unit {0}) × os.net.State → (ℤ × Option ℕ) × os.net.State
  bound path fd (failed e, s) =
      let again = rebound fd (os.bind s fd path) in
      let heard = listen_on fd s in
      if e == eaddrinuse
      then again
      else if e == 0
      then heard
      else ((pos e, none), os.net.close s fd)
  bound path fd (done _, s) = listen_on fd s

  unfoldable pub with_socket : Bytes → Result ℕ × os.net.State → (ℤ × Option ℕ) × os.net.State
  with_socket path (failed e, s) = ((pos e, none), s)
  with_socket path (done fd, s) = bound path fd (os.bind s fd path)

  unfoldable pub bind_and_listen : os.net.State → Bytes → (ℤ × Option ℕ) × os.net.State
  bind_and_listen s socket_path =
      if ltb (sun_path_size - 1) (length socket_path)
      then ((einval, none), s)
      else with_socket socket_path (os.socket s)

  -- create_wakeup_pipe
  unfoldable pub create_wakeup_pipe : os.net.State → (ℤ × Option (ℕ × ℕ)) × os.net.State
  create_wakeup_pipe s = piped (os.pipe s)
    where
      piped : Result (ℕ × ℕ) × os.net.State → (ℤ × Option (ℕ × ℕ)) × os.net.State
      piped (failed e, s) = ((negsuc 0, none), s)
      piped (done ends, s) = ((pos 0, some ends), s)

  -- pipe_wakeup
  unfoldable pub pipe_wakeup : ℕ → os.net.State → ℕ → Outcome os.net.State
  pipe_wakeup fuel s fd = do (r, s) ← safe_write os.net fuel s fd (0 ∷ []); assert (r == 0); ok s

  -- What cli_create returns, `cmd_handler` where it is set, and the table of commands.
  abbrev pub Created : Type 0
  Created = (ℤ × Option Handler × Commands) × os.net.State

  -- The rest of cli_create behind the pipe: pthread_create returns no negative number, and the server
  -- is there whether or not the thread is.
  unfoldable pub threaded : Allocator → Commands → Handler → os.net.State → Outcome Created
  threaded mem commands h s = do
    let s = (os.thread_create s).1
    cdp ← cdp_init mem
    let s = os.at_exit (os.set_state s cli_init)
    commands ← register_own commands
    ok ((pos 0, some (record h { cdp = cdp }), commands), s)

  unfoldable pub with_pipe :
      Allocator → Commands → Handler → (ℤ × Option (ℕ × ℕ)) × os.net.State → Outcome Created
  with_pipe mem commands h ((ret, none), s) =
      ok ((ret, none, commands), os.free (os.net.close s h.socket_fd) h.address)
  with_pipe mem commands h ((ret, some (rd, wr)), s) =
      threaded mem commands (record h { pipe_rd = rd; pipe_wr = wr }) s

  -- Behind bind_and_listen: where it left `socket_fd` alone, that is as malloc left it.
  unfoldable pub with_listener :
      Allocator → Commands → Handler → (ℤ × Option ℕ) × os.net.State → Outcome Created
  with_listener mem commands h ((negsuc n, fd), s) =
      ok ((negsuc n, none, commands), os.free s h.address)
  with_listener mem commands h ((pos n, none), s) =
      with_pipe mem commands h (create_wakeup_pipe (os.spin_init s).1)
  with_listener mem commands h ((pos n, some fd), s) =
      with_pipe mem commands (record h { socket_fd = fd }) (create_wakeup_pipe (os.spin_init s).1)

  unfoldable pub with_block :
      Allocator → Commands → Handler → Option ℕ × os.net.State → Outcome Created
  with_block mem commands stale (none, s) = ok ((enospc, none, commands), s)
  with_block mem commands stale (some h, s) =
      with_listener mem commands (record stale { address = h })
        (bind_and_listen s (os.printed stale.name))

  -- `stale` is what malloc's block holds.
  unfoldable pub cli_create :
      Allocator → os.net.State → Commands → Handler → Bytes → Outcome Created
  cli_create mem s commands stale name =
      if ltb 32 (length name + 1)
      then ok ((einval, none, commands), s)
      else with_block mem commands (record stale { name = name }) (os.malloc s)

  unfoldable pub cli_destroy :
      ℕ → os.net.State → Option Handler → Outcome (Option Handler × os.net.State)
  cli_destroy fuel s none = ok (none, s)
  cli_destroy fuel s (some h) = do
    s ← pipe_wakeup fuel (os.set_state s cli_down) h.pipe_wr
    let h = record h { cdp = cdp_destroy h.cdp }
    let s = os.net.close (os.thread_join s) h.socket_fd
    let s = os.net.close (os.net.close s h.pipe_rd) h.pipe_wr
    ok (none, os.free (os.set_state s cli_fini) h.address)

  -- What exit() calls once the server was created: the server's path is unlinked, where there is a
  -- handler.
  unfoldable pub remove_all_cleanup_files : os.net.State → Option Handler → Outcome os.net.State
  remove_all_cleanup_files s none = fault
  remove_all_cleanup_files s (some h) = ok (os.unlink s (os.printed h.name))

  module _ (mem : Allocator) (functions : Functions) where
    -- A round of msg_poll behind its poll(), with the rounds that follow. The negative result of a
    -- poll() that fails is not EINTR, which is positive.
    unfoldable pub poll_round :
        (CmdPrint → os.net.State → Outcome (CmdPrint × os.net.State))
        → ℕ
        → Commands
        → Bytes
        → ℕ
        → CmdPrint
        → (ℤ × Bool) × os.net.State
        → Outcome (CmdPrint × os.net.State)
    poll_round rest fuel commands stale socket_fd cdp ((negsuc n, ready), s) = ok (cdp, s)
    poll_round rest fuel commands stale socket_fd cdp ((pos n, ready), s) =
        let served =
          do_accept os.net mem functions fuel commands stale cdp s socket_fd >>= λ (cdp, s).
          rest cdp s in
        let more = rest cdp s in
        if is_down (os.state s) then ok (cdp, s) else if ready then served else more

    unfoldable pub msg_poll :
        ℕ → Commands → Bytes → ℕ → CmdPrint → os.net.State → Outcome (CmdPrint × os.net.State)
    msg_poll zero commands stale socket_fd cdp s = out_of_fuel
    msg_poll (suc fuel) commands stale socket_fd cdp s =
        poll_round (λ cdp s. msg_poll fuel commands stale socket_fd cdp s) fuel commands stale
          socket_fd cdp (os.poll s)
