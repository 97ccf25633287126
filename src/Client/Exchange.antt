-- ===== src/Client/Exchange.antt =====
-- A call of the client, src/cli/cli_client.c, that a server of src/cli/cli_server.c answers.
use cc_utils.Base.{
  ℕ, ◌+◌, ◌≤◌, ◌<◌, ◌≡◌, refl, ap, sym, ◌∙◌, none, some, List, [], ◌∷◌, ◌++◌, append-nil, length,
  replicate, All, arith, length-replicate,
}
use mathlib.Core.List.{map}
use cc_utils.Base.Outcome.{ok}
use cc_utils.Base.Int.{pos}
use cc_utils.Base.Bytes.{Bytes, c_string}
use cc_utils.Binlog.Buffer.{Allocator}
use cc_utils.Binlog.Laws.Growth.{Succeeds}
use cc_utils.Cli.Io.{done, Sockets, Streams}
use cc_utils.Cli.Transfer.{safe_write-Streams}
use cc_utils.Cli.Layout.{message, msg_encode-message}
use cc_utils.Cli.RoundTrip.{IsShort}
use cc_utils.Cli.Request.{IsQuiet}
use cc_utils.Cli.Table.{Commands, command_execute}
use cc_utils.Cli.Output.{CmdPrint, cdp_output}
use cc_utils.Cli.Serve.{Functions, execute, do_accept}
use cc_utils.Cli.Served.{do_accept-message}
use cc_utils.Client.{
  Desktop, check_arguments, find_server, selected, connected, request, with_server, with_arguments,
  main,
}
use cc_utils.Client.Reply.{c_string-IsText, reply_loop-reply}

-- A connection between the client's `c` and what accept() of `socket_fd` gives, `fd`: accept() brings what
-- the client sent, and what was sent on `fd` when it is closed is there for the client.
pub record Connection (net : Sockets) (st : Streams net) (socket_fd c fd : ℕ) : Type 0 where
  pub accepts :
      (s : net.State)
      → (s' : net.State) × (net.accept s socket_fd ≡ (done fd, s'))
        × (st.pending s' fd ≡ st.sent s c)
        × (st.sent s' fd ≡ [])
  pub closed : (s : net.State) → st.pending (net.close s fd) c ≡ st.sent s fd

module _ (os : Desktop) (st : Streams os.net) (mem : Allocator) (functions : Functions)
    (succeeds : Succeeds mem) (rounds : ℕ) (commands : Commands) (held : Bytes)
    (cdp cdp' : CmdPrint) (socket_fd c fd : ℕ) (line : Connection os.net st socket_fd c fd)
    (calm : (s : os.net.State) → st.interrupts s ≡ 0)
    (waits : (s s' : os.net.State) (cdp'' : CmdPrint)
      → do_accept os.net mem functions rounds commands held cdp s socket_fd ≡ ok (cdp'', s')
      → os.select s c ≡ (pos 1, s')) where
  connected-answered :
      (fuel stale : ℕ) (s : os.net.State) (command : Bytes) (argv : List Bytes) (text : Bytes)
      → st.sent s c ≡ []
      → IsShort command × IsQuiet command
      → All IsShort argv × All IsQuiet argv
      → length argv ≤ 32
      → length (message command argv) ≤ 1024
      → ((args : List Bytes)
          → map c_string args ≡ map some argv
          → execute functions (command_execute commands command) args cdp ≡ ok cdp')
      → c_string (cdp_output cdp') ≡ some text
      → 0 < length text
      → length text < 1024
      → length (message command argv) + length text + 1 < fuel
      → length (message command argv) + length text + 1 < rounds
      → (s' : os.net.State) × (connected os fuel stale c command argv (done tt, s)
          ≡ ok (pos 0, some text, s'))
  unfolding connected selected
  connected-answered fuel stale s command argv text fresh is all few fits runs prints some_text
        short enough enough' =
      let m = message command argv in
      let (buf', encoded, _, front) =
        msg_encode-message (replicate 1024 stale) command argv
          (rw (length-replicate 1024 stale) fits) in
      let (s₁, wrote, sent) = safe_write-Streams os.net st fuel s c m (omega arith) (calm s) in
      let (s₂, came, brings, new) = line.accepts s₁ in
      let (s₃, cdp'', served, replied, _) =
        do_accept-message os.net st mem functions succeeds rounds commands held cdp cdp' s₁ s₂
          socket_fd fd command argv [] text came
          (brings ∙ sent ∙ ap (λ b. b ++ m) fresh ∙ sym (append-nil m)) (calm s₂) is all few fits
          runs prints (rw (append-nil m) enough') in
      let s₄ = os.net.close s₃ fd in
      let (s₅, read, _) =
        reply_loop-reply os st fuel stale s₄ c text
          (line.closed s₃ ∙ replied ∙ ap (λ b. b ++ text) new) some_text short
          (rw (calm s₄) (omega arith)) (c_string-IsText (cdp_output cdp') text prints) in
      (os.net.close s₅ c, rw (encoded, front, wrote, waits s₁ s₄ cdp'' served, read) refl)

  -- A client that finds the server's socket, connects to it and sends a command gets what the server's
  -- function for the command leaves in the buffer (or "success" where it printed nothing), prints it and
  -- returns 0. The server runs do_accept while the client waits in select(); no signal interrupts and no
  -- allocation fails; the strings have fewer than 32 characters, none of them 0 and no line feed behind a
  -- carriage return, there are at most 32 arguments, the message has at most 1024 bytes and the text
  -- 1 to 1023.
  pub main-answered :
      (fuel stale : ℕ) (entries : List Bytes) (s s₁ s₂ : os.net.State)
      (program proc_name command path : Bytes) (argv : List Bytes) (text : Bytes)
      → check_arguments (program ∷ proc_name ∷ command ∷ argv) ≡ none
      → find_server os proc_name entries ≡ some path
      → os.socket s ≡ (done c, s₁)
      → os.connect s₁ c path ≡ (done tt, s₂)
      → st.sent s₂ c ≡ []
      → IsShort command × IsQuiet command
      → All IsShort argv × All IsQuiet argv
      → length argv ≤ 32
      → length (message command argv) ≤ 1024
      → ((args : List Bytes)
          → map c_string args ≡ map some argv
          → execute functions (command_execute commands command) args cdp ≡ ok cdp')
      → c_string (cdp_output cdp') ≡ some text
      → 0 < length text
      → length text < 1024
      → length (message command argv) + length text + 1 < fuel
      → length (message command argv) + length text + 1 < rounds
      → (s' : os.net.State) × (main os fuel stale entries (program ∷ proc_name ∷ command ∷ argv) s
          ≡ ok (pos 0, some text, s'))
  unfolding main with_arguments with_server request
  main-answered fuel stale entries s s₁ s₂ program proc_name command path argv text checked found
        opened joined fresh is all few fits runs prints some_text short enough enough' =
      rw (checked, found, opened, joined)
        (connected-answered fuel stale s₂ command argv text fresh is all few fits runs prints
          some_text short enough enough')
