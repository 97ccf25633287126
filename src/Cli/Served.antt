-- ===== src/Cli/Served.antt =====
-- What do_accept of src/cli/cli_server.c does with a client's message.
use cc_utils.Base.{
  ℕ, zero, suc, ◌+◌, ◌≤◌, ◌<◌, ◌≡◌, refl, ap, ◌∙◌, ◌&&◌, Bool-cases, inl, inr, Option, none, some,
  List, [], ◌∷◌, ◌++◌, ltb, leb, ◌==◌, length, drop, All, arith,
}
use mathlib.Core.List.{map}
use cc_utils.Base.Outcome.{ok}
use cc_utils.Base.Bytes.{Bytes, c_string}
use cc_utils.Binlog.Buffer.{Allocator}
use cc_utils.Binlog.Laws.Growth.{Succeeds}
use cc_utils.Cli.Io.{done, Sockets, Streams}
use cc_utils.Cli.Transfer.{safe_read-Streams, safe_write-Streams}
use cc_utils.Cli.Layout.{message}
use cc_utils.Cli.RoundTrip.{IsShort, msg_decode-message}
use cc_utils.Cli.Request.{ends_cr, read_request, IsQuiet, read_request-message}
use cc_utils.Cli.Table.{Commands, command_execute}
use cc_utils.Cli.Output.{CmdPrint, cdp_init, cdp_reinit, cdp_output}
use cc_utils.Cli.Serve.{Functions, execute, request_round, request_loop, serve, accepted, do_accept}

-- A request, or the connection closed.
abbrev pub settled : (net : Sockets) → ℕ → net.State → Option Bytes → Option Bytes × net.State
settled net fd s none = (none, net.close s fd)
settled net fd s (some cmd) = (some cmd, s)

module _ (net : Sockets) (st : Streams net) where
  -- The loop of do_accept over safe_read reads what read_request reads of the bytes that the
  -- connection brings.
  pub request_loop-read_request :
      (fuel : ℕ) (s : net.State) (fd : ℕ) (cmd input : Bytes)
      → st.pending s fd ≡ input
      → length input + st.interrupts s + 1 < fuel
      → (s' : net.State) × (request_loop net fuel s fd cmd
          ≡ ok (settled net fd s' (read_request input cmd)))
        × (st.sent s' fd ≡ st.sent s fd)
        × (st.interrupts s' ≤ st.interrupts s)
  unfolding request_loop request_round read_request
  request_loop-read_request zero s fd cmd input e enough = absurd (omega arith)
  request_loop-read_request (suc fuel) s fd cmd [] e enough =
      let (s', got, _, sent, fewer) = safe_read-Streams net st (suc fuel) s fd 1 (omega arith) in
      (s', rw (got, e) refl, sent, fewer)
  request_loop-read_request (suc fuel) s fd cmd (x ∷ input) e enough =
      let (s', got, left, sent, fewer) = safe_read-Streams net st (suc fuel) s fd 1 (omega arith) in
      elim (Bool-cases (x == b'\n' && ends_cr cmd)) [
        | inl ends ↦ (s', rw (got, e, ends) refl, sent, fewer)
        | inr goes ↦ elim (Bool-cases (leb 1024 (length cmd + 1))) [
          | inl full ↦ (s', rw (got, e, goes, full) refl, sent, fewer)
          | inr room ↦
              let (s'', rest, sent', fewer') =
                request_loop-read_request fuel s' fd (cmd ++ (x ∷ [])) input (left ∙ ap (drop 1) e)
                  (omega arith) in
              (s'', rw (got, e, goes, room) rest, sent' ∙ sent, omega arith)
        ]
      ]

reinit-emptied :
    (mem : Allocator)
    → Succeeds mem
    → (cdp : CmdPrint) → (cdp' : CmdPrint) × (cdp_reinit mem cdp ≡ ok cdp') × (cdp'.pos ≡ 0)
unfolding cdp_reinit cdp_init
reinit-emptied mem m cdp = elim (Bool-cases (ltb 10240 cdp.buf_size)) [
  | inl large ↦
      let (b, e) = m.malloc_some 4096 in
      (record { buf = b; buf_size = 4096; pos = 0 }, rw (large, e) refl, refl)
  | inr small ↦ (record cdp { pos = 0 }, rw small refl, refl)
]

module _ (net : Sockets) (st : Streams net) (mem : Allocator) (functions : Functions)
    (succeeds : Succeeds mem) where
  serve-message :
      (fuel : ℕ) (commands : Commands) (stale : Bytes) (fd : ℕ) (cdp cdp' : CmdPrint)
      (s : net.State) (sub_command : Bytes) (argv : List Bytes) (text : Bytes)
      → IsShort sub_command
      → All IsShort argv
      → length argv ≤ 32
      → ((args : List Bytes)
          → map c_string args ≡ map some argv
          → execute functions (command_execute commands sub_command) args cdp ≡ ok cdp')
      → c_string (cdp_output cdp') ≡ some text
      → length text < fuel
      → st.interrupts s ≡ 0
      → (s' : net.State) × (cdp'' : CmdPrint) × (serve net mem functions fuel commands stale fd cdp
            (some (message sub_command argv), s)
          ≡ ok (cdp'', net.close s' fd))
        × (st.sent s' fd ≡ st.sent s fd ++ text)
        × (cdp''.pos ≡ 0)
  unfolding serve
  serve-message fuel commands stale fd cdp cdp' s sub_command argv text is all few runs prints
        enough calm =
      let m = message sub_command argv in
      let (d, decoded, command, args, _) =
        msg_decode-message sub_command argv (drop (length m) stale) is all few in
      let (s', wrote, sent) = safe_write-Streams net st fuel s fd text enough calm in
      let (cdp'', emptied, empty) = reinit-emptied mem succeeds cdp' in
      (s', cdp'', rw (decoded, command, runs d.argv args, prints, wrote, emptied) refl, sent, empty)

  -- do_accept of a connection that brings a message calls the function that the table has for the
  -- message's command, with the message's arguments, sends the text that the function leaves in the
  -- buffer, or "success" where it printed nothing, empties the buffer and closes the connection, all
  -- without a fault. The strings have fewer than 32 characters, none of them 0 and no line feed
  -- behind a carriage return, there are at most 32 arguments, the message fits the 1024 bytes of
  -- `cmd`, no allocation fails and no signal interrupts.
  pub do_accept-message :
      (fuel : ℕ) (commands : Commands) (stale : Bytes) (cdp cdp' : CmdPrint) (s s₁ : net.State)
      (socket_fd fd : ℕ) (sub_command : Bytes) (argv : List Bytes) (more text : Bytes)
      → net.accept s socket_fd ≡ (done fd, s₁)
      → st.pending s₁ fd ≡ message sub_command argv ++ more
      → st.interrupts s₁ ≡ 0
      → IsShort sub_command × IsQuiet sub_command
      → All IsShort argv × All IsQuiet argv
      → length argv ≤ 32
      → length (message sub_command argv) ≤ 1024
      → ((args : List Bytes)
          → map c_string args ≡ map some argv
          → execute functions (command_execute commands sub_command) args cdp ≡ ok cdp')
      → c_string (cdp_output cdp') ≡ some text
      → length (message sub_command argv ++ more) + length text + 1 < fuel
      → (s' : net.State) × (cdp'' : CmdPrint) × (do_accept net mem functions fuel commands stale cdp
            s socket_fd
          ≡ ok (cdp'', net.close s' fd))
        × (st.sent s' fd ≡ st.sent s₁ fd ++ text)
        × (cdp''.pos ≡ 0)
  unfolding do_accept accepted
  do_accept-message fuel commands stale cdp cdp' s s₁ socket_fd fd sub_command argv more text came
        brings calm is all few fits runs prints enough =
      let input = message sub_command argv ++ more in
      let (s₂, read, sent, fewer) =
        request_loop-read_request net st fuel s₁ fd [] input brings (omega arith) in
      let request = read_request-message sub_command argv more is.1 all.1 few fits in
      let (s', cdp'', served, sent', empty) =
        serve-message fuel commands stale fd cdp cdp' s₂ sub_command argv text is.0 all.0 few runs
          prints (omega arith) (omega arith) in
      (s', cdp'', rw (came, read, request) served, sent' ∙ ap (λ b. b ++ text) sent, empty)
