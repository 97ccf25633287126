-- ===== src/Client/Tests/Answered.antt =====
-- A client and a server at the ends of one connection: the server's end is 5, the client's any other
-- number, and the server runs while the client waits.
use cc_utils.Base.{
  ℕ, ◌+◌, ◌≤◌, ◌<◌, ◌≡◌, refl, ap, sym, ◌∙◌, Bool, true, false, none, some, List, [], ◌∷◌, ◌==◌,
  length, replicate, arith,
}
use mathlib.Core.List.{map}
use cc_utils.Base.Outcome.{Outcome, ok}
use cc_utils.Base.Int.{ℤ, pos}
use cc_utils.Base.Bytes.{Bytes, c_string}
use cc_utils.Binlog.Plenty.{plenty, plenty-Succeeds}
use cc_utils.Cli.Io.{Result, done, Sockets, Streams}
use cc_utils.Cli.Loopback.{Line, read, write, read_line, write_line, failing}
use cc_utils.Cli.Layout.{message}
use cc_utils.Cli.RoundTrip.{IsShort}
use cc_utils.Cli.Request.{quiet, IsQuiet}
use cc_utils.Cli.Table.{Commands, empty, command_execute, command_find}
use cc_utils.Cli.Output.{CmdPrint, cdp_output}
use cc_utils.Cli.Serve.{Functions, execute, do_accept}
use cc_utils.Client.{Desktop, check_arguments, find_server, is_server, pid_exist, main}
use cc_utils.Client.Exchange.{Connection, main-answered}

record Wire : Type 0 where
  server : Line
  client : Line

abbrev end : Wire → Bool → Line
end w true = w.server
end w false = w.client

abbrev with_end : Wire → Bool → Line → Wire
with_end w true l = record w { server = l }
with_end w false l = record w { client = l }

end-with_end : (w : Wire) (b : Bool) (l : Line) → end (with_end w b l) b ≡ l
end-with_end w true l = refl
end-with_end w false l = refl

abbrev read_wire : Wire → ℕ → ℕ → Result Bytes × Wire
read_wire w fd n =
    ((read (end w (fd == 5)) fd n).0, with_end w (fd == 5) (read (end w (fd == 5)) fd n).1)

abbrev write_wire : Wire → ℕ → Bytes → Result ℕ × Wire
write_wire w fd b =
    ((write (end w (fd == 5)) fd b).0, with_end w (fd == 5) (write (end w (fd == 5)) fd b).1)

abbrev wire : Sockets
wire = record {
  State = Wire;
  read = read_wire;
  write = write_wire;
  accept = λ w fd. (done 5, record w { server = record { input = w.client.output; output = [] } });
  close =
      λ w fd. record w { client = record { input = w.server.output; output = w.client.output } };
}

read_end :
    (w w' : Wire) (fd n : ℕ) (r : Result Bytes)
    → read_wire w fd n ≡ (r, w')
    → read (end w (fd == 5)) fd n ≡ (r, end w' (fd == 5))
read_end w w' fd n r h =
    let b' = fd == 5 in
    let l = read (end w b') fd n in
    ap (λ x. (x, l.1)) (ap (λ p. p.0) h)
    ∙ ap (λ x. (r, x)) (sym (end-with_end w b' l.1) ∙ ap (λ p. end p.1 b') h)

write_end :
    (w w' : Wire) (fd : ℕ) (b : Bytes) (r : Result ℕ)
    → write_wire w fd b ≡ (r, w')
    → write (end w (fd == 5)) fd b ≡ (r, end w' (fd == 5))
write_end w w' fd b r h =
    let b' = fd == 5 in
    let l = write (end w b') fd b in
    ap (λ x. (x, l.1)) (ap (λ p. p.0) h)
    ∙ ap (λ x. (r, x)) (sym (end-with_end w b' l.1) ∙ ap (λ p. end p.1 b') h)

abbrev streams : Streams wire
streams = record {
  pending = λ w fd. (end w (fd == 5)).input;
  sent = λ w fd. (end w (fd == 5)).output;
  interrupts = λ w. 0;
  read_done = λ w w' fd n b some_bytes h.
      read_line (end w (fd == 5)) (end w' (fd == 5)) fd n b some_bytes
        (read_end w w' fd n (done b) h);
  read_failed = λ w w' fd n e h. absurd (failing (ap (λ p. p.0) h));
  write_done = λ w w' fd n b h.
      write_line (end w (fd == 5)) (end w' (fd == 5)) fd n b (write_end w w' fd b (done n) h);
  write_failed = λ w w' fd e b h. absurd (failing (ap (λ p. p.0) h));
}

abbrev joined : Connection wire streams 7 3 5
joined = record {
  accepts = λ w.
      (record w { server = record { input = w.client.output; output = [] } }, refl, refl, refl);
  closed = λ w. refl;
}

-- "hi", which prints "ok"
abbrev hello : Bytes
hello = b'h' ∷ b'i' ∷ []

abbrev answer : Bytes
answer = b'o' ∷ b'k' ∷ []

abbrev commands : Commands
commands = record {
  slots =
      record { subcommand = some hello; help = some []; execute = some 1 } ∷ replicate 1023 empty;
  regcnt = 1;
}

abbrev functions : Functions
functions f args cdp = ok (record { buf = b'o' ∷ b'k' ∷ 0 ∷ []; buf_size = 4096; pos = 2 })

abbrev before : CmdPrint
before = record { buf = replicate 4096 0; buf_size = 4096; pos = 0 }

abbrev after : CmdPrint
after = record { buf = b'o' ∷ b'k' ∷ 0 ∷ []; buf_size = 4096; pos = 2 }

abbrev waited : Wire → Outcome (CmdPrint × Wire) → ℤ × Wire
waited w (ok (cdp, w')) = (pos 1, w')
waited w _ = (pos 0, w)

abbrev desk : Desktop
desk = record {
  net = wire;
  is_socket = λ path. some true;
  strtol = λ text. (7, 0);
  is_process = λ pid. true;
  socket = λ w. (done 3, w);
  connect = λ w fd path. (done tt, w);
  select =
      λ w fd. waited w (do_accept wire plenty functions 60 commands (replicate 1024 0) before w 7);
}

abbrev unused : Wire
unused = record {
  server = record { input = []; output = [] };
  client = record { input = []; output = [] };
}

abbrev path : Bytes
path =
    b'/' ∷ b'v' ∷ b'a' ∷ b'r' ∷ b'/' ∷ b't' ∷ b'm' ∷ b'p' ∷ b'/' ∷ b'/' ∷ b's' ∷ b'.' ∷ b'4' ∷ b'2'
    ∷ []

checks : check_arguments (hello ∷ (b's' ∷ []) ∷ hello ∷ []) ≡ none
unfolding check_arguments
checks = refl

finds : find_server desk (b's' ∷ []) ((b's' ∷ b'.' ∷ b'4' ∷ b'2' ∷ []) ∷ []) ≡ some path
unfolding find_server is_server pid_exist
finds = refl

hello-IsShort : IsShort hello
hello-IsShort = record { text = (refl, (refl, tt)); short = omega arith }

hello-IsQuiet : IsQuiet hello
unfolding quiet
hello-IsQuiet = record { short = omega arith; quiet = refl }

fits : length (message hello []) ≤ 1024
unfolding message
fits = omega arith

fuelled : length (message hello []) + length answer + 1 < 60
unfolding message
fuelled = omega arith

runs :
    (args : List Bytes)
    → map c_string args ≡ map some []
    → execute functions (command_execute commands hello) args before ≡ ok after
unfolding command_execute command_find
runs args e = refl

prints : c_string (cdp_output after) ≡ some answer
unfolding cdp_output
prints = refl

main-answered_example :
    (w' : Wire) × (main desk 60 204
        ((b's' ∷ b'.' ∷ b'4' ∷ b'2' ∷ []) ∷ [])
        (hello ∷ (b's' ∷ []) ∷ hello ∷ [])
        unused
      ≡ ok (pos 0, some answer, w'))
main-answered_example =
    main-answered desk streams plenty functions plenty-Succeeds 60 commands (replicate 1024 0)
      before after 7 3 5 joined (λ w. refl) (λ w w' cdp'' e. ap (waited w) e) 60 204
      ((b's' ∷ b'.' ∷ b'4' ∷ b'2' ∷ []) ∷ []) unused unused unused hello (b's' ∷ []) hello path []
      answer checks finds refl refl refl (hello-IsShort, hello-IsQuiet) (tt, tt) (omega arith) fits
      runs prints (omega arith) (omega arith) fuelled fuelled
