-- ===== src/Cli/Tests/Creation.antt =====
-- A system without sockets.
use cc_utils.Base.{◌≡◌, refl, false, none, some, [], ◌∷◌, arith}
use cc_utils.Base.Int.{pos}
use cc_utils.Base.Bytes.{Bytes}
use cc_utils.Cli.Io.{done, failed}
use cc_utils.Cli.Table.{Commands, initial}
use cc_utils.Base.Outcome.{ok, fault, ◌>>=◌}
use cc_utils.Binlog.Plenty.{plenty, plenty-Succeeds}
use cc_utils.Cli.Lifetime.{
  System, Handler, cli_init, cli_create, cli_destroy, remove_all_cleanup_files,
}
use cc_utils.Cli.Exit.{remove_all_cleanup_files-cli_destroy}
use cc_utils.Cli.Unheard.{cli_create-socket_failed}
use cc_utils.Cli.Loopback.{Line, loopback, calm}

abbrev no_sockets : System
no_sockets = record {
  net = loopback;
  socket = λ s. (failed 24, s);
  bind = λ s fd path. (done tt, s);
  listen = λ s fd. (done tt, s);
  malloc = λ s. (some 64, s);
  free = λ s a. s;
  pipe = λ s. (done (5, 6), s);
  spin_init = λ s. (0, s);
  thread_create = λ s. (0, s);
  thread_join = λ s. s;
  poll = λ s. ((pos 1, false), s);
  state = λ s. cli_init;
  set_state = λ s st. s;
  printed = λ name. b'/' ∷ name;
  at_exit = λ s. s;
  unlink = λ s path. s;
}

abbrev nobody : Line
nobody = record { input = []; output = [] }

abbrev garbage : Handler
garbage = record {
  address = 0;
  name = [];
  socket_fd = 1234;
  pipe_rd = 0;
  pipe_wr = 0;
  cdp = record { buf = []; buf_size = 0; pos = 0 };
}

abbrev tool : Bytes
tool = b't' ∷ []

cli_create-socket_failed_example :
    (h' : Handler) × (commands' : Commands) × (s' : Line) × (cli_create no_sockets plenty nobody
        initial garbage tool
      ≡ ok ((pos 0, some h', commands'), s'))
    × (h'.socket_fd ≡ 1234)
cli_create-socket_failed_example =
    cli_create-socket_failed no_sockets plenty nobody nobody nobody nobody initial garbage tool 64
      24 5 6 plenty-Succeeds (omega arith) (omega arith) refl refl refl

remove_all_cleanup_files-cli_destroy_example :
    (s' : Line) × (cli_destroy no_sockets 5 nobody (some garbage) ≡ ok (none, s'))
    × ((cli_destroy no_sockets 5 nobody (some garbage) >>= λ (h, s).
          remove_all_cleanup_files no_sockets s h)
        ≡ fault)
remove_all_cleanup_files-cli_destroy_example =
    remove_all_cleanup_files-cli_destroy no_sockets calm 5 nobody garbage (omega arith) refl
