-- ===== src/Cli/Unheard.antt =====
-- What cli_create of src/cli/cli_server.c makes of a socket that cannot be had.
use cc_utils.Base.{
  ℕ, ◌+◌, ◌≤◌, ◌<◌, ◌≡◌, refl, true, false, Option, none, some, leb, Bool-cases, inl, inr, ltb,
  length, arith,
}
use cc_utils.Base.Int.{ℤ, pos, negsuc}
use cc_utils.Base.Bytes.{Bytes}
use cc_utils.Cli.Io.{done, failed}
use cc_utils.Cli.Table.{Commands, fill, cli_register}
use cc_utils.Base.Outcome.{ok}
use cc_utils.Binlog.Buffer.{Allocator}
use cc_utils.Binlog.Laws.Growth.{Succeeds}
use cc_utils.Cli.Output.{cdp_init}
use cc_utils.Cli.Lifetime.{
  System, Handler, cli_init, register_own, help_name, help_text, help_address, test_name, test_text,
  test_address, sun_path_size, with_socket, bind_and_listen, create_wakeup_pipe, threaded,
  with_pipe, with_listener, with_block, cli_create,
}

register-total :
    (s : Commands) (name help : Bytes) (f : ℕ)
    → (r : Option ℤ × Commands) × (cli_register true s name help f ≡ ok r)
unfolding cli_register
register-total s name help f = elim (Bool-cases (leb 1023 s.regcnt)) [
  | inl full ↦ ((some (negsuc 27), s), rw full refl)
  | inr space ↦ (
    (
      none,
      record {
        slots =
            fill (record { subcommand = some name; help = some help; execute = some f }) s.slots;
        regcnt = s.regcnt + 1;
      },
    ),
    rw space refl,
  )
]

-- With a server there, its own commands are registered, or there is no room.
register_own-total : (s : Commands) → (s' : Commands) × (register_own s ≡ ok s')
unfolding register_own
register_own-total s =
    let (r, first) = register-total s help_name help_text help_address in
    let (r', second) = register-total r.1 test_name test_text test_address in
    (r'.1, rw (first, second) refl)

-- Where socket() fails, and malloc and pipe() do not, cli_create reports success, and the server's
-- socket is whatever malloc's block held: bind_and_listen returns the positive errno, and only a
-- negative number is taken for an error. The name has at most 31 characters and the path fits.
pub cli_create-socket_failed :
    (os : System) (mem : Allocator) (s s₁ s₂ s₃ : os.net.State) (commands : Commands)
    (stale : Handler) (name : Bytes) (h e rd wr : ℕ)
    → Succeeds mem
    → length name ≤ 31
    → length (os.printed name) < sun_path_size
    → os.malloc s ≡ (some h, s₁)
    → os.socket s₁ ≡ (failed e, s₂)
    → os.pipe (os.spin_init s₂).1 ≡ (done (rd, wr), s₃)
    → (h' : Handler) × (commands' : Commands) × (s' : os.net.State) × (cli_create os mem s commands
          stale name
        ≡ ok ((pos 0, some h', commands'), s'))
      × (h'.socket_fd ≡ stale.socket_fd)
unfolding cli_create with_block with_listener with_pipe threaded bind_and_listen with_socket
    create_wakeup_pipe cdp_init
cli_create-socket_failed os mem s s₁ s₂ s₃ commands stale name h e rd wr succeeds short fits block
      unheard piped =
    let fine : ltb 32 (length name + 1) ≡ false = ground arith in
    let room : ltb 107 (length (os.printed name)) ≡ false = ground arith in
    let (buf, got) = succeeds.malloc_some 4096 in
    let (commands', registered) = register_own-total commands in
    (
      record {
        address = h;
        name = name;
        socket_fd = stale.socket_fd;
        pipe_rd = rd;
        pipe_wr = wr;
        cdp = record { buf = buf; buf_size = 4096; pos = 0 };
      },
      commands',
      os.at_exit (os.set_state (os.thread_create s₃).1 cli_init),
      rw (fine, block, room, unheard, piped, got, registered) refl,
      refl,
    )
