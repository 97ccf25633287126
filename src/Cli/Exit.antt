-- ===== src/Cli/Exit.antt =====
-- What a program that destroyed its server does at its exit, src/cli/cli_server.c.
use cc_utils.Base.{ℕ, ◌<◌, ◌≡◌, refl, none, some, [], ◌∷◌}
use cc_utils.Base.Outcome.{ok, fault, ◌>>=◌}
use cc_utils.Cli.Io.{Streams}
use cc_utils.Cli.Transfer.{safe_write-Streams}
use cc_utils.Cli.Lifetime.{
  System, Handler, cli_down, cli_fini, pipe_wakeup, cli_destroy, remove_all_cleanup_files,
}

-- What is left to do for cli_destroy once the thread is woken.
abbrev given_back : (os : System) → Handler → os.net.State → os.net.State
given_back os h s =
    let s = os.net.close (os.thread_join s) h.socket_fd in
    let s = os.net.close (os.net.close s h.pipe_rd) h.pipe_wr in
    os.free (os.set_state s cli_fini) h.address

-- cli_destroy succeeds, and what exit() calls behind it faults: the handler that it takes the server's
-- name from is gone. No signal interrupts the write to the pipe.
pub remove_all_cleanup_files-cli_destroy :
    (os : System) (st : Streams os.net) (fuel : ℕ) (s : os.net.State) (h : Handler)
    → 1 < fuel
    → st.interrupts (os.set_state s cli_down) ≡ 0
    → (s' : os.net.State) × (cli_destroy os fuel s (some h) ≡ ok (none, s'))
      × ((cli_destroy os fuel s (some h) >>= λ (h, s). remove_all_cleanup_files os s h) ≡ fault)
unfolding cli_destroy pipe_wakeup remove_all_cleanup_files
remove_all_cleanup_files-cli_destroy os st fuel s h enough calm =
    let (s₁, wrote, _) =
      safe_write-Streams os.net st fuel (os.set_state s cli_down) h.pipe_wr (0 ∷ []) enough calm in
    (given_back os h s₁, rw wrote refl, rw wrote refl)
