-- ===== src/Cli/Transfer.antt =====
-- safe_read and safe_write of src/cli/cli_server.c over a connection that works: its calls fail only where
-- a signal interrupts them.
use cc_utils.Base.{ℕ, ◌+◌, ◌≤◌, ◌<◌, ◌≡◌, false, inl, inr, ◌++◌, ◌==◌, ==_iff, length, take, drop}
use cc_utils.Base.Outcome.{ok}
use cc_utils.Base.Bytes.{Bytes}
use cc_utils.Cli.Io.{done, Sockets, eintr, safe_read, safe_write, Calls, Streams}
use cc_utils.Cli.Calls.{safe_read-Broken}
use cc_utils.Cli.Sends.{safe_write-Refused}

abbrev pub calls_of : (net : Sockets) → Streams net → Calls net
calls_of net st = record {
  pending = st.pending;
  sent = st.sent;
  interrupts = st.interrupts;
  read_done = st.read_done;
  read_interrupted = λ s s' fd n e.
      let (_, same, fewer, kept) = st.read_failed s s' fd n eintr e in (same, fewer, kept);
  write_done = st.write_done;
  write_interrupted = λ s s' fd b e. (st.write_failed s s' fd eintr b e).1;
}

-- Only EINTR is EINTR.
not_other : {A : Type 0} (e : ℕ) → (e == eintr) ≡ false → e ≡ eintr → A
not_other e other same = let yes = (==_iff e eintr).1 same in absurd cc

module _ (net : Sockets) (st : Streams net) where
  -- safe_read on a connection that works gives the next `count` bytes, or all that are left where it
  -- ends before, and takes no others.
  pub safe_read-Streams :
      (fuel : ℕ) (s : net.State) (fd count : ℕ)
      → count + st.interrupts s < fuel
      → (s' : net.State) × (safe_read net fuel s fd count
          ≡ ok (done (take count (st.pending s fd)), s'))
        × (st.pending s' fd ≡ drop count (st.pending s fd))
        × (st.sent s' fd ≡ st.sent s fd)
        × (st.interrupts s' ≤ st.interrupts s)
  safe_read-Streams fuel s fd count enough =
      elim (safe_read-Broken net (calls_of net st) fuel s fd count enough) [
        | inl complete ↦ complete
        | inr (e, n, k, s₁, s', _, other, fails, _, _) ↦
            not_other e other (st.read_failed s₁ s' fd n e fails).0
      ]

  -- safe_write on a connection that works sends the whole buffer and returns 0, where no signal
  -- interrupts a write().
  pub safe_write-Streams :
      (fuel : ℕ) (s : net.State) (fd : ℕ) (buf : Bytes)
      → length buf < fuel
      → st.interrupts s ≡ 0
      → (s' : net.State) × (safe_write net fuel s fd buf ≡ ok (0, s'))
        × (st.sent s' fd ≡ st.sent s fd ++ buf)
  safe_write-Streams fuel s fd buf enough calm =
      elim (safe_write-Refused net (calls_of net st) fuel s fd buf enough calm) [
        | inl sent ↦ sent
        | inr (e, k, s₁, s', _, other, fails, _) ↦
            not_other e other (st.write_failed s₁ s' fd e (drop k buf) fails).0
      ]
