-- ===== src/Cli/Io.antt =====
-- safe_read and safe_write of src/cli/cli_server.c over the system's sockets. `fuel` is the number of
-- rounds of a loop.
use cc_utils.Base.{
  ℕ, zero, suc, ◌+◌, ◌-◌, ◌≤◌, ◌<◌, ◌≡◌, [], ◌∷◌, ◌++◌, ltb, ◌==◌, if◌then◌else◌, length, take,
  drop,
}
use cc_utils.Base.Outcome.{Outcome, ok, fault, out_of_fuel}
use cc_utils.Base.Bytes.{Bytes}

-- What a system call gives: its result, or -1 with a value of errno.
pub data Result {ℓ} (A : Type ℓ) : Type ℓ where
  done : A → Result A
  failed : ℕ → Result A

-- read, write, accept and close; the state is that of all connections.
pub record Sockets : Type 1 where
  pub State : Type 0
  pub read : State → ℕ → ℕ → Result Bytes × State
  pub write : State → ℕ → Bytes → Result ℕ × State
  pub accept : State → ℕ → Result ℕ × State
  pub close : State → ℕ → State

abbrev pub eintr : ℕ
eintr = 4

module _ (net : Sockets) where
  -- A round of the loop of safe_read behind its read(), with the rounds that follow.
  unfoldable pub read_round :
      (net.State → Bytes → Outcome (Result Bytes × net.State))
      → Bytes
      → Result Bytes × net.State
      → Outcome (Result Bytes × net.State)
  read_round rest buf (done [], s) = ok (done buf, s)
  read_round rest buf (done (x ∷ b), s) = rest s (buf ++ (x ∷ b))
  read_round rest buf (failed e, s) =
      let again = rest s buf in if e == eintr then again else ok (failed e, s)

  unfoldable pub read_loop : ℕ → net.State → ℕ → ℕ → Bytes → Outcome (Result Bytes × net.State)
  read_loop zero s fd count buf = out_of_fuel
  read_loop (suc fuel) s fd count buf =
      let more =
        read_round (λ s buf. read_loop fuel s fd count buf) buf
          (net.read s fd (count - length buf)) in
      if ltb (length buf) count then more else ok (done buf, s)

  -- The bytes that were read, as many as the number that is returned, or the error.
  unfoldable pub safe_read : ℕ → net.State → ℕ → ℕ → Outcome (Result Bytes × net.State)
  safe_read fuel s fd count = read_loop fuel s fd count []

  -- A round of the loop of safe_write behind its write(). An interrupted write() gives -1, which is
  -- taken off `len` and added to `b` like the number of bytes written; in front of the buffer there
  -- is nothing to write.
  unfoldable pub write_round :
      (net.State → ℕ → ℕ → Outcome (ℕ × net.State))
      → ℕ
      → ℕ
      → Result ℕ × net.State
      → Outcome (ℕ × net.State)
  write_round rest b len (done n, s) =
      let more = rest s (b + n) (len - n) in if len - n == 0 then ok (0, s) else more
  write_round rest zero len (failed e, s) = if e == eintr then fault else ok (e, s)
  write_round rest (suc b) len (failed e, s) =
      let more = rest s b (len + 1) in if e == eintr then more else ok (e, s)

  unfoldable pub write_loop : ℕ → net.State → ℕ → Bytes → ℕ → ℕ → Outcome (ℕ × net.State)
  write_loop zero s fd buf b len = out_of_fuel
  write_loop (suc fuel) s fd buf b len =
      write_round (λ s b len. write_loop fuel s fd buf b len) b len
        (net.write s fd (take len (drop b buf)))

  unfoldable pub safe_write : ℕ → net.State → ℕ → Bytes → Outcome (ℕ × net.State)
  safe_write fuel s fd buf = write_loop fuel s fd buf 0 (length buf)

  -- The bytes that a connection brings and those that were sent on it, with what read() and write() are
  -- documented to do to them: read() gives some of the next bytes, and none only at the end; write()
  -- sends some of its bytes; a signal that interrupts them, which happens so often at most, leaves the
  -- bytes. Of their other errors nothing is said.
  pub record Calls : Type 0 where
    pub pending : net.State → ℕ → Bytes
    pub sent : net.State → ℕ → Bytes
    pub interrupts : net.State → ℕ
    pub read_done :
        (s s' : net.State) (fd n : ℕ) (b : Bytes)
        → 0 < n
        → net.read s fd n ≡ (done b, s')
        → (pending s fd ≡ b ++ pending s' fd)
          × (length b ≤ n)
          × (b ≡ [] → pending s fd ≡ [])
          × (interrupts s' ≤ interrupts s)
          × (sent s' fd ≡ sent s fd)
    pub read_interrupted :
        (s s' : net.State) (fd n : ℕ)
        → net.read s fd n ≡ (failed eintr, s')
        → (pending s' fd ≡ pending s fd) × (interrupts s' < interrupts s) × (sent s' fd ≡ sent s fd)
    pub write_done :
        (s s' : net.State) (fd n : ℕ) (b : Bytes)
        → net.write s fd b ≡ (done n, s')
        → (n ≤ length b)
          × (0 < length b → 0 < n)
          × (sent s' fd ≡ sent s fd ++ take n b)
          × (interrupts s' ≤ interrupts s)
    pub write_interrupted :
        (s s' : net.State) (fd : ℕ) (b : Bytes)
        → net.write s fd b ≡ (failed eintr, s')
        → interrupts s' < interrupts s

  -- A connection that works: its calls do as documented, and fail only where a signal interrupts them.
  pub record Streams : Type 0 where
    pub pending : net.State → ℕ → Bytes
    pub sent : net.State → ℕ → Bytes
    pub interrupts : net.State → ℕ
    pub read_done :
        (s s' : net.State) (fd n : ℕ) (b : Bytes)
        → 0 < n
        → net.read s fd n ≡ (done b, s')
        → (pending s fd ≡ b ++ pending s' fd)
          × (length b ≤ n)
          × (b ≡ [] → pending s fd ≡ [])
          × (interrupts s' ≤ interrupts s)
          × (sent s' fd ≡ sent s fd)
    pub read_failed :
        (s s' : net.State) (fd n e : ℕ)
        → net.read s fd n ≡ (failed e, s')
        → (e ≡ eintr)
          × (pending s' fd ≡ pending s fd)
          × (interrupts s' < interrupts s)
          × (sent s' fd ≡ sent s fd)
    pub write_done :
        (s s' : net.State) (fd n : ℕ) (b : Bytes)
        → net.write s fd b ≡ (done n, s')
        → (n ≤ length b)
          × (0 < length b → 0 < n)
          × (sent s' fd ≡ sent s fd ++ take n b)
          × (interrupts s' ≤ interrupts s)
    pub write_failed :
        (s s' : net.State) (fd e : ℕ) (b : Bytes)
        → net.write s fd b ≡ (failed e, s')
        → (e ≡ eintr) × (interrupts s' < interrupts s)
