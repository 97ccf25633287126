-- ===== src/Cli/Sends.antt =====
-- What safe_write of src/cli/cli_server.c sends, and how it ends.
use cc_utils.Base.{
  ℕ, zero, suc, ◌+◌, ◌-◌, ◌≤◌, ◌<◌, ◌≡◌, refl, ap, sym, ◌∙◌, Bool-cases, false, ==_iff, inl, inr,
  ◌⊎◌, [], ◌∷◌, ◌++◌, append-nil, append_assoc, ◌==◌, length, take, drop, arith, length-drop,
  drop-add, take-append_drop,
}
use cc_utils.Base.Outcome.{Outcome, ok}
use cc_utils.Base.Bytes.{Bytes}
use cc_utils.Cli.Io.{
  Result, done, failed, Sockets, eintr, write_round, write_loop, safe_write, Calls,
}
use cc_utils.Cli.Calls.{take_none}

take_all : (n : ℕ) (b : Bytes) → length b ≤ n → take n b ≡ b
take_all zero [] h = refl
take_all zero (x ∷ b) h = absurd (omega arith)
take_all (suc n) [] h = refl
take_all (suc n) (x ∷ b) h = ap (λ l. x ∷ l) (take_all n b (omega arith))

write_round-refused :
    (net : Sockets) (rest : net.State → ℕ → ℕ → Outcome (ℕ × net.State)) (b len e : ℕ)
    (s : net.State)
    → (e == eintr) ≡ false
    → write_round net rest b len (failed e, s) ≡ ok (e, s)
unfolding write_round
write_round-refused net rest zero len e s other = rw other refl
write_round-refused net rest (suc b) len e s other = rw other refl

take-add : (n k : ℕ) (b : Bytes) → take (n + k) b ≡ take n b ++ take k (drop n b)
take-add zero k b = ap (λ m. take m b) {x = 0 + k} {y = k} (omega arith)
take-add (suc n) k [] = take_none (suc n + k) ∙ sym (take_none k)
take-add (suc n) k (x ∷ b) =
    ap (λ m. take m (x ∷ b)) {x = suc n + k} {y = suc (n + k)} (omega arith)
    ∙ ap (λ l. x ∷ l) (take-add n k b)

module _ (net : Sockets) (calls : Calls net) where
  -- The error of a write() behind some of the bytes of the buffer.
  abbrev pub Refused : net.State → ℕ → Bytes → Outcome (ℕ × net.State) → Type 0
  Refused s fd buf r =
      (e k : ℕ) × (s₁ s' : net.State) × (r ≡ ok (e, s'))
      × ((e == eintr) ≡ false)
      × (net.write s₁ fd (drop k buf) ≡ (failed e, s'))
      × (calls.sent s₁ fd ≡ calls.sent s fd ++ take k buf)

  abbrev Sent : net.State → ℕ → Bytes → Outcome (ℕ × net.State) → Type 0
  Sent s fd buf r =
      (s' : net.State) × (r ≡ ok (0, s')) × (calls.sent s' fd ≡ calls.sent s fd ++ buf)

  Sent-behind :
      (s s' : net.State) (fd n : ℕ) (buf : Bytes) (r : Outcome (ℕ × net.State))
      → n ≤ length buf
      → calls.sent s' fd ≡ calls.sent s fd ++ take n buf
      → Sent s' fd (drop n buf) r ⊎ Refused s' fd (drop n buf) r
      → Sent s fd buf r ⊎ Refused s fd buf r
  Sent-behind s s' fd n buf r fits sent (inl (end, result, more)) = inl (
    end,
    result,
    more
        ∙ ap (λ t. t ++ drop n buf) sent
        ∙ append_assoc (calls.sent s fd) (take n buf) (drop n buf)
        ∙ ap (λ d. calls.sent s fd ++ d) (take-append_drop n buf),
  )
  Sent-behind s s' fd n buf r fits sent (inr (e, k, s₁, end, result, other, fails, more)) = inr (
    e,
    n + k,
    s₁,
    end,
    result,
    other,
    ap (net.write s₁ fd) (drop-add n k buf) ∙ fails,
    more
        ∙ ap (λ t. t ++ take k (drop n buf)) sent
        ∙ append_assoc (calls.sent s fd) (take n buf) (take k (drop n buf))
        ∙ ap (λ d. calls.sent s fd ++ d) (sym (take-add n k buf)),
  )

  write_round-Sent :
      (rest : net.State → ℕ → ℕ → Outcome (ℕ × net.State)) (s : net.State) (fd : ℕ) (buf : Bytes)
      (b len : ℕ) (wrote : Result ℕ × net.State)
      → ((s : net.State) (b k : ℕ)
          → k ≡ length (drop b buf)
          → k < len
          → calls.interrupts s ≡ 0
          → Sent s fd (drop b buf) (rest s b k) ⊎ Refused s fd (drop b buf) (rest s b k))
      → len ≡ length (drop b buf)
      → calls.interrupts s ≡ 0
      → net.write s fd (take len (drop b buf)) ≡ wrote
      → Sent s fd (drop b buf) (write_round net rest b len wrote)
        ⊎ Refused s fd (drop b buf) (write_round net rest b len wrote)
  unfolding write_round
  write_round-Sent rest s fd buf b len (done n, s') ih whole calm e =
      let all = take_all len (drop b buf) (omega arith) in
      let (fits, progress, sent, fewer) =
        calls.write_done s s' fd n (drop b buf) (ap (net.write s fd) (sym all) ∙ e) in
      elim (Bool-cases (len - n == 0)) [
        | inl z ↦ inl (
          s',
          rw z refl,
          sent ∙ ap (λ d. calls.sent s fd ++ d) (take_all n (drop b buf) (ground (arith, z))),
        )
        | inr z ↦
            let behind : drop (b + n) buf ≡ drop n (drop b buf) = drop-add b n buf in
            let short = length-drop n (drop b buf) in
            let longer : length (drop (b + n) buf) ≡ len - n = ap length behind ∙ omega arith in
            let more =
              ih s' (b + n) (len - n) (sym longer) (ground (arith, z, progress)) (omega arith) in
            rw z (
              Sent-behind s s' fd n (drop b buf) (rest s' (b + n) (len - n)) fits sent
                (rw behind at more))
      ]
  write_round-Sent rest s fd buf b len (failed err, s') ih whole calm e =
      let all = take_all len (drop b buf) (omega arith) in
      let e₁ = ap (net.write s fd) (sym all) ∙ e in
      elim (Bool-cases (err == eintr)) [
        | inl interrupted ↦
            let e' = e₁ ∙ ap (λ err. (failed err, s')) ((==_iff err eintr).0 interrupted) in
            let fewer = calls.write_interrupted s s' fd (drop b buf) e' in absurd (omega arith)
        | inr other ↦ inr (
          err,
          0,
          s,
          s',
          write_round-refused net rest b len err s' other,
          other,
          e₁,
          sym (append-nil (calls.sent s fd)),
        )
      ]

  write_loop-Sent :
      (fuel : ℕ) (s : net.State) (fd : ℕ) (buf : Bytes) (b len : ℕ)
      → len ≡ length (drop b buf)
      → len < fuel
      → calls.interrupts s ≡ 0
      → Sent s fd (drop b buf) (write_loop net fuel s fd buf b len)
        ⊎ Refused s fd (drop b buf) (write_loop net fuel s fd buf b len)
  unfolding write_loop
  write_loop-Sent zero s fd buf b len whole enough calm = absurd (omega arith)
  write_loop-Sent (suc fuel) s fd buf b len whole enough calm =
      write_round-Sent (λ s b len. write_loop net fuel s fd buf b len) s fd buf b len
        (net.write s fd (take len (drop b buf)))
        (λ s b k whole less calm. write_loop-Sent fuel s fd buf b k whole (omega arith) calm) whole
        calm refl

  -- Where no signal interrupts a write(), safe_write sends the whole buffer, however the system splits it
  -- up, and returns 0; or, where a write() behind some of the bytes fails, it returns that error, and
  -- exactly these bytes were sent. Its rounds end after the bytes of the buffer.
  pub safe_write-Refused :
      (fuel : ℕ) (s : net.State) (fd : ℕ) (buf : Bytes)
      → length buf < fuel
      → calls.interrupts s ≡ 0
      → ((s' : net.State) × (safe_write net fuel s fd buf ≡ ok (0, s'))
          × (calls.sent s' fd ≡ calls.sent s fd ++ buf))
        ⊎ Refused s fd buf (safe_write net fuel s fd buf)
  unfolding safe_write
  safe_write-Refused fuel s fd buf enough calm =
      write_loop-Sent fuel s fd buf 0 (length buf) refl enough calm
