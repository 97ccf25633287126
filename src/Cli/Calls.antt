-- ===== src/Cli/Calls.antt =====
-- What safe_read of src/cli/cli_server.c brings, and how it ends.
use cc_utils.Base.{
  ℕ, zero, suc, ◌+◌, ◌-◌, ◌≤◌, ◌<◌, ◌≡◌, refl, ap, sym, subst, ◌∙◌, Bool-cases, false, ==_iff, inl,
  inr, ◌⊎◌, [], ◌∷◌, ◌++◌, append-nil, append_assoc, ltb, ◌==◌, length, take, drop, arith,
  length-append, drop-append, drop-add,
}
use cc_utils.Base.Outcome.{Outcome, ok}
use cc_utils.Base.Bytes.{Bytes}
use cc_utils.Cli.Io.{Result, done, failed, Sockets, eintr, read_round, read_loop, safe_read, Calls}

pub take-past : (n : ℕ) (b r : Bytes) → length b ≤ n → take n (b ++ r) ≡ b ++ take (n - length b) r
take-past n [] r h = ap (λ k. take k r) {x = n} {y = n - 0} (omega arith)
take-past zero (x ∷ b) r h = absurd (omega arith)
take-past (suc n) (x ∷ b) r h =
    ap (λ l. x ∷ l)
      (take-past n b r (omega arith)
        ∙ ap (λ k. b ++ take k r) {x = n - length b} {y = suc n - suc (length b)} (omega arith))

pub drop-past : (n : ℕ) (b r : Bytes) → length b ≤ n → drop n (b ++ r) ≡ drop (n - length b) r
drop-past n [] r h = ap (λ k. drop k r) {x = n} {y = n - 0} (omega arith)
drop-past zero (x ∷ b) r h = absurd (omega arith)
drop-past (suc n) (x ∷ b) r h =
    drop-past n b r (omega arith)
    ∙ ap (λ k. drop k r) {x = n - length b} {y = suc n - suc (length b)} (omega arith)

pub take_none : (n : ℕ) → take {A = ℕ} n [] ≡ []
take_none zero = refl
take_none (suc n) = refl

drop_none : (n : ℕ) → drop {A = ℕ} n [] ≡ []
drop_none zero = refl
drop_none (suc n) = refl

drop-behind : (k : ℕ) (bs rest : Bytes) → drop (length bs + k) (bs ++ rest) ≡ drop k rest
drop-behind k bs rest =
    drop-add (length bs) k (bs ++ rest) ∙ ap (drop k) (drop-append bs rest (length bs) refl)

module _ (net : Sockets) (calls : Calls net) where
  -- From a state of the loop of safe_read: all bytes that were asked for, or all that there are.
  abbrev Complete : net.State → ℕ → ℕ → Bytes → Outcome (Result Bytes × net.State) → Type 0
  Complete s fd n buf r =
      (s' : net.State) × (r ≡ ok (done (buf ++ take n (calls.pending s fd)), s'))
      × (calls.pending s' fd ≡ drop n (calls.pending s fd))
      × (calls.sent s' fd ≡ calls.sent s fd)
      × (calls.interrupts s' ≤ calls.interrupts s)

  -- Or the error of a read() behind some of the bytes.
  abbrev pub Broken : net.State → ℕ → Outcome (Result Bytes × net.State) → Type 0
  Broken s fd r =
      (e n k : ℕ) × (s₁ s' : net.State) × (r ≡ ok (failed e, s'))
      × ((e == eintr) ≡ false)
      × (net.read s₁ fd n ≡ (failed e, s'))
      × (calls.pending s₁ fd ≡ drop k (calls.pending s fd))
      × (calls.sent s₁ fd ≡ calls.sent s fd)

  abbrev Ends : net.State → ℕ → ℕ → Bytes → Outcome (Result Bytes × net.State) → Type 0
  Ends s fd n buf r = Complete s fd n buf r ⊎ Broken s fd r

  Ends-behind :
      (s s' : net.State) (fd n k : ℕ) (buf bs : Bytes) (r : Outcome (Result Bytes × net.State))
      → calls.pending s fd ≡ bs ++ calls.pending s' fd
      → length bs ≤ n
      → k ≡ n - length bs
      → calls.interrupts s' ≤ calls.interrupts s
      → calls.sent s' fd ≡ calls.sent s fd
      → Ends s' fd k (buf ++ bs) r
      → Ends s fd n buf r
  Ends-behind s s' fd n k buf bs r next fits less fewer kept (inl (end, result, left, sent, few)) =
      inl (
        end,
        result
            ∙ ap (λ b. ok (done b, end))
                (append_assoc buf bs (take k (calls.pending s' fd))
                  ∙ ap (λ k. buf ++ (bs ++ take k (calls.pending s' fd))) less
                  ∙ ap (λ b. buf ++ b)
                      (sym (ap (take n) next ∙ take-past n bs (calls.pending s' fd) fits))),
        left
            ∙ ap (λ k. drop k (calls.pending s' fd)) less
            ∙ sym (ap (drop n) next ∙ drop-past n bs (calls.pending s' fd) fits),
        sent ∙ kept,
        omega arith,
      )
  Ends-behind s s' fd n k buf bs r next fits less fewer kept
        (inr (e, m, j, s₁, end, result, other, fails, left, sent)) =
      inr (
        e,
        m,
        length bs + j,
        s₁,
        end,
        result,
        other,
        fails,
        left ∙ sym (ap (drop (length bs + j)) next ∙ drop-behind j bs (calls.pending s' fd)),
        sent ∙ kept,
      )

  read_round-Ends :
      (rest : net.State → Bytes → Outcome (Result Bytes × net.State)) (fuel : ℕ) (s : net.State)
      (fd count : ℕ) (buf : Bytes) (got : Result Bytes × net.State)
      → ((s : net.State) (buf : Bytes)
          → length buf ≤ count
          → count - length buf + calls.interrupts s < fuel
          → Ends s fd (count - length buf) buf (rest s buf))
      → length buf < count
      → count - length buf + calls.interrupts s < suc fuel
      → net.read s fd (count - length buf) ≡ got
      → Ends s fd (count - length buf) buf (read_round net rest buf got)
  unfolding read_round
  read_round-Ends rest fuel s fd count buf (done [], s') ih inside enough e =
      let n = count - length buf in
      let (next, fits, empty, fewer, kept) = calls.read_done s s' fd n [] (omega arith) e in
      inl (
        s',
        ap (λ b. ok (done b, s'))
            (sym (
              ap (λ b. buf ++ take n b) (empty refl)
              ∙ ap (λ b. buf ++ b) (take_none n)
              ∙ append-nil buf)),
        sym next ∙ empty refl ∙ sym (drop_none n) ∙ ap (drop n) (sym (empty refl)),
        kept,
        fewer,
      )
  read_round-Ends rest fuel s fd count buf (done (x ∷ b), s') ih inside enough e =
      let n = count - length buf in
      let bs = x ∷ b in
      let (next, fits, empty, fewer, kept) = calls.read_done s s' fd n bs (omega arith) e in
      let grown = length-append buf bs in
      Ends-behind s s' fd n (count - length (buf ++ bs)) buf bs (rest s' (buf ++ bs)) next fits
        (omega arith) fewer kept (ih s' (buf ++ bs) (omega arith) (omega arith))
  read_round-Ends rest fuel s fd count buf (failed err, s') ih inside enough e =
      let n = count - length buf in
      elim (Bool-cases (err == eintr)) [
        | inl interrupted ↦
            let e' = e ∙ ap (λ err. (failed err, s')) ((==_iff err eintr).0 interrupted) in
            let (same, fewer, kept) = calls.read_interrupted s s' fd n e' in
            let more = ih s' buf (omega arith) (omega arith) in
            rw interrupted (
              Ends-behind s s' fd n n buf [] (rest s' buf) (sym same) (omega arith) (omega arith)
                (omega arith) kept (rw (append-nil buf) more))
        | inr other ↦ rw other (inr (err, n, 0, s, s', refl, other, e, refl, refl))
      ]

  read_loop-Ends :
      (fuel : ℕ) (s : net.State) (fd count : ℕ) (buf : Bytes)
      → length buf ≤ count
      → count - length buf + calls.interrupts s < fuel
      → Ends s fd (count - length buf) buf (read_loop net fuel s fd count buf)
  unfolding read_loop
  read_loop-Ends zero s fd count buf inside enough = absurd (omega arith)
  read_loop-Ends (suc fuel) s fd count buf inside enough =
      elim (Bool-cases (ltb (length buf) count)) [
        | inl e ↦ rw e (
            read_round-Ends (λ s buf. read_loop net fuel s fd count buf) fuel s fd count buf
              (net.read s fd (count - length buf)) (λ s buf. read_loop-Ends fuel s fd count buf)
              (ground (arith, e)) enough refl)
        | inr e ↦ rw e (
            let none : 0 ≡ count - length buf = ground (arith, e, inside) in
            subst (λ n. Ends s fd n buf (ok (done buf, s))) none
              (inl (s, ap (λ b. ok (done b, s)) (sym (append-nil buf)), refl, refl, omega arith)))
      ]

  -- safe_read gives the next `count` bytes of the connection, or all that are left where it ends before,
  -- and takes no others, however the system splits them up and signals interrupt its calls; or, where a
  -- read() behind some of the bytes fails with another error than EINTR, it returns that error, and the
  -- bytes that were read are lost. Its rounds end after the bytes and the interrupts that there are.
  pub safe_read-Broken :
      (fuel : ℕ) (s : net.State) (fd count : ℕ)
      → count + calls.interrupts s < fuel
      → ((s' : net.State) × (safe_read net fuel s fd count
            ≡ ok (done (take count (calls.pending s fd)), s'))
          × (calls.pending s' fd ≡ drop count (calls.pending s fd))
          × (calls.sent s' fd ≡ calls.sent s fd)
          × (calls.interrupts s' ≤ calls.interrupts s))
        ⊎ Broken s fd (safe_read net fuel s fd count)
  unfolding safe_read
  safe_read-Broken fuel s fd count enough =
      let all : count - 0 ≡ count = omega arith in
      subst (λ n. Ends s fd n [] (read_loop net fuel s fd count [])) all
        (read_loop-Ends fuel s fd count [] (omega arith) (omega arith))
