-- ===== src/Cli/Loopback.antt =====
-- One connection, for examples: its bytes are known in advance, and no call fails.
use cc_utils.Base.{
  ℕ, zero, suc, ◌≤◌, ◌<◌, ◌≡◌, refl, ap, sym, ◌∙◌, [], ◌∷◌, ◌++◌, length, take, drop, arith,
  take-append_drop, length-take,
}
use cc_utils.Base.Bytes.{Bytes}
use cc_utils.Cli.Io.{Result, done, failed, Sockets, Streams}

pub record Line : Type 0 where
  pub input : Bytes
  pub output : Bytes

abbrev pub read : Line → ℕ → ℕ → Result Bytes × Line
read l fd n = (done (take n l.input), record l { input = drop n l.input })

abbrev pub write : Line → ℕ → Bytes → Result ℕ × Line
write l fd b = (done (length b), record l { output = l.output ++ b })

abbrev pub loopback : Sockets
loopback = record {
  State = Line;
  read = read;
  write = write;
  accept = λ l fd. (done 3, l);
  close = λ l fd. l;
}

abbrev value : {A : Type 0} → A → Result A → A
value a (done b) = b
value a (failed e) = a

take_nothing : (n : ℕ) (b : Bytes) → 0 < n → take n b ≡ [] → b ≡ []
take_nothing zero b h e = absurd (omega arith)
take_nothing (suc n) [] h e = refl
take_nothing (suc n) (x ∷ b) h e = absurd cc

take-length : (b : Bytes) → take (length b) b ≡ b
take-length [] = refl
take-length (x ∷ b) = ap (λ l. x ∷ l) (take-length b)

pub read_line :
    (s s' : Line) (fd n : ℕ) (b : Bytes)
    → 0 < n
    → read s fd n ≡ (done b, s')
    → (s.input ≡ b ++ s'.input)
      × (length b ≤ n)
      × (b ≡ [] → s.input ≡ [])
      × (0 ≤ 0)
      × (s'.output ≡ s.output)
read_line s s' fd n b some_bytes h =
    let got : take n s.input ≡ b = ap (λ p. value [] p.0) h in
    let left : drop n s.input ≡ s'.input = ap (λ p. p.1.input) h in
    (
      sym (take-append_drop n s.input) ∙ ap (λ t. t ++ drop n s.input) got ∙ ap (λ t. b ++ t) left,
      omega (arith, ap length got, length-take n s.input),
      λ e. take_nothing n s.input some_bytes (got ∙ e),
      omega arith,
      ap (λ p. p.1.output) (sym h),
    )

pub write_line :
    (s s' : Line) (fd n : ℕ) (b : Bytes)
    → write s fd b ≡ (done n, s')
    → (n ≤ length b) × (0 < length b → 0 < n) × (s'.output ≡ s.output ++ take n b) × (0 ≤ 0)
write_line s s' fd n b h =
    let count : length b ≡ n = ap (λ p. value 0 p.0) h in
    (
      omega arith,
      λ e. omega arith,
      sym (ap (λ p. p.1.output) h)
          ∙ ap (λ t. s.output ++ t) (sym (take-length b))
          ∙ ap (λ k. s.output ++ take k b) count,
      omega arith,
    )

pub failing : {A : Type 0} {a : A} {e : ℕ} → done a ≡ failed e → ⊥
failing {a} {e} h = cc

abbrev pub calm : Streams loopback
calm = record {
  pending = λ l fd. l.input;
  sent = λ l fd. l.output;
  interrupts = λ l. 0;
  read_done = read_line;
  read_failed = λ s s' fd n e h. absurd (failing (ap (λ p. p.0) h));
  write_done = write_line;
  write_failed = λ s s' fd e b h. absurd (failing (ap (λ p. p.0) h));
}
