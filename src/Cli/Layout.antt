-- ===== src/Cli/Layout.antt =====
-- The layout of a message, which msg_encode of src/cli/cli_server.c writes.
use cc_utils.Base.{
  ℕ, ◌+◌, ◌≤◌, ◌≡◌, refl, ap, ◌∙◌, sym, subst, List, [], ◌∷◌, ◌++◌, append_assoc, append-nil,
  length, length-append, take, arith,
}
use cc_utils.Base.Outcome.{ok}
use cc_utils.Base.Bytes.{Bytes, word, take-write_bytes}
use cc_utils.Cli.Message.{Writer, store, encode_string, encode_strings, msg_encode}

-- The layout of a message.
abbrev pub string_bytes : Bytes → Bytes
string_bytes s = word 4 (length s + 1) ++ (s ++ 0 ∷ [])

abbrev pub strings_bytes : List Bytes → Bytes
strings_bytes [] = []
strings_bytes (s ∷ ss) = string_bytes s ++ strings_bytes ss

unfoldable pub message : Bytes → List Bytes → Bytes
message sub_command argv =
    string_bytes sub_command
    ++ (word 4 (length argv) ++ (strings_bytes argv ++ (b'\r' ∷ b'\n' ∷ [])))

-- The buffer has its size, and up to the offset it holds `b`.
record Stored (w : Writer) (size : ℕ) (b : Bytes) : Type 0 where
  sized : length w.buf ≡ size
  ends : w.offset ≡ length b
  holds : take w.offset w.buf ≡ b

store-Stored :
    (w : Writer) (size : ℕ) (b bs : Bytes)
    → Stored w size b
    → length b + length bs ≤ size
    → (w' : Writer) × (store w bs ≡ ok w') × Stored w' size (b ++ bs)
unfolding store
store-Stored w size b bs h room =
    let (buf', e, l, t) = take-write_bytes w.buf w.offset bs (omega (arith, h.sized, h.ends)) in
    (
      record { buf = buf'; offset = w.offset + length bs },
      rw e,
      record {
        sized = l ∙ h.sized;
        ends = omega (arith, h.ends, length-append b bs);
        holds = t ∙ ap (λ x. x ++ bs) h.holds;
      },
    )

encode_string-Stored :
    (w : Writer) (size : ℕ) (b s : Bytes)
    → Stored w size b
    → length b + length (string_bytes s) ≤ size
    → (w' : Writer) × (encode_string w s ≡ ok w') × Stored w' size (b ++ string_bytes s)
unfolding encode_string
encode_string-Stored w size b s h room =
    let len = length-append (word 4 (length s + 1)) (s ++ 0 ∷ []) in
    let (w₁, e₁, h₁) = store-Stored w size b (word 4 (length s + 1)) h (omega (arith, len)) in
    let (w₂, e₂, h₂) =
      store-Stored w₁ size (b ++ word 4 (length s + 1)) (s ++ 0 ∷ []) h₁
        (omega (arith, len, length-append b (word 4 (length s + 1)))) in
    (
      w₂,
      rw (e₁, e₂),
      subst (λ x. Stored w₂ size x) (append_assoc b (word 4 (length s + 1)) (s ++ 0 ∷ [])) h₂,
    )

encode_strings-Stored :
    (w : Writer) (size : ℕ) (b : Bytes) (ss : List Bytes)
    → Stored w size b
    → length b + length (strings_bytes ss) ≤ size
    → (w' : Writer) × (encode_strings w ss ≡ ok w') × Stored w' size (b ++ strings_bytes ss)
unfolding encode_strings
encode_strings-Stored w size b [] h room =
    (w, refl, subst (λ x. Stored w size x) (sym (append-nil b)) h)
encode_strings-Stored w size b (s ∷ ss) h room =
    let len = length-append (string_bytes s) (strings_bytes ss) in
    let (w₁, e₁, h₁) = encode_string-Stored w size b s h (omega (arith, len)) in
    let (w₂, e₂, h₂) =
      encode_strings-Stored w₁ size (b ++ string_bytes s) ss h₁
        (omega (arith, len, length-append b (string_bytes s))) in
    (
      w₂,
      rw (e₁, e₂),
      subst (λ x. Stored w₂ size x) (append_assoc b (string_bytes s) (strings_bytes ss)) h₂,
    )

-- msg_encode puts the message at the start of a buffer that is long enough, and returns its length.
pub msg_encode-message :
    (buf sub_command : Bytes) (argv : List Bytes)
    → length (message sub_command argv) ≤ length buf
    → (buf' : Bytes) × (msg_encode buf sub_command argv
        ≡ ok (length (message sub_command argv), buf'))
      × (length buf' ≡ length buf)
      × (take (length (message sub_command argv)) buf' ≡ message sub_command argv)
unfolding msg_encode message
msg_encode-message buf sub_command argv room =
    let size : ℕ = length buf in
    let a : Bytes = string_bytes sub_command in
    let c : Bytes = word 4 (length argv) in
    let d : Bytes = strings_bytes argv in
    let l₁ = length-append a (c ++ (d ++ (b'\r' ∷ b'\n' ∷ []))) in
    let l₂ = length-append c (d ++ (b'\r' ∷ b'\n' ∷ [])) in
    let l₃ = length-append d (b'\r' ∷ b'\n' ∷ []) in
    let fresh : Stored (record { buf = buf; offset = 0 }) size [] = record {
      sized = refl;
      ends = refl;
      holds = refl;
    } in
    let (w₁, e₁, h₁) =
      encode_string-Stored (record { buf = buf; offset = 0 }) size [] sub_command fresh
        (omega (arith, l₁)) in
    let (w₂, e₂, h₂) = store-Stored w₁ size a c h₁ (omega (arith, l₁, l₂)) in
    let (w₃, e₃, h₃) =
      encode_strings-Stored w₂ size (a ++ c) argv h₂
        (omega (arith, l₁, l₂, l₃, length-append a c)) in
    let (w₄, e₄, h₄) =
      store-Stored w₃ size (a ++ c ++ d) (b'\r' ∷ []) h₃
        (omega (arith, l₁, l₂, l₃, length-append a c, length-append (a ++ c) d)) in
    let (w₅, e₅, h₅) = store-Stored w₄ size (a ++ c ++ d ++ (b'\r' ∷ [])) (b'\n' ∷ []) h₄ (
      omega (
        arith,
        l₁,
        l₂,
        l₃,
        length-append a c,
        length-append (a ++ c) d,
        length-append (a ++ c ++ d) (b'\r' ∷ []),
      )) in
    let whole : Stored w₅ size (message sub_command argv) =
      subst (λ x. Stored w₅ size x)
        (append_assoc (a ++ c ++ d) (b'\r' ∷ []) (b'\n' ∷ [])
          ∙ append_assoc (a ++ c) d (b'\r' ∷ b'\n' ∷ [])
          ∙ append_assoc a c (d ++ (b'\r' ∷ b'\n' ∷ [])))
        h₅ in
    (
      w₅.buf,
      rw (e₁, e₂, e₃, e₄, e₅) (ap (λ n. ok (n, w₅.buf)) whole.ends),
      whole.sized,
      ap (λ n. take n w₅.buf) (sym whole.ends) ∙ whole.holds,
    )
