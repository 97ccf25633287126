-- ===== src/Cli/Request.antt =====
-- The loop of do_accept in src/cli/cli_server.c that reads a request, and that it ends where a
-- message of msg_encode ends.
use cc_utils.Base.{
  ℕ, ◌+◌, ◌≤◌, ◌<◌, ◌≡◌, refl, ap, sym, ◌∙◌, Bool, true, false, not, ◌&&◌, Option, none, some, List,
  [], ◌∷◌, ◌++◌, append_assoc, append-nil, leb, ◌==◌, if◌then◌else◌, length, length-append, All,
  arith, ◌/◌, ◌%◌,
}
use cc_utils.Base.Bytes.{Bytes, word}
use cc_utils.Cli.Layout.{message, string_bytes, strings_bytes}

-- `cmd[pos - 1] == '\r'`
abbrev pub ends_cr : Bytes → Bool
ends_cr [] = false
ends_cr (x ∷ []) = x == b'\r'
ends_cr (x ∷ y ∷ cmd) = ends_cr (y ∷ cmd)

-- What safe_read brings, a byte at a time up to the end of the connection, and `cmd` up to `pos`.
-- `none` once the connection is closed, since nothing more comes or `cmd` is full.
unfoldable pub read_request : Bytes → Bytes → Option Bytes
read_request [] cmd = none
read_request (x ∷ input) cmd =
    let rest = read_request input (cmd ++ (x ∷ [])) in
    if x == b'\n' && ends_cr cmd
    then some (cmd ++ (x ∷ []))
    else if leb 1024 (length cmd + 1)
    then none
    else rest

ends_cr-append : (cmd : Bytes) (x : ℕ) → ends_cr (cmd ++ (x ∷ [])) ≡ (x == b'\r')
ends_cr-append [] x = refl
ends_cr-append (y ∷ []) x = refl
ends_cr-append (y ∷ z ∷ cmd) x = ends_cr-append (z ∷ cmd) x

-- Bytes in which no line feed stands behind a carriage return, given whether one is in front.
unfoldable pub quiet : Bool → Bytes → Bool
quiet cr [] = true
quiet cr (x ∷ b) = not (x == b'\n' && cr) && quiet (x == b'\r') b

and_both : (p q : Bool) → (p && q) ≡ true → (p ≡ true) × (q ≡ true)
and_both p q h = ground arith

read_request-quiet :
    (b input cmd : Bytes)
    → quiet (ends_cr cmd) b ≡ true
    → length cmd + length b < 1024
    → read_request (b ++ input) cmd ≡ read_request input (cmd ++ b)
unfolding read_request quiet
read_request-quiet [] input cmd h room = ap (read_request input) (sym (append-nil cmd))
read_request-quiet (x ∷ b) input cmd h room =
    let (first, later) = and_both (not (x == b'\n' && ends_cr cmd)) (quiet (x == b'\r') b) h in
    let go : (x == b'\n' && ends_cr cmd) ≡ false = ground arith in
    let space : leb 1024 (length cmd + 1) ≡ false = ground arith in
    rw (go, space)
      (read_request-quiet b input (cmd ++ (x ∷ []))
          (ap (λ c. quiet c b) (ends_cr-append cmd x) ∙ later)
          (omega (arith, length-append cmd (x ∷ [])))
        ∙ ap (read_request input) (append_assoc cmd (x ∷ []) b))

quiet_text :
    (s rest : Bytes) (cr : Bool)
    → quiet cr s ≡ true
    → quiet false rest ≡ true
    → quiet cr (s ++ 0 ∷ rest) ≡ true
unfolding quiet
quiet_text [] rest cr h g = g
quiet_text (x ∷ s) rest cr h g =
    let (first, later) = and_both (not (x == b'\n' && cr)) (quiet (x == b'\r') s) h in
    rw (first, quiet_text s rest (x == b'\r') later g)

quiet_word :
    (n : ℕ) (rest : Bytes)
    → n ≤ 32
    → quiet false rest ≡ true
    → quiet false (word 4 n ++ rest) ≡ true
unfolding quiet
quiet_word n rest h g =
    let e₁ : n / 256 % 256 ≡ 0 = omega arith in
    let e₂ : n / 256 / 256 % 256 ≡ 0 = omega arith in
    let e₃ : n / 256 / 256 / 256 % 256 ≡ 0 = omega arith in rw (e₁, e₂, e₃, g) (ground arith)

-- A string without a carriage return that a line feed follows.
pub record IsQuiet (s : Bytes) : Type 0 where
  pub short : length s < 32
  pub quiet : quiet false s ≡ true

quiet_string :
    (s rest : Bytes)
    → IsQuiet s
    → quiet false rest ≡ true
    → quiet false (string_bytes s ++ rest) ≡ true
quiet_string s rest is h = rw (append_assoc s (0 ∷ []) rest) (
    quiet_word (length s + 1) (s ++ 0 ∷ rest) (omega (arith, is.short))
      (quiet_text s rest false is.quiet h))

quiet_strings :
    (ss : List Bytes) (rest : Bytes)
    → All IsQuiet ss
    → quiet false rest ≡ true
    → quiet false (strings_bytes ss ++ rest) ≡ true
quiet_strings [] rest all h = h
quiet_strings (s ∷ ss) rest (is, all) h =
    rw (append_assoc (string_bytes s) (strings_bytes ss) rest)
      (quiet_string s (strings_bytes ss ++ rest) is (quiet_strings ss rest all h))

quiet_nil : quiet false [] ≡ true
unfolding quiet
quiet_nil = refl

message-body :
    (sub_command : Bytes) (argv : List Bytes)
    → message sub_command argv
      ≡ string_bytes sub_command
        ++ (word 4 (length argv) ++ (strings_bytes argv ++ []))
        ++ (b'\r' ∷ b'\n' ∷ [])
unfolding message
message-body sub_command argv =
    let a : Bytes = string_bytes sub_command in
    let c : Bytes = word 4 (length argv) in
    let crlf : Bytes = b'\r' ∷ b'\n' ∷ [] in
    rw (append-nil (strings_bytes argv)) (
      ap (λ x. a ++ x) (sym (append_assoc c (strings_bytes argv) crlf))
      ∙ sym (append_assoc a (c ++ strings_bytes argv) crlf))

read_request_end :
    (cmd more : Bytes)
    → length cmd + 2 ≤ 1024
    → read_request (b'\r' ∷ b'\n' ∷ more) cmd ≡ some (cmd ++ (b'\r' ∷ b'\n' ∷ []))
unfolding read_request
read_request_end cmd more room =
    let space : leb 1024 (length cmd + 1) ≡ false = ground arith in
    rw (space, ends_cr-append cmd b'\r') (ap some (append_assoc cmd (b'\r' ∷ []) (b'\n' ∷ [])))

-- The loop reads exactly the message, and leaves what is sent behind it: no line feed stands
-- behind a carriage return in the command and the arguments, each shorter than 32 characters and at
-- most 32 of them, and the message is no longer than the 1024 bytes of `cmd`.
pub read_request-message :
    (sub_command : Bytes) (argv : List Bytes) (more : Bytes)
    → IsQuiet sub_command
    → All IsQuiet argv
    → length argv ≤ 32
    → length (message sub_command argv) ≤ 1024
    → read_request (message sub_command argv ++ more) [] ≡ some (message sub_command argv)
read_request-message sub_command argv more is all few room =
    let body : Bytes =
      string_bytes sub_command ++ (word 4 (length argv) ++ (strings_bytes argv ++ [])) in
    let calm : quiet false body ≡ true =
      quiet_string sub_command (word 4 (length argv) ++ (strings_bytes argv ++ [])) is (
        quiet_word (length argv) (strings_bytes argv ++ []) few
          (quiet_strings argv [] all quiet_nil)) in
    let split : message sub_command argv ≡ body ++ (b'\r' ∷ b'\n' ∷ []) =
      message-body sub_command argv in
    let len = length-append body (b'\r' ∷ b'\n' ∷ []) in
    rw split (
      ap (λ x. read_request x []) (append_assoc body (b'\r' ∷ b'\n' ∷ []) more)
      ∙ read_request-quiet body (b'\r' ∷ b'\n' ∷ more) [] calm (omega (arith, ap length split, len))
      ∙ read_request_end body more (omega (arith, ap length split, len)))
