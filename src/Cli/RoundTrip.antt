-- ===== src/Cli/RoundTrip.antt =====
-- A message of msg_encode is taken apart by msg_decode into what it was made of
-- (src/cli/cli_server.c).
use cc_utils.Base.{
  ℕ, ◌+◌, ◌≤◌, ◌<◌, ◌≡◌, refl, ap, ◌∙◌, sym, subst, true, some, List, [], ◌∷◌, ◌++◌, append_assoc,
  leb, length, length-append, drop, take-append_drop, drop-add, drop-append, All, arith,
}
use mathlib.Core.List.{map}
use cc_utils.Base.Outcome.{ok}
use cc_utils.Base.Bytes.{
  Bytes, word, read_word, read_word-word, FitsWord, c_string, c_string-append, IsText,
}
use cc_utils.Cli.Message.{msg_encode, Decoded, decode_strings, msg_decode}
use cc_utils.Cli.Layout.{string_bytes, strings_bytes, message, msg_encode-message}

-- A string that a message can carry.
pub record IsShort (s : Bytes) : Type 0 where
  pub text : IsText s
  pub short : length s < 32

FitsWord4 : (n : ℕ) → n ≤ 32 → FitsWord 4 n
FitsWord4 n h = omega arith

-- What stands at the offset of a string: its length, its characters, and what follows.
at_string :
    (s b rest : Bytes) (off : ℕ)
    → drop off b ≡ string_bytes s ++ rest
    → IsShort s
    → (read_word 4 (drop off b) ≡ some (length s + 1))
      × (c_string (drop (off + 4) b) ≡ some s)
      × (drop (off + 4 + (length s + 1)) b ≡ rest)
at_string s b rest off h is =
    let split : drop off b ≡ word 4 (length s + 1) ++ (s ++ 0 ∷ rest) =
      h ∙ ap (λ x. word 4 (length s + 1) ++ x) (append_assoc s (0 ∷ []) rest) in
    let text : drop (off + 4) b ≡ s ++ 0 ∷ rest = drop-add off 4 b ∙ rw split in
    (
      rw split (
          read_word-word 4 (length s + 1) (s ++ 0 ∷ rest)
            (FitsWord4 (length s + 1) (omega (arith, is.short)))),
      rw text (c_string-append s rest is.text),
      drop-add (off + 4) (length s + 1) b
          ∙ ap (drop (length s + 1)) (text ∙ sym (append_assoc s (0 ∷ []) rest))
          ∙ drop-append (s ++ 0 ∷ []) rest (length s + 1) (sym (length-append s (0 ∷ []))),
    )

decode_strings-bytes :
    (ss : List Bytes) (b rest : Bytes) (off : ℕ)
    → drop off b ≡ strings_bytes ss ++ rest
    → All IsShort ss
    → (out : List Bytes) × (end : ℕ) × (decode_strings (length ss) b off ≡ ok (out, end))
      × (map c_string out ≡ map some ss)
      × (end ≡ off + length (strings_bytes ss))
unfolding decode_strings
decode_strings-bytes [] b rest off h all = ([], off, refl, refl, omega arith)
decode_strings-bytes (s ∷ ss) b rest off h (is, all) =
    let (len, text, next) =
      at_string s b (strings_bytes ss ++ rest) off
        (h ∙ append_assoc (string_bytes s) (strings_bytes ss) rest) is in
    let (out, end, e, strings, place) =
      decode_strings-bytes ss b rest (off + 4 + (length s + 1)) next all in
    let short : leb (length s + 1) 32 ≡ true = ground (arith, is.short) in
    (
      drop (off + 4) b ∷ out,
      end,
      rw (len, short, e),
      rw (text, strings),
      omega (
        arith,
        place,
        length-append (string_bytes s) (strings_bytes ss),
        length-append s (0 ∷ []),
      ),
    )

msg_decode-bytes :
    (sub_command : Bytes) (argv : List Bytes) (b rest : Bytes)
    → b ≡ string_bytes sub_command ++ (word 4 (length argv) ++ (strings_bytes argv ++ rest))
    → IsShort sub_command
    → All IsShort argv
    → length argv ≤ 32
    → (d : Decoded) × (msg_decode b ≡ ok d)
      × (c_string d.sub_command ≡ some sub_command)
      × (map c_string d.argv ≡ map some argv)
      × (d.offset ≡ 4 + (length sub_command + 1) + 4 + length (strings_bytes argv))
unfolding msg_decode
msg_decode-bytes sub_command argv b rest h is all few =
    let n : ℕ = length sub_command + 1 in
    let (len, text, next) =
      at_string sub_command b (word 4 (length argv) ++ (strings_bytes argv ++ rest)) 0 h is in
    let args : drop (4 + n + 4) b ≡ strings_bytes argv ++ rest = drop-add (4 + n) 4 b ∙ rw next in
    let count : read_word 4 (drop (4 + n) b) ≡ some (length argv) =
      rw next (
        read_word-word 4 (length argv) (strings_bytes argv ++ rest)
          (FitsWord4 (length argv) few)) in
    let (out, end, e, strings, place) = decode_strings-bytes argv b rest (4 + n + 4) args all in
    let short : leb n 32 ≡ true = ground (arith, is.short) in
    let few_args : leb (length argv) 32 ≡ true = ground arith in
    (
      record { sub_command = drop 4 b; argv = out; offset = end },
      rw (len, short, count, few_args, e),
      text,
      strings,
      place,
    )

message-split :
    (sub_command : Bytes) (argv : List Bytes) (more : Bytes)
    → message sub_command argv ++ more
      ≡ string_bytes sub_command
        ++ (word 4 (length argv) ++ (strings_bytes argv ++ (b'\r' ∷ b'\n' ∷ [] ++ more)))
unfolding message
message-split sub_command argv more =
    append_assoc (string_bytes sub_command)
      (word 4 (length argv) ++ (strings_bytes argv ++ (b'\r' ∷ b'\n' ∷ []))) more
    ∙ ap (λ x. string_bytes sub_command ++ (word 4 (length argv) ++ x))
        (append_assoc (strings_bytes argv) (b'\r' ∷ b'\n' ∷ []) more)

length-message :
    (sub_command : Bytes) (argv : List Bytes)
    → length (message sub_command argv)
      ≡ 4 + (length sub_command + 1) + 4 + length (strings_bytes argv) + 2
unfolding message
length-message sub_command argv = omega (
  arith,
  length-append sub_command (0 ∷ []),
  length-append (sub_command ++ 0 ∷ [])
      (word 4 (length argv) ++ (strings_bytes argv ++ (b'\r' ∷ b'\n' ∷ []))),
  length-append (strings_bytes argv) (b'\r' ∷ b'\n' ∷ []),
)

-- msg_decode of a message, whatever lies behind it, finds the command and its arguments in their
-- order as C strings, and stops in front of the two characters at the message's end. The command
-- and each argument have fewer than 32 characters, none of them 0, and there are at most 32
-- arguments.
pub msg_decode-message :
    (sub_command : Bytes) (argv : List Bytes) (more : Bytes)
    → IsShort sub_command
    → All IsShort argv
    → length argv ≤ 32
    → (d : Decoded) × (msg_decode (message sub_command argv ++ more) ≡ ok d)
      × (c_string d.sub_command ≡ some sub_command)
      × (map c_string d.argv ≡ map some argv)
      × (d.offset + 2 ≡ length (message sub_command argv))
msg_decode-message sub_command argv more is all few =
    let crlf : Bytes = b'\r' ∷ b'\n' ∷ [] in
    let (d, e, command, strings, place) =
      msg_decode-bytes sub_command argv (message sub_command argv ++ more) (crlf ++ more)
        (message-split sub_command argv more) is all few in
    (d, e, command, strings, omega (arith, place, length-message sub_command argv))

-- The round trip of a message. For a command and at most 32 arguments of fewer than 32 characters
-- each, none of them 0, and a buffer that the message fits, msg_encode fills the buffer without
-- a fault, and msg_decode of the buffer finds the command and the arguments in their order as C
-- strings; it stops two bytes in front of the length that msg_encode returned.
pub msg_decode-msg_encode :
    (buf sub_command : Bytes) (argv : List Bytes)
    → IsShort sub_command
    → All IsShort argv
    → length argv ≤ 32
    → length (message sub_command argv) ≤ length buf
    → (n : ℕ) × (buf' : Bytes) × (d : Decoded) × (msg_encode buf sub_command argv ≡ ok (n, buf'))
      × (msg_decode buf' ≡ ok d)
      × (c_string d.sub_command ≡ some sub_command)
      × (map c_string d.argv ≡ map some argv)
      × (d.offset + 2 ≡ n)
msg_decode-msg_encode buf sub_command argv is all few room =
    let m : Bytes = message sub_command argv in
    let (buf', e, _, front) = msg_encode-message buf sub_command argv room in
    let (d, e', command, strings, place) =
      msg_decode-message sub_command argv (drop (length m) buf') is all few in
    let split : m ++ drop (length m) buf' ≡ buf' =
      ap (λ x. x ++ drop (length m) buf') (sym front) ∙ take-append_drop (length m) buf' in
    (length m, buf', d, e, subst (λ x. msg_decode x ≡ ok d) split e', command, strings, place)
