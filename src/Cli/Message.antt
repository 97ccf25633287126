-- ===== src/Cli/Message.antt =====
-- msg_encode and msg_decode of src/cli/cli_server.c. A pointer into a buffer is what lies in the
-- buffer from there on.
use cc_utils.Base.{ℕ, zero, suc, ◌+◌, Option, none, some, List, [], ◌∷◌, ◌++◌, leb, length, drop}
use cc_utils.Base.Outcome.{Outcome, ok, fault, ◌>>=◌, ◌>>◌, assert}
use cc_utils.Base.Bytes.{Bytes, word, read_word, write_bytes}
use cc_utils.Cli.{command_max_len}

-- `buf` and `offset`
pub record Writer : Type 0 where
  pub buf : Bytes
  pub offset : ℕ

unfoldable pub store : Writer → Bytes → Outcome Writer
store w bs = do
  buf ← write_bytes w.buf w.offset bs
  ok (record { buf = buf; offset = w.offset + length bs })

-- A string behind its length, which counts the terminator.
unfoldable pub encode_string : Writer → Bytes → Outcome Writer
encode_string w s = do w ← store w (word 4 (length s + 1)); store w (s ++ 0 ∷ [])

unfoldable pub encode_strings : Writer → List Bytes → Outcome Writer
encode_strings w [] = ok w
encode_strings w (s ∷ ss) = encode_string w s >>= λ w. encode_strings w ss

-- The message's length, and the buffer it is in; `argc` is the number of arguments.
unfoldable pub msg_encode : Bytes → Bytes → List Bytes → Outcome (ℕ × Bytes)
msg_encode buf sub_command argv = do
  w ← encode_string (record { buf = buf; offset = 0 }) sub_command
  w ← store w (word 4 (length argv))
  w ← encode_strings w argv
  w ← store w (b'\r' ∷ [])
  w ← store w (b'\n' ∷ [])
  ok (w.offset, w.buf)

-- `*(uint32_t *)(buf + offset)`
abbrev pub load : Option ℕ → Outcome ℕ
load none = fault
load (some w) = ok w

-- `sub_command`, the first `argc` elements of `argv`, and `offset`
pub record Decoded : Type 0 where
  pub sub_command : Bytes
  pub argv : List Bytes
  pub offset : ℕ

-- The loop over the arguments that are left: the pointers, and the offset behind them.
unfoldable pub decode_strings : ℕ → Bytes → ℕ → Outcome (List Bytes × ℕ)
decode_strings zero buf offset = ok ([], offset)
decode_strings (suc n) buf offset = do
  arg_len ← load (read_word 4 (drop offset buf))
  assert (leb arg_len command_max_len)
  (argv, behind) ← decode_strings n buf (offset + 4 + arg_len)
  ok (drop (offset + 4) buf ∷ argv, behind)

-- `argv` has room for 32 pointers.
unfoldable pub msg_decode : Bytes → Outcome Decoded
msg_decode buf = do
  subcommand_len ← load (read_word 4 buf)
  assert (leb subcommand_len command_max_len)
  decode_argc ← load (read_word 4 (drop (4 + subcommand_len) buf))
  assert (leb decode_argc command_max_len)
  (argv, offset) ← decode_strings decode_argc buf (4 + subcommand_len + 4)
  ok (record { sub_command = drop 4 buf; argv = argv; offset = offset })
