-- ===== src/Binlog/Record.antt =====
-- binlog_print of src/binlog/binlog.c: a record is put together in the thread's buffer, its length
-- is patched in at the end, and the whole is handed to write().
use cc_utils.Base.{
  ℕ, ◌+◌, ◌*◌, ◌/◌, ◌%◌, Bool, true, false, Option, none, some, List, [], ◌∷◌, ◌++◌, ◌==◌, ◌^◌, ltb,
  length, take,
}
use cc_utils.Base.Outcome.{Outcome, ok, ◌>>=◌, ◌>>◌, assert}
use cc_utils.Base.Bytes.{Bytes, word, write_bytes}
use cc_utils.Binlog.{Arg, blog_begin, blog_end, stack_size}
use cc_utils.Binlog.Buffer.{Allocator, Tsd, put, binlog_maybe_realloc, binlog_maybe_free}
use cc_utils.Binlog.Format.{do_valog}

-- What a call is given, and what it reads of the clock and the thread. Integers are bit patterns.
pub record Call : Type 0 where
  pub level : ℕ
  pub func : Bytes
  pub line : ℕ
  pub tv_sec : ℕ
  pub tv_nsec : ℕ
  pub self : ℕ

-- `ts.tv_sec * (time_t)(1e6) + ts.tv_nsec / (time_t)(1e3)`
abbrev pub now : Call → ℕ
now c = c.tv_sec * 1000000 + c.tv_nsec / 1000

-- `size`: length, level, function, line, thread and time
abbrev pub prefix_size : Call → ℕ
prefix_size c = 4 + 1 + length c.func + 1 + 4 + 8 + 8

-- `prefix`
abbrev pub prefix : Call → Bytes
prefix c =
    word 4 0
    ++ ((c.level % 256) ∷ (c.func ++ 0 ∷ (word 4 c.line ++ (word 8 c.self ++ word 8 (now c)))))

-- print_begin does not ask for room.
unfoldable pub print_begin : Tsd → Bytes → ℕ → Outcome (ℕ × Tsd)
print_begin t val len = do t ← put t (blog_begin ∷ []); t ← put t val; ok (len + 1, t)

-- The bytes that are given to write(), and the state that is left.
module _ (mem : Allocator) where
  unfoldable pub print_end : Tsd → ℕ → Outcome (Bytes × Tsd)
  print_end t valog_len = do
    t ← binlog_maybe_realloc mem t 1
    buf ← write_bytes t.buf 1 (word 4 valog_len)
    t ← put (record t { buf = buf }) (blog_end ∷ [])
    ok (take t.offset t.buf, binlog_maybe_free t)

  -- `stack` is what the array on the stack holds before it is written. The seconds of the clock are not
  -- negative; an overflow of their microseconds is undefined.
  unfoldable pub binlog_print :
      Bool → Bytes → Call → Bytes → List Arg → Outcome (Option (Bytes × Tsd))
  binlog_print false stack c format ap = ok none
  binlog_print true stack c format ap = do
    let t : Tsd = record { buf = stack; size = stack_size; offset = 0 }
    assert (ltb (now c) (2 ^ 63))
    assert (prefix_size c == length (prefix c))
    (_, t) ← print_begin t (prefix c) (prefix_size c)
    (va_length, t) ← do_valog mem t format ap
    (out, t) ← print_end t (va_length + prefix_size c + 1 + 1)
    ok (some (out, t))
