-- ===== src/Binlog/Buffer.antt =====
-- The thread's buffer `tbinlog` of src/binlog/binlog.c, and the functions that print into it.
use cc_utils.Base.{
  ℕ, ◌+◌, ◌-◌, ◌*◌, ◌/◌, ◌^◌, ◌≤◌, ◌≡◌, Option, none, some, [], ◌∷◌, ◌++◌, ltb, ◌==◌, if◌then◌else◌,
  length, take,
}
use cc_utils.Base.Outcome.{Outcome, ok, fault, ◌>>=◌}
use cc_utils.Base.Bytes.{Bytes, word, write_bytes}
use cc_utils.Binlog.{
  Arg, int_arg, long_arg, double_arg, string_arg, pointer_arg, blog_int, blog_long, blog_double,
  blog_string, blog_pointer, stack_size,
}

-- malloc() and realloc() of the C library: what a block holds, or `none` for NULL. A block has the
-- size asked for, and realloc keeps what the old block held as far as it fits.
pub record Allocator : Type 0 where
  pub malloc : ℕ → Option Bytes
  pub realloc : Bytes → ℕ → Option Bytes
  pub malloc_size : (n : ℕ) (b : Bytes) → malloc n ≡ some b → length b ≡ n
  pub realloc_size : (a : Bytes) (n : ℕ) (b : Bytes) → realloc a n ≡ some b → length b ≡ n
  pub realloc_keeps :
      (a : Bytes) (n : ℕ) (b : Bytes) → length a ≤ n → realloc a n ≡ some b → take (length a) b ≡ a

-- `tsd_binlog_t`
pub record Tsd : Type 0 where
  pub buf : Bytes
  pub size : ℕ
  pub offset : ℕ

-- MAX(a, b)
abbrev pub max_of : ℕ → ℕ → ℕ
max_of a b = if ltb b a then a else b

-- The size that is asked for: `1 / BINLOG_STACK_SIZE` is 0 in C.
abbrev pub alloc_size : ℕ → ℕ → ℕ → ℕ
alloc_size old offset size = max_of (2 * old) (offset + size + stack_size - 1 / stack_size)

-- A write through a null pointer faults, and so does an `int32_t` that overflows.
abbrev pub checked_block : Option Bytes → Outcome Bytes
checked_block none = fault
checked_block (some b) = ok b

abbrev pub int32_size : ℕ → Outcome ℕ
int32_size n = if ltb n (2 ^ 31) then ok n else fault

-- A write of bytes at the offset, which it moves on.
unfoldable pub put : Tsd → Bytes → Outcome Tsd
put t bs = do
  buf ← write_bytes t.buf t.offset bs
  ok (record t { buf = buf; offset = t.offset + length bs })

-- binlog_maybe_free(): the block is given back if it is not the one on the stack, and the state
-- is cleared.
unfoldable pub binlog_maybe_free : Tsd → Tsd
binlog_maybe_free t = record { buf = []; size = 0; offset = 0 }

module _ (mem : Allocator) where
  unfoldable pub binlog_maybe_realloc : Tsd → ℕ → Outcome Tsd
  binlog_maybe_realloc t size =
      if ltb t.size (t.offset + size)
      then (if t.size == stack_size
          then (do
            n ← int32_size (alloc_size stack_size t.offset size)
            block ← checked_block (mem.malloc n)
            buf ← write_bytes block 0 (take stack_size t.buf)
            ok (record t { buf = buf; size = n }))
          else do
            n ← int32_size (alloc_size t.size t.offset size)
            buf ← checked_block (mem.realloc t.buf n)
            ok (record t { buf = buf; size = n }))
      else ok t

  -- print_int, print_long, print_double, print_pointer: the type's byte, then the value.
  unfoldable pub print_word : ℕ → ℕ → Tsd → ℕ → Outcome (ℕ × Tsd)
  unfolding binlog_maybe_realloc put
  print_word tag width t val = do
    t ← binlog_maybe_realloc t (1 + width)
    t ← put t (tag ∷ [])
    t ← put t (word width val)
    ok (1 + width, t)

  unfoldable pub print_string : Tsd → Bytes → Outcome (ℕ × Tsd)
  unfolding binlog_maybe_realloc put
  print_string t val = do
    t ← binlog_maybe_realloc t (length val + 1 + 1)
    t ← put t (blog_string ∷ [])
    t ← put t (val ++ 0 ∷ [])
    ok (length val + 1 + 1, t)

  unfoldable pub print_arg : Tsd → Arg → Outcome (ℕ × Tsd)
  unfolding print_word print_string
  print_arg t (int_arg w) = print_word blog_int 4 t w
  print_arg t (long_arg w) = print_word blog_long 8 t w
  print_arg t (double_arg w) = print_word blog_double 8 t w
  print_arg t (string_arg s) = print_string t s
  print_arg t (pointer_arg w) = print_word blog_pointer 8 t w
