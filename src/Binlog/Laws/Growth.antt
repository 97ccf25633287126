-- ===== src/Binlog/Laws/Growth.antt =====
-- The growing buffer of src/binlog/binlog.c: printing never leaves it and never loses a byte.
use cc_utils.Base.{
  ℕ, zero, suc, ◌+◌, ◌-◌, ◌^◌, ◌≤◌, ◌<◌, ◌≡◌, refl, ap, ◌∙◌, sym, inl, inr, subst, some, List, [],
  ◌∷◌, ◌++◌, append_assoc, ltb, ◌==◌, length, take, length-append, arith, Bool-cases, ==_iff,
  ltb→lt,
}
use cc_utils.Base.Outcome.{Outcome, ok, ◌>>=◌}
use cc_utils.Base.Bytes.{Bytes, word, take-write_bytes}
use cc_utils.Binlog.{
  Arg, int_arg, long_arg, double_arg, string_arg, pointer_arg, blog_int, blog_long, blog_double,
  blog_string, blog_pointer, stack_size,
}
use cc_utils.Binlog.Buffer.{
  Allocator, Tsd, alloc_size, int32_size, put, binlog_maybe_realloc, print_string, print_arg,
}

-- The bytes that stand for an argument: its tag, then the value or the text with its terminator.
unfoldable pub encode_arg : Arg → Bytes
encode_arg (int_arg w) = blog_int ∷ word 4 w
encode_arg (long_arg w) = blog_long ∷ word 8 w
encode_arg (double_arg w) = blog_double ∷ word 8 w
encode_arg (string_arg s) = blog_string ∷ (s ++ 0 ∷ [])
encode_arg (pointer_arg w) = blog_pointer ∷ word 8 w

-- The buffer has its size and at least the stack's, and up to the offset it holds `b`.
pub record Holds (t : Tsd) (b : Bytes) : Type 0 where
  pub sized : length t.buf ≡ t.size
  pub least : stack_size ≤ t.size
  pub ends : t.offset ≡ length b
  pub holds : take t.offset t.buf ≡ b

-- No allocation fails.
pub record Succeeds (mem : Allocator) : Type 0 where
  pub malloc_some : (n : ℕ) → (b : Bytes) × (mem.malloc n ≡ some b)
  pub realloc_some : (a : Bytes) (n : ℕ) → (b : Bytes) × (mem.realloc a n ≡ some b)

pub put-Holds :
    (t : Tsd) (b bs : Bytes)
    → Holds t b
    → t.offset + length bs ≤ t.size
    → (t' : Tsd) × (put t bs ≡ ok t')
      × Holds t' (b ++ bs)
      × (t'.size ≡ t.size)
      × (t'.offset ≡ t.offset + length bs)
unfolding put
put-Holds t b bs h room =
    let w = take-write_bytes t.buf t.offset bs (omega (arith, h.sized)) in
    (
      record t { buf = w.0; offset = t.offset + length bs },
      rw w.1,
      record {
        sized = w.2 ∙ h.sized;
        least = h.least;
        ends = omega (arith, h.ends, length-append b bs);
        holds = w.3 ∙ ap (λ x. x ++ bs) h.holds;
      },
      refl,
      refl,
    )

pub take-take : {A : Type 0} (n m : ℕ) (xs : List A) → n ≤ m → take n (take m xs) ≡ take n xs
take-take zero m xs h = refl
take-take (suc n) zero xs h = absurd (omega arith)
take-take (suc n) (suc m) [] h = refl
take-take (suc n) (suc m) (x ∷ xs) h = ap (◌∷◌ x) (take-take n m xs (omega arith))

take_all : {A : Type 0} (n : ℕ) (xs : List A) → length xs ≤ n → take n xs ≡ xs
take_all zero [] h = refl
take_all zero (x ∷ xs) h = absurd (omega arith)
take_all (suc n) [] h = refl
take_all (suc n) (x ∷ xs) h = ap (◌∷◌ x) (take_all n xs (omega arith))

-- A block that begins with the old one holds the same bytes.
regrown-Holds :
    (t : Tsd) (b buf : Bytes) (n : ℕ)
    → Holds t b
    → t.size ≤ n
    → t.offset ≤ t.size
    → length buf ≡ n
    → take t.size buf ≡ t.buf
    → Holds (record t { buf = buf; size = n }) b
regrown-Holds t b buf n h le off len same = record {
  sized = len;
  least = omega (arith, h.least);
  ends = h.ends;
  holds = sym (take-take t.offset t.size buf off) ∙ ap (take t.offset) same ∙ h.holds;
}

abbrev counted : ℕ → Tsd → Outcome (ℕ × Tsd)
counted n t = ok (n, t)

-- The new size is not less than the old one, makes the room asked for, and is an `int32_t`.
alloc_size_lem :
    (old offset n : ℕ)
    → old < offset + n
    → offset + n < 2 ^ 30 - 1024
    → (old ≤ alloc_size old offset n)
      × (offset + n ≤ alloc_size old offset n)
      × (int32_size (alloc_size old offset n) ≡ ok (alloc_size old offset n))
alloc_size_lem old offset n h small = ground arith

module _ (mem : Allocator) (succeeds : Succeeds mem) where
  -- Growing keeps what the buffer holds, and makes room for what is to come.
  pub binlog_maybe_realloc-Holds :
      (t : Tsd) (b : Bytes) (n : ℕ)
      → Holds t b
      → t.offset ≤ t.size
      → t.offset + n < 2 ^ 30 - 1024
      → (t' : Tsd) × (binlog_maybe_realloc mem t n ≡ ok t')
        × Holds t' b
        × (t'.offset ≡ t.offset)
        × (t.offset + n ≤ t'.size)
  unfolding binlog_maybe_realloc
  binlog_maybe_realloc-Holds t b n h off small = elim (Bool-cases (ltb t.size (t.offset + n))) [
    | inr fits ↦ (t, rw fits, h, refl, ground arith)
    | inl grow ↦
        let less = ltb→lt t.size (t.offset + n) grow in
        elim (Bool-cases (t.size == stack_size)) [
          | inl stack ↦
              let is_stack : t.size ≡ stack_size = (==_iff _ _).0 stack in
              let bounds = alloc_size_lem stack_size t.offset n (omega arith) small in
              let (block, e) = succeeds.malloc_some (alloc_size stack_size t.offset n) in
              let len = mem.malloc_size (alloc_size stack_size t.offset n) block e in
              let whole : take stack_size t.buf ≡ t.buf =
                take_all stack_size t.buf (omega (arith, h.sized)) in
              let copied =
                take-write_bytes block 0 (take stack_size t.buf)
                  (rw whole (omega (arith, h.sized, len, bounds.0))) in
              (
                record t { buf = copied.0; size = alloc_size stack_size t.offset n },
                rw (grow, stack, bounds.2, e, copied.1),
                regrown-Holds t b copied.0 (alloc_size stack_size t.offset n) h
                    (omega (arith, bounds.0, is_stack)) off (copied.2 ∙ len)
                    (subst (λ k. take k copied.0 ≡ t.buf) (rw whole (omega (arith, h.sized)))
                      (copied.3 ∙ whole)),
                refl,
                bounds.1,
              )
          | inr heap ↦
              let (buf, e) = succeeds.realloc_some t.buf (alloc_size t.size t.offset n) in
              let bounds = alloc_size_lem t.size t.offset n less small in
              (
                record t { buf = buf; size = alloc_size t.size t.offset n },
                rw (grow, heap, bounds.2, e),
                regrown-Holds t b buf (alloc_size t.size t.offset n) h bounds.0 off
                    (mem.realloc_size t.buf (alloc_size t.size t.offset n) buf e)
                    (subst (λ k. take k buf ≡ t.buf) h.sized
                      (mem.realloc_keeps t.buf (alloc_size t.size t.offset n) buf
                        (omega (arith, h.sized, bounds.0)) e)),
                refl,
                bounds.1,
              )
        ]
  ]

  -- Room is made for `n` bytes, and two pieces of that size in all are put behind what is there.
  print_two-Holds :
      (t : Tsd) (b x y : Bytes) (n : ℕ)
      → Holds t b
      → t.offset ≤ t.size
      → t.offset + n < 2 ^ 30 - 1024
      → n ≡ length x + length y
      → (t' : Tsd) × ((binlog_maybe_realloc mem t n >>= λ t. put t x >>= λ t. put t y >>= counted n)
          ≡ ok (n, t'))
        × Holds t' (b ++ (x ++ y))
        × (t'.offset ≡ t.offset + n)
        × (t'.offset ≤ t'.size)
  print_two-Holds t b x y n h off small len =
      let (t₁, e₁, h₁, o₁, room) = binlog_maybe_realloc-Holds t b n h off small in
      let (t₂, e₂, h₂, s₂, o₂) = put-Holds t₁ b x h₁ (omega (arith, o₁, room, len)) in
      let (t₃, e₃, h₃, s₃, o₃) =
        put-Holds t₂ (b ++ x) y h₂ (omega (arith, o₁, o₂, s₂, room, len)) in
      (
        t₃,
        rw (e₁, e₂, e₃),
        subst (λ l. Holds t₃ l) (append_assoc b x y) h₃,
        omega (arith, o₁, o₂, o₃, len),
        omega (arith, o₁, o₂, o₃, len, s₂, s₃, room),
      )

  -- Printing an argument succeeds, appends its encoding to what the buffer holds and nothing else,
  -- and returns the number of bytes; the conditions are that no allocation fails and that the record
  -- stays below the size at which the new size of the buffer would overflow an `int32_t`.
  pub print_arg-Holds :
      (t : Tsd) (b : Bytes) (a : Arg)
      → Holds t b
      → t.offset ≤ t.size
      → t.offset + length (encode_arg a) < 2 ^ 30 - 1024
      → (t' : Tsd) × (print_arg mem t a ≡ ok (length (encode_arg a), t'))
        × Holds t' (b ++ encode_arg a)
        × (t'.offset ≡ t.offset + length (encode_arg a))
        × (t'.offset ≤ t'.size)
  unfolding print_arg encode_arg
  print_arg-Holds t b (int_arg w) h off small =
      print_two-Holds t b (blog_int ∷ []) (word 4 w) 5 h off small refl
  print_arg-Holds t b (long_arg w) h off small =
      print_two-Holds t b (blog_long ∷ []) (word 8 w) 9 h off small refl
  print_arg-Holds t b (double_arg w) h off small =
      print_two-Holds t b (blog_double ∷ []) (word 8 w) 9 h off small refl
  print_arg-Holds t b (string_arg s) h off small =
      let n : ℕ = length s + 1 + 1 in
      let e : n ≡ suc (length (s ++ 0 ∷ [])) = omega (arith, length-append s (0 ∷ [])) in
      subst
        (λ k.
          (t' : Tsd) × (print_string mem t s ≡ ok (k, t'))
          × Holds t' (b ++ (blog_string ∷ (s ++ 0 ∷ [])))
          × (t'.offset ≡ t.offset + k)
          × (t'.offset ≤ t'.size))
        e
        (print_two-Holds t b (blog_string ∷ []) (s ++ 0 ∷ []) n h off (rw e small)
          (omega (arith, e)))
  print_arg-Holds t b (pointer_arg w) h off small =
      print_two-Holds t b (blog_pointer ∷ []) (word 8 w) 9 h off small refl
