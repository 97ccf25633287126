-- ===== src/Binlog/Laws/Written.antt =====
-- What binlog_print of src/binlog/binlog.c hands to write().
use cc_utils.Base.{
  ℕ, suc, ◌+◌, ◌%◌, ◌≤◌, ◌<◌, ◌≡◌, refl, ap, ◌∙◌, true, some, List, [], ◌∷◌, ◌++◌, append_assoc,
  ◌==◌, arith, length, length-append, take, ==_refl, ltb, ◌^◌,
}
use cc_utils.Base.Outcome.{ok, fault}
use cc_utils.Base.Bytes.{Bytes, word, write_bytes}
use cc_utils.Binlog.{Arg, blog_begin, blog_end, stack_size}
use cc_utils.Binlog.Buffer.{Allocator, Tsd, put, binlog_maybe_free}
use cc_utils.Binlog.Record.{Call, now, prefix_size, prefix, print_begin, print_end, binlog_print}
use cc_utils.Binlog.Pieces.{Piece, render, Fits}
use cc_utils.Binlog.Laws.Growth.{Succeeds, put-Holds, binlog_maybe_realloc-Holds}
use cc_utils.Binlog.Laws.Valog.{encode_args, Ready, limit, do_valog-encode}

-- The fields of a record behind its length.
unfoldable pub fields : Call → Bytes
fields c = (c.level % 256) ∷ (c.func ++ 0 ∷ (word 4 c.line ++ (word 8 c.self ++ word 8 (now c))))

-- The number of bytes of a record.
unfoldable pub record_size : Call → List Arg → ℕ
record_size c args = length (encode_args args) + prefix_size c + 1 + 1

-- A whole record: begin, length, fields, arguments, end.
unfoldable pub record_bytes : Call → List Arg → Bytes
record_bytes c args =
    blog_begin
    ∷ (word 4 (record_size c args) ++ (fields c ++ (encode_args args ++ (blog_end ∷ []))))

length-prefix : (c : Call) → length (prefix c) ≡ prefix_size c
length-prefix c =
    omega (arith, length-append c.func (0 ∷ (word 4 c.line ++ (word 8 c.self ++ word 8 (now c)))))

-- The length is patched in.
patch :
    (n k : ℕ) (rest buf : Bytes)
    → take (suc (suc (suc (suc (suc k))))) buf ≡ blog_begin ∷ (word 4 0 ++ rest)
    → 5 + k ≤ length buf
    → (buf' : Bytes) × (write_bytes buf 1 (word 4 n) ≡ ok buf')
      × (length buf' ≡ length buf)
      × (take (suc (suc (suc (suc (suc k))))) buf' ≡ blog_begin ∷ (word 4 n ++ rest))
unfolding write_bytes
patch n k rest (x ∷ a ∷ b ∷ c ∷ d ∷ buf) e h = (x ∷ (word 4 n ++ buf), ground arith, refl, cc)
patch n k rest _ e h = absurd (omega arith)

patch-Ready :
    (t : Tsd) (n : ℕ) (rest : Bytes)
    → Ready t (blog_begin ∷ (word 4 0 ++ rest))
    → (buf : Bytes) × (write_bytes t.buf 1 (word 4 n) ≡ ok buf)
      × Ready (record t { buf = buf }) (blog_begin ∷ (word 4 n ++ rest))
patch-Ready t n rest h =
    let off : t.offset ≡ suc (suc (suc (suc (suc (length rest))))) = h.holds.ends in
    let (buf, e, len, same) =
      patch n (length rest) rest t.buf (rw (← off) h.holds.holds)
        (omega (arith, h.inside, h.holds.sized)) in
    (
      buf,
      e,
      record {
        holds = record {
          sized = len ∙ h.holds.sized;
          least = h.holds.least;
          ends = off;
          holds = rw off same;
        };
        inside = h.inside;
      },
    )

-- Bytes that do not fit the buffer are written outside of it.
put_overrun : (t : Tsd) (bs : Bytes) → length t.buf < t.offset + length bs → put t bs ≡ fault
unfolding put write_bytes
put_overrun t bs h = ground arith

-- The state of the thread's buffer after a record, and at its start.
abbrev pub cleared : Tsd
cleared = record { buf = []; size = 0; offset = 0 }

abbrev fresh : Bytes → Tsd
fresh stack = record { buf = stack; size = stack_size; offset = 0 }

module _ (mem : Allocator) (succeeds : Succeeds mem) where
  print_end-Ready :
      (t : Tsd) (n : ℕ) (rest : Bytes)
      → Ready t (blog_begin ∷ (word 4 0 ++ rest))
      → 5 + length rest + 1 < limit
      → print_end mem t n ≡ ok (blog_begin ∷ (word 4 n ++ rest) ++ (blog_end ∷ []), cleared)
  unfolding print_end binlog_maybe_free
  print_end-Ready t n rest h small =
      let (t₁, e₁, h₁, o₁, room) =
        binlog_maybe_realloc-Holds mem succeeds t (blog_begin ∷ (word 4 0 ++ rest)) 1 h.holds
          h.inside (omega (arith, h.holds.ends)) in
      let ready : Ready t₁ (blog_begin ∷ (word 4 0 ++ rest)) = record {
        holds = h₁;
        inside = omega (arith, o₁, room);
      } in
      let (buf, e₂, h₂) = patch-Ready t₁ n rest ready in
      let (t₃, e₃, h₃, s₃, o₃) =
        put-Holds (record t₁ { buf = buf }) (blog_begin ∷ (word 4 n ++ rest)) (blog_end ∷ [])
          h₂.holds (omega (arith, o₁, room)) in
      rw (e₁, e₂, e₃, binlog_maybe_free) (ap (λ b. ok (b, cleared)) h₃.holds)

  fresh-Ready : (stack : Bytes) → length stack ≡ stack_size → Ready (fresh stack) []
  fresh-Ready stack h = record {
    holds = record { sized = h; least = omega arith; ends = refl; holds = refl };
    inside = omega arith;
  }

  -- For a function name of at most 997 bytes, a format of literal characters and conversions with the
  -- letters d, i, o, u, x, X, c, e, E, f, g, G, s and p, as Binlog.Pieces describes them (no `%%`, no
  -- precision `*`, no lengths z, t, j and L) and the arguments that it takes, binlog_print ends without
  -- a fault and hands exactly the bytes of the record to write(), its true length in the length field;
  -- the thread's buffer is cleared. The time in microseconds fits a `time_t`, no allocation fails, the
  -- record stays below the limit of the counters, and the `int` of an asterisk is not the least one.
  pub binlog_print-record :
      (stack : Bytes) (c : Call) (ps : List Piece) (args : List Arg)
      → length stack ≡ stack_size
      → length c.func ≤ 997
      → now c < 2 ^ 63
      → Fits ps args
      → record_size c args < limit
      → binlog_print mem true stack c (render ps) args ≡ ok (some (record_bytes c args, cleared))
  unfolding binlog_print print_begin record_bytes record_size fields
  binlog_print-record stack c ps args hs hf time fits small =
      let (t₁, e₁, h₁, s₁, o₁) =
        put-Holds (fresh stack) [] (blog_begin ∷ []) (fresh-Ready stack hs).holds (omega arith) in
      let (t₂, e₂, h₂, s₂, o₂) =
        put-Holds t₁ (blog_begin ∷ []) (prefix c) h₁ (omega (arith, o₁, s₁, length-prefix c, hf)) in
      let ready : Ready t₂ (blog_begin ∷ prefix c) = record {
        holds = h₂;
        inside = omega (arith, o₁, s₁, o₂, s₂, length-prefix c);
      } in
      let (t₃, e₃, h₃) =
        do_valog-encode mem succeeds ps args t₂ (blog_begin ∷ prefix c) fits ready
          (omega (arith, length-prefix c)) in
      let body : Bytes = fields c ++ encode_args args in
      let asserted : (prefix_size c == length (prefix c)) ≡ true =
        rw (length-prefix c) (==_refl (prefix_size c)) in
      let size = length-append (fields c) (encode_args args) in
      let done =
        print_end-Ready t₃ (record_size c args) body h₃ (omega (arith, size, length-prefix c)) in
      let in_range : ltb (now c) (2 ^ 63) ≡ true = ground arith in
      rw (in_range, asserted, e₁, e₂, e₃, done)
        (ap (λ b. ok (some ((blog_begin ∷ (word 4 (record_size c args) ++ b)), cleared)))
          (append_assoc (fields c) (encode_args args) (blog_end ∷ [])))

  -- A function name of more than 997 bytes overruns the array on the stack: print_begin does not
  -- ask for room.
  pub binlog_print-overrun :
      (stack : Bytes) (c : Call) (format : Bytes) (args : List Arg)
      → length stack ≡ stack_size
      → 997 < length c.func
      → now c < 2 ^ 63
      → binlog_print mem true stack c format args ≡ fault
  unfolding binlog_print print_begin
  binlog_print-overrun stack c format args hs hf time =
      let asserted : (prefix_size c == length (prefix c)) ≡ true =
        rw (length-prefix c) (==_refl (prefix_size c)) in
      let (t₁, e₁, h₁, s₁, o₁) =
        put-Holds (fresh stack) [] (blog_begin ∷ []) (fresh-Ready stack hs).holds (omega arith) in
      let in_range : ltb (now c) (2 ^ 63) ≡ true = ground arith in
      rw (
        in_range,
        asserted,
        e₁,
        put_overrun t₁ (prefix c) (omega (arith, h₁.sized, s₁, o₁, length-prefix c)),
      )

-- The length field says how many bytes a record has.
pub length-record_bytes :
    (c : Call) (args : List Arg) → length (record_bytes c args) ≡ record_size c args
unfolding record_bytes record_size fields
length-record_bytes c args =
    let words : Bytes = 0 ∷ (word 4 c.line ++ (word 8 c.self ++ word 8 (now c))) in
    omega (
      arith,
      length-append (c.func ++ words) (encode_args args ++ (blog_end ∷ [])),
      length-append c.func words,
      length-append (encode_args args) (blog_end ∷ []),
    )
