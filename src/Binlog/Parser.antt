-- ===== src/Binlog/Parser.antt =====
-- src/binlog/binlog_parser.c, first half: reading the arguments of a record back.
pub mod Print
pub mod Find
pub mod Loop
pub mod Create
pub mod Main
use cc_utils.Base.{
  ℕ, ◌+◌, ◌-◌, ◌^◌, Bool, true, false, Option, none, some, List, [], ◌∷◌, ltb, ◌==◌, if◌then◌else◌,
  length, drop,
}
use cc_utils.Base.Outcome.{Outcome, ok, fault, ◌>>=◌, ◌>>◌, assert}
use cc_utils.Base.Bytes.{Bytes, read_word, c_string}
use cc_utils.Binlog.{
  Kind, int, long, double, string, pointer, Arg, int_arg, long_arg, double_arg, string_arg,
  pointer_arg, blog_int, blog_long, blog_double, blog_string, blog_pointer,
}

-- `binlog_va_list`
pub record VaList : Type 0 where
  pub len : ℕ
  pub off : ℕ
  pub buf : Bytes

abbrev pub head_equals : ℕ → Bytes → Bool
head_equals c [] = false
head_equals c (x ∷ b) = x == c

-- A read of something that may not be there.
abbrev pub readable {ℓ} : {A : Type ℓ} → Option A → Outcome A
readable none = fault
readable (some a) = ok a

-- get_int, get_long, get_double, get_pointer, by tag and width
unfoldable pub get_word : ℕ → ℕ → VaList → Outcome (ℕ × VaList)
get_word tag width v = if ltb v.len (v.off + 1 + width) then fault else do
  assert (head_equals tag (drop v.off v.buf))
  w ← readable (read_word width (drop (v.off + 1) v.buf))
  ok (w, record v { off = v.off + 1 + width })

-- get_string: the length is taken before the tag is looked at.
unfoldable pub get_string : VaList → Outcome (Bytes × VaList)
get_string v = do
  s ← readable (c_string (drop (v.off + 1) v.buf))
  if ltb v.len (v.off + 1 + length s + 1) then fault else (do
    assert (head_equals blog_string (drop v.off v.buf))
    ok (s, record v { off = v.off + 1 + (length s + 1) }))

-- binlog_va_arg(BTYPE)
unfoldable pub get_arg : Kind → VaList → Outcome (Arg × VaList)
unfolding get_word get_string
get_arg int v = get_word blog_int 4 v >>= λ (w, v). ok (int_arg w, v)
get_arg long v = get_word blog_long 8 v >>= λ (w, v). ok (long_arg w, v)
get_arg double v = get_word blog_double 8 v >>= λ (w, v). ok (double_arg w, v)
get_arg string v = get_string v >>= λ (s, v). ok (string_arg s, v)
get_arg pointer v = get_word blog_pointer 8 v >>= λ (w, v). ok (pointer_arg w, v)
