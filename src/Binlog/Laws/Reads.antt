-- ===== src/Binlog/Laws/Reads.antt =====
-- Reading an argument back from its encoding: get_int to get_string of src/binlog/binlog_parser.c.
use cc_utils.Base.{
  ℕ, suc, ◌+◌, ◌^◌, ◌≤◌, ◌<◌, ◌≡◌, refl, ap, ◌∙◌, true, false, [], ◌∷◌, ◌++◌, append_assoc, ltb,
  arith, length, length-append, drop, drop-add, drop-append, ==_refl,
}
use cc_utils.Base.Outcome.{ok, ◌>>=◌}
use cc_utils.Base.Bytes.{
  Bytes, word, read_word-word, FitsWord, c_string-append, IsText, length-word,
}
use cc_utils.Binlog.{
  Kind, int, long, double, string, pointer, Arg, int_arg, long_arg, double_arg, string_arg,
  pointer_arg, kind_of, same_kind, blog_int, blog_long, blog_double, blog_string, blog_pointer,
}
use cc_utils.Binlog.Parser.{VaList, get_word, get_string, get_arg}
use cc_utils.Binlog.Laws.Growth.{encode_arg}

-- A bit pattern of the argument's width, or text without a terminator in it.
abbrev pub IsArg : Arg → Type 0
IsArg (int_arg w) = w < 2 ^ 32
IsArg (long_arg w) = w < 2 ^ 64
IsArg (double_arg w) = w < 2 ^ 64
IsArg (string_arg s) = IsText s
IsArg (pointer_arg w) = w < 2 ^ 64

-- The list is at the bytes `b`, with `more` behind them, and `b` lies in the record.
pub record At (v : VaList) (b more : Bytes) : Type 0 where
  pub bytes : drop v.off v.buf ≡ b ++ more
  pub inside : v.off + length b ≤ v.len

abbrev pub forward : VaList → ℕ → VaList
forward v n = record v { off = v.off + n }

pub At-forward :
    (v : VaList) (b c more : Bytes) → At v (b ++ c) more → At (forward v (length b)) c more
At-forward v b c more h = record {
  bytes =
      drop-add v.off (length b) v.buf
      ∙ rw (h.bytes, append_assoc b c more) (drop-append b (c ++ more) (length b) refl);
  inside = omega (arith, length-append b c, h.inside);
}

pub FitsWord4 : (w : ℕ) → w < 2 ^ 32 → FitsWord 4 w
FitsWord4 w h = omega arith

FitsWord8 : (w : ℕ) → w < 2 ^ 64 → FitsWord 8 w
FitsWord8 w h = omega arith

-- The bytes behind the tag.
behind_tag :
    (tag : ℕ) (v : VaList) (b more : Bytes)
    → drop v.off v.buf ≡ tag ∷ (b ++ more)
    → drop (v.off + 1) v.buf ≡ b ++ more
behind_tag tag v b more h = drop-add v.off 1 v.buf ∙ rw h

pub get_word-encoded :
    (tag n w : ℕ) (v : VaList) (c more : Bytes)
    → FitsWord n w
    → At v ((tag ∷ word n w) ++ c) more
    → get_word tag n v ≡ ok (w, forward v (suc (length (word n w))))
unfolding get_word
get_word-encoded tag n w v c more fits h =
    let room : ltb v.len (v.off + 1 + n) ≡ false =
      ground (arith, length-append (word n w) c, length-word n w) in
    let next = behind_tag tag v (word n w ++ c) more h.bytes in
    rw
      (
        room,
        h.bytes,
        ==_refl tag,
        next,
        append_assoc (word n w) c more,
        read_word-word n w (c ++ more) fits,
      )
      (ap (λ o. ok (w, record v { off = o })) (omega (arith, length-word n w)))

get_string-encoded :
    (s : Bytes) (v : VaList) (c more : Bytes)
    → IsText s
    → At v ((blog_string ∷ (s ++ 0 ∷ [])) ++ c) more
    → get_string v ≡ ok (s, forward v (suc (length (s ++ 0 ∷ []))))
unfolding get_string
get_string-encoded s v c more is h =
    let len = length-append s (0 ∷ []) in
    let room : ltb v.len (v.off + 1 + length s + 1) ≡ false =
      ground (arith, length-append (s ++ 0 ∷ []) c, len) in
    let next = behind_tag blog_string v (s ++ 0 ∷ [] ++ c) more h.bytes in
    let split : s ++ 0 ∷ [] ++ c ++ more ≡ s ++ 0 ∷ (c ++ more) =
      append_assoc (s ++ 0 ∷ []) c more ∙ append_assoc s (0 ∷ []) (c ++ more) in
    rw (next, split, c_string-append s (c ++ more) is, room, h.bytes)
      (ap (λ o. ok (s, record v { off = o })) (omega (arith, len)))

-- An encoded argument is read back as it was, and the list moves on behind it.
pub get_arg-encoded :
    (k : Kind) (a : Arg) (v : VaList) (c more : Bytes)
    → same_kind k (kind_of a) ≡ true
    → IsArg a
    → At v (encode_arg a ++ c) more
    → (get_arg k v ≡ ok (a, forward v (length (encode_arg a))))
      × At (forward v (length (encode_arg a))) c more
unfolding get_arg encode_arg
get_arg-encoded int (int_arg w) v c more same is h = (
  ap (λ r. r >>= λ (w, v). ok (int_arg w, v))
      (get_word-encoded blog_int 4 w v c more (FitsWord4 w is) h),
  At-forward v (blog_int ∷ word 4 w) c more h,
)
get_arg-encoded long (long_arg w) v c more same is h = (
  rw (get_word-encoded blog_long 8 w v c more (FitsWord8 w is) h),
  At-forward v (blog_long ∷ word 8 w) c more h,
)
get_arg-encoded double (double_arg w) v c more same is h = (
  rw (get_word-encoded blog_double 8 w v c more (FitsWord8 w is) h),
  At-forward v (blog_double ∷ word 8 w) c more h,
)
get_arg-encoded string (string_arg s) v c more same is h =
    (rw (get_string-encoded s v c more is h), At-forward v (blog_string ∷ (s ++ 0 ∷ [])) c more h)
get_arg-encoded pointer (pointer_arg w) v c more same is h = (
  rw (get_word-encoded blog_pointer 8 w v c more (FitsWord8 w is) h),
  At-forward v (blog_pointer ∷ word 8 w) c more h,
)
get_arg-encoded _ _ v c more same is h = cc
