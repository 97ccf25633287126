-- ===== src/Bitmap/Print.antt =====
-- What bitmap_print shows of a map, and what it does not.
use cc_utils.Base.{ℕ, zero, suc, ◌+◌, ◌%◌, ◌<◌, ◌≡◌, refl, List, [], set, replicate, arith, ap, ◌∙◌}
use cc_utils.Base.Outcome.{ok, >>=_cong}
use cc_utils.Base.Bytes.{Bytes}
use cc_utils.Base.Int.{ℤ, pos}
use cc_utils.Bitmap.{Bitmap, print_round, print_loop, bitmap_print, bitmap_get, digit_of}

-- Two maps of one length that read alike except for the last bit.
pub record AgreeButLast (a b : Bitmap) : Type 0 where
  pub len : a.len ≡ b.len
  pub reads : (m : ℕ) → m + 1 < a.len → bitmap_get a (pos m) ≡ bitmap_get b (pos m)
  pub last_a : (m : ℕ) → m + 1 ≡ a.len → (v : ℤ) × (bitmap_get a (pos m) ≡ ok v)
  pub last_b : (m : ℕ) → m + 1 ≡ a.len → (v : ℤ) × (bitmap_get b (pos m) ≡ ok v)

print_loop_agree :
    (a b : Bitmap) (rounds i : ℕ) (str : Bytes) (out : List Bytes)
    → AgreeButLast a b
    → i + rounds ≡ a.len
    → print_loop a rounds i str out ≡ print_loop b rounds i str out
unfolding print_loop
print_loop_agree a b zero i str out h e = refl
print_loop_agree a b (suc zero) i str out h e =
    >>=_cong (ap (λ n. print_round n i str out) h.len)
      λ (str', out'). rw ((h.last_a i (omega arith)).1, (h.last_b i (omega arith)).1)
print_loop_agree a b (suc (suc r)) i str out h e =
    >>=_cong (ap (λ n. print_round n i str out) h.len) λ (str', out').
      >>=_cong (h.reads i (omega arith)) λ bit.
        print_loop_agree a b (suc r) (i + 1) (set str' (i % 64) (digit_of bit)) out' h (omega arith)

-- bitmap_print prints the same for two maps of one length that differ in their last bit only: the
-- line with the last bit is printed before the bit is stored in it.
pub bitmap_print-ignores_last : (a b : Bitmap) → AgreeButLast a b → bitmap_print a ≡ bitmap_print b
unfolding bitmap_print
bitmap_print-ignores_last a b h =
    >>=_cong
      (print_loop_agree a b a.len 0 (replicate 65 0) [] h (omega arith)
        ∙ ap (λ n. print_loop b n 0 (replicate 65 0) []) h.len)
      (λ out. refl)
