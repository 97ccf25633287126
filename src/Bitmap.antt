-- ===== src/Bitmap.antt =====
-- src/bitmap.c and include/bitmap.h: a map of bits over an array of bytes.
pub mod Laws
pub mod Print
mod Tests
use cc_utils.Base.{
  ℕ, zero, suc, ◌+◌, ◌-◌, ◌*◌, ◌/◌, ◌%◌, ◌^◌, bit_and, bit_or, Bool, true, false, ◌&&◌, not, Option,
  none, some, List, [], ◌∷◌, ◌++◌, ltb, leb, ◌==◌, if◌then◌else◌, get_elem?, set, replicate,
}
use cc_utils.Base.Outcome.{Outcome, ok, fault, ◌>>=◌}
use cc_utils.Base.Heap.{Heap}
use cc_utils.Base.Bytes.{Bytes, c_string}
use cc_utils.Base.Int.{ℤ, pos, negsuc}

-- `bitmap`. A bitmap that bitmap_alloc made has a non-negative `len`.
pub record Bitmap : Type 0 where
  pub bytes : List ℕ
  pub len : ℕ

-- BIT_SUCCESS and BIT_FAIL
abbrev pub bit_success : ℤ
bit_success = pos 1

abbrev pub bit_fail : ℤ
bit_fail = negsuc 0

-- ROUND_UP(val, x)
abbrev pub round_up : ℕ → ℕ → ℕ
round_up val x = (val + x - 1) / x * x

-- The two calls of malloc() are given as their success; the second is freed with the first.
-- `none` is the NULL that is returned.
pub bitmap_alloc : (got_head got_bytes : Bool) → ℕ → Option Bitmap
bitmap_alloc got_head got_bytes len =
    if not got_head
    then none
    else if not got_bytes
    then none
    else some (record { bytes = replicate (round_up len 8 / 8) 0; len = len })

-- The blocks of a bitmap: its own, and `data`.
pub record BitmapBlocks : Type 0 where
  pub address : ℕ
  pub data_block : Option ℕ

-- `none` is NULL; free() of the `data` that is NULL does nothing.
abbrev pub bitmap_free : (heap : Heap) → Option BitmapBlocks → heap.State → heap.State
bitmap_free heap none s = s
bitmap_free heap (some b) s = heap.free (heap.free s b.data_block) (some b.address)

-- `data[i]`, a fault outside of the array.
abbrev pub byte_at : Bitmap → ℕ → Outcome ℕ
byte_at bits i = elim (get_elem? bits.bytes i) [ none ↦ fault | some b ↦ ok b ]

-- `b & ~(0x01 << k)` and `b | (0x01 << k)`, of a byte and k < 8, stored in a byte
abbrev pub clear_bit : ℕ → ℕ → ℕ
clear_bit b k = bit_and b (255 - 2 ^ k)

abbrev pub raise_bit : ℕ → ℕ → ℕ
raise_bit b k = bit_or b (2 ^ k)

-- The store into the byte, for an offset that is not negative.
pub set_at : Bitmap → ℕ → ℕ → Outcome (ℤ × Bitmap)
set_at bits n value = do
  b ← byte_at bits (n / 8)
  let b' = if value == 0 then clear_bit b (n % 8) else raise_bit b (n % 8)
  ok (bit_success, record bits { bytes = set bits.bytes (n / 8) b' })

-- A negative offset passes the test `offset >= bits->len`, and the shift by a negative number, or
-- the access in front of the array, is undefined.
pub bitmap_set : Bitmap → ℤ → ℕ → Outcome (ℤ × Bitmap)
unfolding set_at
bitmap_set bits (pos n) value =
    if not (value == 0) && not (value == 1)
    then ok (bit_fail, bits)
    else if leb bits.len n
    then ok (bit_fail, bits)
    else set_at bits n value
bitmap_set bits (negsuc n) value =
    if not (value == 0) && not (value == 1) then ok (bit_fail, bits) else fault

pub bitmap_get : Bitmap → ℤ → Outcome ℤ
bitmap_get bits (pos n) =
    if leb bits.len n
    then ok bit_fail
    else do b ← byte_at bits (n / 8); ok (if ltb 0 (bit_and b (2 ^ (n % 8))) then pos 1 else pos 0)
bitmap_get bits (negsuc n) = fault

-- `printf("%s\n", str)`, a fault where `str` has no terminator
abbrev pub print_line : Bytes → List Bytes → Outcome (List Bytes)
print_line str out = elim (c_string str) [ none ↦ fault | some s ↦ ok (out ++ (s ∷ [])) ]

-- What a round of the loop of bitmap_print prints, before it stores the bit.
abbrev pub print_round : ℕ → ℕ → Bytes → List Bytes → Outcome (Bytes × List Bytes)
print_round len i str out =
    if ltb 0 i && i % 64 == 0
    then print_line str out >>= (λ lines. ok (str, lines))
    else if i + 1 == len
    then print_line (set str ((i + 1) % 64) 0) out
      >>= (λ lines. ok (set str ((i + 1) % 64) 0, lines))
    else ok (str, out)

-- `bit ? '1' : '0'`
abbrev pub digit_of : ℤ → ℕ
digit_of (pos zero) = b'0'
digit_of (pos (suc n)) = b'1'
digit_of (negsuc n) = b'1'

-- The rounds left, `i`, `str` and the lines printed so far.
pub print_loop : Bitmap → ℕ → ℕ → Bytes → List Bytes → Outcome (List Bytes)
print_loop bits zero i str out = ok out
print_loop bits (suc rounds) i str out = do
  (str, out) ← print_round bits.len i str out
  bit ← bitmap_get bits (pos i)
  print_loop bits rounds (i + 1) (set str (i % 64) (digit_of bit)) out

-- The lines that are printed; the last one, `printf("\n")`, is empty.
pub bitmap_print : Bitmap → Outcome (List Bytes)
unfolding print_loop bitmap_get
bitmap_print bits = do out ← print_loop bits bits.len 0 (replicate 65 0) []; ok (out ++ ([] ∷ []))
