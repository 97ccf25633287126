-- ===== src/Numbers.antt =====
-- src/num_convert.c: str_to_int. What it prints is left out, and so is double_to_str, which works on
-- floating point numbers.
pub mod Value
mod Tests
use cc_utils.Base.{
  ℕ, zero, suc, ◌+◌, ◌-◌, ◌*◌, ◌/◌, ◌%◌, ◌^◌, min, Bool, true, false, ◌&&◌, [], ◌∷◌, ltb, leb, ◌==◌,
  if◌then◌else◌, length,
}
use cc_utils.Base.Int.{ℤ, pos, negsuc}
use cc_utils.Base.Bytes.{Bytes}

abbrev pub int_min : ℤ
int_min = negsuc (2 ^ 31 - 1)

-- `buf[i] < '0' || buf[i] > '9'` for no character
unfoldable pub all_digits : Bytes → Bool
all_digits [] = true
all_digits (c ∷ buf) = (leb b'0' c && leb c b'9') && all_digits buf

-- The value of digits behind those that are already in `value`.
unfoldable pub digits_value : ℕ → Bytes → ℕ
digits_value value [] = value
digits_value value (c ∷ buf) = digits_value (value * 10 + (c - b'0')) buf

-- strtol(buf, NULL, 10) of digits: LONG_MAX where the value is larger.
abbrev pub strtol : Bytes → ℕ
strtol buf = min (digits_value 0 buf) (2 ^ 63 - 1)

-- A value of type `long` as an `int`.
unfoldable pub to_int : ℕ → ℤ
to_int v = let low = v % 2 ^ 32 in if ltb low (2 ^ 31) then pos low else negsuc (2 ^ 32 - 1 - low)

-- The characters from the last on.
unfoldable pub backwards : Bytes → Bytes → Bytes
backwards [] behind = behind
backwards (c ∷ buf) behind = backwards buf (c ∷ behind)

-- `'0' + remainder == buf[i]`, where the remainder of a negative number is negative or 0
unfoldable pub agrees : ℤ → ℕ → Bool
agrees (pos n) c = b'0' + n % 10 == c
agrees (negsuc n) c = b'0' == c + suc n % 10

abbrev pub minus : ℕ → ℤ
minus zero = pos 0
minus (suc n) = negsuc n

-- `checkVal /= 10`, towards 0
unfoldable pub tenth : ℤ → ℤ
tenth (pos n) = pos (n / 10)
tenth (negsuc n) = minus (suc n / 10)

-- The loop that compares the digits of `checkVal` with the characters.
unfoldable pub check_loop : ℤ → Bytes → Bool
check_loop check_val [] = true
check_loop check_val (c ∷ buf) = agrees check_val c && check_loop (tenth check_val) buf

unfoldable pub checked : ℤ → Bytes → ℤ
checked res buf = if check_loop res (backwards buf []) then res else int_min

unfoldable pub has_length : Bytes → ℤ → Bool
has_length buf (pos n) = length buf == n
has_length buf (negsuc n) = false

unfoldable pub str_to_int : Bytes → ℤ → ℤ
str_to_int buf length =
    if has_length buf length
    then if all_digits buf then checked (to_int (strtol buf)) buf else int_min
    else int_min
