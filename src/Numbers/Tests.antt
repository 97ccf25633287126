-- ===== src/Numbers/Tests.antt =====
-- str_to_int of "070".
use cc_utils.Base.{◌≡◌, [], ◌∷◌}
use cc_utils.Base.Int.{pos}
use cc_utils.Base.Bytes.{Bytes}
use cc_utils.Numbers.{all_digits, digits_value, has_length, str_to_int}
use cc_utils.Numbers.Value.{str_to_int-value}

abbrev seventy : Bytes
seventy = b'0' ∷ b'7' ∷ b'0' ∷ []

str_to_int-value_example : str_to_int seventy (pos 3) ≡ pos 70
unfolding has_length all_digits digits_value
str_to_int-value_example = str_to_int-value seventy (pos 3)
