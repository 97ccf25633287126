-- ===== src/Numbers/Value.antt =====
-- What str_to_int of src/num_convert.c returns.
use cc_utils.Base.{
  ℕ, zero, suc, ◌+◌, ◌-◌, ◌*◌, ◌/◌, ◌%◌, ◌^◌, ◌≤◌, ◌<◌, ◌≡◌, refl, ap, sym, ◌∙◌, min, true, ◌&&◌,
  Bool-cases, inl, inr, [], ◌∷◌, ltb, leb, ◌==◌, if◌then◌else◌, arith,
}
use cc_utils.Base.Int.{ℤ, pos, negsuc}
use cc_utils.Base.Bytes.{Bytes}
use cc_utils.Numbers.{
  int_min, all_digits, digits_value, strtol, to_int, backwards, agrees, minus, tenth, check_loop,
  checked, has_length, str_to_int,
}

-- The value of digits from the last on.
unfoldable last_first : Bytes → ℕ
last_first [] = 0
last_first (c ∷ buf) = (c - b'0') + 10 * last_first buf

backwards-value :
    (buf behind : Bytes) → last_first (backwards buf behind) ≡ digits_value (last_first behind) buf
unfolding backwards last_first digits_value
backwards-value [] behind = refl
backwards-value (c ∷ buf) behind =
    backwards-value buf (c ∷ behind)
    ∙ ap (λ v. digits_value v buf) {x = (c - b'0') + 10 * last_first behind}
        {y = last_first behind * 10 + (c - b'0')} (omega arith)

all_digits-backwards :
    (buf behind : Bytes)
    → all_digits buf ≡ true
    → all_digits behind ≡ true
    → all_digits (backwards buf behind) ≡ true
unfolding all_digits backwards
all_digits-backwards [] behind h g = g
all_digits-backwards (c ∷ buf) behind h g =
    all_digits-backwards buf (c ∷ behind) (ground (arith, h)) (ground (arith, h, g))

-- The digits of a number that is the value of the characters agree with them.
check-value :
    (n : ℕ) (buf : Bytes)
    → all_digits buf ≡ true
    → n ≡ last_first buf
    → check_loop (pos n) buf ≡ true
unfolding check_loop agrees tenth all_digits last_first
check-value n [] h e = refl
check-value n (c ∷ buf) h e =
    let low : leb b'0' c ≡ true = ground (arith, h) in
    let high : leb c b'9' ≡ true = ground (arith, h) in
    let rest : all_digits buf ≡ true = ground (arith, h) in
    let same : (b'0' + n % 10 == c) ≡ true = ground arith in
    rw (same, check-value (n / 10) buf rest (ground arith)) refl

-- Where they agree, the value of the characters is no larger than the number.
value-check :
    (n : ℕ) (buf : Bytes)
    → all_digits buf ≡ true
    → check_loop (pos n) buf ≡ true
    → last_first buf ≤ n
unfolding check_loop agrees tenth all_digits last_first
value-check n [] h e = omega arith
value-check n (c ∷ buf) h e =
    let rest : all_digits buf ≡ true = ground (arith, h) in
    let same : (b'0' + n % 10 == c) ≡ true = ground (arith, e) in
    let more : check_loop (pos (n / 10)) buf ≡ true = ground (arith, e) in
    let le = value-check (n / 10) buf rest more in ground arith

-- The digits of a negative number agree with zeros only.
zero-check :
    (n : ℕ) (buf : Bytes)
    → all_digits buf ≡ true
    → check_loop (minus n) buf ≡ true
    → last_first buf ≡ 0
unfolding check_loop agrees tenth all_digits last_first
zero-check zero buf h e = omega (arith, value-check 0 buf h e)
zero-check (suc n) [] h e = refl
zero-check (suc n) (c ∷ buf) h e =
    let low : leb b'0' c ≡ true = ground (arith, h) in
    let rest : all_digits buf ≡ true = ground (arith, h) in
    let same : (b'0' == c + suc n % 10) ≡ true = ground (arith, e) in
    let more : check_loop (minus (suc n / 10)) buf ≡ true = ground (arith, e) in
    let z = zero-check (suc n / 10) buf rest more in ground arith

checked-fits :
    (buf : Bytes)
    → all_digits buf ≡ true
    → digits_value 0 buf < 2 ^ 31
    → checked (to_int (strtol buf)) buf ≡ pos (digits_value 0 buf)
unfolding checked to_int all_digits last_first
checked-fits buf h small =
    let v = digits_value 0 buf in
    let whole : min v (2 ^ 63 - 1) ≡ v = omega arith in
    let low : v % 2 ^ 32 ≡ v = omega arith in
    let fits : ltb v (2 ^ 31) ≡ true = ground arith in
    rw
      (
        whole,
        low,
        fits,
        check-value v (backwards buf []) (all_digits-backwards buf [] h refl)
            (sym (backwards-value buf [])),
      )
      refl

checked-large :
    (buf : Bytes)
    → all_digits buf ≡ true
    → 2 ^ 31 ≤ digits_value 0 buf
    → checked (to_int (strtol buf)) buf ≡ int_min
unfolding checked to_int all_digits last_first
checked-large buf h large =
    let low = strtol buf % 2 ^ 32 in
    let digits = all_digits-backwards buf [] h refl in
    let value = backwards-value buf [] in
    elim (Bool-cases (ltb low (2 ^ 31))) [
      | inl e ↦ elim (Bool-cases (check_loop (pos low) (backwards buf []))) [
        | inl agree ↦
            let le = value-check low (backwards buf []) digits agree in
            absurd (ground (arith, e, le, value))
        | inr differ ↦ rw (e, differ) refl
      ]
      | inr e ↦ elim (Bool-cases (check_loop (negsuc (2 ^ 32 - 1 - low)) (backwards buf []))) [
        | inl agree ↦
            let none = zero-check (suc (2 ^ 32 - 1 - low)) (backwards buf []) digits agree in
            absurd (omega (arith, none, value))
        | inr differ ↦ rw (e, differ) refl
      ]
    ]

-- For a text of decimal digits whose length is the one that is given, and whose value is less than
-- 2 ^ 31, str_to_int returns the value; for every other text, and every other length, it returns
-- INT_MIN, also where strtol stops at LONG_MAX and where the conversion to `int` wraps around.
pub str_to_int-value :
    (buf : Bytes) (n : ℤ)
    → str_to_int buf n ≡ (
        if has_length buf n && all_digits buf && ltb (digits_value 0 buf) (2 ^ 31)
        then pos (digits_value 0 buf)
        else int_min)
unfolding str_to_int
str_to_int-value buf n = elim (Bool-cases (has_length buf n)) [
  | inr other ↦ rw other refl
  | inl same ↦ elim (Bool-cases (all_digits buf)) [
    | inr letters ↦ rw (same, letters) refl
    | inl digits ↦ elim (Bool-cases (ltb (digits_value 0 buf) (2 ^ 31))) [
      | inl small ↦ rw (same, digits, small) (checked-fits buf digits (ground (arith, small)))
      | inr large ↦ rw (same, digits, large) (checked-large buf digits (ground (arith, large)))
    ]
  ]
]
