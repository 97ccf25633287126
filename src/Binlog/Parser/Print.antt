-- ===== src/Binlog/Parser/Print.antt =====
-- print_format of src/binlog/binlog_parser.c: the walk over a format that prints the arguments of a
-- record. What goes to the stream is kept as a list, a character or a call of fprintf at a time.
use cc_utils.Base.{
  ℕ, zero, suc, ◌+◌, ◌-◌, ◌^◌, Bool, true, false, Option, none, some, List, [], ◌∷◌, ◌++◌, ltb, leb,
  ◌==◌, if◌then◌else◌, length, All, ◌≡◌,
}
use cc_utils.Base.Outcome.{Outcome, ok, fault, out_of_fuel, ◌>>=◌}
use cc_utils.Base.Bytes.{Bytes}
use cc_utils.Binlog.{
  Kind, int, long, double, string, pointer, Arg, is_flag, is_digit, is_integer, is_float,
  takes_type,
}
use cc_utils.Binlog.Format.{advance, head_is, Widths, widen, is_length}
use cc_utils.Binlog.Parser.{VaList, get_word, get_arg}

-- sprintf(buf, "%d", value) for a value that is not negative, which gives digits, and what fprintf
-- returns for a specifier and its argument, `none` for -1.
pub record Stdio : Type 0 where
  pub sprintf_d : ℕ → Bytes
  pub digits : (n : ℕ) → All (λ c. is_digit c ≡ true) (sprintf_d n)
  pub fprintf : Bytes → Arg → Option ℕ

pub data Output : Type 0 where
  char : ℕ → Output
  formatted : Bytes → Arg → Output

-- `ptr`, what `specifier` holds, `va_list`, the output, `total_printed`; `failed` once fprintf has
-- returned -1, with which the function returns.
pub record Printing : Type 0 where
  pub ptr : Bytes
  pub specifier : Bytes
  pub va : VaList
  pub out : List Output
  pub total_printed : ℕ
  pub failed : Bool

-- abs() of an `int`; of the least one it is undefined.
abbrev pub abs_value : ℕ → ℕ
abs_value w = if ltb w (2 ^ 31) then w else 2 ^ 32 - w

abbrev pub abs : ℕ → Outcome ℕ
abs w = if w == 2 ^ 31 then fault else ok (abs_value w)

-- `*sptr++ = *ptr++` while there are flags
unfoldable pub copy_flags : Bytes → Bytes → Outcome (Bytes × Bytes)
copy_flags [] spec = fault
copy_flags (c ∷ p) spec =
    let rest = copy_flags p (spec ++ (c ∷ [])) in if is_flag c then rest else ok (c ∷ p, spec)

unfoldable pub copy_digits : Bytes → Bytes → Bytes × Bytes
copy_digits [] spec = ([], spec)
copy_digits (c ∷ p) spec =
    let rest = copy_digits p (spec ++ (c ∷ [])) in if is_digit c then rest else (c ∷ p, spec)

unfoldable pub copy_lengths : Bytes → Bytes → Widths → Outcome (Bytes × Bytes × Widths)
copy_lengths [] spec w = fault
copy_lengths (c ∷ p) spec w =
    let rest = copy_lengths p (spec ++ (c ∷ [])) (widen c w) in
    if is_length c then rest else ok (c ∷ p, spec, w)

-- The lengths in a specifier: none of its other characters is one.
unfoldable pub lengths_of : Bytes → Bytes
lengths_of [] = []
lengths_of (c ∷ p) = let rest = lengths_of p in if is_length c then c ∷ rest else rest

module _ (io : Stdio) where
  -- COPY_VA_INT
  unfoldable pub copy_va_int : Printing → Outcome Printing
  copy_va_int s = do
    (w, va) ← get_word 0 4 s.va
    value ← abs w
    ptr ← advance s.ptr
    ok (record s { ptr = ptr; va = va; specifier = s.specifier ++ io.sprintf_d value })

  unfoldable pub print_width : Printing → Outcome Printing
  print_width s =
      if head_is b'*' s.ptr
      then copy_va_int s
      else (let (ptr, spec) = copy_digits s.ptr s.specifier in
          ok (record s { ptr = ptr; specifier = spec }))

  unfoldable pub print_precision : Printing → Outcome Printing
  print_precision s =
      if head_is b'.' s.ptr
      then (do
        ptr ← advance s.ptr
        print_width (record s { ptr = ptr; specifier = s.specifier ++ (b'.' ∷ []) }))
      else ok s

  -- PRINT_TYPE(BTYPE) at the type specifier `c`, with `p` behind it; `specifier` has 128 bytes, and
  -- fprintf with an argument of another type than the specifier's is undefined.
  unfoldable pub print_type : ℕ → Bytes → Kind → Printing → Outcome Printing
  print_type c p k s = do
    (a, va) ← get_arg k s.va
    let lengths = lengths_of s.specifier
    let spec = s.specifier ++ (c ∷ [])
    let s = record s { ptr = p; specifier = spec; va = va; out = s.out ++ (formatted spec a ∷ []) }
    let printed : Outcome Printing = elim (io.fprintf spec a) [
      | none ↦ ok (record s { failed = true })
      | some n ↦ ok (record s { total_printed = s.total_printed + n })
    ]
    if leb 128 (length spec) then fault else if takes_type k lengths c then printed else fault

  -- PRINT_CHAR(c)
  abbrev pub print_char : ℕ → Bytes → Printing → Outcome Printing
  print_char c p s =
      ok (record s { ptr = p; out = s.out ++ (char c ∷ []); total_printed = s.total_printed + 1 })

  unfoldable pub print_switch : ℕ → Bytes → Widths → Printing → Outcome Printing
  print_switch c p w s =
      if is_integer c
      then (if ltb 0 w.short
          then print_type c p int s
          else if w.wide == 0
          then print_type c p int s
          else print_type c p long s)
      else if is_float c
      then print_type c p double s
      else if c == b's'
      then print_type c p string s
      else if c == b'p'
      then print_type c p pointer s
      else if c == b'%'
      then (if leb 128 (length s.specifier) then fault else print_char b'%' p s)
      else fault

  unfoldable pub print_conversion : Widths → Printing → Bytes → Outcome Printing
  print_conversion w s [] = fault
  print_conversion w s (c ∷ p) = print_switch c p w s

  -- What follows a per cent sign, which is copied first.
  unfoldable pub print_specifier : Printing → Outcome Printing
  print_specifier s = do
    (ptr, spec) ← copy_flags s.ptr (b'%' ∷ [])
    s ← print_width (record s { ptr = ptr; specifier = spec })
    s ← print_precision s
    (ptr, spec, w) ← copy_lengths s.ptr s.specifier (record { short = 0; wide = 0 })
    print_conversion w (record s { ptr = ptr; specifier = spec }) ptr

  -- The loop, with the rounds that are left.
  unfoldable pub print_loop : ℕ → Printing → Bytes → Outcome Printing
  print_loop zero s [] = ok s
  print_loop zero s (c ∷ p) = out_of_fuel
  print_loop (suc fuel) s [] = ok s
  print_loop (suc fuel) s (c ∷ p) =
      let rest = print_char c p s >>= (λ s. print_loop fuel s p) in
      if s.failed
      then ok s
      else if c == b'%'
      then (print_specifier (record s { ptr = p }) >>= λ s. print_loop fuel s s.ptr)
      else rest

  -- The output, and the number of characters or `none` for -1.
  unfoldable pub print_format : Bytes → VaList → Outcome (List Output × Option ℕ)
  print_format format va = do
    s ←
        print_loop (length format)
          (record {
            ptr = format;
            specifier = [];
            va = va;
            out = [];
            total_printed = 0;
            failed = false;
          })
          format
    ok (s.out, if s.failed then none else some s.total_printed)
