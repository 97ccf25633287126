-- ===== src/Binlog/Format.antt =====
-- do_valog of src/binlog/binlog.c: the walk over the format that prints the arguments. A pointer
-- into the format is what is left of it; its end is the terminator, and going past that faults.
use cc_utils.Base.{
  ℕ, zero, suc, ◌+◌, Bool, true, false, List, [], ◌∷◌, ltb, ◌==◌, if◌then◌else◌, length,
}
use cc_utils.Base.Outcome.{Outcome, ok, fault, out_of_fuel, ◌>>=◌}
use cc_utils.Base.Bytes.{Bytes}
use cc_utils.Binlog.{
  Kind, int, long, double, string, pointer, Arg, kind_of, same_kind, is_flag, is_digit, is_integer,
  is_float,
}
use cc_utils.Binlog.Buffer.{Allocator, Tsd, print_arg}

-- ptr++
abbrev pub advance : Bytes → Outcome Bytes
advance [] = fault
advance (c ∷ p) = ok p

abbrev pub head_is : ℕ → Bytes → Bool
head_is c [] = false
head_is c (x ∷ p) = x == c

-- `while (strchr("-+ #0", *ptr)) ptr++;`: strchr finds the terminator too.
unfoldable pub skip_flags : Bytes → Outcome Bytes
skip_flags [] = fault
skip_flags (c ∷ p) = let rest = skip_flags p in if is_flag c then rest else ok (c ∷ p)

-- `while (ISDIGIT(*ptr)) ptr++;`
unfoldable pub skip_digits : Bytes → Bytes
skip_digits [] = []
skip_digits (c ∷ p) = let rest = skip_digits p in if is_digit c then rest else c ∷ p

-- short_width and wide_width
pub record Widths : Type 0 where
  pub short : ℕ
  pub wide : ℕ

-- One round of `while (strchr("hlL", *ptr))`; at the terminator its switch calls abort().
abbrev pub widen : ℕ → Widths → Widths
widen c w =
    if c == b'h'
    then record w { short = 1 }
    else if c == b'l'
    then record w { wide = w.wide + 1 }
    else record w { wide = 2 }

abbrev pub is_length : ℕ → Bool
is_length c = if c == b'h' then true else if c == b'l' then true else c == b'L'

unfoldable pub skip_lengths : Bytes → Widths → Outcome (Bytes × Widths)
skip_lengths [] w = fault
skip_lengths (c ∷ p) w =
    let rest = skip_lengths p (widen c w) in if is_length c then rest else ok (c ∷ p, w)

-- The variables of the walk: `ptr`, `ap`, `tbinlog` and `total_printed`.
pub record Walk : Type 0 where
  pub ptr : Bytes
  pub ap : List Arg
  pub tsd : Tsd
  pub total_printed : ℕ

module _ (mem : Allocator) where
  -- PRINT_BINTYPE(BTYPE): va_arg at another type, or with no argument left, is undefined.
  unfoldable pub print_bintype_arg : Kind → Walk → List Arg → Outcome Walk
  print_bintype_arg k s [] = fault
  print_bintype_arg k s (a ∷ rest) =
      if same_kind k (kind_of a)
      then (do
        (result, tsd) ← print_arg mem s.tsd a
        ptr ← advance s.ptr
        ok (record { ptr = ptr; ap = rest; tsd = tsd; total_printed = s.total_printed + result }))
      else fault

  unfoldable pub print_bintype : Kind → Walk → Outcome Walk
  unfolding print_bintype_arg
  print_bintype k s = print_bintype_arg k s s.ap

  -- The field width: an asterisk takes an `int`.
  unfoldable pub valog_width : Walk → Outcome Walk
  unfolding print_bintype skip_digits
  valog_width s =
      if head_is b'*' s.ptr then print_bintype int s else ok (record s { ptr = skip_digits s.ptr })

  -- The precision: after the asterisk's `int` there is one `ptr++` more than in the width.
  unfoldable pub valog_precision : Walk → Outcome Walk
  unfolding print_bintype skip_digits
  valog_precision s =
      if head_is b'.' s.ptr
      then (do
        ptr ← advance s.ptr
        if head_is b'*' ptr
            then (do
              s ← print_bintype int (record s { ptr = ptr })
              ptr ← advance s.ptr
              ok (record s { ptr = ptr }))
            else ok (record s { ptr = skip_digits ptr }))
      else ok s

  -- The switch on the conversion; `%` prints nothing and does not move on.
  unfoldable pub valog_switch : ℕ → Widths → Walk → Outcome Walk
  valog_switch c w s =
      if is_integer c
      then (if ltb 0 w.short
          then print_bintype int s
          else if w.wide == 0
          then print_bintype int s
          else print_bintype long s)
      else if is_float c
      then print_bintype double s
      else if c == b's'
      then print_bintype string s
      else if c == b'p'
      then print_bintype pointer s
      else if c == b'%'
      then ok s
      else fault

  unfoldable pub valog_conversion : Widths → Walk → Bytes → Outcome Walk
  unfolding valog_switch print_bintype
  valog_conversion w s [] = fault
  valog_conversion w s (c ∷ p) = valog_switch c w s

  -- What follows a per cent sign.
  unfoldable pub valog_specifier : Walk → Outcome Walk
  unfolding skip_flags valog_width valog_precision skip_lengths valog_conversion
  valog_specifier s = do
    ptr ← skip_flags s.ptr
    s ← valog_width (record s { ptr = ptr })
    s ← valog_precision s
    (ptr, w) ← skip_lengths s.ptr (record { short = 0; wide = 0 })
    valog_conversion w (record s { ptr = ptr }) ptr

  -- The loop, with the rounds that are left.
  unfoldable pub valog_loop : ℕ → Walk → Bytes → Outcome Walk
  valog_loop zero s [] = ok s
  valog_loop zero s (c ∷ p) = out_of_fuel
  valog_loop (suc fuel) s [] = ok s
  valog_loop (suc fuel) s (c ∷ p) =
      let rest = valog_loop fuel (record s { ptr = p }) p in
      if c == b'%'
      then (valog_specifier (record s { ptr = p }) >>= λ s. valog_loop fuel s s.ptr)
      else rest

  -- The buffer after the walk and the number of bytes printed; a round takes a character at least.
  unfoldable pub do_valog : Tsd → Bytes → List Arg → Outcome (ℕ × Tsd)
  unfolding valog_loop valog_specifier
  do_valog t format ap = do
    s ←
        valog_loop (length format) (record { ptr = format; ap = ap; tsd = t; total_printed = 0 })
          format
    ok (s.total_printed, s.tsd)
