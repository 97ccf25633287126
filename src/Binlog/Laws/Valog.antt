-- ===== src/Binlog/Laws/Valog.antt =====
-- do_valog of src/binlog/binlog.c prints the encodings of the arguments, whatever the format.
use cc_utils.Base.{
  ℕ, zero, suc, ◌+◌, ◌-◌, ◌^◌, ◌≤◌, ◌<◌, ◌≡◌, refl, ap, ◌∙◌, sym, true, false, some, List, [], ◌∷◌,
  ◌++◌, append-nil, append_assoc, arith, length, length-append,
}
use cc_utils.Base.Outcome.{Outcome, ok, ◌>>=◌}
use cc_utils.Base.Bytes.{Bytes}
use cc_utils.Binlog.{Kind, int, Arg, int_arg, kind_of, same_kind, is_digit}
use cc_utils.Binlog.Buffer.{Allocator, Tsd}
use cc_utils.Binlog.Format.{
  head_is, Widths, skip_lengths, Walk, print_bintype, valog_width, valog_precision,
  valog_conversion, valog_switch, valog_specifier, valog_loop, do_valog,
}
use cc_utils.Binlog.Pieces.{
  Width, star, digits, Precision, absent, present, Conversion, Piece, width_text, precision_text,
  tail_text, conversion_text, render, all, widths_of, letter_kind, width_ok, precision_ok,
  no_widths, IsConversion, Takes, plain, starred, Fits, end, text, item,
}
use cc_utils.Binlog.Laws.Scan.{Stops, IsConversion-Scans, skip_digits-append}
use cc_utils.Binlog.Laws.Growth.{encode_arg, Holds, Succeeds, print_arg-Holds}

-- The bytes of a list of arguments.
unfoldable pub encode_args : List Arg → Bytes
encode_args [] = []
encode_args (a ∷ args) = encode_arg a ++ encode_args args

pub encode_args-append :
    (xs ys : List Arg) → encode_args (xs ++ ys) ≡ encode_args xs ++ encode_args ys
unfolding encode_args
encode_args-append [] ys = refl
encode_args-append (x ∷ xs) ys =
    rw (encode_args-append xs ys)
      (sym (append_assoc (encode_arg x) (encode_args xs) (encode_args ys)))

-- The buffer holds `b`, and its offset lies in it.
pub record Ready (t : Tsd) (b : Bytes) : Type 0 where
  pub holds : Holds t b
  pub inside : t.offset ≤ t.size

-- The size from which a record is too large for the `int32_t` counters.
abbrev pub limit : ℕ
limit = 2 ^ 30 - 1024

abbrev walk : Bytes → List Arg → Tsd → ℕ → Walk
walk p args t n = record { ptr = p; ap = args; tsd = t; total_printed = n }

-- What a part of the walk has done when the arguments `xs` are printed.
abbrev Printed : Outcome Walk → Bytes → List Arg → ℕ → Bytes → List Arg → Type 0
Printed r p args n b xs =
    (t : Tsd) × (r ≡ ok (walk p args t (n + length (encode_args xs))))
    × Ready t (b ++ encode_args xs)

pub length-encode_args-append :
    (xs ys : List Arg)
    → length (encode_args (xs ++ ys)) ≡ length (encode_args xs) + length (encode_args ys)
length-encode_args-append xs ys =
    ap length (encode_args-append xs ys) ∙ length-append (encode_args xs) (encode_args ys)

length-width_text : (w : Width) (p : Bytes) → length p ≤ length (width_text w p)
length-width_text star p = omega arith
length-width_text (digits ds) p = omega (arith, length-append ds p)

length-precision_text : (q : Precision) (p : Bytes) → length p ≤ length (precision_text q p)
length-precision_text absent p = omega arith
length-precision_text (present ds) p = omega (arith, length-append ds p)

pub length-conversion_text :
    (c : Conversion) (rest : Bytes) → length rest < length (conversion_text c rest)
length-conversion_text c rest = omega (
  arith,
  length-append c.flags (width_text c.width (precision_text c.precision (tail_text c rest))),
  length-width_text c.width (precision_text c.precision (tail_text c rest)),
  length-precision_text c.precision (tail_text c rest),
  length-append c.lengths (c.letter ∷ rest),
)

-- One part of the walk after another.
Printed-append :
    (r : Outcome Walk) (k : Walk → Outcome Walk) (p q : Bytes) (args args' : List Arg) (n : ℕ)
    (b : Bytes) (xs ys : List Arg)
    → Printed r p args n b xs
    → ((t : Tsd)
        → Ready t (b ++ encode_args xs)
        → Printed
            (k (walk p args t (n + length (encode_args xs))))
            q
            args'
            (n + length (encode_args xs))
            (b ++ encode_args xs)
            ys)
    → Printed (r >>= k) q args' n b (xs ++ ys)
Printed-append r k p q args args' n b xs ys (t₁, e₁, h₁) next =
    let (t₂, e₂, h₂) = next t₁ h₁ in
    (
      t₂,
      ap (λ r. r >>= k) e₁
          ∙ e₂
          ∙ ap (λ m. ok (walk q args' t₂ m)) (omega (arith, length-encode_args-append xs ys)),
      rw (encode_args-append, ← append_assoc) h₂,
    )

module _ (mem : Allocator) (succeeds : Succeeds mem) where
  print_bintype-Printed :
      (k : Kind) (c : ℕ) (p : Bytes) (a : Arg) (args : List Arg) (t : Tsd) (n : ℕ) (b : Bytes)
      → Ready t b
      → same_kind k (kind_of a) ≡ true
      → length b + length (encode_arg a) < limit
      → Printed (print_bintype mem k (walk (c ∷ p) (a ∷ args) t n)) p args n b (a ∷ [])
  unfolding print_bintype encode_args
  print_bintype-Printed k c p a args t n b h same small =
      let (t', e, h', o, i) =
        print_arg-Holds mem succeeds t b a h.holds h.inside (omega (arith, h.holds.ends)) in
      (t', rw (same, e, append-nil), record { holds = rw append-nil h'; inside = i })

  valog_switch-print :
      (w : Widths) (c : ℕ) (k : Kind) (s : Walk)
      → letter_kind w c ≡ some k
      → valog_switch mem c w s ≡ print_bintype mem k s
  unfolding valog_switch
  valog_switch-print w c k s h = ground arith

  no_star-digits :
      (ds p : Bytes) → all is_digit ds ≡ true → Stops p → head_is b'*' (ds ++ p) ≡ false
  no_star-digits [] p h st = st.no_star
  no_star-digits (d ∷ ds) p h st = ground arith

  valog_precision-skips :
      (q : Precision) (p : Bytes) (args : List Arg) (t : Tsd) (n : ℕ)
      → precision_ok q ≡ true
      → Stops p
      → head_is b'.' p ≡ false
      → valog_precision mem (walk (precision_text q p) args t n) ≡ ok (walk p args t n)
  unfolding valog_precision
  valog_precision-skips absent p args t n h st dot = rw dot
  valog_precision-skips (present ds) p args t n h st dot =
      rw (no_star-digits ds p h st, skip_digits-append ds p h st.digits)

  -- From the precision on.
  valog_rest : Walk → Outcome Walk
  valog_rest s = do
    s ← valog_precision mem s
    (ptr, w) ← skip_lengths s.ptr no_widths
    valog_conversion mem w (record s { ptr = ptr }) ptr

  valog_rest-Printed :
      (c : Conversion) (k : Kind) (rest : Bytes) (a : Arg) (args : List Arg) (t : Tsd) (n : ℕ)
      (b : Bytes)
      → Ready t b
      → IsConversion c k
      → same_kind k (kind_of a) ≡ true
      → length b + length (encode_arg a) < limit
      → Printed
          (valog_rest (walk (precision_text c.precision (tail_text c rest)) (a ∷ args) t n))
          rest
          args
          n
          b
          (a ∷ [])
  unfolding valog_rest valog_conversion
  valog_rest-Printed c k rest a args t n b h is same small =
      let sc = IsConversion-Scans c k rest is in
      rw
        (
          valog_precision-skips c.precision (tail_text c rest) (a ∷ args) t n is.precision sc.tail
              sc.no_dot,
          sc.lengths,
          valog_switch-print (widths_of c.lengths no_widths) c.letter k
              (walk (c.letter ∷ rest) (a ∷ args) t n) is.letter,
        )
        (print_bintype-Printed k c.letter rest a args t n b h same small)

  width_digits :
      (w : Width) (ds : Bytes) → w ≡ digits ds → width_ok w ≡ true → all is_digit ds ≡ true
  width_digits w [] e h = refl
  width_digits w (d ∷ ds) e h = let h' = rw e at h in ground arith

  length-encode_args_one : (a : Arg) → length (encode_args (a ∷ [])) ≡ length (encode_arg a)
  unfolding encode_args
  length-encode_args_one a = ap length (append-nil (encode_arg a))

  Printed-nil :
      (t : Tsd) (n : ℕ) (b : Bytes) → Ready t b → Printed (ok (walk [] [] t n)) [] [] n b []
  unfolding encode_args
  Printed-nil t n b h = (t, ap (λ m. ok (walk [] [] t m)) (omega arith), rw append-nil h)

  valog_specifier-Printed :
      (c : Conversion) (rest : Bytes) (xs args : List Arg) (t : Tsd) (n : ℕ) (b : Bytes)
      → Ready t b
      → Takes c xs
      → length b + length (encode_args xs) < limit
      → Printed
          (valog_specifier mem (walk (conversion_text c rest) (xs ++ args) t n))
          rest
          args
          n
          b
          xs
  unfolding valog_specifier valog_rest valog_width
  valog_specifier-Printed c rest xs args t n b h (plain {k} ds a w is same) small =
      let sc = IsConversion-Scans c k rest is in
      let ds_ok = width_digits c.width ds w is.width in
      let p : Bytes = precision_text c.precision (tail_text c rest) in
      rw
        (
          sc.flags,
          w,
          no_star-digits ds p ds_ok sc.width,
          skip_digits-append ds p ds_ok sc.width.digits,
        )
        (valog_rest-Printed c k rest a args t n b h is same
          (omega (arith, length-encode_args_one a)))
  valog_specifier-Printed c rest xs args t n b h (starred {k} v a small_width w is same) small =
      let sc = IsConversion-Scans c k rest is in
      let p : Bytes = precision_text c.precision (tail_text c rest) in
      let len = length-encode_args-append (int_arg v ∷ []) (a ∷ []) in
      let one = length-encode_args_one (int_arg v) in
      rw (sc.flags, w)
        (Printed-append (print_bintype mem int (walk (b'*' ∷ p) (int_arg v ∷ a ∷ args) t n))
          valog_rest p rest (a ∷ args) args n b (int_arg v ∷ []) (a ∷ [])
          (print_bintype-Printed int b'*' p (int_arg v) (a ∷ args) t n b h refl
            (omega (arith, len, one, small)))
          (λ t' h'.
            valog_rest-Printed c k rest a args t' (n + length (encode_args (int_arg v ∷ [])))
              (b ++ encode_args (int_arg v ∷ [])) h' is same
              (omega (
                arith,
                len,
                length-append b (encode_args (int_arg v ∷ [])),
                length-encode_args_one a,
                small,
              ))))

  valog_loop-Printed :
      (fuel : ℕ) {ps : List Piece} {args : List Arg} (t : Tsd) (n : ℕ) (b : Bytes)
      → Fits ps args
      → Ready t b
      → length (render ps) ≤ fuel
      → length b + length (encode_args args) < limit
      → Printed (valog_loop mem fuel (walk (render ps) args t n) (render ps)) [] [] n b args
  unfolding valog_loop render
  valog_loop-Printed zero t n b end h enough small = Printed-nil t n b h
  valog_loop-Printed (suc f) t n b end h enough small = Printed-nil t n b h
  valog_loop-Printed zero t n b (text c ne fits) h enough small = absurd (omega arith)
  valog_loop-Printed (suc f) t n b (text c ne fits) h enough small =
      rw ne (valog_loop-Printed f t n b fits h (omega arith) small)
  valog_loop-Printed zero t n b (item c xs takes fits) h enough small = absurd (omega arith)
  valog_loop-Printed (suc f) t n b (item {ps} {args} c xs takes fits) h enough small =
      let len = length-encode_args-append xs args in
      Printed-append (valog_specifier mem (walk (conversion_text c (render ps)) (xs ++ args) t n))
        (λ s. valog_loop mem f s s.ptr) (render ps) [] args [] n b xs args
        (valog_specifier-Printed c (render ps) xs args t n b h takes (omega (arith, len)))
        (λ t' h'.
          valog_loop-Printed f t' (n + length (encode_args xs)) (b ++ encode_args xs) fits h'
            (omega (arith, length-conversion_text c (render ps)))
            (omega (arith, len, length-append b (encode_args xs))))

  -- On a format of literal characters and conversions with the letters d, i, o, u, x, X, c, e, E, f, g,
  -- G, s and p, as Binlog.Pieces describes them (no `%%`, no precision `*`, no lengths z, t, j and L),
  -- with the arguments that it takes, do_valog ends without a fault and appends the encodings of exactly
  -- these arguments to what the buffer holds; the number that it returns is the number of bytes
  -- appended. No allocation fails, the record stays below the limit of the `int32_t` counters, and the
  -- `int` of an asterisk is not the least one.
  pub do_valog-encode :
      (ps : List Piece) (args : List Arg) (t : Tsd) (b : Bytes)
      → Fits ps args
      → Ready t b
      → length b + length (encode_args args) < limit
      → (t' : Tsd) × (do_valog mem t (render ps) args ≡ ok (length (encode_args args), t'))
        × Ready t' (b ++ encode_args args)
  unfolding do_valog
  do_valog-encode ps args t b fits h small =
      let (t', e, h') = valog_loop-Printed (length (render ps)) t 0 b fits h (omega arith) small in
      (t', rw e (ap (λ n. ok (n, t')) (omega arith)), h')
