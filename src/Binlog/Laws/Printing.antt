-- ===== src/Binlog/Laws/Printing.antt =====
-- print_format of src/binlog/binlog_parser.c prints the arguments that do_valog encoded.
use cc_utils.Base.{
  ℕ, zero, suc, ◌+◌, ◌^◌, ◌≤◌, ◌<◌, ◌≡◌, ◌≢◌, refl, ap, ◌∙◌, sym, subst, true, false, some, List,
  [], ◌∷◌, ◌++◌, append-nil, append_assoc, leb, arith, length, All, All-append,
}
use cc_utils.Base.Outcome.{Outcome, ok, ◌>>=◌}
use cc_utils.Base.Bytes.{Bytes, word}
use cc_utils.Binlog.{Kind, Arg, int_arg, kind_of, same_kind, is_flag, is_digit, takes_type}
use cc_utils.Binlog.Format
use cc_utils.Binlog.Format.{head_is, advance, is_length}
use cc_utils.Binlog.Pieces.{
  Width, star, digits, Precision, absent, present, Conversion, Piece, literal, conversion,
  precision_text, tail_text, conversion_text, render, all, widths_of, letter_kind, width_ok,
  precision_ok, no_widths, IsConversion, Takes, plain, starred, Fits, end, text, item,
}
use cc_utils.Binlog.Parser.{VaList}
use cc_utils.Binlog.Parser.Print.{
  Stdio, Output, char, formatted, Printing, abs_value, abs, copy_va_int, print_width,
  print_precision, print_type, print_char, print_switch, print_conversion, print_specifier,
  print_loop, print_format, copy_lengths, lengths_of,
}
use cc_utils.Binlog.Laws.Scan.{Stops, IsConversion-Scans}
use cc_utils.Binlog.Laws.Copy.{
  IsConversion-Copies, copy_digits-append, lengths_of-append, lengths_of-lengths, lengths_of-flags,
  lengths_of-digits, lengths_of-printed,
}
use cc_utils.Binlog.Laws.Growth.{encode_arg}
use cc_utils.Binlog.Laws.Reads.{
  IsArg, At, forward, get_arg-encoded, get_word-encoded, At-forward, FitsWord4,
}
use cc_utils.Binlog.Laws.Valog.{encode_args, encode_args-append, length-conversion_text}

abbrev pub precision_digits : Precision → Bytes
precision_digits absent = []
precision_digits (present ds) = b'.' ∷ ds

module _ (io : Stdio) where
  -- The specifier that fprintf is given: the conversion's own text, with the asterisk replaced.
  abbrev pub specifier_of : Conversion → Bytes → Bytes
  specifier_of c width =
      ((b'%' ∷ c.flags) ++ width ++ precision_digits c.precision ++ c.lengths) ++ (c.letter ∷ [])

  -- What a format with its arguments prints, an item at a time.
  unfoldable pub shown_conversion : Conversion → Width → List Arg → List Output × List Arg
  shown_conversion c star (int_arg w ∷ (a ∷ rest)) =
      (formatted (specifier_of c (io.sprintf_d (abs_value w))) a ∷ [], rest)
  shown_conversion c (digits ds) (a ∷ rest) = (formatted (specifier_of c ds) a ∷ [], rest)
  shown_conversion c _ args = ([], args)

  unfoldable pub shown : List Piece → List Arg → List Output
  unfolding shown_conversion
  shown [] args = []
  shown (literal c ∷ ps) args = char c ∷ shown ps args
  shown (conversion c ∷ ps) args =
      (shown_conversion c c.width args).0 ++ shown ps (shown_conversion c c.width args).1

  -- Every specifier fits the array of 128 bytes, and fprintf does not fail.
  abbrev pub Prints : List Output → Type 0
  Prints [] = Unit {0}
  Prints (char c ∷ out) = Prints out
  Prints (formatted spec a ∷ out) =
      (length spec < 128) × ((n : ℕ) × (io.fprintf spec a ≡ some n)) × Prints out

  abbrev printing : Bytes → Bytes → VaList → List Output → ℕ → Printing
  printing p spec v out n = record {
    ptr = p;
    specifier = spec;
    va = v;
    out = out;
    total_printed = n;
    failed = false;
  }

  -- What a part of the walk has done: it stands at `p`, has put `outs` behind `out`, and the
  -- arguments that are left are encoded by `b`.
  abbrev Shows : Outcome Printing → Bytes → List Output → List Output → Bytes → Bytes → Type 0
  Shows r p out outs b more =
      (spec : Bytes) × (v : VaList) × (n : ℕ) × (r ≡ ok (printing p spec v (out ++ outs) n))
      × At v b more

  Shows-append :
      (r : Outcome Printing) (k : Printing → Outcome Printing) (p q : Bytes)
      (out xs ys : List Output) (b c more : Bytes)
      → Shows r p out xs b more
      → ((spec : Bytes) (v : VaList) (n : ℕ)
          → At v b more
          → Shows (k (printing p spec v (out ++ xs) n)) q (out ++ xs) ys c more)
      → Shows (r >>= k) q out (xs ++ ys) c more
  Shows-append r k p q out xs ys b c more (spec, v, n, e, h) next =
      let (spec', v', n', e', h') = next spec v n h in
      (
        spec',
        v',
        n',
        ap (λ r. r >>= k) e ∙ e' ∙ ap (λ o. ok (printing q spec' v' o n')) (append_assoc out xs ys),
        h',
      )

  print_type-Shows :
      (k : Kind) (c : ℕ) (p q spec : Bytes) (a : Arg) (v : VaList) (out : List Output) (n : ℕ)
      (b more : Bytes)
      → same_kind k (kind_of a) ≡ true
      → takes_type k (lengths_of spec) c ≡ true
      → IsArg a
      → At v (encode_arg a ++ b) more
      → Prints (formatted (spec ++ (c ∷ [])) a ∷ [])
      → Shows
          (print_type io c p k (printing q spec v out n))
          p
          out
          (formatted (spec ++ (c ∷ [])) a ∷ [])
          b
          more
  unfolding print_type
  print_type-Shows k c p q spec a v out n b more same typed is h (short, (m, shown), _) =
      let (e, h') = get_arg-encoded k a v b more same is h in
      let fits : leb 128 (length (spec ++ (c ∷ []))) ≡ false = ground arith in
      (spec ++ (c ∷ []), forward v (length (encode_arg a)), n + m, rw (e, fits, typed, shown), h')

  print_switch-type :
      (w : Format.Widths) (c : ℕ) (p : Bytes) (k : Kind) (s : Printing)
      → letter_kind w c ≡ some k
      → print_switch io c p w s ≡ print_type io c p k s
  unfolding print_switch
  print_switch-type w c p k s h = ground arith

  no_star-digits :
      (ds p : Bytes) → all is_digit ds ≡ true → Stops p → head_is b'*' (ds ++ p) ≡ false
  no_star-digits [] p h st = st.no_star
  no_star-digits (d ∷ ds) p h st = ground arith

  print_width-digits :
      (ds p spec : Bytes) (v : VaList) (out : List Output) (n : ℕ)
      → all is_digit ds ≡ true
      → Stops p
      → print_width io (printing (ds ++ p) spec v out n) ≡ ok (printing p (spec ++ ds) v out n)
  unfolding print_width
  print_width-digits ds p spec v out n h st =
      rw (no_star-digits ds p h st, copy_digits-append ds p spec h st.no_digit)

  print_precision-copies :
      (q : Precision) (p spec : Bytes) (v : VaList) (out : List Output) (n : ℕ)
      → precision_ok q ≡ true
      → Stops p
      → head_is b'.' p ≡ false
      → print_precision io (printing (precision_text q p) spec v out n)
        ≡ ok (printing p (spec ++ precision_digits q) v out n)
  unfolding print_precision
  print_precision-copies absent p spec v out n h st dot = rw (dot, append-nil)
  print_precision-copies (present ds) p spec v out n h st dot =
      print_width-digits ds p (spec ++ (b'.' ∷ [])) v out n h st
      ∙ ap (λ x. ok (printing p x v out n)) (append_assoc spec (b'.' ∷ []) ds)

  lengths_of-specifier :
      (spec : Bytes) (q : Precision) (ls : Bytes)
      → lengths_of spec ≡ []
      → precision_ok q ≡ true
      → all is_length ls ≡ true
      → lengths_of ((spec ++ precision_digits q) ++ ls) ≡ ls
  unfolding lengths_of
  lengths_of-specifier spec absent ls h p l =
      rw (append-nil, lengths_of-append spec ls, h) (lengths_of-lengths ls l)
  lengths_of-specifier spec (present ds) ls h p l =
      rw
        (
          lengths_of-append (spec ++ (b'.' ∷ ds)) ls,
          lengths_of-append spec (b'.' ∷ ds),
          h,
          lengths_of-digits ds p,
        )
        (lengths_of-lengths ls l)

  lengths_of-front :
      (flags ds : Bytes)
      → all is_flag flags ≡ true
      → lengths_of ds ≡ []
      → lengths_of ((b'%' ∷ flags) ++ ds) ≡ []
  unfolding lengths_of
  lengths_of-front flags ds f d = rw (lengths_of-append flags ds, lengths_of-flags flags f) d

  -- From the precision on.
  print_rest : Printing → Outcome Printing
  print_rest s = do
    s ← print_precision io s
    (ptr, spec, w) ← copy_lengths s.ptr s.specifier no_widths
    print_conversion io w (record s { ptr = ptr; specifier = spec }) ptr

  print_rest-Shows :
      (c : Conversion) (k : Kind) (rest spec : Bytes) (a : Arg) (v : VaList) (out : List Output)
      (n : ℕ) (b more : Bytes)
      → IsConversion c k
      → lengths_of spec ≡ []
      → same_kind k (kind_of a) ≡ true
      → IsArg a
      → At v (encode_arg a ++ b) more
      → let full = (spec ++ precision_digits c.precision ++ c.lengths) ++ (c.letter ∷ []) in
        Prints (formatted full a ∷ [])
        → Shows
            (print_rest (printing (precision_text c.precision (tail_text c rest)) spec v out n))
            rest
            out
            (formatted full a ∷ [])
            b
            more
  unfolding print_rest print_conversion
  print_rest-Shows c k rest spec a v out n b more is plain_spec same ia h prints =
      let sc = IsConversion-Scans c k rest is in
      let cp = IsConversion-Copies c k rest is in
      let spec' : Bytes = spec ++ precision_digits c.precision in
      let lengths : lengths_of (spec' ++ c.lengths) ≡ c.lengths =
        lengths_of-specifier spec c.precision c.lengths plain_spec is.precision is.lengths in
      rw
        (
          print_precision-copies c.precision (tail_text c rest) spec v out n is.precision sc.tail
              sc.no_dot,
          cp.lengths spec',
          print_switch-type (widths_of c.lengths no_widths) c.letter rest k
              (printing (c.letter ∷ rest) (spec' ++ c.lengths) v out n) is.letter,
        )
        (print_type-Shows k c.letter rest (c.letter ∷ rest) (spec' ++ c.lengths) a v out n b more
          same (rw lengths is.typed) ia h prints)

  -- The `int` of an asterisk goes into the specifier by its absolute value.
  copy_va_int-Shows :
      (w : ℕ) (p spec : Bytes) (v : VaList) (out : List Output) (n : ℕ) (b more : Bytes)
      → w < 2 ^ 32
      → w ≢ 2 ^ 31
      → At v (encode_arg (int_arg w) ++ b) more
      → (v' : VaList) × (copy_va_int io (printing (b'*' ∷ p) spec v out n)
          ≡ ok (printing p (spec ++ io.sprintf_d (abs_value w)) v' out n))
        × At v' b more
  unfolding copy_va_int encode_arg
  copy_va_int-Shows w p spec v out n b more iw ne h =
      let e = get_word-encoded 0 4 w v b more (FitsWord4 w iw) h in
      let a : abs w ≡ ok (abs_value w) = ground arith in
      (forward v 5, rw (e, a), At-forward v (0 ∷ word 4 w) b more h)

  shown-plain :
      (c : Conversion) (w : Width) (ds : Bytes) (a : Arg) (args : List Arg)
      → w ≡ digits ds
      → shown_conversion c w (a ∷ args) ≡ (formatted (specifier_of c ds) a ∷ [], args)
  unfolding shown_conversion
  shown-plain c w ds a args e = rw e

  shown-starred :
      (c : Conversion) (w : Width) (x : ℕ) (a : Arg) (args : List Arg)
      → w ≡ star
      → shown_conversion c w (int_arg x ∷ (a ∷ args))
        ≡ (formatted (specifier_of c (io.sprintf_d (abs_value x))) a ∷ [], args)
  unfolding shown_conversion
  shown-starred c w x a args e = rw e

  print_width-star :
      (p spec : Bytes) (v : VaList) (out : List Output) (n : ℕ)
      → print_width io (printing (b'*' ∷ p) spec v out n)
        ≡ copy_va_int io (printing (b'*' ∷ p) spec v out n)
  unfolding print_width
  print_width-star p spec v out n = refl

  width_digits :
      (w : Width) (ds : Bytes) → w ≡ digits ds → width_ok w ≡ true → all is_digit ds ≡ true
  width_digits w [] e h = refl
  width_digits w (d ∷ ds) e h = let h' = rw e at h in ground arith

  print_specifier-Shows :
      (c : Conversion) (rest : Bytes) (xs args : List Arg) (spec : Bytes) (v : VaList)
      (out : List Output) (n : ℕ) (b more : Bytes)
      → Takes c xs
      → All IsArg xs
      → At v (encode_args xs ++ b) more
      → Prints (shown_conversion c c.width (xs ++ args)).0
      → Shows
          (print_specifier io (printing (conversion_text c rest) spec v out n))
          rest
          out
          (shown_conversion c c.width (xs ++ args)).0
          b
          more
  unfolding print_specifier print_rest encode_args
  print_specifier-Shows c rest xs args spec v out n b more (plain {k} ds a w is same) ia h prints =
      let sc = IsConversion-Scans c k rest is in
      let cp = IsConversion-Copies c k rest is in
      let sh = ap (λ x. x.0) (shown-plain c c.width ds a args w) in
      let p : Bytes = precision_text c.precision (tail_text c rest) in
      subst
        (λ o.
          Shows (print_specifier io (printing (conversion_text c rest) spec v out n)) rest out o b
            more)
        (sym sh)
        (rw
          (
            cp.flags,
            w,
            print_width-digits ds p (b'%' ∷ c.flags) v out n (width_digits c.width ds w is.width)
                sc.width,
          )
          (print_rest-Shows c k rest ((b'%' ∷ c.flags) ++ ds) a v out n b more is
            (lengths_of-front c.flags ds is.flags
              (lengths_of-digits ds (width_digits c.width ds w is.width)))
            same ia.0 (rw append-nil at h) (subst Prints sh prints)))
  print_specifier-Shows c rest xs args spec v out n b more (starred {k} x a ne w is same) ia h
        prints =
      let cp = IsConversion-Copies c k rest is in
      let sh = ap (λ x. x.0) (shown-starred c c.width x a args w) in
      let p : Bytes = precision_text c.precision (tail_text c rest) in
      let h' : At v (encode_arg (int_arg x) ++ (encode_arg a ++ b)) more =
        subst (λ l. At v l more)
          (append_assoc (encode_arg (int_arg x)) (encode_arg a ++ []) b
            ∙ ap (λ l. encode_arg (int_arg x) ++ (l ++ b)) (append-nil (encode_arg a)))
          h in
      let (v', e, at') =
        copy_va_int-Shows x p (b'%' ∷ c.flags) v out n (encode_arg a ++ b) more ia.0 ne h' in
      subst
        (λ o.
          Shows (print_specifier io (printing (conversion_text c rest) spec v out n)) rest out o b
            more)
        (sym sh)
        (rw (cp.flags, w, print_width-star p (b'%' ∷ c.flags) v out n, e)
          (print_rest-Shows c k rest ((b'%' ∷ c.flags) ++ io.sprintf_d (abs_value x)) a v' out n b
            more is
            (lengths_of-front c.flags (io.sprintf_d (abs_value x)) is.flags
              (lengths_of-printed (io.sprintf_d (abs_value x)) (io.digits (abs_value x))))
            same ia.1.0 at' (subst Prints sh prints)))

  shown_rest :
      (c : Conversion) (xs args : List Arg)
      → Takes c xs
      → (shown_conversion c c.width (xs ++ args)).1 ≡ args
  shown_rest c xs args (plain ds a w is same) = ap (λ x. x.1) (shown-plain c c.width ds a args w)
  shown_rest c xs args (starred x a ne w is same) =
      ap (λ x. x.1) (shown-starred c c.width x a args w)

  Prints-append : (xs ys : List Output) → Prints (xs ++ ys) → Prints xs × Prints ys
  Prints-append [] ys h = (tt, h)
  Prints-append (char c ∷ xs) ys h = Prints-append xs ys h
  Prints-append (formatted spec a ∷ xs) ys h =
      let (l, r) = Prints-append xs ys h.2 in ((h.0, h.1, l), r)

  print_loop-Shows :
      (fuel : ℕ) {ps : List Piece} {args : List Arg} (spec : Bytes) (v : VaList) (out : List Output)
      (n : ℕ) (more : Bytes)
      → Fits ps args
      → All IsArg args
      → length (render ps) ≤ fuel
      → At v (encode_args args) more
      → Prints (shown ps args)
      → Shows
          (print_loop io fuel (printing (render ps) spec v out n) (render ps))
          []
          out
          (shown ps args)
          []
          more
  unfolding print_loop render shown encode_args
  print_loop-Shows zero spec v out n more end ia enough h prints = (spec, v, n, rw append-nil, h)
  print_loop-Shows (suc f) spec v out n more end ia enough h prints = (spec, v, n, rw append-nil, h)
  print_loop-Shows zero spec v out n more (text c ne fits) ia enough h prints = absurd (omega arith)
  print_loop-Shows (suc f) spec v out n more (text {ps} {args} c ne fits) ia enough h prints =
      rw ne (
        Shows-append (print_char io c (render ps) (printing (c ∷ render ps) spec v out n))
          (λ s. print_loop io f s (render ps)) (render ps) [] out (char c ∷ []) (shown ps args)
          (encode_args args) [] more (spec, v, n + 1, refl, h)
          (λ spec' v' n' h'.
            print_loop-Shows f spec' v' (out ++ (char c ∷ [])) n' more fits ia (omega arith) h'
              prints))
  print_loop-Shows zero spec v out n more (item c xs takes fits) ia enough h prints =
      absurd (omega arith)
  print_loop-Shows (suc f) spec v out n more (item {ps} {args} c xs takes fits) ia enough h prints =
      let (ia₁, ia₂) = All-append IsArg xs args ia in
      let left : List Output = (shown_conversion c c.width (xs ++ args)).0 in
      let prints' : Prints (left ++ shown ps args) =
        subst (λ l. Prints (left ++ shown ps l)) (shown_rest c xs args takes) prints in
      let (p₁, p₂) = Prints-append left (shown ps args) prints' in
      subst
        (λ l.
          Shows
            (print_loop io (suc f) (printing (render (conversion c ∷ ps)) spec v out n)
              (render (conversion c ∷ ps)))
            [] out (left ++ shown ps l) [] more)
        (sym (shown_rest c xs args takes))
        (Shows-append (print_specifier io (printing (conversion_text c (render ps)) spec v out n))
          (λ s. print_loop io f s s.ptr) (render ps) [] out left (shown ps args) (encode_args args)
          [] more
          (print_specifier-Shows c (render ps) xs args spec v out n (encode_args args) more takes
            ia₁ (rw encode_args-append at h) p₁)
          (λ spec' v' n' h'.
            print_loop-Shows f spec' v' (out ++ left) n' more fits ia₂
              (omega (arith, length-conversion_text c (render ps))) h' p₂))

  pub print_format-shown :
      (ps : List Piece) (args : List Arg) (v : VaList) (more : Bytes)
      → Fits ps args
      → All IsArg args
      → At v (encode_args args) more
      → Prints (shown ps args)
      → (n : ℕ) × (print_format io (render ps) v ≡ ok (shown ps args, some n))
  unfolding print_format
  print_format-shown ps args v more fits ia h prints =
      let (spec, v', n, e, _) =
        print_loop-Shows (length (render ps)) [] v [] 0 more fits ia (omega arith) h prints in
      (n, rw e)
