-- ===== src/Binlog/Laws/Copy.antt =====
-- The same walk where it copies: what the loops of print_format add to the specifier.
use cc_utils.Base.{ℕ, ◌≡◌, refl, true, false, [], ◌∷◌, ◌++◌, append-nil, append_assoc, All, arith}
use cc_utils.Base.Outcome.{ok}
use cc_utils.Base.Bytes.{Bytes}
use cc_utils.Binlog.{Kind, is_flag, is_digit}
use cc_utils.Binlog.Format.{Widths, widen, is_length}
use cc_utils.Binlog.Pieces.{
  Width, star, digits, Conversion, width_text, precision_text, tail_text, all, widths_of, width_ok,
  no_widths, IsConversion,
}
use cc_utils.Binlog.Parser.Print.{copy_flags, copy_digits, copy_lengths, lengths_of}
use cc_utils.Binlog.Laws.Scan.{stops_at, Stops, Stops-tail, Stops-precision, letter_lem}

copy_flags_stop : (p spec : Bytes) → stops_at is_flag p ≡ true → copy_flags p spec ≡ ok (p, spec)
unfolding copy_flags
copy_flags_stop [] spec h = cc
copy_flags_stop (c ∷ p) spec h = ground arith

pub copy_digits_stop :
    (p spec : Bytes) → stops_at is_digit p ≡ true → copy_digits p spec ≡ (p, spec)
unfolding copy_digits
copy_digits_stop [] spec h = cc
copy_digits_stop (c ∷ p) spec h = ground arith

pub copy_flags-append :
    (fs p spec : Bytes)
    → all is_flag fs ≡ true
    → stops_at is_flag p ≡ true
    → copy_flags (fs ++ p) spec ≡ ok (p, spec ++ fs)
unfolding copy_flags
copy_flags-append [] p spec h e = rw append-nil (copy_flags_stop p spec e)
copy_flags-append (f ∷ fs) p spec h e =
    ground (arith, copy_flags-append fs p (spec ++ (f ∷ [])), append_assoc spec (f ∷ []) fs)

pub copy_digits-append :
    (ds p spec : Bytes)
    → all is_digit ds ≡ true
    → stops_at is_digit p ≡ true
    → copy_digits (ds ++ p) spec ≡ (p, spec ++ ds)
unfolding copy_digits
copy_digits-append [] p spec h e = rw append-nil (copy_digits_stop p spec e)
copy_digits-append (d ∷ ds) p spec h e =
    ground (arith, copy_digits-append ds p (spec ++ (d ∷ [])), append_assoc spec (d ∷ []) ds)

pub copy_lengths-append :
    (ls : Bytes) (c : ℕ) (p spec : Bytes) (w : Widths)
    → all is_length ls ≡ true
    → is_length c ≡ false
    → copy_lengths (ls ++ (c ∷ p)) spec w ≡ ok (c ∷ p, spec ++ ls, widths_of ls w)
unfolding copy_lengths
copy_lengths-append [] c p spec w h e = rw (append-nil, e)
copy_lengths-append (l ∷ ls) c p spec w h e = ground (
  arith,
  copy_lengths-append ls c p (spec ++ (l ∷ [])) (widen l w),
  append_assoc spec (l ∷ []) ls,
)

-- A width in digits begins with no flag, and an asterisk is none.
pub Stops-width :
    (w : Width) (p : Bytes) → width_ok w ≡ true → Stops p → stops_at is_flag (width_text w p) ≡ true
Stops-width star p h s = refl
Stops-width (digits []) p h s = s.no_flag
Stops-width (digits (d ∷ ds)) p h s = ground arith

-- What the loops of print_format make of a conversion's text.
pub record Copies (c : Conversion) (k : Kind) (rest : Bytes) : Type 0 where
  pub flags :
      let p = width_text c.width (precision_text c.precision (tail_text c rest)) in
      copy_flags (c.flags ++ p) (b'%' ∷ []) ≡ ok (p, b'%' ∷ c.flags)
  pub lengths :
      (spec : Bytes)
      → copy_lengths (tail_text c rest) spec no_widths
        ≡ ok (c.letter ∷ rest, spec ++ c.lengths, widths_of c.lengths no_widths)

pub IsConversion-Copies :
    (c : Conversion) (k : Kind) (rest : Bytes) → IsConversion c k → Copies c k rest
IsConversion-Copies c k rest h =
    let (big, no_length) = letter_lem (widths_of c.lengths no_widths) c.letter k h.letter in
    let (stops, no_dot) = Stops-tail c.lengths c.letter rest h.lengths big in
    let stops' = Stops-precision c.precision (tail_text c rest) stops in
    let p = precision_text c.precision (tail_text c rest) in
    record {
      flags =
          copy_flags-append c.flags (width_text c.width p) (b'%' ∷ []) h.flags
            (Stops-width c.width p h.width stops');
      lengths =
          λ spec. copy_lengths-append c.lengths c.letter rest spec no_widths h.lengths no_length;
    }

pub lengths_of-append : (xs ys : Bytes) → lengths_of (xs ++ ys) ≡ lengths_of xs ++ lengths_of ys
unfolding lengths_of
lengths_of-append [] ys = refl
lengths_of-append (x ∷ xs) ys = ground (arith, lengths_of-append xs ys)

pub lengths_of-lengths : (ls : Bytes) → all is_length ls ≡ true → lengths_of ls ≡ ls
unfolding lengths_of
lengths_of-lengths [] h = refl
lengths_of-lengths (l ∷ ls) h = ground (arith, lengths_of-lengths ls)

pub lengths_of-flags : (fs : Bytes) → all is_flag fs ≡ true → lengths_of fs ≡ []
unfolding lengths_of
lengths_of-flags [] h = refl
lengths_of-flags (f ∷ fs) h = ground (arith, lengths_of-flags fs)

pub lengths_of-digits : (ds : Bytes) → all is_digit ds ≡ true → lengths_of ds ≡ []
unfolding lengths_of
lengths_of-digits [] h = refl
lengths_of-digits (d ∷ ds) h = ground (arith, lengths_of-digits ds)

pub lengths_of-printed : (ds : Bytes) → All (λ c. is_digit c ≡ true) ds → lengths_of ds ≡ []
unfolding lengths_of
lengths_of-printed [] h = refl
lengths_of-printed (d ∷ ds) (h, hs) = ground (arith, lengths_of-printed ds hs)
