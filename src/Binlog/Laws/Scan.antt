-- ===== src/Binlog/Laws/Scan.antt =====
-- The walk over a conversion of a format: what each of the loops of do_valog and print_format skips.
use cc_utils.Base.{ℕ, ◌<◌, ◌≡◌, refl, Bool, true, false, not, some, [], ◌∷◌, ◌++◌, arith}
use cc_utils.Base.Outcome.{ok}
use cc_utils.Base.Bytes.{Bytes}
use cc_utils.Binlog.{Kind, is_flag, is_digit}
use cc_utils.Binlog.Format.{
  head_is, skip_flags, skip_digits, Widths, widen, is_length, skip_lengths,
}
use cc_utils.Binlog.Pieces.{
  Width, star, digits, Precision, absent, present, Conversion, width_text, precision_text,
  tail_text, all, widths_of, letter_kind, width_ok, no_widths, IsConversion,
}

-- The text is not at its end, and its first character is none of a class.
abbrev pub stops_at : (ℕ → Bool) → Bytes → Bool
stops_at q [] = false
stops_at q (c ∷ p) = not (q c)

-- Text at which the loops over flags and over digits stop, and which no asterisk begins.
pub record Stops (p : Bytes) : Type 0 where
  pub flags : skip_flags p ≡ ok p
  pub digits : skip_digits p ≡ p
  pub no_star : head_is b'*' p ≡ false
  pub no_flag : stops_at is_flag p ≡ true
  pub no_digit : stops_at is_digit p ≡ true

Stops-letter : (z : ℕ) (p : Bytes) → 64 < z → Stops (z ∷ p)
unfolding skip_flags skip_digits
Stops-letter z p h = record {
  flags = ground arith;
  digits = ground arith;
  no_star = ground arith;
  no_flag = ground arith;
  no_digit = ground arith;
}

pub letter_lem :
    (w : Widths) (c : ℕ) (k : Kind) → letter_kind w c ≡ some k → (64 < c) × (is_length c ≡ false)
letter_lem w c k h = ground arith

length_letter : (c : ℕ) → is_length c ≡ true → 64 < c
length_letter c h = ground arith

pub skip_flags-append :
    (fs p : Bytes) → all is_flag fs ≡ true → skip_flags p ≡ ok p → skip_flags (fs ++ p) ≡ ok p
unfolding skip_flags
skip_flags-append [] p h e = e
skip_flags-append (f ∷ fs) p h e = ground (arith, skip_flags-append fs p)

pub skip_digits-append :
    (ds p : Bytes) → all is_digit ds ≡ true → skip_digits p ≡ p → skip_digits (ds ++ p) ≡ p
unfolding skip_digits
skip_digits-append [] p h e = e
skip_digits-append (d ∷ ds) p h e = ground (arith, skip_digits-append ds p)

pub skip_lengths-append :
    (ls : Bytes) (c : ℕ) (p : Bytes) (w : Widths)
    → all is_length ls ≡ true
    → is_length c ≡ false
    → skip_lengths (ls ++ (c ∷ p)) w ≡ ok (c ∷ p, widths_of ls w)
unfolding skip_lengths
skip_lengths-append [] c p w h e = rw e
skip_lengths-append (l ∷ ls) c p w h e = ground (arith, skip_lengths-append ls c p (widen l w))

pub Stops-tail :
    (ls : Bytes) (z : ℕ) (p : Bytes)
    → all is_length ls ≡ true
    → 64 < z
    → Stops (ls ++ (z ∷ p)) × (head_is b'.' (ls ++ (z ∷ p)) ≡ false)
Stops-tail [] z p h big = (Stops-letter z p big, ground arith)
Stops-tail (l ∷ ls) z p h big =
    let big' : 64 < l = length_letter l (ground arith) in
    (Stops-letter l (ls ++ (z ∷ p)) big', ground arith)

pub Stops-precision : (q : Precision) (p : Bytes) → Stops p → Stops (precision_text q p)
unfolding skip_flags skip_digits
Stops-precision absent p h = h
Stops-precision (present ds) p h = record {
  flags = refl;
  digits = refl;
  no_star = refl;
  no_flag = refl;
  no_digit = refl;
}

skip_flags-width :
    (w : Width) (p : Bytes)
    → width_ok w ≡ true
    → Stops p
    → skip_flags (width_text w p) ≡ ok (width_text w p)
unfolding skip_flags
skip_flags-width star p h s = refl
skip_flags-width (digits []) p h s = s.flags
skip_flags-width (digits (d ∷ ds)) p h s = ground arith

-- The text from a conversion's precision on, and what follows it, with what each loop makes of it.
pub record Scans (c : Conversion) (k : Kind) (rest : Bytes) : Type 0 where
  pub flags :
      let p = width_text c.width (precision_text c.precision (tail_text c rest)) in
      skip_flags (c.flags ++ p) ≡ ok p
  pub width : Stops (precision_text c.precision (tail_text c rest))
  pub tail : Stops (tail_text c rest)
  pub no_dot : head_is b'.' (tail_text c rest) ≡ false
  pub lengths :
      skip_lengths (tail_text c rest) no_widths
      ≡ ok (c.letter ∷ rest, widths_of c.lengths no_widths)

pub IsConversion-Scans :
    (c : Conversion) (k : Kind) (rest : Bytes) → IsConversion c k → Scans c k rest
IsConversion-Scans c k rest h =
    let (big, no_length) = letter_lem (widths_of c.lengths no_widths) c.letter k h.letter in
    let (stops, no_dot) = Stops-tail c.lengths c.letter rest h.lengths big in
    let stops' = Stops-precision c.precision (tail_text c rest) stops in
    record {
      flags =
          skip_flags-append c.flags
            (width_text c.width (precision_text c.precision (tail_text c rest))) h.flags
            (skip_flags-width c.width (precision_text c.precision (tail_text c rest)) h.width
              stops');
      width = stops';
      tail = stops;
      no_dot = no_dot;
      lengths = skip_lengths-append c.lengths c.letter rest no_widths h.lengths no_length;
    }
