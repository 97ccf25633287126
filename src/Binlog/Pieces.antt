-- ===== src/Binlog/Pieces.antt =====
-- Formats: literal characters, and those of printf's conversions that the code takes as the C standard
-- does. This is the description that do_valog and print_format are compared with. It has no `%%`, no
-- precision as an asterisk, no lengths z, t, j and L, and none of the letters a, A, F and n.
use cc_utils.Base.{
  ℕ, ◌^◌, ◌≡◌, ◌≢◌, Bool, true, false, not, ◌&&◌, ◌||◌, Option, none, some, List, [], ◌∷◌, ◌++◌,
  ltb, ◌==◌, if◌then◌else◌,
}
use cc_utils.Base.Bytes.{Bytes}
use cc_utils.Binlog.{
  Kind, int, long, double, string, pointer, Arg, kind_of, same_kind, is_flag, is_digit, is_integer,
  is_float, takes_type,
}
use cc_utils.Binlog.Format.{Widths, widen, is_length}

pub data Width : Type 0 where
  star : Width
  digits : Bytes → Width

pub data Precision : Type 0 where
  absent : Precision
  present : Bytes → Precision

pub record Conversion : Type 0 where
  pub flags : Bytes
  pub width : Width
  pub precision : Precision
  pub lengths : Bytes
  pub letter : ℕ

pub data Piece : Type 0 where
  literal : ℕ → Piece
  conversion : Conversion → Piece

abbrev pub width_text : Width → Bytes → Bytes
width_text star rest = b'*' ∷ rest
width_text (digits ds) rest = ds ++ rest

abbrev pub precision_text : Precision → Bytes → Bytes
precision_text absent rest = rest
precision_text (present ds) rest = b'.' ∷ (ds ++ rest)

abbrev pub tail_text : Conversion → Bytes → Bytes
tail_text c rest = c.lengths ++ (c.letter ∷ rest)

abbrev pub conversion_text : Conversion → Bytes → Bytes
conversion_text c rest =
    c.flags ++ width_text c.width (precision_text c.precision (tail_text c rest))

unfoldable pub render : List Piece → Bytes
render [] = []
render (literal c ∷ ps) = c ∷ render ps
render (conversion c ∷ ps) = b'%' ∷ conversion_text c (render ps)

abbrev pub all : (ℕ → Bool) → Bytes → Bool
all p [] = true
all p (c ∷ cs) = p c && all p cs

abbrev pub widths_of : Bytes → Widths → Widths
widths_of [] w = w
widths_of (c ∷ cs) w = widths_of cs (widen c w)

-- The argument that a letter takes, by its lengths.
abbrev pub letter_kind : Widths → ℕ → Option Kind
letter_kind w c =
    if is_integer c
    then some (if ltb 0 w.short then int else if w.wide == 0 then int else long)
    else if is_float c
    then some double
    else if c == b's'
    then some string
    else if c == b'p'
    then some pointer
    else none

-- A width in digits does not begin with 0, which is a flag.
abbrev pub width_ok : Width → Bool
width_ok star = true
width_ok (digits []) = true
width_ok (digits (d ∷ ds)) = is_digit d && (not (d == b'0') && all is_digit ds)

abbrev pub precision_ok : Precision → Bool
precision_ok absent = true
precision_ok (present ds) = all is_digit ds

abbrev pub no_widths : Widths
no_widths = record { short = 0; wide = 0 }

-- The flags and the precision that the C standard defines for a letter: `#` not for d, i, u, c, s and
-- p, `0` not for c, s and p, and a precision not for c and p.
abbrev pub flag_ok : ℕ → ℕ → Bool
flag_ok z c =
    if c == b'#'
    then z == b'o' || (z == b'x' || (z == b'X' || is_float z))
    else if c == b'0'
    then not (z == b'c' || (z == b's' || z == b'p'))
    else true

abbrev pub precision_defined : ℕ → Precision → Bool
precision_defined z absent = true
precision_defined z (present ds) = not (z == b'c' || z == b'p')

-- A conversion that the code takes as the C standard does, and the argument that it takes behind that of
-- its width: flags, a width in digits or `*`, a precision in digits, lengths, and one of the letters d,
-- i, o, u, x, X, c, e, E, f, g, G, s and p. The lengths are none, h or hh for an `int`, l or ll for a `long`,
-- none or l for a `double`, and none for c, s and p.
pub record IsConversion (c : Conversion) (k : Kind) : Type 0 where
  pub flags : all is_flag c.flags ≡ true
  pub width : width_ok c.width ≡ true
  pub precision : precision_ok c.precision ≡ true
  pub lengths : all is_length c.lengths ≡ true
  pub letter : letter_kind (widths_of c.lengths no_widths) c.letter ≡ some k
  pub typed : takes_type k c.lengths c.letter ≡ true
  pub flags_ok : all (flag_ok c.letter) c.flags ≡ true
  pub defined : precision_defined c.letter c.precision ≡ true

-- The arguments of a conversion: an `int` for an asterisk, then the value. The `int` is not the
-- one with no absolute value.
pub data Takes (c : Conversion) : List Arg → Type 0 where
  plain :
      {k : Kind} (ds : Bytes) (a : Arg)
      → c.width ≡ digits ds
      → IsConversion c k
      → same_kind k (kind_of a) ≡ true
      → Takes c (a ∷ [])
  starred :
      {k : Kind} (w : ℕ) (a : Arg)
      → w ≢ 2 ^ 31
      → c.width ≡ star
      → IsConversion c k
      → same_kind k (kind_of a) ≡ true
      → Takes c (Arg.int_arg w ∷ a ∷ [])

-- A format with the arguments that it takes.
pub data Fits : List Piece → List Arg → Type 0 where
  end : Fits [] []
  text :
      {ps : List Piece} {args : List Arg} (c : ℕ)
      → (c == b'%') ≡ false
      → Fits ps args
      → Fits (literal c ∷ ps) args
  item :
      {ps : List Piece} {args : List Arg} (c : Conversion) (xs : List Arg)
      → Takes c xs
      → Fits ps args
      → Fits (conversion c ∷ ps) (xs ++ args)
