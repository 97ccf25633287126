-- ===== src/Binlog.antt =====
-- The binary log: src/binlog/binlog_internal.h (this file), src/binlog/binlog.c (Buffer, Format,
-- Record) and src/binlog/binlog_parser.c (Parser and below). The files under Laws prove them.
pub mod Buffer
pub mod Format
pub mod Laws
pub mod Pieces
pub mod Parser
pub mod Record
pub mod Handle
pub mod Plenty
mod Tests
use cc_utils.Base.{
  ℕ, ◌+◌, ◌≡◌, Bool, true, false, List, [], ◌∷◌, ◌++◌, ◌||◌, ◌&&◌, not, if◌then◌else◌, leb, ◌==◌,
}
use cc_utils.Base.Bytes.{Bytes, word}

-- The members of binlog_enum.
abbrev pub blog_int : ℕ
blog_int = 0

abbrev pub blog_long : ℕ
blog_long = 1

abbrev pub blog_double : ℕ
blog_double = 2

abbrev pub blog_string : ℕ
blog_string = 3

abbrev pub blog_pointer : ℕ
blog_pointer = 4

abbrev pub blog_begin : ℕ
blog_begin = 0xfd

abbrev pub blog_end : ℕ
blog_end = 0xff

-- BINLOG_STACK_SIZE
abbrev pub stack_size : ℕ
stack_size = 1024

-- The types TYPE_BLOG_INT to TYPE_BLOG_POINTER.
pub data Kind : Type 0 where
  int long double string pointer : Kind

-- A variable argument: its type and its bit pattern, or the characters of a string.
pub data Arg : Type 0 where
  int_arg : ℕ → Arg
  long_arg : ℕ → Arg
  double_arg : ℕ → Arg
  string_arg : Bytes → Arg
  pointer_arg : ℕ → Arg

abbrev pub kind_of : Arg → Kind
kind_of (int_arg w) = int
kind_of (long_arg w) = long
kind_of (double_arg w) = double
kind_of (string_arg s) = string
kind_of (pointer_arg w) = pointer

abbrev pub same_kind : Kind → Kind → Bool
same_kind int int = true
same_kind long long = true
same_kind double double = true
same_kind string string = true
same_kind pointer pointer = true
same_kind _ _ = false

-- strchr("-+ #0", c) for a character that is not the terminator
abbrev pub is_flag : ℕ → Bool
is_flag c = c == b'-' || (c == b'+' || (c == b' ' || (c == b'#' || c == b'0')))

-- ISDIGIT(c)
abbrev pub is_digit : ℕ → Bool
is_digit c = leb b'0' c && leb c b'9'

-- the conversions that the switch of do_valog and of print_format takes for integers and floats
abbrev pub is_integer : ℕ → Bool
is_integer c =
    c == b'd'
    || (c == b'i' || (c == b'o' || (c == b'u' || (c == b'x' || (c == b'X' || c == b'c')))))

abbrev pub is_float : ℕ → Bool
is_float c = c == b'f' || (c == b'e' || (c == b'E' || (c == b'g' || c == b'G')))

-- The lengths that go with an `int` and with a `long` (`long long` has as many bits).
abbrev pub is_short : List ℕ → Bool
is_short [] = true
is_short (c ∷ []) = c == b'h'
is_short (c ∷ d ∷ []) = c == b'h' && d == b'h'
is_short _ = false

abbrev pub is_wide : List ℕ → Bool
is_wide (c ∷ []) = c == b'l'
is_wide (c ∷ d ∷ []) = c == b'l' && d == b'l'
is_wide _ = false

abbrev pub no_lengths : List ℕ → Bool
no_lengths [] = true
no_lengths _ = false

-- Whether the C standard has fprintf take an argument of this type at a letter with these lengths: of
-- another type it is undefined. `l` has no effect on the letter of a `double`.
abbrev pub takes_type : Kind → List ℕ → ℕ → Bool
takes_type int ls c = if c == b'c' then no_lengths ls else is_integer c && is_short ls
takes_type long ls c = not (c == b'c') && (is_integer c && is_wide ls)
takes_type double (l ∷ []) c = is_float c && l == b'l'
takes_type double ls c = is_float c && no_lengths ls
takes_type string ls c = c == b's' && no_lengths ls
takes_type pointer ls c = c == b'p' && no_lengths ls
