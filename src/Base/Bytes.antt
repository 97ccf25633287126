-- ===== src/Base/Bytes.antt =====
-- Bytes in memory: words in little-endian order, C strings, writes into a buffer.
use Prim.Native.Nat.{ℕ, zero, suc, ◌+◌, ◌*◌, ◌/◌, ◌%◌, ◌≤◌}
use mathlib.Core.Path.{◌≡◌, refl, ap}
use mathlib.Core.Bool.{Bool, true, false, ◌&&◌}
use mathlib.Core.Option.{Option, none, some}
use mathlib.Core.List.{List, [], ◌∷◌, ◌++◌}
use native.Mathlib.Omega.{arith}
use cc_utils.Base.Tests.{leb, ◌==◌, if◌then◌else◌}
use cc_utils.Base.Lists.{length, take, drop, length-append, take-append, length-take, length-drop}
use cc_utils.Base.Outcome.{Outcome, ok, fault}

abbrev pub Bytes : Type 0
Bytes = List ℕ

-- The `n` low bytes of `w`, lowest first: what `*(intN_t *)p = w` stores on a little-endian host.
abbrev pub word : ℕ → ℕ → Bytes
word zero w = []
word (suc n) w = (w % 256) ∷ word n (w / 256)

-- `*(uintN_t *)p`; `none` past the end of what is readable.
abbrev pub read_word : ℕ → Bytes → Option ℕ
read_word zero b = some 0
read_word (suc n) [] = none
read_word (suc n) (x ∷ b) = elim (read_word n b) [ none ↦ none | some w ↦ some (x + 256 * w) ]

-- The C string at the start of the bytes, without its terminator.
abbrev pub c_string : Bytes → Option Bytes
c_string [] = none
c_string (x ∷ b) =
    let rest = c_string b in
    if x == 0 then some [] else elim rest [ none ↦ none | some s ↦ some (x ∷ s) ]

-- Text that a C string can hold: no byte is 0.
abbrev pub IsText : Bytes → Type 0
IsText [] = Unit {0}
IsText (x ∷ s) = ((x == 0) ≡ false) × IsText s

-- Store bytes at an offset of a buffer; outside of the buffer this is undefined behaviour.
unfoldable pub write_bytes : Bytes → ℕ → Bytes → Outcome Bytes
write_bytes buf off bs =
    if leb (off + length bs) (length buf)
    then ok (take off buf ++ bs ++ drop (off + length bs) buf)
    else fault

pub length-word : (n w : ℕ) → length (word n w) ≡ n
length-word zero w = refl
length-word (suc n) w = ap suc (length-word n (w / 256))

-- `w` fits `n` bytes.
abbrev pub FitsWord : ℕ → ℕ → Type 0
FitsWord zero w = w ≡ 0
FitsWord (suc n) w = FitsWord n (w / 256)

-- Reading a word that was stored gives it back, whatever follows.
pub read_word-word :
    (n w : ℕ) (rest : Bytes) → FitsWord n w → read_word n (word n w ++ rest) ≡ some w
read_word-word zero w rest h = ap some (omega arith)
read_word-word (suc n) w rest h = rw (read_word-word n (w / 256) rest h) (ap some (omega arith))

-- A successful write keeps the size and the bytes before it, and puts the new ones behind them.
pub take-write_bytes :
    (buf : Bytes) (off : ℕ) (bs : Bytes)
    → off + length bs ≤ length buf
    → (buf' : Bytes) × (write_bytes buf off bs ≡ ok buf')
      × (length buf' ≡ length buf)
      × (take (off + length bs) buf' ≡ take off buf ++ bs)
unfolding write_bytes
take-write_bytes buf off bs h = (
  take off buf ++ bs ++ drop (off + length bs) buf,
  ground arith,
  omega (
    arith,
    length-append (take off buf ++ bs) (drop (off + length bs) buf),
    length-append (take off buf) bs,
    length-take off buf,
    length-drop (off + length bs) buf,
  ),
  take-append (take off buf ++ bs) (drop (off + length bs) buf) (off + length bs)
      (omega (arith, length-append (take off buf) bs, length-take off buf)),
)

pub c_string-append : (s rest : Bytes) → IsText s → c_string (s ++ 0 ∷ rest) ≡ some s
c_string-append [] rest h = refl
c_string-append (x ∷ s) rest h = rw (h.0, c_string-append s rest h.1)

-- strcmp(a, b) == 0, of the characters before the terminators
abbrev pub bytes_eq : Bytes → Bytes → Bool
bytes_eq [] [] = true
bytes_eq (x ∷ a) (y ∷ b) = (x == y) && bytes_eq a b
bytes_eq _ _ = false

pub bytes_eq_refl : (a : Bytes) → bytes_eq a a ≡ true
bytes_eq_refl [] = refl
bytes_eq_refl (x ∷ a) = ground (arith, bytes_eq_refl a)

pub bytes_eq_sound : (a b : Bytes) → bytes_eq a b ≡ true → a ≡ b
bytes_eq_sound [] [] h = refl
bytes_eq_sound [] (y ∷ b) h = absurd cc
bytes_eq_sound (x ∷ a) [] h = absurd cc
bytes_eq_sound (x ∷ a) (y ∷ b) h =
    let head : x ≡ y = ground arith in
    let rest = bytes_eq_sound a b (ground arith) in rw (head, rest) refl
