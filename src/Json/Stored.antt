-- ===== src/Json/Stored.antt =====
-- What json_object_helper of src/json_helper.c leaves in the struct.
use cc_utils.Base.{
  sym, subst, ◌++◌, append-nil, ltb, ◌==◌, if◌then◌else◌, ◌%◌, ◌^◌, ◌*◌, ◌-◌, replicate, take,
  length-take, length-append, length-replicate, inl, inr, ℕ, zero, suc, ◌+◌, ◌≤◌, ◌<◌, ◌≡◌, ◌⊎◌,
  refl, ap, ◌∙◌, true, some, List, [], ◌∷◌, leb, length, All, arith,
}
use mathlib.Core.List.{map}
use cc_utils.Base.Outcome.{ok, ◌>>◌, assert}
use cc_utils.Base.Int.{pos}
use cc_utils.Base.Bytes.{Bytes, word, read_word, read_word-word, FitsWord}
use cc_utils.Base.Memory.{read_at, put_all, put_all-outside, read_at-put_all}
use cc_utils.Json.{
  Json2Struct, Item, Object, widened, int_bytes, float_bytes, string_bytes, field_bytes,
  store_field, helper_loop, json_object_helper,
}

-- A description of a field, with the item that the object has for it.
pub record Field : Type 0 where
  pub described : Json2Struct
  pub item : Item

abbrev pub start : Field → ℕ
start f = f.described.offset

abbrev pub behind : Field → ℕ
behind f = f.described.offset + f.described.length

-- The `int` of an item in an integer of so many bytes: its low bits, or with its sign in eight.
abbrev pub int_value : ℕ → ℕ → ℕ
int_value n v =
    if n == 8 then (if ltb v (2 ^ 31) then v else v + (2 ^ 64 - 2 ^ 32)) else v % 2 ^ (8 * n)

-- The item is of the field's type: an `int` for an integer of 1, 2, 4 or 8 bytes, a `double` for a `float`
-- or a `double`, a string for a string.
pub data Typed (obj : Object) (f : Field) : Type 0 where
  int_typed :
      f.described.type ≡ 1
      → f.item.valueint < 2 ^ 32
      → (f.described.length ≡ 1)
        ⊎ ((f.described.length ≡ 2) ⊎ ((f.described.length ≡ 4) ⊎ (f.described.length ≡ 8)))
      → Typed obj f
  float_typed :
      f.described.type ≡ 2
      → f.described.length ≡ 4
      → obj.to_float f.item.valuedouble < 2 ^ 32
      → Typed obj f
  double_typed :
      f.described.type ≡ 2 → f.described.length ≡ 8 → f.item.valuedouble < 2 ^ 64 → Typed obj f
  string_typed : (s : Bytes) → f.described.type ≡ 3 → f.item.valuestring ≡ some s → Typed obj f

-- The bytes are the item's value: read as an integer, as a `float` or a `double`, and as characters with
-- zeros up to the length.
pub data IsValue (obj : Object) (f : Field) (bytes : Bytes) : Type 0 where
  is_int :
      f.described.type ≡ 1
      → read_word f.described.length bytes ≡ some (int_value f.described.length f.item.valueint)
      → IsValue obj f bytes
  is_float :
      f.described.type ≡ 2
      → f.described.length ≡ 4
      → read_word 4 bytes ≡ some (obj.to_float f.item.valuedouble)
      → IsValue obj f bytes
  is_double :
      f.described.type ≡ 2
      → f.described.length ≡ 8
      → read_word 8 bytes ≡ some f.item.valuedouble
      → IsValue obj f bytes
  is_string :
      (s : Bytes)
      → f.described.type ≡ 3
      → f.item.valuestring ≡ some s
      → bytes ≡ take f.described.length (s ++ replicate f.described.length 0)
      → IsValue obj f bytes

-- The object has the item, of the field's type, and the field is within the struct.
pub record IsField (obj : Object) (size : ℕ) (f : Field) : Type 0 where
  pub found : obj.get_item f.described.name ≡ some f.item
  pub typed : Typed obj f
  pub inside : behind f ≤ size

abbrev pub Apart : Field → Field → Type 0
Apart f g = behind f ≤ start g ⊎ behind g ≤ start f

abbrev pub AllApart : List Field → Type 0
AllApart [] = Unit {0}
AllApart (f ∷ fs) = All (Apart f) fs × AllApart fs

-- An address that is not the field's.
abbrev pub Outside : ℕ → Field → Type 0
Outside x f = x < start f ⊎ behind f ≤ x

-- A field of the struct holds its item's value.
abbrev pub IsHeld : Object → (ℕ → ℕ) → Field → Type 0
IsHeld obj s f = IsValue obj f (read_at s (start f) f.described.length)

-- What is stored for an item of the field's type has the field's length and the item's value.
abbrev Stored : Object → Field → Type 0
Stored obj f =
    (bytes : Bytes) × (field_bytes obj f.described (some f.item) ≡ ok bytes)
    × (length bytes ≡ f.described.length)
    × IsValue obj f bytes

read_word-own : (n w : ℕ) → FitsWord n w → read_word n (word n w) ≡ some w
read_word-own n w h = ap (read_word n) (sym (append-nil (word n w))) ∙ read_word-word n w [] h

int_bytes-value :
    (n v : ℕ)
    → v < 2 ^ 32
    → (n ≡ 1) ⊎ ((n ≡ 2) ⊎ ((n ≡ 4) ⊎ (n ≡ 8)))
    → (length (int_bytes n v) ≡ n) × (read_word n (int_bytes n v) ≡ some (int_value n v))
unfolding int_bytes
int_bytes-value n v small (inl one) = rw one (refl, ap some (omega arith))
int_bytes-value n v small (inr (inl two)) = rw two (refl, ap some (omega arith))
int_bytes-value n v small (inr (inr (inl four))) = rw four (refl, ap some (omega arith))
int_bytes-value n v small (inr (inr (inr eight))) =
    rw eight (refl, read_word-own 8 (widened v) (ground arith) ∙ ap some (ground arith))

field_bytes-Stored : (obj : Object) (f : Field) → Typed obj f → Stored obj f
unfolding field_bytes float_bytes string_bytes
field_bytes-Stored obj f (int_typed t small n) =
    let (size, value) = int_bytes-value f.described.length f.item.valueint small n in
    (int_bytes f.described.length f.item.valueint, rw t refl, size, is_int t value)
field_bytes-Stored obj f (float_typed t n small) =
    let w = obj.to_float f.item.valuedouble in
    (word 4 w, rw (t, n) refl, sym n, is_float t n (read_word-own 4 w (omega arith)))
field_bytes-Stored obj f (double_typed t n small) =
    let w = f.item.valuedouble in
    (word 8 w, rw (t, n) refl, sym n, is_double t n (read_word-own 8 w (omega arith)))
field_bytes-Stored obj f (string_typed s t e) =
    let n = f.described.length in
    (
      take n (s ++ replicate n 0),
      rw (t, e) refl,
      omega (
        arith,
        length-take n (s ++ replicate n 0),
        length-append s (replicate n 0),
        length-replicate {A = ℕ} n 0,
      ),
      is_string s t e refl,
    )

read_at-agree :
    (s s' : ℕ → ℕ) (a n : ℕ)
    → ((x : ℕ) → a ≤ x → x < a + n → s' x ≡ s x)
    → read_at s' a n ≡ read_at s a n
unfolding read_at
read_at-agree s s' a zero same = refl
read_at-agree s s' a (suc n) same =
    rw
      (
        same a (omega arith) (omega arith),
        read_at-agree s s' (a + 1) n (λ x low high. same x (omega arith) (omega arith)),
      )
      refl

All-Outside :
    (f : Field) (fs : List Field) (x : ℕ)
    → All (Apart f) fs
    → start f ≤ x
    → x < behind f
    → All (Outside x) fs
All-Outside f [] x all low high = tt
All-Outside f (g ∷ fs) x (apart, all) low high =
    (ground (arith, apart), All-Outside f fs x all low high)

module _ (obj : Object) (size : ℕ) where
  helper_loop-IsHeld :
      (fs : List Field) (s : ℕ → ℕ)
      → All (IsField obj size) fs
      → AllApart fs
      → (s' : ℕ → ℕ) × (helper_loop obj size (map (λ f. f.described) fs) s ≡ ok (pos 0, s'))
        × All (IsHeld obj s') fs
        × ((x : ℕ) → All (Outside x) fs → s' x ≡ s x)
  unfolding helper_loop store_field
  helper_loop-IsHeld [] s is apart = (s, refl, tt, λ x out. refl)
  helper_loop-IsHeld (f ∷ fs) s (is, all) (apart, aparts) =
      let (bytes, stored, count, value) = field_bytes-Stored obj f is.typed in
      let s₁ = put_all s (start f) bytes in
      let fits : leb (start f + length bytes) size ≡ true = ground (arith, is.inside) in
      let (s₂, rest, held, same) = helper_loop-IsHeld fs s₁ all aparts in
      let own =
        read_at-agree s₁ s₂ (start f) (length bytes)
          (λ x low high. same x (All-Outside f fs x apart low (omega arith))) in
      let whole : read_at s₂ (start f) f.described.length ≡ bytes =
        ap (read_at s₂ (start f)) (sym count) ∙ own ∙ read_at-put_all s (start f) bytes in
      (
        s₂,
        rw (is.found, stored, fits) rest,
        (subst (IsValue obj f) (sym whole) value, held),
        λ x out. same x out.1 ∙ put_all-outside s (start f) bytes x (ground (arith, out.0)),
      )

  -- json_object_helper of an object that has an item of the right type for every described field, where
  -- the fields are within the struct and apart from each other, returns 0 and leaves in each field, in its
  -- own length, the value of its item (an integer of 1, 2 or 4 bytes has the low bits of `valueint`, one of
  -- 8 its sign, a `float` the converted and a `double` the whole `valuedouble`, a string its characters
  -- with zeros behind them), and every other byte of the struct as it was.
  pub json_object_helper-IsHeld :
      (fs : List Field) (s : ℕ → ℕ)
      → obj.is_object ≡ true
      → All (IsField obj size) fs
      → AllApart fs
      → (s' : ℕ → ℕ) × (json_object_helper obj size (map (λ f. f.described) fs) s ≡ ok (pos 0, s'))
        × All (IsHeld obj s') fs
        × ((x : ℕ) → All (Outside x) fs → s' x ≡ s x)
  unfolding json_object_helper
  json_object_helper-IsHeld fs s object is apart =
      let (s', e, held, same) = helper_loop-IsHeld fs s is apart in
      (
        s',
        ap (λ b. assert b >> helper_loop obj size (map (λ f. f.described) fs) s) object ∙ e,
        held,
        same,
      )
