-- ===== src/Bitmap/Laws.antt =====
-- What bitmap_alloc, bitmap_set and bitmap_get do, on every branch.
use cc_utils.Base.{
  ℕ, zero, suc, ◌+◌, ◌*◌, ◌/◌, ◌%◌, ◌^◌, ◌≤◌, ◌<◌, ◌≡◌, ◌≢◌, refl, ◌⊎◌, inl, inr, bit_and, Bool,
  true, ◌&&◌, some, List, [], ◌∷◌, ltb, leb, ◌==◌, if◌then◌else◌, get_elem?, set, replicate, length,
  arith, passes, passes-at, ==_iff, length-set, get_elem?-set_self, get_elem?-set_ne,
  get_elem?_total, get_elem?-replicate, length-replicate, Bool-cases, ltb→lt, subst,
}
use Prim.Native.Nat.{bit_and-bitwise}
use native.Mathlib.Decide.{dec_lt}
use cc_utils.Base.Outcome.{ok}
use cc_utils.Base.Int.{pos}
use cc_utils.Bitmap.{
  Bitmap, bit_success, bit_fail, round_up, bitmap_alloc, clear_bit, raise_bit, bitmap_set,
  bitmap_get,
}

-- Every byte of the array is a byte.
abbrev pub AllBytes : List ℕ → Type 0
AllBytes [] = Unit {0}
AllBytes (b ∷ bs) = (b < 256) × AllBytes bs

-- The array has the bytes that `len` bits take.
pub record IsValid (bits : Bitmap) : Type 0 where
  pub sized : length bits.bytes ≡ (bits.len + 7) / 8
  pub bytes : AllBytes bits.bytes

-- The value of a bit of a byte.
abbrev bit_of : ℕ → ℕ → ℕ
bit_of b k = if ltb 0 (bit_and b (2 ^ k)) then 1 else 0

-- One check for each byte, each bit that is written and each bit that is read.
abbrev bit_check : ℕ → ℕ → ℕ → Bool
bit_check b k j =
    ltb (clear_bit b k) 256
    && (ltb (raise_bit b k) 256
        && (bit_of (clear_bit b k) j == (if j == k then 0 else bit_of b j)
            && bit_of (raise_bit b k) j == (if j == k then 1 else bit_of b j)))

bit_table : passes (λ x. bit_check (x / 64) (x / 8 % 8) (x % 8)) 16384 ≡ true
unfolding passes
bit_table = refl

and_parts :
    (p q r s : Bool)
    → (p && (q && (r && s))) ≡ true
    → (p ≡ true) × (q ≡ true) × (r ≡ true) × (s ≡ true)
and_parts p q r s h = ground arith

-- A bit of a byte after a bit is written.
pub bit_lem :
    (b k j : ℕ)
    → b < 256
    → k < 8
    → j < 8
    → (clear_bit b k < 256)
      × (raise_bit b k < 256)
      × (bit_of (clear_bit b k) j ≡ (if j == k then 0 else bit_of b j))
      × (bit_of (raise_bit b k) j ≡ (if j == k then 1 else bit_of b j))
bit_lem b k j hb hk hj =
    let x : ℕ = b * 64 + k * 8 + j in
    let eb : x / 64 ≡ b = omega arith in
    let ek : x / 8 % 8 ≡ k = omega arith in
    let ej : x % 8 ≡ j = omega arith in
    let h =
      passes-at (λ x. bit_check (x / 64) (x / 8 % 8) (x % 8)) {bound = 16384} {at = x} (omega arith)
        bit_table in
    let h' : bit_check b k j ≡ true =
      subst (λ t. bit_check b k t ≡ true) ej
        (subst (λ t. bit_check b t (x % 8) ≡ true) ek
          (subst (λ t. bit_check t (x / 8 % 8) (x % 8) ≡ true) eb h)) in
    let parts = and_parts _ _ _ _ h' in
    (ltb→lt _ _ parts.0, ltb→lt _ _ parts.1, (==_iff _ _).0 parts.2, (==_iff _ _).0 parts.3)

AllBytes-get : (bs : List ℕ) (i b : ℕ) → AllBytes bs → get_elem? bs i ≡ some b → b < 256
AllBytes-get [] i b h e = cc
AllBytes-get (x ∷ bs) zero b h e = ground arith
AllBytes-get (x ∷ bs) (suc i) b h e = AllBytes-get bs i b h.1 e

AllBytes-set : (bs : List ℕ) (i b : ℕ) → AllBytes bs → b < 256 → AllBytes (set bs i b)
AllBytes-set [] i b h e = tt
AllBytes-set (x ∷ bs) zero b h e = (e, h.1)
AllBytes-set (x ∷ bs) (suc i) b h e = (h.0, AllBytes-set bs i b h.1 e)

AllBytes-replicate : (n : ℕ) → AllBytes (replicate n 0)
AllBytes-replicate zero = tt
AllBytes-replicate (suc n) = (omega arith, AllBytes-replicate n)

-- The map with the byte at an index replaced.
abbrev with_byte : Bitmap → ℕ → ℕ → Bitmap
with_byte bits i b = record bits { bytes = set bits.bytes i b }

bitmap_get-with_byte_ne :
    (bits : Bitmap) (i b m : ℕ)
    → i ≢ m / 8
    → bitmap_get (with_byte bits i b) (pos m) ≡ bitmap_get bits (pos m)
unfolding bitmap_get
bitmap_get-with_byte_ne bits i b m h = ground (arith, get_elem?-set_ne bits.bytes i (m / 8) b h)

-- bitmap_get by the byte that it reads.
bitmap_get-bit :
    (bits : Bitmap) (m b : ℕ)
    → get_elem? bits.bytes (m / 8) ≡ some b
    → bitmap_get bits (pos m)
      ≡ (if leb bits.len m then ok bit_fail else ok (pos (bit_of b (m % 8))))
unfolding bitmap_get
bitmap_get-bit bits m b e = ground arith

same_byte :
    (v k b m n len : ℕ)
    → v < 2
    → n < len
    → b < 256
    → k ≡ n % 8
    → m / 8 ≡ n / 8
    → let b' = if v == 0 then clear_bit b k else raise_bit b k in
      (if leb len m then ok bit_fail else ok (pos (bit_of b' (m % 8)))) ≡ (
        if m == n
        then ok (pos v)
        else if leb len m
        then ok bit_fail
        else ok (pos (bit_of b (m % 8))))
same_byte v k b m n len hv hn hb ek em =
    ground (arith, bit_lem b k (m % 8) hb (omega arith) (omega arith))

-- A write inside of the map succeeds, keeps the map valid and its length, and changes that one bit:
-- bitmap_get returns the value at the offset, and what it returned before at every other offset.
pub bitmap_set-get :
    (bits : Bitmap) (n v : ℕ)
    → IsValid bits
    → n < bits.len
    → v < 2
    → (bits' : Bitmap) × (bitmap_set bits (pos n) v ≡ ok (bit_success, bits'))
      × IsValid bits'
      × (bits'.len ≡ bits.len)
      × ((m : ℕ)
          → bitmap_get bits' (pos m) ≡ (if m == n then ok (pos v) else bitmap_get bits (pos m)))
unfolding bitmap_set bitmap_get
bitmap_set-get bits n v h hn hv =
    let (b, eb) = get_elem?_total bits.bytes (n / 8) (omega (arith, h.sized)) in
    let hb = AllBytes-get bits.bytes (n / 8) b h.bytes eb in
    let b' : ℕ = if v == 0 then clear_bit b (n % 8) else raise_bit b (n % 8) in
    let hb' : b' < 256 = ground (arith, bit_lem b (n % 8) 0 hb (omega arith) (omega arith)) in
    (
      with_byte bits (n / 8) b',
      ground arith,
      record {
        sized = omega (arith, length-set bits.bytes (n / 8) b', h.sized);
        bytes = AllBytes-set bits.bytes (n / 8) b' h.bytes hb';
      },
      refl,
      λ m. elim (Bool-cases (m / 8 == n / 8)) [
        | inl e ↦
            let em : m / 8 ≡ n / 8 = (==_iff _ _).0 e in
            let got = get_elem?-set_self bits.bytes (n / 8) b' (omega (arith, h.sized)) in
            rw
              (
                bitmap_get-bit (with_byte bits (n / 8) b') m b' (rw em got),
                bitmap_get-bit bits m b (rw em eb),
              )
              (same_byte v (n % 8) b m n bits.len hv hn hb refl em)
        | inr ne ↦
            let apart : n / 8 ≢ m / 8 = ground arith in
            let differ : m ≢ n = ground arith in
            rw (bitmap_get-with_byte_ne bits (n / 8) b' m apart) (ground arith)
      ],
    )

-- A fresh map has the length asked for and is valid; every bit of it reads 0, and at an offset
-- outside of it bitmap_get reports failure.
pub bitmap_alloc-get :
    (len : ℕ)
    → (bits : Bitmap) × (bitmap_alloc true true len ≡ some bits)
      × (bits.len ≡ len)
      × IsValid bits
      × ((m : ℕ) → bitmap_get bits (pos m) ≡ (if ltb m len then ok (pos 0) else ok bit_fail))
unfolding bitmap_alloc bitmap_get
bitmap_alloc-get len = (
  fresh,
  refl,
  refl,
  record {
    sized = omega (arith, length-replicate {A = ℕ} (round_up len 8 / 8) 0);
    bytes = AllBytes-replicate (round_up len 8 / 8);
  },
  λ m. elim (dec_lt m len) [
    | yes h ↦
        rw
          (bitmap_get-bit fresh m 0
            (get_elem?-replicate (round_up len 8 / 8) (m / 8) 0 (omega arith)))
          (ground (arith, zero_bit m))
    | no out ↦ ground arith
  ],
)
  where
    fresh : Bitmap
    fresh = record { bytes = replicate (round_up len 8 / 8) 0; len = len }

    zero_bit : (m : ℕ) → bit_and 0 (2 ^ (m % 8)) ≡ 0
    zero_bit m = bit_and-bitwise 0 (2 ^ (m % 8))

bitmap_set-out :
    (bits : Bitmap) (n v : ℕ) → bits.len ≤ n → bitmap_set bits (pos n) v ≡ ok (bit_fail, bits)
unfolding bitmap_set
bitmap_set-out bits n v h = ground arith

bitmap_set-bad : (bits : Bitmap) (n v : ℕ) → 2 ≤ v → bitmap_set bits (pos n) v ≡ ok (bit_fail, bits)
unfolding bitmap_set
bitmap_set-bad bits n v h = ground arith

-- On a valid map, and at an offset that is not negative, bitmap_set never faults: it reports
-- success exactly if the value is 0 or 1 and the offset lies below the length, and otherwise
-- reports failure and leaves the map as it was.
pub bitmap_set_total :
    (bits : Bitmap) (n v : ℕ)
    → IsValid bits
    → ((v < 2)
        × (n < bits.len)
        × ((bits' : Bitmap) × (bitmap_set bits (pos n) v ≡ ok (bit_success, bits'))))
      ⊎ (((2 ≤ v) ⊎ (bits.len ≤ n)) × (bitmap_set bits (pos n) v ≡ ok (bit_fail, bits)))
bitmap_set_total bits n v h = elim (dec_lt v 2) [
  | yes hv ↦ elim (dec_lt n bits.len) [
    | yes hn ↦ let done = bitmap_set-get bits n v h hn hv in inl (hv, hn, (done.0, done.1))
    | no out ↦ inr (inr (omega arith), bitmap_set-out bits n v (omega arith))
  ]
  | no bad ↦ inr (inl (omega arith), bitmap_set-bad bits n v (omega arith))
]
