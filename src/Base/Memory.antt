-- ===== src/Base/Memory.antt =====
-- Memory as the byte at each address.
use cc_utils.Base.{
  ℕ, zero, suc, ◌+◌, ◌≡◌, ◌≤◌, ◌<◌, ◌⊎◌, inl, inr, refl, ap, ◌∙◌, false, Bool-cases, [], ◌∷◌, ◌==◌,
  ==_refl, if◌then◌else◌, length, arith,
}
use cc_utils.Base.Bytes.{Bytes}

abbrev pub put_byte : (ℕ → ℕ) → ℕ → ℕ → ℕ → ℕ
put_byte bytes a b x = if x == a then b else bytes x

-- Bytes of the memory
unfoldable pub read_at : (ℕ → ℕ) → ℕ → ℕ → Bytes
read_at bytes a zero = []
read_at bytes a (suc n) = bytes a ∷ read_at bytes (a + 1) n

-- Bytes written over the memory.
abbrev pub put_all : (ℕ → ℕ) → ℕ → Bytes → ℕ → ℕ
put_all bytes a [] = bytes
put_all bytes a (b ∷ bs) = put_all (put_byte bytes a b) (a + 1) bs

pub put_all-outside :
    (bytes : ℕ → ℕ) (a : ℕ) (bs : Bytes) (x : ℕ)
    → x < a ⊎ a + length bs ≤ x
    → put_all bytes a bs x ≡ bytes x
put_all-outside bytes a [] x h = refl
put_all-outside bytes a (b ∷ bs) x h =
    let other : (x == a) ≡ false = ground (arith, h) in
    put_all-outside (put_byte bytes a b) (a + 1) bs x (ground (arith, h)) ∙ rw other refl

pub put_all-read_at :
    (bytes kept : ℕ → ℕ) (a n x : ℕ)
    → a ≤ x
    → x < a + n
    → put_all bytes a (read_at kept a n) x ≡ kept x
unfolding read_at
put_all-read_at bytes kept a zero x low high = absurd (omega arith)
put_all-read_at bytes kept a (suc n) x low high = elim (Bool-cases (x == a)) [
  | inl here ↦
      put_all-outside (put_byte bytes a (kept a)) (a + 1) (read_at kept (a + 1) n) x
        (inl (ground (arith, here)))
      ∙ rw here (ap kept (ground (arith, here)))
  | inr other ↦
      put_all-read_at (put_byte bytes a (kept a)) kept (a + 1) n x (ground (arith, other))
        (omega arith)
]

pub length-read_at : (kept : ℕ → ℕ) (a n : ℕ) → length (read_at kept a n) ≡ n
unfolding read_at
length-read_at kept a zero = refl
length-read_at kept a (suc n) = ap suc (length-read_at kept (a + 1) n)

pub read_at-put_all :
    (bytes : ℕ → ℕ) (a : ℕ) (bs : Bytes) → read_at (put_all bytes a bs) a (length bs) ≡ bs
unfolding read_at
read_at-put_all bytes a [] = refl
read_at-put_all bytes a (b ∷ bs) =
    rw
      (
        put_all-outside (put_byte bytes a b) (a + 1) bs a (inl (omega arith)),
        ==_refl a,
        read_at-put_all (put_byte bytes a b) (a + 1) bs,
      )
      refl
