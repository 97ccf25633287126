-- ===== src/Bitmap/Tests.antt =====
-- The theorems of the bitmap on maps of a few bits.
use cc_utils.Base.{ℕ, zero, suc, ◌+◌, ◌<◌, ◌≡◌, refl, arith, [], ◌∷◌, ◌==◌, if◌then◌else◌}
use cc_utils.Base.Outcome.{ok}
use cc_utils.Base.Int.{ℤ, pos}
use cc_utils.Bitmap.{Bitmap, bit_success, bitmap_set, bitmap_get}
use cc_utils.Bitmap.Laws.{IsValid, bitmap_set-get}
use cc_utils.Bitmap.Print.{AgreeButLast}

abbrev ten_bits : Bitmap
ten_bits = record { bytes = 5 ∷ 2 ∷ []; len = 10 }

ten_bits-IsValid : IsValid ten_bits
ten_bits-IsValid = record { sized = refl; bytes = (omega arith, (omega arith, tt)) }

bitmap_set-get_example :
    (bits' : Bitmap) × (bitmap_set ten_bits (pos 9) 0 ≡ ok (bit_success, bits'))
    × IsValid bits'
    × (bits'.len ≡ 10)
    × ((m : ℕ)
        → bitmap_get bits' (pos m) ≡ (if m == 9 then ok (pos 0) else bitmap_get ten_bits (pos m)))
bitmap_set-get_example = bitmap_set-get ten_bits 9 0 ten_bits-IsValid (omega arith) (omega arith)

-- Two maps of two bits, 10 and 11.
abbrev first_only : Bitmap
first_only = record { bytes = 1 ∷ []; len = 2 }

abbrev both_bits : Bitmap
both_bits = record { bytes = 3 ∷ []; len = 2 }

two_bits-AgreeButLast : AgreeButLast first_only both_bits
unfolding bitmap_get
two_bits-AgreeButLast = record { len = refl; reads = same; last_a = last_a; last_b = last_b }
  where
    same : (m : ℕ) → m + 1 < 2 → bitmap_get first_only (pos m) ≡ bitmap_get both_bits (pos m)
    same zero h = refl
    same (suc m) h = absurd (omega arith)

    last_a : (m : ℕ) → m + 1 ≡ 2 → (v : ℤ) × (bitmap_get first_only (pos m) ≡ ok v)
    last_a zero h = absurd (omega arith)
    last_a (suc zero) h = (pos 0, refl)
    last_a (suc (suc m)) h = absurd (omega arith)

    last_b : (m : ℕ) → m + 1 ≡ 2 → (v : ℤ) × (bitmap_get both_bits (pos m) ≡ ok v)
    last_b zero h = absurd (omega arith)
    last_b (suc zero) h = (pos 1, refl)
    last_b (suc (suc m)) h = absurd (omega arith)
