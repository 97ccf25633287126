-- ===== src/Mock/Tests.antt =====
-- A function replaced and brought back, in a memory where mprotect() always succeeds.
use cc_utils.Base.{
  ℕ, ◌%◌, ◌≡◌, refl, ap, sym, ◌∙◌, Bool, false, [], ◌∷◌, ◌==◌, ==_refl, if◌then◌else◌, arith,
}
use cc_utils.Base.Outcome.{ok}
use cc_utils.Base.{◌<◌, ◌+◌, ◌^◌}
use cc_utils.Base.Bytes.{word}
use cc_utils.Base.Int.{pos}
use cc_utils.Mock.{Pages, Mock, Machine, mock_set, mock_reset}
use cc_utils.Base.Memory.{read_at}
use cc_utils.Mock.Restored.{Grants, target, mock_reset-mock_set}

abbrev protected : (ℕ → Bool) → ℕ → Bool → ℕ → Bool
protected s page write p = if p == page then write else s p

abbrev all_granted : Pages
all_granted = record {
  State = ℕ → Bool;
  writable = λ s page. s page;
  mprotect = λ s page write. (pos 0, protected s page write);
  granted = λ s s' page write e. ap (λ r. r.1 page) (sym e) ∙ rw (==_refl page) refl;
}

all_granted-Grants : Grants all_granted
all_granted-Grants s page write = (protected s page write, refl)

abbrev memory : Machine all_granted
memory = record { bytes = λ a. a % 251; pages = λ page. false }

abbrev room : Mock
room = record { fn = 0; mock = 0 ∷ 0 ∷ 0 ∷ 0 ∷ 0 ∷ 0 ∷ []; len = 6 }

mock_reset-mock_set_example :
    (k' : Mock) × (m₁ m₂ : Machine all_granted) × (mock_set all_granted memory room 8000 9000
      ≡ ok (pos 0, k', m₁))
    × ((d : ℕ) × (read_at m₁.bytes 8000 5 ≡ 0xe9 ∷ word 4 d)
        × (d < 2 ^ 32)
        × (target (8000 + 5) d ≡ 9000))
    × (mock_reset all_granted m₁ k' ≡ ok (pos 0, m₂))
    × ((x : ℕ) → m₂.bytes x ≡ memory.bytes x)
mock_reset-mock_set_example =
    mock_reset-mock_set all_granted memory room 8000 9000 1 all_granted-Grants (omega arith)
      (omega arith) (omega arith) (omega arith) (omega arith) (omega arith) (omega arith)
