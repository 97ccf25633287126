-- ===== src/Base/Outcome.antt =====
-- The outcome of a piece of C code: a value; a fault, which is undefined behaviour, a failed
-- assertion or a call of abort(); or a loop that ran out of the model's fuel.
use mathlib.Core.Path.{◌≡◌, refl, subst}
use mathlib.Core.Bool.{Bool, true, false}

pub data Outcome {ℓ} (A : Type ℓ) : Type ℓ where
  ok : A → Outcome A
  fault : Outcome A
  out_of_fuel : Outcome A

infixl 5 ◌>>=◌ ◌>>◌
abbrev pub ◌>>=◌ {ℓ κ} : {A : Type ℓ} {B : Type κ} → Outcome A → (A → Outcome B) → Outcome B
ok a >>= f = f a
fault >>= f = fault
out_of_fuel >>= f = out_of_fuel

abbrev pub ◌>>◌ {ℓ} : {B : Type ℓ} → Outcome (Unit {0}) → Outcome B → Outcome B
m >> k = m >>= λ _. k

-- assert(b)
abbrev pub assert : Bool → Outcome (Unit {0})
assert true = ok tt
assert false = fault

>>=_ext {ℓ κ} :
    {A : Type ℓ} {B : Type κ} (m : Outcome A) (f g : A → Outcome B)
    → ((a : A) → f a ≡ g a)
    → (m >>= f) ≡ (m >>= g)
>>=_ext (ok a) f g h = h a
>>=_ext fault f g h = refl
>>=_ext out_of_fuel f g h = refl

pub >>=_cong {ℓ κ} :
    {A : Type ℓ} {B : Type κ} {m n : Outcome A} {f g : A → Outcome B}
    → m ≡ n
    → ((a : A) → f a ≡ g a)
    → (m >>= f) ≡ (n >>= g)
>>=_cong {m} {f} {g} e h = subst (λ t. (m >>= f) ≡ (t >>= g)) e (>>=_ext m f g h)
