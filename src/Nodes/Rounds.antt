-- ===== src/Nodes/Rounds.antt =====
-- The loops over lists of include/list.h give the same with more rounds.
use cc_utils.Base.{
  ℕ, zero, suc, ◌≤◌, ◌≡◌, refl, ap, sym, ◌∙◌, Bool, true, false, Option, none, some, List, [], ◌∷◌,
  ◌++◌, ◌==◌, if◌then◌else◌, arith,
}
use cc_utils.Base.Outcome.{Outcome, ok, fault, out_of_fuel, ◌>>=◌}
use cc_utils.Nodes.{prev_of, free_nodes}

-- An outcome that is chosen with another one behind it.
choose {ℓ} :
    {A : Type ℓ} (b : Bool) (a x y : Outcome A) (r : A)
    → (x ≡ ok r → y ≡ ok r)
    → (if b then a else x) ≡ ok r
    → (if b then a else y) ≡ ok r
choose true a x y r f h = h
choose false a x y r f h = f h

pub >>=_more {ℓ κ} :
    {A : Type ℓ} {B : Type κ} (x y : Outcome A) (f : A → Outcome B) (b : B)
    → ((a : A) → x ≡ ok a → y ≡ ok a)
    → (x >>= f) ≡ ok b
    → (y >>= f) ≡ ok b
>>=_more (ok a) y f b h e = rw (h a refl) e
>>=_more fault y f b h e = absurd cc
>>=_more out_of_fuel y f b h e = absurd cc

-- A walk that ended ends in the same way with more rounds.
pub prev_of-more :
    (fuel m : ℕ) (next : ℕ → Option ℕ) (cur prev : Option ℕ) (n : ℕ) (r : Option (Option ℕ))
    → fuel ≤ m
    → prev_of fuel next cur prev n ≡ ok r
    → prev_of m next cur prev n ≡ ok r
unfolding prev_of
prev_of-more zero m next cur prev n r le h = absurd cc
prev_of-more (suc f) zero next cur prev n r le h = absurd (omega arith)
prev_of-more (suc f) (suc m) next none prev n r le h = h
prev_of-more (suc f) (suc m) next (some c) prev n r le h =
    choose (c == n) (ok (some prev)) (prev_of f next (next c) (some c) n)
      (prev_of m next (next c) (some c) n) r
      (prev_of-more f m next (next c) (some c) n r (omega arith)) h

pub free_nodes-more :
    (free_node : (ℕ → Option ℕ) → ℕ → ℕ → Option ℕ) (fuel m : ℕ) (next : ℕ → Option ℕ)
    (cur : Option ℕ) (freed : List ℕ) (r : (ℕ → Option ℕ) × List ℕ)
    → fuel ≤ m
    → free_nodes free_node fuel next cur freed ≡ ok r
    → free_nodes free_node m next cur freed ≡ ok r
unfolding free_nodes
free_nodes-more free_node zero m next cur freed r le h = absurd cc
free_nodes-more free_node (suc f) zero next cur freed r le h = absurd (omega arith)
free_nodes-more free_node (suc f) (suc m) next none freed r le h = h
free_nodes-more free_node (suc f) (suc m) next (some c) freed r le h =
    free_nodes-more free_node f m (free_node next c) (next c) (freed ++ (c ∷ [])) r (omega arith) h

pub same_result {ℓ} : {A : Type ℓ} {q r : A} {o : Outcome A} → o ≡ ok q → o ≡ ok r → q ≡ r
same_result {q} {o} e f = ap (λ o. elim o [ ok a ↦ a | fault ↦ q | out_of_fuel ↦ q ]) (sym e ∙ f)
