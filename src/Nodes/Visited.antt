-- ===== src/Nodes/Visited.antt =====
-- The walks of include/list.h call their body with every node of the list, in its order.
use cc_utils.Base.{
  ℕ, zero, suc, ◌+◌, ◌-◌, ◌≤◌, ◌<◌, ◌≡◌, refl, false, Option, List, [], ◌∷◌, ◌==◌, length, All,
  arith,
}
use mathlib.Core.List.{map}
use cc_utils.Base.Outcome.{Outcome, ok, fault, out_of_fuel, ◌>>=◌}
use cc_utils.Nodes.Chain.{Chain, Fresh, Distinct}
use cc_utils.Nodes.Foreach.{entry_at, foreach, foreach_safe, entry_next, foreach_entry}

-- The body with the nodes of a list, one behind another.
abbrev pub visit : {S : Type 0} → (S → ℕ → Outcome S) → S → List ℕ → Outcome S
visit body s [] = ok s
visit body s (x ∷ xs) = do s ← body s x; visit body s xs

-- What is done behind a result counts only where there is one.
pub bind-agree :
    {A B : Type 0} (o : Outcome A) (f g : A → Outcome B)
    → ((a : A) → o ≡ ok a → f a ≡ g a)
    → (o >>= f) ≡ (o >>= g)
bind-agree (ok a) f g h = h a refl
bind-agree fault f g h = refl
bind-agree out_of_fuel f g h = refl

Chain-agree :
    (next next' : ℕ → Option ℕ) (p : Option ℕ) (xs : List ℕ)
    → ((n : ℕ) → next' n ≡ next n)
    → Chain next p xs
    → Chain next' p xs
Chain-agree next next' p [] same c = c
Chain-agree next next' p (x ∷ xs) same (e, c) =
    (e, Chain-agree next next' (next' x) xs same (rw same c))

Chain-apart :
    (next next' : ℕ → Option ℕ) (x : ℕ) (p : Option ℕ) (xs : List ℕ)
    → ((n : ℕ) → (n == x) ≡ false → next' n ≡ next n)
    → Fresh x xs
    → Chain next p xs
    → Chain next' p xs
Chain-apart next next' x p [] same fresh c = c
Chain-apart next next' x p (y ∷ xs) same (apart, fresh) (e, c) =
    (e, Chain-apart next next' x (next' y) xs same fresh (rw (same y apart) c))

module _ {S : Type 0} (next : S → ℕ → Option ℕ) (body : S → ℕ → Outcome S) where
  -- The body leaves the links, or those of the other nodes.
  abbrev pub Keeps : Type 0
  Keeps = (s s' : S) (x : ℕ) → body s x ≡ ok s' → (n : ℕ) → next s' n ≡ next s n

  abbrev pub KeepsOthers : Type 0
  KeepsOthers =
      (s s' : S) (x : ℕ) → body s x ≡ ok s' → (n : ℕ) → (n == x) ≡ false → next s' n ≡ next s n

  -- SL_FOREACH calls its body with every node of the list, in the list's order, and ends behind the last
  -- one, or where the body does, if the body leaves the links of the nodes.
  pub foreach-visit :
      (fuel : ℕ) (s : S) (p : Option ℕ) (xs : List ℕ)
      → Keeps
      → Chain (next s) p xs
      → length xs < fuel
      → foreach next body fuel s p ≡ visit body s xs
  unfolding foreach
  foreach-visit zero s p xs keeps c enough = absurd (omega arith)
  foreach-visit (suc fuel) s p [] keeps c enough = rw c refl
  foreach-visit (suc fuel) s p (x ∷ xs) keeps (e, c) enough = rw e (
      bind-agree (body s x) (λ s. foreach next body fuel s (next s x)) (λ s. visit body s xs)
        (λ s' done.
          foreach-visit fuel s' (next s' x) xs keeps
            (Chain-agree (next s) (next s') (next s' x) xs (keeps s s' x done)
              (rw (keeps s s' x done x) c))
            (omega arith)))

  -- SL_FOREACH_SAFE of a list of distinct nodes calls its body with every node, in the list's order, and
  -- ends behind the last one, or where the body does, if the body leaves the links of the nodes other than
  -- the one that it is called with, whose link it may change and which it may free.
  pub foreach_safe-visit :
      (fuel : ℕ) (s : S) (p : Option ℕ) (xs : List ℕ)
      → KeepsOthers
      → Chain (next s) p xs
      → Distinct xs
      → length xs < fuel
      → foreach_safe next body fuel s p ≡ visit body s xs
  unfolding foreach_safe
  foreach_safe-visit zero s p xs keeps c d enough = absurd (omega arith)
  foreach_safe-visit (suc fuel) s p [] keeps c d enough = rw c refl
  foreach_safe-visit (suc fuel) s p (x ∷ xs) keeps (e, c) (fresh, d) enough = rw e (
      bind-agree (body s x) (λ s'. foreach_safe next body fuel s' (next s x)) (λ s. visit body s xs)
        (λ s' done.
          foreach_safe-visit fuel s' (next s x) xs keeps
            (Chain-apart (next s) (next s') x (next s x) xs (keeps s s' x done) fresh c) d
            (omega arith)))

  -- SL_FOREACH_ENTRY calls its body with the entry of every node, in the list's order, if the body leaves
  -- the links of the nodes, and no node stands below `member`.
  pub foreach_entry-visit :
      (member fuel : ℕ) (s : S) (p : Option ℕ) (xs : List ℕ)
      → Keeps
      → Chain (next s) p xs
      → All (λ n. member ≤ n) xs
      → length xs < fuel
      → foreach_entry next body member fuel s (entry_at member p)
        ≡ visit body s (map (λ n. n - member) xs)
  unfolding foreach_entry entry_next
  foreach_entry-visit member zero s p xs keeps c above enough = absurd (omega arith)
  foreach_entry-visit member (suc fuel) s p [] keeps c above enough = rw c refl
  foreach_entry-visit member (suc fuel) s p (x ∷ xs) keeps (e, c) (low, above) enough =
      let node : x - member + member ≡ x = omega arith in
      rw (e, node)
        (bind-agree (body s (x - member))
          (λ s. foreach_entry next body member fuel s (entry_at member (next s x)))
          (λ s. visit body s (map (λ n. n - member) xs))
          (λ s' done.
            foreach_entry-visit member fuel s' (next s' x) xs keeps
              (Chain-agree (next s) (next s') (next s' x) xs (keeps s s' (x - member) done)
                (rw (keeps s s' (x - member) done x) c))
              above (omega arith)))
