-- ===== src/Dtq/Visited.antt =====
-- The walk over a ring of include/list.h: DTQ_FOREACH calls its body with every node.
use cc_utils.Base.{
  ℕ, zero, suc, ◌<◌, ◌≡◌, refl, ◌∙◌, Option, some, List, [], ◌∷◌, ==_refl, length, arith,
}
use cc_utils.Base.Outcome.{Outcome, ok}
use cc_utils.Nodes.Chain.{Fresh}
use cc_utils.Nodes.Visited.{visit, bind-agree}
use cc_utils.Dtq.{Memory}
use cc_utils.Dtq.Ring.{Forward}
use cc_utils.Dtq.Contents.{Rings}
use cc_utils.Dtq.Foreach.{dtq_foreach}

Forward-agree :
    (next next' : ℕ → Option ℕ) (a : ℕ) (xs : List ℕ) (b : ℕ)
    → ((n : ℕ) → next' n ≡ next n)
    → Forward next a xs b
    → Forward next' a xs b
Forward-agree next next' a [] b same c = same a ∙ c
Forward-agree next next' a (x ∷ xs) b same (e, c) =
    (same a ∙ e, Forward-agree next next' x xs b same c)

-- The first node behind `a`, or the list's.
abbrev front : List ℕ → ℕ → ℕ
front [] b = b
front (x ∷ xs) b = x

Forward-front :
    (next : ℕ → Option ℕ) (a : ℕ) (xs : List ℕ) (b : ℕ)
    → Forward next a xs b
    → next a ≡ some (front xs b)
Forward-front next a [] b c = c
Forward-front next a (x ∷ xs) b c = c.0

module _ {S : Type 0} (memory : S → Memory) (list : ℕ) where
  -- The body leaves the links.
  abbrev pub KeepsNext : (S → ℕ → Outcome S) → Type 0
  KeepsNext body =
      (s s' : S) (x : ℕ) → body s x ≡ ok s' → (n : ℕ) → (memory s').next n ≡ (memory s).next n

  foreach-behind :
      (body : S → ℕ → Outcome S) (fuel : ℕ) (s : S) (a : ℕ) (xs : List ℕ)
      → KeepsNext body
      → Forward (memory s).next a xs list
      → Fresh list xs
      → length xs < fuel
      → dtq_foreach memory body list fuel s (some (front xs list)) ≡ visit body s xs
  unfolding dtq_foreach
  foreach-behind body zero s a xs keeps c fresh enough = absurd (omega arith)
  foreach-behind body (suc fuel) s a [] keeps c fresh enough = rw (==_refl list) refl
  foreach-behind body (suc fuel) s a (x ∷ xs) keeps (e, c) (apart, fresh) enough = rw apart (
      bind-agree (body s x) (λ s. dtq_foreach memory body list fuel s ((memory s).next x))
        (λ s. visit body s xs)
        (λ s' done.
          let c' = Forward-agree (memory s).next (memory s').next x xs list (keeps s s' x done) c in
          rw (Forward-front (memory s').next x xs list c')
            (foreach-behind body fuel s' x xs keeps c' fresh (omega arith))))

  -- DTQ_FOREACH of a ring, from the node behind the list's on, calls its body with every node of the ring,
  -- in its order, and ends at the list's node, or where the body does, if the body leaves the links.
  pub dtq_foreach-visit :
      (body : S → ℕ → Outcome S) (fuel : ℕ) (s : S) (xs : List ℕ)
      → KeepsNext body
      → Rings (memory s) list xs
      → length xs < fuel
      → dtq_foreach memory body list fuel s ((memory s).next list) ≡ visit body s xs
  dtq_foreach-visit body fuel s xs keeps r enough =
      rw (Forward-front (memory s).next list xs list r.forward)
        (foreach-behind body fuel s list xs keeps r.forward r.distinct.0 enough)
