-- ===== src/Nodes/Tests.antt =====
-- A walk over two nodes that frees each node it comes to.
use cc_utils.Base.{
  ℕ, ◌≡◌, refl, ap, sym, ◌∙◌, Option, none, some, List, [], ◌∷◌, ◌++◌, ◌==◌, if◌then◌else◌, arith,
}
use cc_utils.Base.Outcome.{Outcome, ok}
use cc_utils.Nodes.{link}
use cc_utils.Nodes.Foreach.{foreach_safe}
use cc_utils.Nodes.Visited.{visit, KeepsOthers, foreach_safe-visit}

-- The links, and the nodes that were freed.
abbrev Heap : Type 0
Heap = (ℕ → Option ℕ) × List ℕ

abbrev next_of : Heap → ℕ → Option ℕ
next_of h = h.0

abbrev free_node : Heap → ℕ → Outcome Heap
free_node (next, freed) n = ok (link next n none, freed ++ (n ∷ []))

abbrev links : ℕ → Option ℕ
links n = if n == 7 then some 9 else none

abbrev value : Outcome Heap → Heap → Heap
value (ok h) h' = h
value _ h' = h'

free_node-KeepsOthers : KeepsOthers next_of free_node
free_node-KeepsOthers h h' x done n other = ap (λ o. (value o h).0 n) (sym done) ∙ rw other refl

foreach_safe-visit_example :
    foreach_safe next_of free_node 5 (links, []) (some 7) ≡ visit free_node (links, []) (7 ∷ 9 ∷ [])
foreach_safe-visit_example =
    foreach_safe-visit next_of free_node 5 (links, []) (some 7) (7 ∷ 9 ∷ []) free_node-KeepsOthers
      (refl, (refl, refl)) ((refl, tt), (tt, tt)) (omega arith)
