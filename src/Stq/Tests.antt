-- ===== src/Stq/Tests.antt =====
-- A queue of two nodes.
use cc_utils.Base.{ℕ, ◌≡◌, refl, Option, none, some, [], ◌∷◌, ◌==◌, if◌then◌else◌, arith}
use cc_utils.Base.Outcome.{ok}
use cc_utils.Stq.{Queue, stq_add_head, stq_del_head, stq_del, Ends, stq_free_all}
use cc_utils.Stq.Removal.{stq_del-Holds, stq_free_all-Holds}
use cc_utils.Stq.Fifo.{Holds, stq_add_head-Holds, stq_del_head-Holds}

-- Node 7 in front of node 9.
abbrev two_nodes : Queue
two_nodes = record { first = some 7; last = some 9; next = λ n. if n == 7 then some 9 else none }

two_nodes-Holds : Holds two_nodes (7 ∷ 9 ∷ [])
two_nodes-Holds = record {
  chain = (refl, (refl, refl));
  last = refl;
  distinct = ((refl, tt), (tt, tt));
}

stq_add_head-Holds_example : Holds (stq_add_head two_nodes 4) (4 ∷ 7 ∷ 9 ∷ [])
stq_add_head-Holds_example =
    stq_add_head-Holds two_nodes (7 ∷ 9 ∷ []) 4 two_nodes-Holds (refl, (refl, tt))

stq_del_head-Holds_example :
    ((stq_del_head two_nodes).0 ≡ some 7) × Holds (stq_del_head two_nodes).1 (9 ∷ [])
stq_del_head-Holds_example = stq_del_head-Holds two_nodes 7 (9 ∷ []) two_nodes-Holds

stq_del-Holds_example : (q : Queue) × (stq_del 3 two_nodes 9 ≡ ok q) × Holds q (7 ∷ [])
stq_del-Holds_example = stq_del-Holds 3 two_nodes (7 ∷ []) 9 [] two_nodes-Holds (omega arith)

-- Another queue in the same memory, of node 5.
abbrev other : Ends
other = record { first = some 5; last = some 5 }

abbrev no_effect : (ℕ → Option ℕ) → ℕ → ℕ → Option ℕ
no_effect next node = next

stq_free_all-Holds_example :
    (q : Queue) × (stq_free_all no_effect 3 two_nodes ≡ ok (q, 7 ∷ 9 ∷ [])) × Holds q []
stq_free_all-Holds_example =
    stq_free_all-Holds no_effect 3 two_nodes (7 ∷ 9 ∷ []) (λ next n m apart. refl) two_nodes-Holds
      (omega arith)
