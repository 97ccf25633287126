-- ===== src/Nodes.antt =====
-- What the singly linked lists of include/list.h share: the memory of their nodes, and the loops
-- SL_FOREACH_PREVPTR and SL_FOREACH_SAFE, which STQ repeats. A node is known by its address, NULL is
-- `none`, and the memory gives the `next` of every node. A walk has the rounds that are left: a list
-- that runs in a circle is walked without end.
pub mod Chain
pub mod Walk
pub mod Rounds
pub mod Foreach
pub mod Visited
mod Tests
use cc_utils.Base.{
  ℕ, zero, suc, Bool, true, false, Option, none, some, List, [], ◌∷◌, ◌++◌, ◌==◌, if◌then◌else◌,
}
use cc_utils.Base.Outcome.{Outcome, ok, out_of_fuel}

-- node->next = value
abbrev pub link : (ℕ → Option ℕ) → ℕ → Option ℕ → ℕ → Option ℕ
link next node value n = if n == node then value else next n

abbrev pub same_node : Option ℕ → Option ℕ → Bool
same_node none none = true
same_node (some a) (some b) = a == b
same_node _ _ = false

-- The loop of sl_del: the node in front of `node`, or `none` where `node` is not in the list.
unfoldable pub prev_of : ℕ → (ℕ → Option ℕ) → Option ℕ → Option ℕ → ℕ → Outcome (Option (Option ℕ))
prev_of zero next cur prev node = out_of_fuel
prev_of (suc fuel) next none prev node = ok none
prev_of (suc fuel) next (some c) prev node =
    let rest = prev_of fuel next (next c) (some c) node in
    if c == node then ok (some prev) else rest

-- The loop of sl_append: the last node.
unfoldable pub end_of : ℕ → (ℕ → Option ℕ) → Option ℕ → Option ℕ → Outcome (Option ℕ)
end_of zero next cur prev = out_of_fuel
end_of (suc fuel) next none prev = ok prev
end_of (suc fuel) next (some c) prev = end_of fuel next (next c) (some c)

-- The loop of sl_free_all: the memory that the calls of `free_node` leave, and the nodes that they
-- were given. The next node is taken before the call.
unfoldable pub free_nodes :
    ((ℕ → Option ℕ) → ℕ → ℕ → Option ℕ)
    → ℕ
    → (ℕ → Option ℕ)
    → Option ℕ
    → List ℕ
    → Outcome ((ℕ → Option ℕ) × List ℕ)
free_nodes free_node zero next cur freed = out_of_fuel
free_nodes free_node (suc fuel) next none freed = ok (next, freed)
free_nodes free_node (suc fuel) next (some c) freed =
    free_nodes free_node fuel (free_node next c) (next c) (freed ++ (c ∷ []))
