-- ===== src/Dtq.antt =====
-- The doubly linked tail queue `dtq` of include/list.h: a ring through the head of the list. A node,
-- the head too, is known by its address, and `none` is NULL, through which a read or a write faults.
pub mod Ring
pub mod Contents
pub mod Foreach
pub mod Visited
mod Tests
use cc_utils.Base.{
  ℕ, zero, suc, Bool, true, false, Option, none, some, List, [], ◌∷◌, ◌++◌, ◌==◌, not,
  if◌then◌else◌,
}
use cc_utils.Base.Outcome.{Outcome, ok, fault, out_of_fuel, ◌>>=◌}
use cc_utils.Nodes.{link, same_node}

-- The `next` and the `prev` of each `dtq_node_t`.
pub record Memory : Type 0 where
  pub next : ℕ → Option ℕ
  pub prev : ℕ → Option ℕ

abbrev pub set_next : Memory → ℕ → Option ℕ → Memory
set_next m n v = record m { next = link m.next n v }

abbrev pub set_prev : Memory → ℕ → Option ℕ → Memory
set_prev m n v = record m { prev = link m.prev n v }

-- A pointer that is gone through.
abbrev pub through : Option ℕ → Outcome ℕ
through none = fault
through (some n) = ok n

unfoldable pub dtq_init : Memory → ℕ → Memory
dtq_init m list = set_prev (set_next m list (some list)) list (some list)

unfoldable pub dtq_init_node : Memory → ℕ → Memory
dtq_init_node m node = set_prev (set_next m node none) node none

unfoldable pub dtq_is_empty : Memory → ℕ → Bool
dtq_is_empty m list = same_node (m.next list) (some list)

unfoldable pub dtq_first : Memory → ℕ → Option ℕ
dtq_first m list = if same_node (m.next list) (some list) then none else m.next list

unfoldable pub dtq_last : Memory → ℕ → Option ℕ
dtq_last m list = if same_node (m.prev list) (some list) then none else m.prev list

unfoldable pub dtq_is_end : Memory → ℕ → Option ℕ → Bool
dtq_is_end m list node =
    if dtq_is_empty m list
    then true
    else if same_node node none
    then true
    else same_node node (some list)

unfoldable pub dtq_add_after : Memory → ℕ → ℕ → Outcome Memory
dtq_add_after m prev insert = do
  let m = set_prev m insert (some prev)
  let m = set_next m insert (m.next prev)
  let m = set_next m prev (some insert)
  next ← through (m.next insert)
  ok (set_prev m next (some insert))

unfoldable pub dtq_add_before : Memory → ℕ → ℕ → Outcome Memory
dtq_add_before m next insert = do
  let m = set_prev m insert (m.prev next)
  let m = set_next m insert (some next)
  prev ← through (m.prev insert)
  let m = set_next m prev (some insert)
  next ← through (m.next insert)
  ok (set_prev m next (some insert))

unfoldable pub dtq_del : Memory → ℕ → Outcome Memory
dtq_del m node = do
  prev ← through (m.prev node)
  let m = set_next m prev (m.next node)
  next ← through (m.next node)
  ok (set_prev m next (m.prev node))

unfoldable pub dtq_add_head : Memory → ℕ → ℕ → Outcome Memory
dtq_add_head m list node = dtq_add_after m list node

unfoldable pub dtq_add_tail : Memory → ℕ → ℕ → Outcome Memory
dtq_add_tail m list node = dtq_add_before m list node

-- What dta_del_head and dtq_del_tail do with the node that they find: `none` is returned at the end
-- of the list.
unfoldable pub del_node : Memory → Option ℕ → Outcome (Option ℕ × Memory)
del_node m none = ok (none, m)
del_node m (some node) = do m ← dtq_del m node; ok (some node, m)

abbrev pub unless_end : Bool → Option ℕ → Option ℕ
unless_end end node = if end then none else node

unfoldable pub dta_del_head : Memory → ℕ → Outcome (Option ℕ × Memory)
dta_del_head m list =
    del_node m (unless_end (dtq_is_end m list (dtq_first m list)) (dtq_first m list))

unfoldable pub dtq_del_tail : Memory → ℕ → Outcome (Option ℕ × Memory)
dtq_del_tail m list =
    del_node m (unless_end (dtq_is_end m list (dtq_last m list)) (dtq_last m list))

unfoldable pub dtq_node_is_linked : Memory → ℕ → Bool
dtq_node_is_linked m node = not (same_node (m.next node) none)

unfoldable pub dtq_del_and_init_node : Memory → ℕ → Outcome Memory
dtq_del_and_init_node m node = do
  m ← if dtq_node_is_linked m node then dtq_del m node else ok m
  ok (dtq_init_node m node)

unfoldable pub del_init_node : Memory → Option ℕ → Outcome (Option ℕ × Memory)
del_init_node m none = ok (none, m)
del_init_node m (some node) = do m ← dtq_del_and_init_node m node; ok (some node, m)

unfoldable pub dtq_del_head_and_init_node : Memory → ℕ → Outcome (Option ℕ × Memory)
dtq_del_head_and_init_node m list =
    del_init_node m (unless_end (dtq_is_end m list (dtq_first m list)) (dtq_first m list))

unfoldable pub dtq_move_and_add_tail : Memory → ℕ → ℕ → Outcome Memory
dtq_move_and_add_tail m head node = do
  m ← if dtq_node_is_linked m node then dtq_del m node else ok m
  dtq_add_tail m head node

unfoldable pub dtq_append : Memory → ℕ → ℕ → Outcome Memory
dtq_append m dest src = if dtq_is_empty m src then ok m else do
  first ← through (m.next src)
  let m = set_prev m first (m.prev dest)
  last ← through (m.prev src)
  tail ← through (m.prev dest)
  let m = set_next m last (m.next tail)
  tail ← through (m.prev dest)
  let m = set_next m tail (m.next src)
  let m = set_prev m dest (m.prev src)
  ok (dtq_init m src)

-- DTQ_FOREACH_SAFE with a call of `free_node` for each node, with the rounds that are left: the
-- memory, and the nodes in their order.
unfoldable pub free_ring :
    (Memory → ℕ → Memory) → ℕ → Memory → ℕ → Option ℕ → List ℕ → Outcome (Memory × List ℕ)
free_ring free_node zero m list cur freed = out_of_fuel
free_ring free_node (suc fuel) m list none freed = fault
free_ring free_node (suc fuel) m list (some cur) freed =
    let rest = free_ring free_node fuel (free_node m cur) list (m.next cur) (freed ++ (cur ∷ [])) in
    if cur == list then ok (m, freed) else rest

unfoldable pub dtq_free_all : (Memory → ℕ → Memory) → ℕ → Memory → ℕ → Outcome (Memory × List ℕ)
dtq_free_all free_node fuel m list = do
  (m, freed) ← free_ring free_node fuel m list (m.next list) []
  ok (dtq_init m list, freed)
