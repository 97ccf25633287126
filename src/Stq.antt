-- ===== src/Stq.antt =====
-- The singly linked tail queue `stq` of include/list.h. The memory of the nodes and the loops over
-- them are those of Nodes; `fuel` is the number of their rounds.
pub mod Fifo
pub mod Removal
pub mod Foreach
mod Tests
use cc_utils.Nodes.{link, same_node, prev_of, end_of, free_nodes}
use cc_utils.Base.Outcome.{Outcome, ok, ◌>>=◌}
use cc_utils.Base.{List, [], ℕ, Bool, true, false, Option, none, some, ◌==◌, if◌then◌else◌}

-- `stq_head_t`, and the `next` of each `stq_node_t`.
pub record Queue : Type 0 where
  pub first : Option ℕ
  pub last : Option ℕ
  pub next : ℕ → Option ℕ

unfoldable pub stq_init : Queue → Queue
stq_init q = record q { first = none; last = none }

unfoldable pub stq_init_node : Queue → ℕ → Queue
stq_init_node q node = record q { next = link q.next node none }

unfoldable pub stq_is_empty : Queue → Bool
stq_is_empty q = same_node q.first none

unfoldable pub stq_add_head : Queue → ℕ → Queue
stq_add_head q node = record q {
  first = some node;
  last = elim q.last [ none ↦ some node | some l ↦ some l ];
  next = link q.next node q.first;
}

-- The node that is taken, and the queue; `last` is cleared with `first`.
unfoldable pub del_first : Queue → Option ℕ → Option ℕ × Queue
del_first q none = (none, record q { last = none })
del_first q (some node) = (
  some node,
  record q { first = q.next node; last = elim (q.next node) [ none ↦ none | some n ↦ q.last ] },
)

unfoldable pub stq_del_head : Queue → Option ℕ × Queue
stq_del_head q = del_first q q.first

unfoldable pub add_last : Queue → ℕ → Option ℕ → Queue
add_last q node none = record q {
  first = some node;
  last = some node;
  next = link q.next node none;
}
add_last q node (some l) = record q {
  last = some node;
  next = link (link q.next node none) l (some node);
}

unfoldable pub stq_add_tail : Queue → ℕ → Queue
stq_add_tail q node = add_last q node q.last

unfoldable pub stq_add_after : Queue → Option ℕ → ℕ → Queue
stq_add_after q none insert = stq_add_head q insert
stq_add_after q (some prev) insert = record q {
  last = if same_node q.last (some prev) then some insert else q.last;
  next = link (link q.next insert (q.next prev)) prev (some insert);
}

-- `last` goes back to `prev` where the node was the last.
unfoldable pub take_after : Queue → ℕ → Option ℕ → Option ℕ × Queue
take_after q prev none =
    (none, record q { last = if same_node q.last none then some prev else q.last })
take_after q prev (some node) = (
  some node,
  record q {
    last = if same_node q.last (some node) then some prev else q.last;
    next = link q.next prev (q.next node);
  },
)

unfoldable pub stq_del_after : Queue → Option ℕ → Option ℕ × Queue
stq_del_after q none = stq_del_head q
stq_del_after q (some prev) = take_after q prev (q.next prev)

abbrev pub del_found : Queue → Option (Option ℕ) → Queue
del_found q none = q
del_found q (some prev) = (stq_del_after q prev).1

unfoldable pub stq_del : ℕ → Queue → ℕ → Outcome Queue
stq_del fuel q node = do found ← prev_of fuel q.next q.first none node; ok (del_found q found)

-- The other queue's `first` and `last`; its nodes are in the same memory.
pub record Ends : Type 0 where
  pub first : Option ℕ
  pub last : Option ℕ

abbrev pub join : Queue → Option ℕ → Ends → Queue
join dest none src = record dest { first = src.first; last = src.last }
join dest (some prev) src = record dest { last = src.last; next = link dest.next prev src.first }

unfoldable pub stq_append : ℕ → Queue → Ends → Outcome (Queue × Ends)
stq_append fuel dest src = if same_node src.first none then ok (dest, src) else do
  prev ← end_of fuel dest.next dest.first none
  ok (join dest prev src, record { first = none; last = none })

-- The queue, and the nodes that `free_node` was called for.
unfoldable pub stq_free_all :
    ((ℕ → Option ℕ) → ℕ → ℕ → Option ℕ) → ℕ → Queue → Outcome (Queue × List ℕ)
stq_free_all free_node fuel q = do
  (next, freed) ← free_nodes free_node fuel q.next q.first []
  ok (record { first = none; last = none; next = next }, freed)
