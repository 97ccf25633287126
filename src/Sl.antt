-- ===== src/Sl.antt =====
-- The singly linked list `sl` of include/list.h. The loops over the list and its memory are those of
-- Nodes; `fuel` is the number of their rounds.
pub mod Contents
mod Tests
use cc_utils.Base.{ℕ, Bool, true, false, Option, none, some, List, [], ◌∷◌}
use cc_utils.Base.Outcome.{Outcome, ok, ◌>>=◌}
use cc_utils.Nodes.{link, same_node, prev_of, end_of, free_nodes}

-- `sl_head_t`, and the `next` of each `sl_node_t`.
pub record SlList : Type 0 where
  pub first : Option ℕ
  pub next : ℕ → Option ℕ

unfoldable pub sl_init : SlList → SlList
sl_init l = record l { first = none }

unfoldable pub sl_init_node : SlList → ℕ → SlList
sl_init_node l node = record l { next = link l.next node none }

unfoldable pub sl_is_empty : SlList → Bool
sl_is_empty l = same_node l.first none

unfoldable pub sl_add_head : SlList → ℕ → SlList
sl_add_head l node = record l { first = some node; next = link l.next node l.first }

-- The node that is taken, or NULL.
unfoldable pub take_first : SlList → Option ℕ → Option ℕ × SlList
take_first l none = (none, l)
take_first l (some node) = (some node, record l { first = l.next node })

unfoldable pub sl_del_head : SlList → Option ℕ × SlList
sl_del_head l = take_first l l.first

unfoldable pub sl_add_after : SlList → Option ℕ → ℕ → SlList
sl_add_after l none insert = sl_add_head l insert
sl_add_after l (some prev) insert = record l {
  next = link (link l.next insert (l.next prev)) prev (some insert);
}

-- The node behind `prev`, which is taken out, or NULL.
unfoldable pub take_after : SlList → ℕ → Option ℕ → Option ℕ × SlList
take_after l prev none = (none, l)
take_after l prev (some node) = (some node, record l { next = link l.next prev (l.next node) })

unfoldable pub sl_del_after : SlList → Option ℕ → Option ℕ × SlList
sl_del_after l none = sl_del_head l
sl_del_after l (some prev) = take_after l prev (l.next prev)

abbrev pub del_found : SlList → Option (Option ℕ) → SlList
del_found l none = l
del_found l (some prev) = (sl_del_after l prev).1

unfoldable pub sl_del : ℕ → SlList → ℕ → Outcome SlList
sl_del fuel l node = do found ← prev_of fuel l.next l.first none node; ok (del_found l found)

-- The `first` of the list that is appended to and of the other one, which becomes empty, and the
-- memory.
abbrev pub join : SlList → Option ℕ → Option ℕ → SlList
join dest none src = record dest { first = src }
join dest (some prev) src = record dest { next = link dest.next prev src }

unfoldable pub sl_append : ℕ → SlList → Option ℕ → Outcome (SlList × Option ℕ)
sl_append fuel dest none = ok (dest, none)
sl_append fuel dest (some src) = do
  prev ← end_of fuel dest.next dest.first none
  ok (join dest prev (some src), none)

-- The list, and the nodes that `free_node` was called for.
unfoldable pub sl_free_all :
    ((ℕ → Option ℕ) → ℕ → ℕ → Option ℕ) → ℕ → SlList → Outcome (SlList × List ℕ)
sl_free_all free_node fuel l = do
  (next, freed) ← free_nodes free_node fuel l.next l.first []
  ok (record { first = none; next = next }, freed)
