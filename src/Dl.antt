-- ===== src/Dl.antt =====
-- The doubly linked list `dl` of include/list.h, whose nodes point back at the pointer that points to
-- them. `first` of a head and `next` of a node stand at the front of their structs: a pointer to such
-- a pointer is the address of the head or of the node, and `next` of a head is its `first`. NULL is
-- `none`.
pub mod Contents
pub mod Foreach
mod Tests
use cc_utils.Base.{
  ℕ, zero, suc, Bool, true, false, Option, none, some, List, [], ◌∷◌, ◌++◌, if◌then◌else◌,
}
use cc_utils.Base.Outcome.{Outcome, ok, fault, out_of_fuel, ◌>>=◌}
use cc_utils.Nodes.{link, same_node, end_of}

-- The `next` (`first` of a head) and the `prev` of each address.
pub record Links : Type 0 where
  pub next : ℕ → Option ℕ
  pub prev : ℕ → Option ℕ

-- *place = value, through a pointer that may be NULL
abbrev pub set_next : Links → Option ℕ → Option ℕ → Links
set_next m none v = m
set_next m (some place) v = record m { next = link m.next place v }

abbrev pub set_prev : Links → Option ℕ → Option ℕ → Links
set_prev m none v = m
set_prev m (some n) v = record m { prev = link m.prev n v }

unfoldable pub dl_init : Links → ℕ → Links
dl_init m list = set_next m (some list) none

unfoldable pub dl_init_node : Links → ℕ → Links
dl_init_node m node = set_prev (set_next m (some node) none) (some node) none

unfoldable pub dl_is_empty : Links → ℕ → Bool
dl_is_empty m list = same_node (m.next list) none

-- `*node->prev = node->next`, and `node->next->prev = node->prev`, where they are not NULL
unfoldable pub dl_del : Links → ℕ → Links
dl_del m node =
    let m = set_next m (m.prev node) (m.next node) in set_prev m (m.next node) (m.prev node)

unfoldable pub dl_del_and_init_node : Links → ℕ → Links
dl_del_and_init_node m node = dl_init_node (dl_del m node) node

-- A list of a single node gives NULL and keeps the node, and an empty one is gone through.
unfoldable pub del_unless_last : Links → ℕ → Option ℕ → Option ℕ × Links
del_unless_last m node none = (none, m)
del_unless_last m node (some next) = (some node, dl_del_and_init_node m node)

unfoldable pub del_init_first : Links → Option ℕ → Outcome (Option ℕ × Links)
del_init_first m none = fault
del_init_first m (some node) = ok (del_unless_last m node (m.next node))

unfoldable pub dl_del_head_and_init_node : Links → ℕ → Outcome (Option ℕ × Links)
dl_del_head_and_init_node m list = del_init_first m (m.next list)

unfoldable pub dl_add_head : Links → ℕ → ℕ → Links
dl_add_head m list node =
    let m = set_prev m (some node) (some list) in
    let m = set_next m (some node) (m.next list) in
    let m = set_prev m (m.next node) (some node) in set_next m (some list) (some node)

unfoldable pub del_first : Links → Option ℕ → Option ℕ × Links
del_first m none = (none, m)
del_first m (some node) = (some node, dl_del m node)

unfoldable pub dl_del_head : Links → ℕ → Option ℕ × Links
dl_del_head m list = del_first m (m.next list)

-- dl_add_after, of the node `prev`, and dl_add_after_prevptr, of the place `prev`
unfoldable pub dl_add_after : Links → ℕ → ℕ → Links
dl_add_after m prev insert =
    let m = set_prev m (some insert) (some prev) in
    let m = set_next m (some insert) (m.next prev) in
    let m = set_next m (some prev) (some insert) in set_prev m (m.next insert) (some insert)

unfoldable pub dl_add_before : Links → ℕ → ℕ → Links
dl_add_before m next insert =
    let m = set_prev m (some insert) (m.prev next) in
    let m = set_next m (some insert) (some next) in
    let m = set_next m (m.prev insert) (some insert) in set_prev m (m.next insert) (some insert)

-- `prev` is where DL_FOREACH_PREVPTR leaves it.
unfoldable pub join : Links → ℕ → Option ℕ → Links
join m src prev =
    let m = set_next m prev (m.next src) in let m = set_prev m (m.next src) prev in dl_init m src

unfoldable pub dl_append : ℕ → Links → ℕ → ℕ → Outcome Links
dl_append fuel m dest src =
    if dl_is_empty m src
    then ok m
    else do prev ← end_of fuel m.next (m.next dest) (some dest); ok (join m src prev)

-- DL_FOREACH_SAFE with a call of `free_node` for each node, with the rounds that are left.
unfoldable pub free_links :
    (Links → ℕ → Links) → ℕ → Links → Option ℕ → List ℕ → Outcome (Links × List ℕ)
free_links free_node zero m cur freed = out_of_fuel
free_links free_node (suc fuel) m none freed = ok (m, freed)
free_links free_node (suc fuel) m (some cur) freed =
    free_links free_node fuel (free_node m cur) (m.next cur) (freed ++ (cur ∷ []))

unfoldable pub dl_free_all : (Links → ℕ → Links) → ℕ → Links → ℕ → Outcome (Links × List ℕ)
dl_free_all free_node fuel m list = do
  (m, freed) ← free_links free_node fuel m (m.next list) []
  ok (dl_init m list, freed)
