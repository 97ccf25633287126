-- ===== src/Stq/Foreach.antt =====
-- The macros of include/list.h that walk over the list `stq`, which repeat those of the singly linked list.
use cc_utils.Base.{ℕ, Option}
use cc_utils.Base.Outcome.{Outcome}
use cc_utils.Nodes.Foreach.{foreach, foreach_safe, entry_next, foreach_entry, foreach_entry_safe}

module _ {S : Type 0} (next : S → ℕ → Option ℕ) where
  -- STQ_FOREACH and STQ_FOREACH_SAFE
  abbrev pub stq_foreach : (S → ℕ → Outcome S) → ℕ → S → Option ℕ → Outcome S
  stq_foreach body fuel s cur = foreach next body fuel s cur

  abbrev pub stq_foreach_safe : (S → ℕ → Outcome S) → ℕ → S → Option ℕ → Outcome S
  stq_foreach_safe body fuel s cur = foreach_safe next body fuel s cur

  -- STQ_ENTRY_NEXT
  abbrev pub stq_entry_next : ℕ → S → Option ℕ → Option ℕ
  stq_entry_next member s entry = entry_next next member s entry

  -- STQ_FOREACH_ENTRY and STQ_FOREACH_ENTRY_SAFE
  abbrev pub stq_foreach_entry : (S → ℕ → Outcome S) → ℕ → ℕ → S → Option ℕ → Outcome S
  stq_foreach_entry body member fuel s entry = foreach_entry next body member fuel s entry

  abbrev pub stq_foreach_entry_safe : (S → ℕ → Outcome S) → ℕ → ℕ → S → Option ℕ → Outcome S
  stq_foreach_entry_safe body member fuel s entry = foreach_entry_safe next body member fuel s entry
