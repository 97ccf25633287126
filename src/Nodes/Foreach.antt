-- ===== src/Nodes/Foreach.antt =====
-- The macros of include/list.h that walk over a list: SL_FOREACH and its variants, which STQ and DL
-- repeat. The body is a function of the program's state, which has the `next` of every node, and of a
-- node; a break or a return in it is its own result. An entry is the struct that a node stands in, at
-- `member` bytes in front of it.
use cc_utils.Base.{ℕ, zero, suc, ◌+◌, ◌-◌, Option, none, some}
use cc_utils.Base.Outcome.{Outcome, ok, out_of_fuel, ◌>>=◌}

-- SL_ENTRY of a node that may be NULL
abbrev pub entry_at : ℕ → Option ℕ → Option ℕ
entry_at member none = none
entry_at member (some n) = some (n - member)

module _ {S : Type 0} (next : S → ℕ → Option ℕ) where
  -- SL_FOREACH
  unfoldable pub foreach : (S → ℕ → Outcome S) → ℕ → S → Option ℕ → Outcome S
  foreach body zero s cur = out_of_fuel
  foreach body (suc fuel) s none = ok s
  foreach body (suc fuel) s (some n) = do s ← body s n; foreach body fuel s (next s n)

  -- SL_FOREACH_SAFE: the next node is taken before the body.
  unfoldable pub foreach_safe : (S → ℕ → Outcome S) → ℕ → S → Option ℕ → Outcome S
  foreach_safe body zero s cur = out_of_fuel
  foreach_safe body (suc fuel) s none = ok s
  foreach_safe body (suc fuel) s (some n) = do
    let following = next s n
    s ← body s n
    foreach_safe body fuel s following

  -- SL_ENTRY_NEXT
  unfoldable pub entry_next : ℕ → S → Option ℕ → Option ℕ
  entry_next member s none = none
  entry_next member s (some e) = entry_at member (next s (e + member))

  -- SL_FOREACH_ENTRY
  unfoldable pub foreach_entry : (S → ℕ → Outcome S) → ℕ → ℕ → S → Option ℕ → Outcome S
  foreach_entry body member zero s entry = out_of_fuel
  foreach_entry body member (suc fuel) s none = ok s
  foreach_entry body member (suc fuel) s (some e) = do
    s ← body s e
    foreach_entry body member fuel s (entry_next member s (some e))

  -- SL_FOREACH_ENTRY_SAFE
  unfoldable pub foreach_entry_safe : (S → ℕ → Outcome S) → ℕ → ℕ → S → Option ℕ → Outcome S
  foreach_entry_safe body member zero s entry = out_of_fuel
  foreach_entry_safe body member (suc fuel) s none = ok s
  foreach_entry_safe body member (suc fuel) s (some e) = do
    let following = entry_next member s (some e)
    s ← body s e
    foreach_entry_safe body member fuel s following
