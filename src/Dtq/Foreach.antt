-- ===== src/Dtq/Foreach.antt =====
-- The macros of include/list.h that walk over a ring: DTQ_FOREACH and its variants. The body is a function
-- of the program's state, which has the memory of the nodes.
use cc_utils.Base.{ℕ, zero, suc, Option, none, some, ◌==◌, if◌then◌else◌}
use cc_utils.Base.Outcome.{Outcome, ok, fault, out_of_fuel, ◌>>=◌}
use cc_utils.Dtq.{Memory, dtq_is_end}

module _ {S : Type 0} (memory : S → Memory) where
  -- DTQ_FOREACH: a node that is NULL is followed.
  unfoldable pub dtq_foreach : (S → ℕ → Outcome S) → ℕ → ℕ → S → Option ℕ → Outcome S
  dtq_foreach body list zero s cur = out_of_fuel
  dtq_foreach body list (suc fuel) s none = fault
  dtq_foreach body list (suc fuel) s (some n) =
      let rest = body s n >>= λ s. dtq_foreach body list fuel s ((memory s).next n) in
      if n == list then ok s else rest

  -- DTQ_FOREACH_SAFE
  unfoldable pub dtq_foreach_safe : (S → ℕ → Outcome S) → ℕ → ℕ → S → Option ℕ → Outcome S
  dtq_foreach_safe body list zero s cur = out_of_fuel
  dtq_foreach_safe body list (suc fuel) s none = fault
  dtq_foreach_safe body list (suc fuel) s (some n) =
      let following = (memory s).next n in
      let rest = body s n >>= λ s. dtq_foreach_safe body list fuel s following in
      if n == list then ok s else rest

  -- DTQ_FOREACH_REVERSE, from dtq_last on
  unfoldable pub dtq_foreach_reverse : (S → ℕ → Outcome S) → ℕ → ℕ → S → Option ℕ → Outcome S
  dtq_foreach_reverse body list zero s cur = out_of_fuel
  dtq_foreach_reverse body list (suc fuel) s none = ok s
  dtq_foreach_reverse body list (suc fuel) s (some n) =
      let rest = body s n >>= λ s. dtq_foreach_reverse body list fuel s ((memory s).prev n) in
      if dtq_is_end (memory s) list (some n) then ok s else rest
