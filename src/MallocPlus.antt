-- ===== src/MallocPlus.antt =====
-- src/malloc_plus.c: malloc() and free() that say what they do. What they print is left out.
use cc_utils.Base.{ℕ, zero, suc, Option, none, some}
use cc_utils.Base.Outcome.{Outcome, ok, fault}
use cc_utils.Base.Int.{ℤ, pos, negsuc}
use cc_utils.Base.Heap.{Heap}

module _ (heap : Heap) where
  -- The block is cleared without asking whether there is one.
  unfoldable pub cleared : ℕ → Option ℕ × heap.State → Outcome (Option ℕ × heap.State)
  cleared size (none, s) = fault
  cleared size (some a, s) = ok (some a, heap.clear s a size)

  unfoldable pub malloc_plus : ℤ → heap.State → Outcome (Option ℕ × heap.State)
  malloc_plus (negsuc n) s = ok (none, s)
  malloc_plus (pos zero) s = ok (none, s)
  malloc_plus (pos (suc n)) s = cleared (suc n) (heap.malloc s (suc n))

  -- `*ptr`, and what is left in it
  unfoldable pub free_plus : Option ℕ → heap.State → Option ℕ × heap.State
  free_plus none s = (none, s)
  free_plus (some a) s = (none, heap.free s (some a))
