-- ===== src/PointArray/Blocks.antt =====
-- The blocks of the array of src/point_array.c: what create_point_array takes and free_point_array gives
-- back. A size is an `int` that is not negative.
use cc_utils.Base.{ℕ, zero, suc, ◌+◌, ◌*◌, Option, none, some, List, [], ◌∷◌, get_elem?}
use cc_utils.Base.Outcome.{Outcome, ok, fault, ◌>>=◌}
use cc_utils.Base.Heap.{Heap}
use cc_utils.PointArray.{row_num, col_num, inside}

-- The block of the rows, and the rows, which malloc() may not have had.
pub record PointArray : Type 0 where
  pub row_ptr : Option ℕ
  pub rows : List (Option ℕ)

module _ (heap : Heap) where
  -- The rows from `i` on.
  unfoldable pub malloc_rows : ℕ → ℕ → ℕ → ℕ → heap.State → List (Option ℕ) × heap.State
  malloc_rows size rows i zero s = ([], s)
  malloc_rows size rows i (suc left) s =
      let (row, s) = heap.malloc s (8 * col_num size rows i) in
      let (more, s) = malloc_rows size rows (i + 1) left s in (row ∷ more, s)

  -- Rows are stored through the block of the rows, which may be NULL.
  unfoldable pub with_rows : ℕ → Option ℕ × heap.State → Outcome (PointArray × heap.State)
  with_rows size (none, s) = fault
  with_rows size (some row_ptr, s) =
      let (rows, s) = malloc_rows size (row_num size) 0 (row_num size) s in
      ok (record { row_ptr = some row_ptr; rows = rows }, s)

  unfoldable pub create_blocks : ℕ → heap.State → Outcome (PointArray × heap.State)
  create_blocks size s = with_rows size (heap.malloc s (8 * row_num size))

  -- The rows from `i` on; a read outside of the block of the rows is undefined.
  unfoldable pub free_rows : List (Option ℕ) → ℕ → ℕ → heap.State → Outcome heap.State
  free_rows rows i zero s = ok s
  free_rows rows i (suc left) s = do
    row ← inside (get_elem? rows i)
    free_rows rows (i + 1) left (heap.free s row)

  -- The number of the rows is worked out again from `size`.
  unfoldable pub free_point_array : PointArray → ℕ → heap.State → Outcome heap.State
  free_point_array p size s = do s ← free_rows p.rows 0 (row_num size) s; ok (heap.free s p.row_ptr)
