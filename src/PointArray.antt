-- ===== src/PointArray.antt =====
-- src/point_array.c: an array of pointers in rows of 1000, so that no block is larger than 8000 bytes.
-- The sizes are those of 64-bit pointers. Blocks has the blocks themselves.
pub mod Values
pub mod Blocks
pub mod Freed
mod Tests
use cc_utils.Base.{
  ℕ, zero, suc, ◌+◌, ◌-◌, ◌*◌, ◌/◌, ◌%◌, Option, none, some, List, [], ◌∷◌, ltb, ◌==◌,
  if◌then◌else◌, get_elem?, set, length,
}
use cc_utils.Base.Outcome.{Outcome, ok, fault, ◌>>=◌}

-- MAX_LEN_LIMIT, and the pointers that such a block has room for
abbrev pub max_len_limit : ℕ
max_len_limit = 8000

abbrev pub max_col_num : ℕ
max_col_num = max_len_limit / 8

unfoldable pub row_num : ℕ → ℕ
row_num size = (size + max_col_num - 1) / max_col_num

-- The pointers of row `i` of `rows`: the rest in the last one.
unfoldable pub col_num : ℕ → ℕ → ℕ → ℕ
col_num size rows i = if i == rows - 1 then size - max_col_num * i else max_col_num

-- The rows from `i` on; `malloc` gives a block of so many pointers with whatever they hold.
unfoldable pub create_rows : (ℕ → List ℕ) → ℕ → ℕ → ℕ → ℕ → List (List ℕ)
create_rows malloc size rows i zero = []
create_rows malloc size rows i (suc left) =
    malloc (col_num size rows i) ∷ create_rows malloc size rows (i + 1) left

unfoldable pub create_point_array : (ℕ → List ℕ) → ℕ → List (List ℕ)
create_point_array malloc size = create_rows malloc size (row_num size) 0 (row_num size)

-- An access outside of a block is undefined.
abbrev pub inside {ℓ} : {A : Type ℓ} → Option A → Outcome A
inside none = fault
inside (some a) = ok a

unfoldable pub set_point_value : List (List ℕ) → ℕ → ℕ → Outcome (List (List ℕ))
set_point_value rows index value = do
  row ← inside (get_elem? rows (index / max_col_num))
  _ ← inside (get_elem? row (index % max_col_num))
  ok (set rows (index / max_col_num) (set row (index % max_col_num) value))

unfoldable pub get_point_value : List (List ℕ) → ℕ → Outcome ℕ
get_point_value rows index = do
  row ← inside (get_elem? rows (index / max_col_num))
  inside (get_elem? row (index % max_col_num))
