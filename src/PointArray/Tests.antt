-- ===== src/PointArray/Tests.antt =====
-- An array of 1001 pointers, in two rows.
mod Heaps
use cc_utils.Base.{ℕ, ◌≡◌, ◌≢◌, refl, List, [], ◌∷◌, replicate}
use cc_utils.Base.Outcome.{ok}
use cc_utils.PointArray.{set_point_value, get_point_value}
use cc_utils.PointArray.Values.{set_point_value-get}

abbrev two_rows : List (List ℕ)
two_rows = replicate 1000 5 ∷ (6 ∷ []) ∷ []

last_held : get_point_value two_rows 1000 ≡ ok 6
unfolding get_point_value
last_held = refl

set_point_value-get_example :
    (rows' : List (List ℕ)) × (set_point_value two_rows 1000 77 ≡ ok rows')
    × (get_point_value rows' 1000 ≡ ok 77)
    × ((j : ℕ) → 1000 ≢ j → get_point_value rows' j ≡ get_point_value two_rows j)
set_point_value-get_example = set_point_value-get two_rows 1000 77 6 last_held
