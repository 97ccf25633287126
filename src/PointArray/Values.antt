-- ===== src/PointArray/Values.antt =====
-- The array of src/point_array.c holds what was stored in it.
use cc_utils.Base.{
  ℕ, zero, suc, ◌+◌, ◌-◌, ◌/◌, ◌%◌, ◌<◌, ◌≡◌, ◌≢◌, refl, ap, sym, ◌∙◌, Bool-cases, inl, inr, some,
  List, ◌==◌, Option-cases, get_elem?, set, length, arith, get_elem?-set_self, get_elem?-set_ne,
  get_elem?_total, get_elem?_below,
}
use cc_utils.Base.Outcome.{ok}
use cc_utils.PointArray.{
  row_num, col_num, create_rows, create_point_array, set_point_value, get_point_value,
}

row_at :
    (malloc : ℕ → List ℕ) (size rows i left k : ℕ)
    → k < left
    → get_elem? (create_rows malloc size rows i left) k ≡ some (malloc (col_num size rows (i + k)))
unfolding create_rows
row_at malloc size rows i zero k h = absurd (omega arith)
row_at malloc size rows i (suc left) zero h =
    ap (λ j. some (malloc (col_num size rows j))) {x = i} {y = i + 0} (omega arith)
row_at malloc size rows i (suc left) (suc k) h =
    row_at malloc size rows (i + 1) left k (omega arith)
    ∙ ap (λ j. some (malloc (col_num size rows j))) {x = i + 1 + k} {y = i + suc k} (omega arith)

wide_enough :
    (size index : ℕ)
    → index < size
    → index % 1000 < col_num size ((size + 1000 - 1) / 1000) (0 + index / 1000)
unfolding col_num
wide_enough size index below =
    elim (Bool-cases (0 + index / 1000 == (size + 1000 - 1) / 1000 - 1)) [
      | inl e ↦ rw e (omega arith)
      | inr e ↦ rw e (omega arith)
    ]

-- An array for `size` pointers has a place for every index below `size`: malloc gives blocks of the
-- size that is asked for.
pub create-get :
    (malloc : ℕ → List ℕ) (size index : ℕ)
    → ((n : ℕ) → length (malloc n) ≡ n)
    → index < size
    → (v : ℕ) × (get_point_value (create_point_array malloc size) index ≡ ok v)
unfolding create_point_array get_point_value row_num
create-get malloc size index sized below =
    let rows = (size + 1000 - 1) / 1000 in
    let i = index / 1000 in
    let j = index % 1000 in
    let row = row_at malloc size rows 0 rows i (omega arith) in
    let wide : j < col_num size rows (0 + i) = wide_enough size index below in
    let (v, e) =
      get_elem?_total (malloc (col_num size rows (0 + i))) j
        (omega (arith, sized (col_num size rows (0 + i)))) in
    (v, rw (row, e) refl)

split_same : (i j : ℕ) → i / 1000 ≡ j / 1000 → i % 1000 ≡ j % 1000 → i ≡ j
split_same i j e f = omega arith

-- Where the array has a place for an index, storing a value there succeeds; the place then holds the
-- value, and every other place what it held before.
pub set_point_value-get :
    (rows : List (List ℕ)) (i : ℕ) (value old : ℕ)
    → get_point_value rows i ≡ ok old
    → (rows' : List (List ℕ)) × (set_point_value rows i value ≡ ok rows')
      × (get_point_value rows' i ≡ ok value)
      × ((j : ℕ) → i ≢ j → get_point_value rows' j ≡ get_point_value rows j)
unfolding set_point_value get_point_value
set_point_value-get rows i value old h = elim (Option-cases (get_elem? rows (i / 1000))) [
  | inl e ↦ absurd (cc (rw e at h))
  | inr (row, e) ↦ elim (Option-cases (get_elem? row (i % 1000))) [
    | inl f ↦ absurd (cc (rw (e, f) at h))
    | inr (v, f) ↦
        let row' = set row (i % 1000) value in
        let here =
          get_elem?-set_self rows (i / 1000) row' (get_elem?_below rows (i / 1000) row e) in
        let there = get_elem?-set_self row (i % 1000) value (get_elem?_below row (i % 1000) v f) in
        (
          set rows (i / 1000) row',
          rw (e, f) refl,
          rw (here, there) refl,
          λ j apart. elim (Bool-cases (i / 1000 == j / 1000)) [
            | inl same ↦
                let q : i / 1000 ≡ j / 1000 = ground (arith, same) in
                let r : i % 1000 ≢ j % 1000 = λ r. apart (split_same i j q r) in
                let new : get_elem? (set rows (i / 1000) row') (j / 1000) ≡ some row' =
                  ap (get_elem? (set rows (i / 1000) row')) (sym q) ∙ here in
                let was : get_elem? rows (j / 1000) ≡ some row = ap (get_elem? rows) (sym q) ∙ e in
                rw (new, was, get_elem?-set_ne row (i % 1000) (j % 1000) value r) refl
            | inr other ↦
                let q : i / 1000 ≢ j / 1000 = λ e. absurd (ground (arith, other, e)) in
                rw (get_elem?-set_ne rows (i / 1000) (j / 1000) row' q) refl
          ],
        )
  ]
]
