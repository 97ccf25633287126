-- ===== src/PointArray/Tests/Heaps.antt =====
-- An array of two rows on a heap whose blocks stand behind each other.
use cc_utils.Base.{
  ℕ, suc, ◌+◌, ◌<◌, ◌≡◌, refl, ap, sym, ◌∙◌, Option, none, some, List, [], ◌∷◌, arith,
}
use cc_utils.Base.Outcome.{ok}
use cc_utils.Base.Heap.{Heap, IsNew, without, Lives}
use cc_utils.PointArray.{row_num, col_num}
use cc_utils.PointArray.Blocks.{malloc_rows, with_rows, create_blocks, free_point_array}
use cc_utils.PointArray.Freed.{free_point_array-create_blocks}

abbrev total : List ℕ → ℕ
total [] = 0
total (x ∷ xs) = x + total xs

total-IsNew : (a : ℕ) (xs : List ℕ) → total xs < a → IsNew a xs
total-IsNew a [] h = tt
total-IsNew a (x ∷ xs) h = (ground (arith, h), total-IsNew a xs (omega arith))

abbrev freed : List ℕ → Option ℕ → List ℕ
freed live none = live
freed live (some a) = without a live

abbrev blocks : Heap
blocks = record {
  State = List ℕ;
  malloc = λ live n. (some (suc (total live)), suc (total live) ∷ live);
  clear = λ live a n. live;
  free = freed;
}

abbrev address : Option ℕ → ℕ
address none = 0
address (some a) = a

not_none : {a : ℕ} → some a ≡ none → ⊥
not_none {a} h = cc

taken :
    (live live' : List ℕ) (n a : ℕ)
    → blocks.malloc live n ≡ (some a, live')
    → (live' ≡ a ∷ live) × IsNew a live
taken live live' n a h =
    let same : suc (total live) ≡ a = ap (λ r. address r.0) h in
    (ap (λ r. r.1) (sym h) ∙ ap (λ x. x ∷ live) same, total-IsNew a live (omega arith))

abbrev blocks_live : Lives blocks
blocks_live = record {
  live = λ live. live;
  malloc_none = λ live live' n h. absurd (not_none (ap (λ r. r.0) h));
  malloc_some = taken;
  free_none = λ live. refl;
  free_some = λ live a. refl;
}

two_rows :
    create_blocks blocks 1500 []
    ≡ ok (record { row_ptr = some 1; rows = some 2 ∷ some 4 ∷ [] }, 4 ∷ 2 ∷ 1 ∷ [])
unfolding create_blocks with_rows malloc_rows row_num col_num
two_rows = refl

free_point_array-create_blocks_example :
    (s : List ℕ) × (free_point_array blocks
        (record { row_ptr = some 1; rows = some 2 ∷ some 4 ∷ [] })
        1500
        (4 ∷ 2 ∷ 1 ∷ [])
      ≡ ok s)
    × (s ≡ [])
free_point_array-create_blocks_example =
    free_point_array-create_blocks blocks blocks_live 1500 [] (4 ∷ 2 ∷ 1 ∷ [])
      (record { row_ptr = some 1; rows = some 2 ∷ some 4 ∷ [] }) two_rows
