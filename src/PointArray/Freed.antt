-- ===== src/PointArray/Freed.antt =====
-- free_point_array of src/point_array.c gives back what create_point_array took.
use cc_utils.Base.{
  ℕ, zero, suc, ◌+◌, ◌*◌, ◌≡◌, refl, ap, ◌∙◌, subst, false, Option, none, some, List, [], ◌∷◌, ◌++◌,
  ◌==◌, ==_refl, arith, get_elem?, length, length-append, append_assoc,
}
use cc_utils.Base.Outcome.{Outcome, ok}
use cc_utils.Base.Heap.{Heap, IsNew, without, Lives}
use cc_utils.PointArray.{row_num, col_num}
use cc_utils.PointArray.Blocks.{
  PointArray, malloc_rows, with_rows, create_blocks, free_rows, free_point_array,
}

-- The addresses of the blocks in front of others, the last one first.
abbrev stacked : List (Option ℕ) → List ℕ → List ℕ
stacked [] below = below
stacked (none ∷ rows) below = stacked rows below
stacked (some a ∷ rows) below = stacked rows (a ∷ below)

-- Each is new when it is taken.
abbrev AllNew : List (Option ℕ) → List ℕ → Type 0
AllNew [] below = Unit {0}
AllNew (none ∷ rows) below = AllNew rows below
AllNew (some a ∷ rows) below = IsNew a below × AllNew rows (a ∷ below)

without-front :
    (a : ℕ) (above below : List ℕ)
    → IsNew a above
    → without a (above ++ (a ∷ below)) ≡ above ++ below
without-front a [] below fresh = rw (==_refl a) refl
without-front a (x ∷ above) below (other, fresh) =
    rw other (ap (λ l. x ∷ l) (without-front a above below fresh))

IsNew-middle :
    (b : ℕ) (above : List ℕ) (a : ℕ) (below : List ℕ)
    → IsNew b (above ++ (a ∷ below))
    → IsNew b (above ++ below) × ((a == b) ≡ false)
IsNew-middle b [] a below (other, fresh) = (fresh, other)
IsNew-middle b (x ∷ above) a below (other, fresh) =
    let (rest, apart) = IsNew-middle b above a below fresh in ((other, rest), apart)

-- The blocks that are between two live ones come and go without them.
stacked-without :
    (rows : List (Option ℕ)) (a : ℕ) (above below : List ℕ)
    → AllNew rows (above ++ (a ∷ below))
    → IsNew a above
    → (without a (stacked rows (above ++ (a ∷ below))) ≡ stacked rows (above ++ below))
      × AllNew rows (above ++ below)
stacked-without [] a above below new fresh = (without-front a above below fresh, tt)
stacked-without (none ∷ rows) a above below new fresh = stacked-without rows a above below new fresh
stacked-without (some b ∷ rows) a above below (new, news) fresh =
    let (rest, apart) = IsNew-middle b above a below new in
    let (gone, others) =
      stacked-without rows a (b ∷ above) below news (ground (arith, apart), fresh) in
    (gone, (rest, others))

-- What a malloc() that gave this pointer did to the live blocks.
abbrev Took : Option ℕ → List ℕ → List ℕ → Type 0
Took none before after = after ≡ before
Took (some a) before after = (after ≡ a ∷ before) × IsNew a before

row-stacked :
    (row : Option ℕ) (rows : List (Option ℕ)) (before after last : List ℕ)
    → Took row before after
    → last ≡ stacked rows after
    → AllNew rows after
    → (last ≡ stacked (row ∷ rows) before) × AllNew (row ∷ rows) before
row-stacked none rows before after last took e new =
    (e ∙ ap (stacked rows) took, subst (AllNew rows) took new)
row-stacked (some a) rows before after last (took, fresh) e new =
    (e ∙ ap (stacked rows) took, (fresh, subst (AllNew rows) took new))

get_elem-behind :
    (front : List (Option ℕ)) (row : Option ℕ) (rows : List (Option ℕ))
    → get_elem? (front ++ (row ∷ rows)) (length front) ≡ some row
get_elem-behind [] row rows = refl
get_elem-behind (x ∷ front) row rows = get_elem-behind front row rows

module _ (heap : Heap) (lives : Lives heap) where
  freed-row :
      (row : Option ℕ) (rows : List (Option ℕ)) (s : heap.State) (below : List ℕ)
      → lives.live s ≡ stacked (row ∷ rows) below
      → AllNew (row ∷ rows) below
      → (lives.live (heap.free s row) ≡ stacked rows below) × AllNew rows below
  freed-row none rows s below e new = (lives.free_none s ∙ e, new)
  freed-row (some a) rows s below e (new, news) =
      let (gone, others) = stacked-without rows a [] below news tt in
      (lives.free_some s a ∙ ap (without a) e ∙ gone, others)

  malloc-Took :
      (s s₁ : heap.State) (n : ℕ) (row : Option ℕ)
      → heap.malloc s n ≡ (row, s₁)
      → Took row (lives.live s) (lives.live s₁)
  malloc-Took s s₁ n none e = lives.malloc_none s s₁ n e
  malloc-Took s s₁ n (some a) e = lives.malloc_some s s₁ n a e

  malloc_rows-stacked :
      (size rows i left : ℕ) (s : heap.State)
      → (lives.live (malloc_rows heap size rows i left s).1
          ≡ stacked (malloc_rows heap size rows i left s).0 (lives.live s))
        × AllNew (malloc_rows heap size rows i left s).0 (lives.live s)
  unfolding malloc_rows
  malloc_rows-stacked size rows i zero s = (refl, tt)
  malloc_rows-stacked size rows i (suc left) s =
      let n = 8 * col_num size rows i in
      let row = (heap.malloc s n).0 in
      let s₁ = (heap.malloc s n).1 in
      let more = malloc_rows heap size rows (i + 1) left s₁ in
      let (whole, new) = malloc_rows-stacked size rows (i + 1) left s₁ in
      row-stacked row more.0 (lives.live s) (lives.live s₁) (lives.live more.1)
        (malloc-Took s s₁ n row refl) whole new

  -- The rows behind those that were freed.
  free_rows-stacked :
      (front rows : List (Option ℕ)) (s : heap.State) (below : List ℕ)
      → lives.live s ≡ stacked rows below
      → AllNew rows below
      → (s' : heap.State) × (free_rows heap (front ++ rows) (length front) (length rows) s ≡ ok s')
        × (lives.live s' ≡ below)
  unfolding free_rows
  free_rows-stacked front [] s below e new = (s, refl, e)
  free_rows-stacked front (row ∷ rows) s below e new =
      let here : get_elem? (front ++ (row ∷ rows)) (length front) ≡ some row =
        get_elem-behind front row rows in
      let (e', new') = freed-row row rows s below e new in
      let (s', done, live) =
        free_rows-stacked (front ++ (row ∷ [])) rows (heap.free s row) below e' new' in
      let next : length (front ++ (row ∷ [])) ≡ length front + 1 = length-append front (row ∷ []) in
      (s', rw here (rw (append_assoc front (row ∷ []) rows, next) at done), live)

  length-malloc_rows :
      (size rows i left : ℕ) (s : heap.State)
      → length (malloc_rows heap size rows i left s).0 ≡ left
  unfolding malloc_rows
  length-malloc_rows size rows i zero s = refl
  length-malloc_rows size rows i (suc left) s =
      let s₁ = (heap.malloc s (8 * col_num size rows i)).1 in
      ap suc (length-malloc_rows size rows (i + 1) left s₁)

  -- The heap once an array that was made is freed.
  abbrev Back : ℕ → List ℕ → Outcome (PointArray × heap.State) → Type 0
  Back size before (ok (p, s')) =
      (s'' : heap.State) × (free_point_array heap p size s' ≡ ok s'') × (lives.live s'' ≡ before)
  Back size before _ = Unit {0}

  with_rows-live :
      (size : ℕ) (s s₁ s' : heap.State) (row_ptr : Option ℕ) (p : PointArray)
      → Took row_ptr (lives.live s) (lives.live s₁)
      → with_rows heap size (row_ptr, s₁) ≡ ok (p, s')
      → Back size (lives.live s) (ok (p, s'))
  unfolding with_rows free_point_array
  with_rows-live size s s₁ s' none p took e = absurd cc
  with_rows-live size s s₁ s' (some a) p took e =
      let (whole, new) = malloc_rows-stacked size (row_num size) 0 (row_num size) s₁ in
      let (rows, s₂) = malloc_rows heap size (row_num size) 0 (row_num size) s₁ in
      let (s₃, done, freed) = free_rows-stacked [] rows s₂ (lives.live s₁) whole new in
      let back = lives.free_some s₃ a ∙ ap (without a) (freed ∙ took.0) ∙ rw (==_refl a) refl in
      let count : length rows ≡ row_num size =
        length-malloc_rows size (row_num size) 0 (row_num size) s₁ in
      let all : free_rows heap rows 0 (row_num size) s₂ ≡ ok s₃ = rw count at done in
      subst (Back size (lives.live s)) e (heap.free s₃ (some a), rw all refl, back)

  -- free_point_array of an array that create_point_array made, with the array's size, ends without a
  -- fault and leaves the blocks live that were live before, whichever of the rows malloc() had.
  pub free_point_array-create_blocks :
      (size : ℕ) (s s' : heap.State) (p : PointArray)
      → create_blocks heap size s ≡ ok (p, s')
      → (s'' : heap.State) × (free_point_array heap p size s' ≡ ok s'')
        × (lives.live s'' ≡ lives.live s)
  unfolding create_blocks
  free_point_array-create_blocks size s s' p e =
      let n = 8 * row_num size in
      with_rows-live size s (heap.malloc s n).1 s' (heap.malloc s n).0 p
        (malloc-Took s (heap.malloc s n).1 n (heap.malloc s n).0 refl) e
