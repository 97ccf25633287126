-- ===== src/Base/Heap.antt =====
-- The C library's malloc() and free(), and the blocks that are live.
use cc_utils.Base.{ℕ, ◌≡◌, false, Option, none, some, List, [], ◌∷◌, ◌==◌, if◌then◌else◌}

-- malloc() of a size gives an address or NULL, memset() with 0 fills a block, and free() takes NULL too.
pub record Heap : Type 1 where
  pub State : Type 0
  pub malloc : State → ℕ → Option ℕ × State
  pub clear : State → ℕ → ℕ → State
  pub free : State → Option ℕ → State

-- No live block is at this address.
abbrev pub IsNew : ℕ → List ℕ → Type 0
IsNew a [] = Unit {0}
IsNew a (x ∷ xs) = ((x == a) ≡ false) × IsNew a xs

abbrev pub without : ℕ → List ℕ → List ℕ
without a [] = []
without a (x ∷ xs) = let rest = without a xs in if x == a then xs else x ∷ rest

-- What they are documented to do.
pub record Lives (heap : Heap) : Type 0 where
  pub live : heap.State → List ℕ
  pub malloc_none : (s s' : heap.State) (n : ℕ) → heap.malloc s n ≡ (none, s') → live s' ≡ live s
  pub malloc_some :
      (s s' : heap.State) (n a : ℕ)
      → heap.malloc s n ≡ (some a, s')
      → (live s' ≡ a ∷ live s) × IsNew a (live s)
  pub free_none : (s : heap.State) → live (heap.free s none) ≡ live s
  pub free_some : (s : heap.State) (a : ℕ) → live (heap.free s (some a)) ≡ without a (live s)
