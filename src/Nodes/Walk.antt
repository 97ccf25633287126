-- ===== src/Nodes/Walk.antt =====
-- The loops over a chain of nodes end, and where (include/list.h).
use cc_utils.Base.{
  ℕ, zero, suc, ◌<◌, ◌≡◌, refl, ap, ◌∙◌, false, Option, none, some, List, [], ◌∷◌, ◌++◌,
  append_assoc, append-nil, ◌==◌, arith, ==_refl, length,
}
use cc_utils.Base.Outcome.{ok}
use cc_utils.Nodes.{link, prev_of, end_of, free_nodes}
use cc_utils.Nodes.Chain.{Chain, Fresh, Distinct, Chain-link}

-- The last of some nodes behind `p`.
abbrev pub last_or : Option ℕ → List ℕ → Option ℕ
last_or p [] = p
last_or p (x ∷ xs) = last_or (some x) xs

abbrev pub final : ℕ → List ℕ → ℕ
final p [] = p
final p (x ∷ xs) = final x xs

pub last_or-final : (p : ℕ) (xs : List ℕ) → last_or (some p) xs ≡ some (final p xs)
last_or-final p [] = refl
last_or-final p (x ∷ xs) = last_or-final x xs

pub prev_of-member :
    (fuel : ℕ) (next : ℕ → Option ℕ) (cur prev : Option ℕ) (xs : List ℕ) (n : ℕ) (ys : List ℕ)
    → Chain next cur (xs ++ (n ∷ ys))
    → Fresh n xs
    → length xs < fuel
    → prev_of fuel next cur prev n ≡ ok (some (last_or prev xs))
unfolding prev_of
prev_of-member zero next cur prev xs n ys c f enough = absurd (omega arith)
prev_of-member (suc k) next cur prev [] n ys c f enough = rw (c.0, ==_refl n) refl
prev_of-member (suc k) next cur prev (x ∷ xs) n ys c f enough =
    rw (c.0, f.0) (prev_of-member k next (next x) (some x) xs n ys c.1 f.1 (omega arith))

pub prev_of-absent :
    (fuel : ℕ) (next : ℕ → Option ℕ) (cur prev : Option ℕ) (xs : List ℕ) (n : ℕ)
    → Chain next cur xs
    → Fresh n xs
    → length xs < fuel
    → prev_of fuel next cur prev n ≡ ok none
unfolding prev_of
prev_of-absent zero next cur prev xs n c f enough = absurd (omega arith)
prev_of-absent (suc k) next cur prev [] n c f enough = rw c refl
prev_of-absent (suc k) next cur prev (x ∷ xs) n c f enough =
    rw (c.0, f.0) (prev_of-absent k next (next x) (some x) xs n c.1 f.1 (omega arith))

pub end_of-Chain :
    (fuel : ℕ) (next : ℕ → Option ℕ) (cur prev : Option ℕ) (xs : List ℕ)
    → Chain next cur xs
    → length xs < fuel
    → end_of fuel next cur prev ≡ ok (last_or prev xs)
unfolding end_of
end_of-Chain zero next cur prev xs c enough = absurd (omega arith)
end_of-Chain (suc k) next cur prev [] c enough = rw c refl
end_of-Chain (suc k) next cur prev (x ∷ xs) c enough =
    rw c.0 (end_of-Chain k next (next x) (some x) xs c.1 (omega arith))

-- A call of `free_node` leaves the other nodes as they are.
abbrev pub LeavesOthers : ((ℕ → Option ℕ) → ℕ → ℕ → Option ℕ) → Type 0
LeavesOthers free_node =
    (next : ℕ → Option ℕ) (n m : ℕ) → (m == n) ≡ false → free_node next n m ≡ next m

Chain-freed :
    (free_node : (ℕ → Option ℕ) → ℕ → ℕ → Option ℕ) (next : ℕ → Option ℕ) (n : ℕ) (p : Option ℕ)
    (xs : List ℕ)
    → LeavesOthers free_node
    → Fresh n xs
    → Chain next p xs
    → Chain (free_node next n) p xs
Chain-freed free_node next n p [] others f c = c
Chain-freed free_node next n p (x ∷ xs) others f c =
    (c.0, rw (others next n x f.0) (Chain-freed free_node next n (next x) xs others f.1 c.1))

pub free_nodes-Chain :
    (free_node : (ℕ → Option ℕ) → ℕ → ℕ → Option ℕ) (fuel : ℕ) (next : ℕ → Option ℕ)
    (cur : Option ℕ) (xs freed : List ℕ)
    → LeavesOthers free_node
    → Chain next cur xs
    → Distinct xs
    → length xs < fuel
    → (next' : ℕ → Option ℕ) × (free_nodes free_node fuel next cur freed ≡ ok (next', freed ++ xs))
unfolding free_nodes
free_nodes-Chain free_node zero next cur xs freed others c d enough = absurd (omega arith)
free_nodes-Chain free_node (suc k) next cur [] freed others c d enough =
    (next, rw (c, append-nil freed) refl)
free_nodes-Chain free_node (suc k) next cur (x ∷ xs) freed others c d enough =
    let (next', e) =
      free_nodes-Chain free_node k (free_node next x) (next x) xs (freed ++ (x ∷ [])) others
        (Chain-freed free_node next x (next x) xs others d.0 c.1) d.1 (omega arith) in
    (next', rw c.0 (e ∙ ap (λ o. ok (next', o)) (append_assoc freed (x ∷ []) xs)))

pub final-apart : (p x : ℕ) (xs : List ℕ) → Fresh p (x ∷ xs) → (p == final x xs) ≡ false
final-apart p x [] f = ground (arith, f)
final-apart p x (y ∷ xs) f = final-apart p y xs f.1

pub Fresh-left : (n : ℕ) (xs ys : List ℕ) → Fresh n (xs ++ ys) → Fresh n xs
Fresh-left n [] ys f = tt
Fresh-left n (x ∷ xs) ys f = (f.0, Fresh-left n xs ys f.1)

-- The node behind some others is taken out of a chain by a new `next` of the node in front of it.
pub Chain-unlink :
    (next : ℕ → Option ℕ) (p : ℕ) (xs : List ℕ) (n : ℕ) (ys : List ℕ)
    → Chain next (next p) (xs ++ (n ∷ ys))
    → Distinct (p ∷ (xs ++ (n ∷ ys)))
    → let next' = link next (final p xs) (next n) in Chain next' (next' p) (xs ++ ys)
Chain-unlink next p [] n ys c d = rw (==_refl p) (Chain-link next p (next n) (next n) ys d.0.1 c.1)
Chain-unlink next p (x ∷ xs) n ys c d =
    let apart = final-apart p x xs (Fresh-left p (x ∷ xs) (n ∷ ys) d.0) in
    (rw apart c.0, Chain-unlink next x xs n ys c.1 d.1)

pub next-final :
    (next : ℕ → Option ℕ) (p : ℕ) (xs : List ℕ) (n : ℕ) (ys : List ℕ)
    → Chain next (next p) (xs ++ (n ∷ ys))
    → next (final p xs) ≡ some n
next-final next p [] n ys c = c.0
next-final next p (x ∷ xs) n ys c = next-final next x xs n ys c.1

-- A chain is put behind the last node of another.
pub Chain-join :
    (next : ℕ → Option ℕ) (p : ℕ) (xs : List ℕ) (q : Option ℕ) (ys : List ℕ)
    → Chain next (next p) xs
    → Chain next q ys
    → Distinct (p ∷ (xs ++ ys))
    → let next' = link next (final p xs) q in Chain next' (next' p) (xs ++ ys)
Chain-join next p [] q ys c c' d = rw (==_refl p) (Chain-link next p q q ys d.0 c')
Chain-join next p (x ∷ xs) q ys c c' d =
    let apart = final-apart p x xs (Fresh-left p (x ∷ xs) ys d.0) in
    (rw apart c.0, Chain-join next x xs q ys c.1 c' d.1)

Fresh-skip :
    (m : ℕ) (xs : List ℕ) (n : ℕ) (ys : List ℕ) → Fresh m (xs ++ (n ∷ ys)) → Fresh m (xs ++ ys)
Fresh-skip m [] n ys f = f.1
Fresh-skip m (x ∷ xs) n ys f = (f.0, Fresh-skip m xs n ys f.1)

pub Distinct-skip :
    (xs : List ℕ) (n : ℕ) (ys : List ℕ) → Distinct (xs ++ (n ∷ ys)) → Distinct (xs ++ ys)
Distinct-skip [] n ys d = d.1
Distinct-skip (x ∷ xs) n ys d = (Fresh-skip x xs n ys d.0, Distinct-skip xs n ys d.1)

-- The nodes in front of a node differ from it.
pub Fresh-front : (xs : List ℕ) (n : ℕ) (ys : List ℕ) → Distinct (xs ++ (n ∷ ys)) → Fresh n xs
Fresh-front [] n ys d = tt
Fresh-front (x ∷ xs) n ys d = (apart x xs n ys d.0, Fresh-front xs n ys d.1)
  where
    apart :
        (x : ℕ) (xs : List ℕ) (n : ℕ) (ys : List ℕ) → Fresh x (xs ++ (n ∷ ys)) → (x == n) ≡ false
    apart x [] n ys f = ground (arith, f)
    apart x (y ∷ xs) n ys f = apart x xs n ys f.1

pub final-Fresh : (n p : ℕ) (xs : List ℕ) → Fresh n (p ∷ xs) → (n == final p xs) ≡ false
final-Fresh n p [] f = ground (arith, f)
final-Fresh n p (x ∷ xs) f = final-Fresh n x xs f.1

pub Fresh-at :
    (m : ℕ) (xs : List ℕ) (n : ℕ) (ys : List ℕ) → Fresh m (xs ++ (n ∷ ys)) → (n == m) ≡ false
Fresh-at m [] n ys f = f.0
Fresh-at m (x ∷ xs) n ys f = Fresh-at m xs n ys f.1
