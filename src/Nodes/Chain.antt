-- ===== src/Nodes/Chain.antt =====
-- Chains of nodes in memory, for the lists of include/list.h.
use cc_utils.Base.{
  ℕ, ◌≡◌, refl, ap, true, false, Option, none, some, List, [], ◌∷◌, ◌++◌, ◌==◌, arith, ==_refl,
}
use cc_utils.Nodes.{link}

-- The nodes from a pointer on, to NULL.
abbrev pub Chain : (ℕ → Option ℕ) → Option ℕ → List ℕ → Type 0
Chain next p [] = p ≡ none
Chain next p (x ∷ xs) = (p ≡ some x) × Chain next (next x) xs

-- No node of the list is this one.
abbrev pub Fresh : ℕ → List ℕ → Type 0
Fresh n [] = Unit {0}
Fresh n (x ∷ xs) = ((x == n) ≡ false) × Fresh n xs

abbrev pub Distinct : List ℕ → Type 0
Distinct [] = Unit {0}
Distinct (x ∷ xs) = Fresh x xs × Distinct xs

abbrev pub last_of : List ℕ → Option ℕ
last_of [] = none
last_of (x ∷ []) = some x
last_of (x ∷ y ∷ xs) = last_of (y ∷ xs)

pub Chain-link :
    (next : ℕ → Option ℕ) (n : ℕ) (v p : Option ℕ) (xs : List ℕ)
    → Fresh n xs
    → Chain next p xs
    → Chain (link next n v) p xs
Chain-link next n v p [] fresh c = c
Chain-link next n v p (x ∷ xs) (apart, fresh) (e, c) =
    (e, rw apart (Chain-link next n v (next x) xs fresh c))

pub Fresh-snoc :
    (n : ℕ) (xs : List ℕ) (m : ℕ) → Fresh n xs → (m == n) ≡ false → Fresh n (xs ++ (m ∷ []))
Fresh-snoc n [] m h e = (e, tt)
Fresh-snoc n (x ∷ xs) m (a, h) e = (a, Fresh-snoc n xs m h e)

pub Distinct-snoc : (xs : List ℕ) (m : ℕ) → Distinct xs → Fresh m xs → Distinct (xs ++ (m ∷ []))
Distinct-snoc [] m d f = (tt, tt)
Distinct-snoc (x ∷ xs) m (a, d) (e, f) =
    (Fresh-snoc x xs m a (ground (arith, e)), Distinct-snoc xs m d f)

pub last_of-snoc : (xs : List ℕ) (m : ℕ) → last_of (xs ++ (m ∷ [])) ≡ some m
last_of-snoc [] m = refl
last_of-snoc (x ∷ []) m = refl
last_of-snoc (x ∷ y ∷ xs) m = last_of-snoc (y ∷ xs) m

-- The last of nodes that differ from `x` differs from it.
pub last-apart :
    (x y : ℕ) (xs : List ℕ) (l : ℕ)
    → Fresh x (y ∷ xs)
    → last_of (y ∷ xs) ≡ some l
    → (x == l) ≡ false
last-apart x y [] l f e =
    let e' : y ≡ l = ap (λ o. elim o [ none ↦ l | some z ↦ z ]) e in ground (arith, f, e')
last-apart x y (z ∷ xs) l f e = last-apart x z xs l f.1 e

pub some_last : (x : ℕ) (xs : List ℕ) → (l : ℕ) × (last_of (x ∷ xs) ≡ some l)
some_last x [] = (x, refl)
some_last x (y ∷ xs) = some_last y xs

-- Behind the last node of a chain another one is linked.
pub Chain-snoc :
    (next : ℕ → Option ℕ) (node : ℕ) (p : Option ℕ) (x : ℕ) (xs : List ℕ) (l : ℕ)
    → Chain next p (x ∷ xs)
    → last_of (x ∷ xs) ≡ some l
    → Distinct (x ∷ xs)
    → Fresh node (x ∷ xs)
    → Chain (link (link next node none) l (some node)) p (x ∷ xs ++ (node ∷ []))
Chain-snoc next node p x [] l c e d f =
    let e' : x ≡ l = ap (λ o. elim o [ none ↦ l | some y ↦ y ]) e in
    let at : (x == l) ≡ true = rw e' (==_refl l) in
    let apart : (node == l) ≡ false = ground (arith, f) in
    (c.0, (rw at refl, rw (apart, ==_refl node) refl))
Chain-snoc next node p x (y ∷ xs) l c e d f =
    let apart : (x == l) ≡ false = last-apart x y xs l d.0 e in
    (c.0, rw (apart, f.0) (Chain-snoc next node (next x) y xs l c.1 e d.1 f.1))
