-- ===== src/Dtq/Ring.antt =====
-- Rings of nodes in memory, for `dtq` of include/list.h: the `next` and the `prev` of the nodes
-- between two, each on its own.
use cc_utils.Base.{ℕ, ◌≡◌, refl, false, Option, some, List, [], ◌∷◌, ◌++◌, ◌==◌, arith, ==_refl}
use cc_utils.Nodes.{link}
use cc_utils.Nodes.Chain.{Fresh, Distinct}
use cc_utils.Nodes.Walk.{final, final-apart}

-- From `a` through `xs` to `b`.
abbrev pub Forward : (ℕ → Option ℕ) → ℕ → List ℕ → ℕ → Type 0
Forward next a [] b = next a ≡ some b
Forward next a (x ∷ xs) b = (next a ≡ some x) × Forward next x xs b

abbrev pub Backward : (ℕ → Option ℕ) → ℕ → List ℕ → ℕ → Type 0
Backward prev a [] b = prev b ≡ some a
Backward prev a (x ∷ xs) b = (prev x ≡ some a) × Backward prev x xs b

-- The first of some nodes in front of `b`.
abbrev pub head_or : List ℕ → ℕ → ℕ
head_or [] b = b
head_or (x ∷ xs) b = x

pub Forward-final :
    (next : ℕ → Option ℕ) (a : ℕ) (xs ys : List ℕ) (b : ℕ)
    → Forward next a (xs ++ ys) b
    → next (final a xs) ≡ some (head_or ys b)
Forward-final next a [] [] b c = c
Forward-final next a [] (y ∷ ys) b c = c.0
Forward-final next a (x ∷ xs) ys b c = Forward-final next x xs ys b c.1

pub Backward-final :
    (prev : ℕ → Option ℕ) (a : ℕ) (xs ys : List ℕ) (b : ℕ)
    → Backward prev a (xs ++ ys) b
    → prev (head_or ys b) ≡ some (final a xs)
Backward-final prev a [] [] b c = c
Backward-final prev a [] (y ∷ ys) b c = c.0
Backward-final prev a (x ∷ xs) ys b c = Backward-final prev x xs ys b c.1

pub Forward-link :
    (next : ℕ → Option ℕ) (n : ℕ) (v : Option ℕ) (a : ℕ) (xs : List ℕ) (b : ℕ)
    → Fresh n (a ∷ xs)
    → Forward next a xs b
    → Forward (link next n v) a xs b
Forward-link next n v a [] b f c = rw f.0 c
Forward-link next n v a (x ∷ xs) b f c = (rw f.0 c.0, Forward-link next n v x xs b f.1 c.1)

pub Backward-link :
    (prev : ℕ → Option ℕ) (n : ℕ) (v : Option ℕ) (a : ℕ) (xs : List ℕ) (b : ℕ)
    → Fresh n xs
    → (b == n) ≡ false
    → Backward prev a xs b
    → Backward (link prev n v) a xs b
Backward-link prev n v a [] b f g c = rw g c
Backward-link prev n v a (x ∷ xs) b f g c = (rw f.0 c.0, Backward-link prev n v x xs b f.1 g c.1)

Fresh-left : (n : ℕ) (xs ys : List ℕ) → Fresh n (xs ++ ys) → Fresh n xs
Fresh-left n [] ys f = tt
Fresh-left n (x ∷ xs) ys f = (f.0, Fresh-left n xs ys f.1)

Fresh-right : (n : ℕ) (xs ys : List ℕ) → Fresh n (xs ++ ys) → Fresh n ys
Fresh-right n [] ys f = f
Fresh-right n (x ∷ xs) ys f = Fresh-right n xs ys f.1

-- A node is taken out between its neighbours.
pub Forward-removed :
    (next : ℕ → Option ℕ) (a : ℕ) (xs : List ℕ) (n : ℕ) (ys : List ℕ) (b : ℕ)
    → Forward next a (xs ++ (n ∷ ys)) b
    → Distinct (a ∷ (xs ++ (n ∷ ys)))
    → Forward (link next (final a xs) (some (head_or ys b))) a (xs ++ ys) b
Forward-removed next a [] n [] b c d = rw (==_refl a) refl
Forward-removed next a [] n (y ∷ ys) b c d =
    (rw (==_refl a) refl, Forward-link next a (some y) y ys b d.0.1 c.1.1)
Forward-removed next a (x ∷ xs) n ys b c d =
    let apart = final-apart a x xs (Fresh-left a (x ∷ xs) (n ∷ ys) d.0) in
    (rw apart c.0, Forward-removed next x xs n ys b c.1 d.1)

-- A node that differs from the first of `ys` and from `b`.
head_or-apart :
    (x : ℕ) (ys : List ℕ) (b : ℕ) → Fresh x ys → (b == x) ≡ false → (x == head_or ys b) ≡ false
head_or-apart x [] b f g = ground (arith, g)
head_or-apart x (y ∷ ys) b f g = ground (arith, f)

pub Backward-removed :
    (prev : ℕ → Option ℕ) (a : ℕ) (xs : List ℕ) (n : ℕ) (ys : List ℕ) (b : ℕ)
    → Backward prev a (xs ++ (n ∷ ys)) b
    → Distinct (xs ++ (n ∷ ys))
    → Fresh b (xs ++ (n ∷ ys))
    → Backward (link prev (head_or ys b) (some (final a xs))) a (xs ++ ys) b
Backward-removed prev a [] n [] b c d f = rw (==_refl b) refl
Backward-removed prev a [] n (y ∷ ys) b c d f =
    let apart : (b == y) ≡ false = ground (arith, f) in
    (rw (==_refl y) refl, Backward-link prev y (some a) y ys b d.1.0 apart c.1.1)
Backward-removed prev a (x ∷ xs) n ys b c d f =
    let g : (b == x) ≡ false = ground (arith, f) in
    let apart = head_or-apart x ys b (Fresh-right x xs (n ∷ ys) d.0).1 g in
    (rw apart c.0, Backward-removed prev x xs n ys b c.1 d.1 f.1)

-- A node is put in between two neighbours.
pub Forward-inserted :
    (next : ℕ → Option ℕ) (a : ℕ) (xs : List ℕ) (n : ℕ) (ys : List ℕ) (b : ℕ)
    → Forward next a (xs ++ ys) b
    → Distinct (a ∷ (xs ++ ys))
    → Fresh n (a ∷ (xs ++ ys))
    → Forward (link (link next n (some (head_or ys b))) (final a xs) (some n)) a (xs ++ (n ∷ ys)) b
Forward-inserted next a [] n [] b c d f =
    let apart : (n == a) ≡ false = ground (arith, f) in
    (rw (==_refl a) refl, rw (apart, ==_refl n) refl)
Forward-inserted next a [] n (y ∷ ys) b c d f =
    let apart : (n == a) ≡ false = ground (arith, f) in
    (
      rw (==_refl a) refl,
      (
        rw (apart, ==_refl n) refl,
        Forward-link (link next n (some y)) a (some n) y ys b d.0
            (Forward-link next n (some y) y ys b f.1 c.1),
      ),
    )
Forward-inserted next a (x ∷ xs) n ys b c d f =
    let apart = final-apart a x xs (Fresh-left a (x ∷ xs) ys d.0) in
    (rw (apart, f.0) c.0, Forward-inserted next x xs n ys b c.1 d.1 f.1)

pub Backward-inserted :
    (prev : ℕ → Option ℕ) (a : ℕ) (xs : List ℕ) (n : ℕ) (ys : List ℕ) (b : ℕ)
    → Backward prev a (xs ++ ys) b
    → Distinct (xs ++ ys)
    → Fresh b (xs ++ ys)
    → Fresh n (xs ++ ys)
    → (b == n) ≡ false
    → Backward (link (link prev n (some (final a xs))) (head_or ys b) (some n)) a (xs ++ (n ∷ ys)) b
Backward-inserted prev a [] n [] b c d f g h =
    let apart : (n == b) ≡ false = ground (arith, h) in
    (rw (apart, ==_refl n) refl, rw (==_refl b) refl)
Backward-inserted prev a [] n (y ∷ ys) b c d f g h =
    let apart : (n == y) ≡ false = ground (arith, g) in
    let far : (b == y) ≡ false = ground (arith, f) in
    (
      rw (apart, ==_refl n) refl,
      (
        rw (==_refl y) refl,
        Backward-link (link prev n (some a)) y (some n) y ys b d.0 far
            (Backward-link prev n (some a) y ys b g.1 h c.1),
      ),
    )
Backward-inserted prev a (x ∷ xs) n ys b c d f g h =
    let far : (b == x) ≡ false = ground (arith, f) in
    let apart = head_or-apart x ys b (Fresh-right x xs ys d.0) far in
    (rw (apart, g.0) c.0, Backward-inserted prev x xs n ys b c.1 d.1 f.1 g.1 h)
