-- ===== src/Dl/Contents.antt =====
-- The operations of the list `dl` of include/list.h against the sequence of its nodes.
use cc_utils.Base.{
  ℕ, ◌≡◌, refl, ◌∙◌, sym, subst, false, Option, none, some, List, [], ◌∷◌, ◌++◌, append-nil, ◌==◌,
  arith, ==_refl,
}
use cc_utils.Nodes.{link}
use cc_utils.Nodes.Chain.{Chain, Fresh, Distinct, Chain-link}
use cc_utils.Nodes.Walk.{final, Chain-unlink, Distinct-skip, Fresh-front, final-Fresh, Fresh-at}
use cc_utils.Dl.{Links, set_next, set_prev, dl_del, dl_add_head}

-- Each node points back at the place in front of it.
abbrev pub Backs : (ℕ → Option ℕ) → ℕ → List ℕ → Type 0
Backs prev a [] = Unit {0}
Backs prev a (x ∷ xs) = (prev x ≡ some a) × Backs prev x xs

-- The list at `h` is these nodes, each once, in this order.
pub record Linked (m : Links) (h : ℕ) (xs : List ℕ) : Type 0 where
  pub chain : Chain m.next (m.next h) xs
  pub backs : Backs m.prev h xs
  pub distinct : Distinct (h ∷ xs)

Backs-link :
    (prev : ℕ → Option ℕ) (n : ℕ) (v : Option ℕ) (a : ℕ) (xs : List ℕ)
    → Fresh n xs
    → Backs prev a xs
    → Backs (link prev n v) a xs
Backs-link prev n v a [] f b = tt
Backs-link prev n v a (x ∷ xs) f b = (rw f.0 b.0, Backs-link prev n v x xs f.1 b.1)

Backs-final :
    (prev : ℕ → Option ℕ) (a : ℕ) (xs : List ℕ) (n : ℕ) (ys : List ℕ)
    → Backs prev a (xs ++ (n ∷ ys))
    → prev n ≡ some (final a xs)
Backs-final prev a [] n ys b = b.0
Backs-final prev a (x ∷ xs) n ys b = Backs-final prev x xs n ys b.1

Backs-front :
    (prev : ℕ → Option ℕ) (a : ℕ) (xs : List ℕ) (n : ℕ)
    → Backs prev a (xs ++ (n ∷ []))
    → Backs prev a xs
Backs-front prev a [] n b = tt
Backs-front prev a (x ∷ xs) n b = (b.0, Backs-front prev x xs n b.1)

Fresh-second :
    (m : ℕ) (xs : List ℕ) (n y : ℕ) (ys : List ℕ) → Fresh m (xs ++ (n ∷ y ∷ ys)) → (m == y) ≡ false
Fresh-second m [] n y ys f = ground (arith, f)
Fresh-second m (x ∷ xs) n y ys f = Fresh-second m xs n y ys f.1

Backs-removed :
    (prev : ℕ → Option ℕ) (a : ℕ) (xs : List ℕ) (n y : ℕ) (ys : List ℕ)
    → Backs prev a (xs ++ (n ∷ y ∷ ys))
    → Distinct (xs ++ (n ∷ y ∷ ys))
    → Backs (link prev y (some (final a xs))) a (xs ++ (y ∷ ys))
Backs-removed prev a [] n y ys b d =
    (rw (==_refl y) refl, Backs-link prev y (some a) y ys d.1.0 b.1.1)
Backs-removed prev a (x ∷ xs) n y ys b d =
    (rw (Fresh-second x xs n y ys d.0) b.0, Backs-removed prev x xs n y ys b.1 d.1)

Chain-next :
    (next : ℕ → Option ℕ) (p : Option ℕ) (xs : List ℕ) (n : ℕ) (ys : List ℕ)
    → Chain next p (xs ++ (n ∷ ys))
    → Chain next (next n) ys
Chain-next next p [] n ys c = c.1
Chain-next next p (x ∷ xs) n ys c = Chain-next next (next x) xs n ys c.1

-- What dl_del makes of the places around the node.
abbrev taken : Links → ℕ → ℕ → Option ℕ → Links
taken m n place behind =
    set_prev (record m { next = link m.next place (m.next n) }) behind (some place)

taken-Linked :
    (m : Links) (h : ℕ) (xs : List ℕ) (n : ℕ) (ys : List ℕ)
    → Linked m h (xs ++ (n ∷ ys))
    → (behind : Option ℕ) → m.next n ≡ behind
    → Linked (taken m n (final h xs) behind) h (xs ++ ys)
taken-Linked m h xs n [] l none e = record {
  chain = Chain-unlink m.next h xs n [] l.chain l.distinct;
  backs = subst (Backs m.prev h) (sym (append-nil xs)) (Backs-front m.prev h xs n l.backs);
  distinct = Distinct-skip (h ∷ xs) n [] l.distinct;
}
taken-Linked m h xs n [] l (some y) e =
    absurd (cc (e, Chain-next m.next (m.next h) xs n [] l.chain))
taken-Linked m h xs n (y ∷ ys) l none e =
    absurd (cc (e, (Chain-next m.next (m.next h) xs n (y ∷ ys) l.chain).0))
taken-Linked m h xs n (y ∷ ys) l (some z) e =
    let same : some z ≡ some y = sym e ∙ (Chain-next m.next (m.next h) xs n (y ∷ ys) l.chain).0 in
    record {
      chain = Chain-unlink m.next h xs n (y ∷ ys) l.chain l.distinct;
      backs =
          subst (λ o. Backs (set_prev m o (some (final h xs))).prev h (xs ++ (y ∷ ys))) (sym same)
            (Backs-removed m.prev h xs n y ys l.backs l.distinct.1);
      distinct = Distinct-skip (h ∷ xs) n (y ∷ ys) l.distinct;
    }

-- dl_del takes a node out of its list from any place, without the list's head, and keeps the others
-- in their order.
pub dl_del-Linked :
    (m : Links) (h : ℕ) (xs : List ℕ) (n : ℕ) (ys : List ℕ)
    → Linked m h (xs ++ (n ∷ ys))
    → Linked (dl_del m n) h (xs ++ ys)
unfolding dl_del
dl_del-Linked m h xs n ys l =
    let back = Backs-final m.prev h xs n ys l.backs in
    let head : (h == n) ≡ false = ground (arith, Fresh-at h xs n ys l.distinct.0) in
    let apart : (n == final h xs) ≡ false =
      final-Fresh n h xs (head, Fresh-front xs n ys l.distinct.1) in
    rw (back, apart, back) (taken-Linked m h xs n ys l (m.next n) refl)

-- What dl_add_head makes of a list that begins with `first`.
abbrev added : Links → ℕ → ℕ → Option ℕ → Links
added m h n first =
    set_next
      (set_prev (record { next = link m.next n first; prev = link m.prev n (some h) }) first
        (some n))
      (some h) (some n)

added-Linked :
    (m : Links) (h : ℕ) (xs : List ℕ) (n : ℕ)
    → Linked m h xs
    → Fresh n (h ∷ xs)
    → (first : Option ℕ) → m.next h ≡ first
    → Linked (added m h n first) h (n ∷ xs)
added-Linked m h [] n l f none e =
    let apart : (n == h) ≡ false = ground (arith, f) in
    record {
      chain = (rw (==_refl h) refl, rw (apart, ==_refl n) refl);
      backs = (rw (==_refl n) refl, tt);
      distinct = ((ground (arith, f), tt), (tt, tt));
    }
added-Linked m h [] n l f (some y) e = absurd (cc (e, l.chain))
added-Linked m h (x ∷ xs) n l f none e = absurd (cc (e, l.chain.0))
added-Linked m h (x ∷ xs) n l f (some z) e =
    let apart : (n == h) ≡ false = ground (arith, f) in
    let other : (n == x) ≡ false = ground (arith, f) in
    let same : some x ≡ some z = sym l.chain.0 ∙ e in
    let moved : Linked (added m h n (some x)) h (n ∷ x ∷ xs) = record {
      chain = (
        rw (==_refl h) refl,
        (
          rw (apart, ==_refl n) refl,
          rw (l.distinct.0.0, f.1.0)
              (Chain-link (link m.next n (some x)) h (some n) (m.next x) xs l.distinct.0.1
                (Chain-link m.next n (some x) (m.next x) xs f.1.1 l.chain.1)),
        ),
      );
      backs = (
        rw (other, ==_refl n) refl,
        (
          rw (==_refl x) refl,
          Backs-link (link m.prev n (some h)) x (some n) x xs l.distinct.1.0
              (Backs-link m.prev n (some h) x xs f.1.1 l.backs.1),
        ),
      );
      distinct = ((ground (arith, f), l.distinct.0), (f.1, l.distinct.1));
    } in
    subst (λ o. Linked (added m h n o) h (n ∷ x ∷ xs)) same moved

-- dl_add_head puts a node that is not in the list, and is not its head, in front of the others.
pub dl_add_head-Linked :
    (m : Links) (h : ℕ) (xs : List ℕ) (n : ℕ)
    → Linked m h xs
    → Fresh n (h ∷ xs)
    → Linked (dl_add_head m h n) h (n ∷ xs)
unfolding dl_add_head
dl_add_head-Linked m h xs n l f = rw (==_refl n) (added-Linked m h xs n l f (m.next h) refl)
