-- ===== src/Dtq/Contents.antt =====
-- The operations of the list `dtq` of include/list.h against the sequence of its nodes.
use cc_utils.Base.{
  ℕ, ◌≡◌, refl, sym, subst, true, false, Option, none, some, List, [], ◌∷◌, ◌++◌, append-nil, ◌==◌,
  arith, ==_refl,
}
use cc_utils.Base.Outcome.{ok}
use cc_utils.Nodes.{link}
use cc_utils.Nodes.Chain.{Fresh, Distinct}
use cc_utils.Nodes.Walk.{final, Distinct-skip, Fresh-front, final-Fresh, Fresh-left, Fresh-at}
use cc_utils.Dtq.{
  Memory, dtq_init, dtq_is_empty, dtq_first, dtq_last, dtq_is_end, dtq_add_after, dtq_add_before,
  dtq_del, dtq_add_head, dtq_add_tail, del_node, dta_del_head, dtq_del_tail,
}
use cc_utils.Dtq.Ring.{
  Forward, Backward, head_or, Forward-final, Backward-final, Forward-removed, Backward-removed,
  Forward-inserted, Backward-inserted,
}

-- The list at `h` is these nodes, each once, forwards and backwards, and in a ring with `h`.
pub record Rings (m : Memory) (h : ℕ) (xs : List ℕ) : Type 0 where
  pub forward : Forward m.next h xs h
  pub backward : Backward m.prev h xs h
  pub distinct : Distinct (h ∷ xs)

Fresh-insert :
    (x : ℕ) (xs : List ℕ) (n : ℕ) (ys : List ℕ)
    → Fresh x (xs ++ ys)
    → (n == x) ≡ false
    → Fresh x (xs ++ (n ∷ ys))
Fresh-insert x [] n ys f g = (g, f)
Fresh-insert x (y ∷ xs) n ys f g = (f.0, Fresh-insert x xs n ys f.1 g)

Distinct-insert :
    (xs : List ℕ) (n : ℕ) (ys : List ℕ)
    → Distinct (xs ++ ys)
    → Fresh n (xs ++ ys)
    → Distinct (xs ++ (n ∷ ys))
Distinct-insert [] n ys d f = (f, d)
Distinct-insert (x ∷ xs) n ys d f =
    (Fresh-insert x xs n ys d.0 (ground (arith, f)), Distinct-insert xs n ys d.1 f.1)

Forward-next :
    (next : ℕ → Option ℕ) (a : ℕ) (xs : List ℕ) (n : ℕ) (ys : List ℕ) (b : ℕ)
    → Forward next a (xs ++ (n ∷ ys)) b
    → next n ≡ some (head_or ys b)
Forward-next next a [] n ys b c = Forward-final next n [] ys b c.1
Forward-next next a (x ∷ xs) n ys b c = Forward-next next x xs n ys b c.1

inserted-Rings :
    (m : Memory) (h : ℕ) (xs : List ℕ) (n : ℕ) (ys : List ℕ)
    → Rings m h (xs ++ ys)
    → Fresh n (h ∷ (xs ++ ys))
    → Rings
        (record {
          next = link (link m.next n (some (head_or ys h))) (final h xs) (some n);
          prev = link (link m.prev n (some (final h xs))) (head_or ys h) (some n);
        })
        h
        (xs ++ (n ∷ ys))
inserted-Rings m h xs n ys r f = record {
  forward = Forward-inserted m.next h xs n ys h r.forward r.distinct f;
  backward = Backward-inserted m.prev h xs n ys h r.backward r.distinct.1 r.distinct.0 f.1 f.0;
  distinct = Distinct-insert (h ∷ xs) n ys r.distinct f;
}

-- The new node is put behind the last of `xs`.
add_after-Rings :
    (m : Memory) (h : ℕ) (xs : List ℕ) (n : ℕ) (ys : List ℕ)
    → Rings m h (xs ++ ys)
    → Fresh n (h ∷ (xs ++ ys))
    → (m' : Memory) × (dtq_add_after m (final h xs) n ≡ ok m') × Rings m' h (xs ++ (n ∷ ys))
unfolding dtq_add_after
add_after-Rings m h xs n ys r f =
    let apart = final-Fresh n h xs (Fresh-left n (h ∷ xs) ys f) in
    let behind = Forward-final m.next h xs ys h r.forward in
    (
      record {
        next = link (link m.next n (some (head_or ys h))) (final h xs) (some n);
        prev = link (link m.prev n (some (final h xs))) (head_or ys h) (some n);
      },
      rw (apart, ==_refl n, behind) refl,
      inserted-Rings m h xs n ys r f,
    )

add_before-Rings :
    (m : Memory) (h : ℕ) (xs : List ℕ) (n : ℕ) (ys : List ℕ)
    → Rings m h (xs ++ ys)
    → Fresh n (h ∷ (xs ++ ys))
    → (m' : Memory) × (dtq_add_before m (head_or ys h) n ≡ ok m') × Rings m' h (xs ++ (n ∷ ys))
unfolding dtq_add_before
add_before-Rings m h xs n ys r f =
    let apart = final-Fresh n h xs (Fresh-left n (h ∷ xs) ys f) in
    let front = Backward-final m.prev h xs ys h r.backward in
    (
      record {
        next = link (link m.next n (some (head_or ys h))) (final h xs) (some n);
        prev = link (link m.prev n (some (final h xs))) (head_or ys h) (some n);
      },
      rw (==_refl n, front, apart) refl,
      inserted-Rings m h xs n ys r f,
    )

-- dtq_del takes a node out of its list from any place, without the list's head, and keeps the others
-- in their order.
pub dtq_del-Rings :
    (m : Memory) (h : ℕ) (xs : List ℕ) (n : ℕ) (ys : List ℕ)
    → Rings m h (xs ++ (n ∷ ys))
    → (m' : Memory) × (dtq_del m n ≡ ok m') × Rings m' h (xs ++ ys)
unfolding dtq_del
dtq_del-Rings m h xs n ys r =
    let front = Backward-final m.prev h xs (n ∷ ys) h r.backward in
    let behind = Forward-next m.next h xs n ys h r.forward in
    let head : (h == n) ≡ false = ground (arith, Fresh-at h xs n ys r.distinct.0) in
    let apart = final-Fresh n h xs (head, Fresh-front xs n ys r.distinct.1) in
    (
      record {
        next = link m.next (final h xs) (some (head_or ys h));
        prev = link m.prev (head_or ys h) (some (final h xs));
      },
      rw (front, apart, behind) refl,
      record {
        forward = Forward-removed m.next h xs n ys h r.forward r.distinct;
        backward = Backward-removed m.prev h xs n ys h r.backward r.distinct.1 r.distinct.0;
        distinct = Distinct-skip (h ∷ xs) n ys r.distinct;
      },
    )

-- dtq_add_head puts a node that is not in the list, and is not its head, in front of the others.
pub dtq_add_head-Rings :
    (m : Memory) (h : ℕ) (xs : List ℕ) (n : ℕ)
    → Rings m h xs
    → Fresh n (h ∷ xs)
    → (m' : Memory) × (dtq_add_head m h n ≡ ok m') × Rings m' h (n ∷ xs)
unfolding dtq_add_head
dtq_add_head-Rings m h xs n r f = add_after-Rings m h [] n xs r f

-- dtq_add_tail puts a node that is not in the list, and is not its head, behind the others.
pub dtq_add_tail-Rings :
    (m : Memory) (h : ℕ) (xs : List ℕ) (n : ℕ)
    → Rings m h xs
    → Fresh n (h ∷ xs)
    → (m' : Memory) × (dtq_add_tail m h n ≡ ok m') × Rings m' h (xs ++ (n ∷ []))
unfolding dtq_add_tail
dtq_add_tail-Rings m h xs n r f =
    add_before-Rings m h xs n [] (subst (λ z. Rings m h z) (sym (append-nil xs)) r)
      (subst (λ z. Fresh n (h ∷ z)) (sym (append-nil xs)) f)

-- dta_del_head takes the first node out and returns it.
pub dta_del_head-Rings :
    (m : Memory) (h : ℕ) (x : ℕ) (xs : List ℕ)
    → Rings m h (x ∷ xs)
    → (m' : Memory) × (dta_del_head m h ≡ ok (some x, m')) × Rings m' h xs
unfolding dta_del_head dtq_is_end dtq_is_empty dtq_first del_node
dta_del_head-Rings m h x xs r =
    let apart : (x == h) ≡ false = r.distinct.0.0 in
    let (m', e, r') = dtq_del-Rings m h [] x xs r in
    (m', rw (r.forward.0, apart, apart, e) refl, r')

Backward-last :
    (prev : ℕ → Option ℕ) (a : ℕ) (xs : List ℕ) (x b : ℕ)
    → Backward prev a (xs ++ (x ∷ [])) b
    → prev b ≡ some x
Backward-last prev a [] x b c = c.1
Backward-last prev a (y ∷ xs) x b c = Backward-last prev y xs x b c.1

first-apart :
    (h : ℕ) (xs : List ℕ) (x : ℕ)
    → Fresh h (xs ++ (x ∷ []))
    → (head_or (xs ++ (x ∷ [])) h == h) ≡ false
first-apart h [] x f = f.0
first-apart h (y ∷ xs) x f = f.0

-- dtq_del_tail takes the last node out and returns it.
pub dtq_del_tail-Rings :
    (m : Memory) (h : ℕ) (xs : List ℕ) (x : ℕ)
    → Rings m h (xs ++ (x ∷ []))
    → (m' : Memory) × (dtq_del_tail m h ≡ ok (some x, m')) × Rings m' h xs
unfolding dtq_del_tail dtq_is_end dtq_is_empty dtq_last del_node
dtq_del_tail-Rings m h xs x r =
    let back = Backward-last m.prev h xs x h r.backward in
    let front = Forward-final m.next h [] (xs ++ (x ∷ [])) h r.forward in
    let apart = first-apart h xs x r.distinct.0 in
    let end : (x == h) ≡ false = Fresh-at h xs x [] r.distinct.0 in
    let (m', e, r') = dtq_del-Rings m h xs x [] r in
    (m', rw (back, front, apart, end, end, e) refl, subst (λ z. Rings m' h z) (append-nil xs) r')

empty-is_empty : (m : Memory) (h : ℕ) → Rings m h [] → dtq_is_empty m h ≡ true
unfolding dtq_is_empty
empty-is_empty m h r = rw (r.forward, ==_refl h) refl

-- Both ends of an empty list give NULL and leave the list as it is.
pub dta_del_head-empty :
    (m : Memory) (h : ℕ)
    → Rings m h []
    → (dta_del_head m h ≡ ok (none, m)) × (dtq_del_tail m h ≡ ok (none, m))
unfolding dta_del_head dtq_del_tail dtq_is_end del_node
dta_del_head-empty m h r = let e = empty-is_empty m h r in (rw e refl, rw e refl)

-- dtq_init makes an empty list of a head.
pub dtq_init-Rings : (m : Memory) (h : ℕ) → Rings (dtq_init m h) h []
unfolding dtq_init
dtq_init-Rings m h = record {
  forward = rw (==_refl h) refl;
  backward = rw (==_refl h) refl;
  distinct = (tt, tt);
}
