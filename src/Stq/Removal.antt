-- ===== src/Stq/Removal.antt =====
-- stq_del, stq_append and stq_free_all of include/list.h against the sequence of the nodes.
use cc_utils.Base.{
  ℕ, ◌<◌, ◌≡◌, refl, ap, ◌∙◌, sym, subst, false, Option, none, some, List, [], ◌∷◌, ◌++◌,
  append-nil, ◌==◌, if◌then◌else◌, arith, ==_refl, length, length-append,
}
use cc_utils.Base.Outcome.{ok}
use cc_utils.Nodes.{same_node}
use cc_utils.Nodes.Chain.{Chain, Fresh, Distinct, last_of, last-apart, some_last}
use cc_utils.Nodes.Walk.{
  last_or, final, last_or-final, prev_of-member, prev_of-absent, end_of-Chain, LeavesOthers,
  free_nodes-Chain, Chain-unlink, next-final, Chain-join, Distinct-skip, Fresh-front,
}
use cc_utils.Stq.{
  Queue, del_first, stq_del_head, take_after, stq_del_after, stq_del, Ends, join, stq_append,
  stq_free_all,
}
use cc_utils.Stq.Fifo.{Holds, stq_del_head-Holds}

last_of-append : (xs : List ℕ) (y : ℕ) (ys : List ℕ) → last_of (xs ++ (y ∷ ys)) ≡ last_of (y ∷ ys)
last_of-append [] y ys = refl
last_of-append (x ∷ []) y ys = refl
last_of-append (x ∷ x' ∷ xs) y ys = last_of-append (x' ∷ xs) y ys

last_of-final : (x : ℕ) (xs : List ℕ) → last_of (x ∷ xs) ≡ some (final x xs)
last_of-final x [] = refl
last_of-final x (y ∷ xs) = last_of-final y xs

Distinct-right : (xs ys : List ℕ) → Distinct (xs ++ ys) → Distinct ys
Distinct-right [] ys d = d
Distinct-right (x ∷ xs) ys d = Distinct-right xs ys d.1

-- `last` behind the removal of `n`.
last_of-removed :
    (x : ℕ) (xs : List ℕ) (n : ℕ) (ys : List ℕ) (l : Option ℕ)
    → l ≡ last_of (x ∷ xs ++ (n ∷ ys))
    → Distinct (n ∷ ys)
    → (if same_node l (some n) then some (final x xs) else l) ≡ last_of (x ∷ xs ++ ys)
last_of-removed x xs n [] l h d =
    rw (h, last_of-append (x ∷ xs) n [], ==_refl n)
      (sym (last_of-final x xs) ∙ ap last_of (sym (append-nil (x ∷ xs))))
last_of-removed x xs n (y ∷ ys) l h d =
    let (m, e) = some_last y ys in
    let apart : (m == n) ≡ false = ground (arith, last-apart n y ys m d.0 e) in
    rw (h, last_of-append (x ∷ xs) n (y ∷ ys), e, apart) (sym (last_of-append (x ∷ xs) y ys ∙ e))

del_after-Holds :
    (q : Queue) (xs : List ℕ) (n : ℕ) (ys : List ℕ)
    → Holds q (xs ++ (n ∷ ys))
    → Holds (stq_del_after q (last_or none xs)).1 (xs ++ ys)
unfolding stq_del_after take_after
del_after-Holds q [] n ys h = (stq_del_head-Holds q n ys h).1
del_after-Holds q (x ∷ xs) n ys h =
    subst (λ o. Holds (stq_del_after q o).1 (x ∷ xs ++ ys)) (sym (last_or-final x xs))
      (subst (λ o. Holds (take_after q (final x xs) o).1 (x ∷ xs ++ ys))
        (sym (next-final q.next x xs n ys h.chain.1))
        (record {
          chain = (h.chain.0, Chain-unlink q.next x xs n ys h.chain.1 h.distinct);
          last =
              last_of-removed x xs n ys q.last h.last (Distinct-right (x ∷ xs) (n ∷ ys) h.distinct);
          distinct = Distinct-skip (x ∷ xs) n ys h.distinct;
        }))

-- stq_del takes a node out of the queue from any place, and keeps the others in their order and
-- `last` at the last of them. It ends, in no more rounds than the queue has nodes and one.
pub stq_del-Holds :
    (fuel : ℕ) (q : Queue) (xs : List ℕ) (n : ℕ) (ys : List ℕ)
    → Holds q (xs ++ (n ∷ ys))
    → length (xs ++ (n ∷ ys)) < fuel
    → (q' : Queue) × (stq_del fuel q n ≡ ok q') × Holds q' (xs ++ ys)
unfolding stq_del
stq_del-Holds fuel q xs n ys h enough =
    let found =
      prev_of-member fuel q.next q.first none xs n ys h.chain (Fresh-front xs n ys h.distinct)
        (omega (arith, length-append xs (n ∷ ys))) in
    ((stq_del_after q (last_or none xs)).1, rw found refl, del_after-Holds q xs n ys h)

join-Holds :
    (dest : Queue) (src : Ends) (xs : List ℕ) (y : ℕ) (ys : List ℕ)
    → Holds dest xs
    → Chain dest.next src.first (y ∷ ys)
    → src.last ≡ last_of (y ∷ ys)
    → Distinct (xs ++ (y ∷ ys))
    → Holds (join dest (last_or none xs) src) (xs ++ (y ∷ ys))
join-Holds dest src [] y ys h c l d = record { chain = c; last = l; distinct = d }
join-Holds dest src (x ∷ xs) y ys h c l d =
    subst (λ o. Holds (join dest o src) (x ∷ xs ++ (y ∷ ys))) (sym (last_or-final x xs))
      (record {
        chain = (h.chain.0, Chain-join dest.next x xs src.first (y ∷ ys) h.chain.1 c d);
        last = l ∙ sym (last_of-append (x ∷ xs) y ys);
        distinct = d;
      })

-- stq_append puts the nodes of the other queue behind those of the first, `last` at the last of them
-- all, and leaves the other queue empty. The queues share no node.
pub stq_append-Holds :
    (fuel : ℕ) (dest : Queue) (src : Ends) (xs ys : List ℕ)
    → Holds dest xs
    → Chain dest.next src.first ys
    → src.last ≡ last_of ys
    → Distinct (xs ++ ys)
    → length xs < fuel
    → (dest' : Queue) × (stq_append fuel dest src
        ≡ ok (dest', record { first = none; last = none }))
      × Holds dest' (xs ++ ys)
unfolding stq_append
stq_append-Holds fuel dest src xs [] h c l d enough =
    (dest, rw (c, l) refl, subst (λ z. Holds dest z) (sym (append-nil xs)) h)
stq_append-Holds fuel dest src xs (y ∷ ys) h c l d enough = (
  join dest (last_or none xs) src,
  rw (ap (λ o. same_node o none) c.0, end_of-Chain fuel dest.next dest.first none xs h.chain enough)
      refl,
  join-Holds dest src xs y ys h c l d,
)

-- stq_free_all calls `free_node` once for each node of the queue, in their order, and leaves the
-- queue empty, where a call leaves the other nodes as they are.
pub stq_free_all-Holds :
    (free_node : (ℕ → Option ℕ) → ℕ → ℕ → Option ℕ) (fuel : ℕ) (q : Queue) (xs : List ℕ)
    → LeavesOthers free_node
    → Holds q xs
    → length xs < fuel
    → (q' : Queue) × (stq_free_all free_node fuel q ≡ ok (q', xs)) × Holds q' []
unfolding stq_free_all
stq_free_all-Holds free_node fuel q xs others h enough =
    let (next, e) =
      free_nodes-Chain free_node fuel q.next q.first xs [] others h.chain h.distinct enough in
    (
      record { first = none; last = none; next = next },
      rw e refl,
      record { chain = refl; last = refl; distinct = tt },
    )

pub stq_del-absent :
    (fuel : ℕ) (q : Queue) (xs : List ℕ) (n : ℕ)
    → Holds q xs
    → Fresh n xs
    → length xs < fuel
    → stq_del fuel q n ≡ ok q
unfolding stq_del
stq_del-absent fuel q xs n h f enough =
    rw (prev_of-absent fuel q.next q.first none xs n h.chain f enough) refl

pub stq_del_head-empty :
    (q : Queue) → Holds q [] → ((stq_del_head q).0 ≡ none) × Holds (stq_del_head q).1 []
unfolding stq_del_head del_first
stq_del_head-empty q h =
    subst (λ o. ((del_first q o).0 ≡ none) × Holds (del_first q o).1 []) (sym h.chain)
      (refl, record { chain = h.chain; last = refl; distinct = tt })
