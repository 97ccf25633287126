-- ===== src/Sl/Contents.antt =====
-- The operations of the list `sl` of include/list.h against the sequence of its nodes.
use cc_utils.Base.{
  ℕ, ◌<◌, ◌≡◌, refl, sym, subst, Option, none, some, List, [], ◌∷◌, ◌++◌, append-nil, arith, length,
  length-append,
}
use cc_utils.Base.Outcome.{ok}
use cc_utils.Nodes.Chain.{Chain, Fresh, Distinct}
use cc_utils.Nodes.Walk.{
  last_or, final, last_or-final, prev_of-member, prev_of-absent, end_of-Chain, LeavesOthers,
  free_nodes-Chain, Chain-unlink, next-final, Chain-join, Distinct-skip, Fresh-front,
}
use cc_utils.Sl.{
  SlList, take_first, take_after, sl_del_head, sl_del_after, sl_del, join, sl_append, sl_free_all,
}

-- The list is these nodes, each once, in this order.
pub record Lists (l : SlList) (xs : List ℕ) : Type 0 where
  pub chain : Chain l.next l.first xs
  pub distinct : Distinct xs

-- What is taken out behind the last of `xs`.
del_after-Lists :
    (l : SlList) (xs : List ℕ) (n : ℕ) (ys : List ℕ)
    → Lists l (xs ++ (n ∷ ys))
    → Lists (sl_del_after l (last_or none xs)).1 (xs ++ ys)
unfolding sl_del_after sl_del_head take_first take_after
del_after-Lists l [] n ys h =
    subst (λ o. Lists (take_first l o).1 ys) (sym h.chain.0)
      (record { chain = h.chain.1; distinct = h.distinct.1 })
del_after-Lists l (x ∷ xs) n ys h =
    subst (λ o. Lists (sl_del_after l o).1 (x ∷ xs ++ ys)) (sym (last_or-final x xs))
      (subst (λ o. Lists (take_after l (final x xs) o).1 (x ∷ xs ++ ys))
        (sym (next-final l.next x xs n ys h.chain.1))
        (record {
          chain = (h.chain.0, Chain-unlink l.next x xs n ys h.chain.1 h.distinct);
          distinct = Distinct-skip (x ∷ xs) n ys h.distinct;
        }))

-- sl_del takes a node of the list out and keeps the others in their order. It ends, in no more
-- rounds than the list has nodes and one.
pub sl_del-Lists :
    (fuel : ℕ) (l : SlList) (xs : List ℕ) (n : ℕ) (ys : List ℕ)
    → Lists l (xs ++ (n ∷ ys))
    → length (xs ++ (n ∷ ys)) < fuel
    → (l' : SlList) × (sl_del fuel l n ≡ ok l') × Lists l' (xs ++ ys)
unfolding sl_del
sl_del-Lists fuel l xs n ys h enough =
    let found =
      prev_of-member fuel l.next l.first none xs n ys h.chain (Fresh-front xs n ys h.distinct)
        (omega (arith, length-append xs (n ∷ ys))) in
    ((sl_del_after l (last_or none xs)).1, rw found refl, del_after-Lists l xs n ys h)

-- sl_del leaves a list that the node is not in as it is.
pub sl_del-absent :
    (fuel : ℕ) (l : SlList) (xs : List ℕ) (n : ℕ)
    → Lists l xs
    → Fresh n xs
    → length xs < fuel
    → sl_del fuel l n ≡ ok l
unfolding sl_del
sl_del-absent fuel l xs n h f enough =
    rw (prev_of-absent fuel l.next l.first none xs n h.chain f enough) refl

-- sl_append puts the nodes of the other list behind those of the first, and leaves the other list
-- empty. The lists share no node, and the walk takes no more rounds than the first has nodes and
-- one.
pub sl_append-Lists :
    (fuel : ℕ) (dest : SlList) (src : Option ℕ) (xs ys : List ℕ)
    → Chain dest.next dest.first xs
    → Chain dest.next src ys
    → Distinct (xs ++ ys)
    → length xs < fuel
    → (dest' : SlList) × (sl_append fuel dest src ≡ ok (dest', none)) × Lists dest' (xs ++ ys)
unfolding sl_append
sl_append-Lists fuel dest none xs [] c c' d enough = (
  dest,
  refl,
  record {
    chain = subst (λ z. Chain dest.next dest.first z) (sym (append-nil xs)) c;
    distinct = d;
  },
)
sl_append-Lists fuel dest none xs (y ∷ ys) c c' d enough = let no = c'.0 in cc
sl_append-Lists fuel dest (some s) [] ys c c' d enough = (
  record dest { first = some s },
  rw (end_of-Chain fuel dest.next dest.first none [] c enough) refl,
  record { chain = c'; distinct = d },
)
sl_append-Lists fuel dest (some s) (x ∷ xs) ys c c' d enough = (
  join dest (some (final x xs)) (some s),
  rw (end_of-Chain fuel dest.next dest.first none (x ∷ xs) c enough, last_or-final x xs) refl,
  record { chain = (c.0, Chain-join dest.next x xs (some s) ys c.1 c' d); distinct = d },
)

-- sl_free_all calls `free_node` once for each node of the list, in their order, and leaves the list
-- empty, whatever a call does to the node that it is given; it leaves the other nodes as they are.
pub sl_free_all-Lists :
    (free_node : (ℕ → Option ℕ) → ℕ → ℕ → Option ℕ) (fuel : ℕ) (l : SlList) (xs : List ℕ)
    → LeavesOthers free_node
    → Lists l xs
    → length xs < fuel
    → (l' : SlList) × (sl_free_all free_node fuel l ≡ ok (l', xs)) × Lists l' []
unfolding sl_free_all
sl_free_all-Lists free_node fuel l xs others h enough =
    let (next, e) =
      free_nodes-Chain free_node fuel l.next l.first xs [] others h.chain h.distinct enough in
    (record { first = none; next = next }, rw e refl, record { chain = refl; distinct = tt })
