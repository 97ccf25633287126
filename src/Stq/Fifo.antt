-- ===== src/Stq/Fifo.antt =====
-- The tail queue of include/list.h is a first-in, first-out queue of its nodes.
use cc_utils.Base.{ℕ, ◌≡◌, refl, ◌∙◌, sym, some, List, [], ◌∷◌, ◌++◌, ==_refl, subst}
use cc_utils.Nodes.Chain.{
  Chain, Fresh, Distinct, last_of, Chain-link, Distinct-snoc, last_of-snoc, some_last, Chain-snoc,
}
use cc_utils.Stq.{Queue, stq_add_head, del_first, stq_del_head, add_last, stq_add_tail}

-- The queue holds these nodes, each once, from the first to the last.
pub record Holds (q : Queue) (xs : List ℕ) : Type 0 where
  pub chain : Chain q.next q.first xs
  pub last : q.last ≡ last_of xs
  pub distinct : Distinct xs

-- stq_add_head puts a node that is not in the queue in front of the others.
pub stq_add_head-Holds :
    (q : Queue) (xs : List ℕ) (node : ℕ)
    → Holds q xs
    → Fresh node xs
    → Holds (stq_add_head q node) (node ∷ xs)
unfolding stq_add_head
stq_add_head-Holds q [] node h fresh = record {
  chain = (refl, rw (==_refl node) h.chain);
  last = rw h.last refl;
  distinct = (tt, tt);
}
stq_add_head-Holds q (x ∷ xs) node h fresh =
    let (l, e) = some_last x xs in
    record {
      chain =
          (refl, rw (==_refl node) (Chain-link q.next node q.first q.first (x ∷ xs) fresh h.chain));
      last = rw (h.last ∙ e) (sym e);
      distinct = (fresh, h.distinct);
    }

pub del_first-Holds :
    (q : Queue) (x : ℕ) (xs : List ℕ)
    → Holds q (x ∷ xs)
    → ((del_first q (some x)).0 ≡ some x) × Holds (del_first q (some x)).1 xs
unfolding del_first
del_first-Holds q x [] h =
    (refl, record { chain = h.chain.1; last = rw h.chain.1 refl; distinct = tt })
del_first-Holds q x (y ∷ ys) h =
    (refl, record { chain = h.chain.1; last = rw h.chain.1.0 h.last; distinct = h.distinct.1 })

-- stq_del_head of a queue with a node takes the first node out and returns it, and the others stay
-- in their order.
pub stq_del_head-Holds :
    (q : Queue) (x : ℕ) (xs : List ℕ)
    → Holds q (x ∷ xs)
    → ((stq_del_head q).0 ≡ some x) × Holds (stq_del_head q).1 xs
unfolding stq_del_head
stq_del_head-Holds q x xs h =
    subst (λ o. ((del_first q o).0 ≡ some x) × Holds (del_first q o).1 xs) (sym h.chain.0)
      (del_first-Holds q x xs h)

-- stq_add_tail puts a node that is not in the queue behind the others.
pub stq_add_tail-Holds :
    (q : Queue) (xs : List ℕ) (node : ℕ)
    → Holds q xs
    → Fresh node xs
    → Holds (stq_add_tail q node) (xs ++ (node ∷ []))
unfolding stq_add_tail add_last
stq_add_tail-Holds q [] node h fresh =
    subst (λ o. Holds (add_last q node o) (node ∷ [])) (sym h.last)
      (record { chain = (refl, rw (==_refl node) refl); last = refl; distinct = (tt, tt) })
stq_add_tail-Holds q (x ∷ xs) node h fresh =
    let (l, e) = some_last x xs in
    subst (λ o. Holds (add_last q node o) (x ∷ xs ++ (node ∷ []))) (sym (h.last ∙ e))
      (record {
        chain = Chain-snoc q.next node q.first x xs l h.chain e h.distinct fresh;
        last = sym (last_of-snoc (x ∷ xs) node);
        distinct = Distinct-snoc (x ∷ xs) node h.distinct fresh;
      })
