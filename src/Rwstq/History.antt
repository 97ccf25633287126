-- ===== src/Rwstq/History.antt =====
-- A queue that threads share through `rwstq` of include/list.h holds what its operations give one
-- after another.
use cc_utils.Base.{
  All, ◌∙◌, ℕ, ◌+◌, ◌≤◌, ◌≡◌, refl, ap, sym, subst, true, false, Option, none, some, List, [], ◌∷◌,
  ◌++◌, arith, ◌==◌, if◌then◌else◌, length, Bool-cases, inl, inr, ◌⊎◌,
}
use cc_utils.Base.Outcome.{ok}
use cc_utils.Nodes.{same_node, prev_of, free_nodes}
use cc_utils.Nodes.Chain.{Fresh}
use cc_utils.Nodes.Rounds.{>>=_more, prev_of-more, free_nodes-more, same_result}
use cc_utils.Nodes.Walk.{LeavesOthers}
use cc_utils.Stq.{
  Queue, stq_is_empty, stq_add_head, stq_add_tail, stq_del_head, stq_del, del_found, stq_free_all,
}
use cc_utils.Stq.Fifo.{Holds, stq_add_head-Holds, stq_add_tail-Holds, stq_del_head-Holds}
use cc_utils.Stq.Removal.{stq_del-Holds, stq_del-absent, stq_del_head-empty, stq_free_all-Holds}
use cc_utils.Locked.{
  RwLock, Answer, nothing, truth, node, Pc, Shared, Move, Obliges, read_refused, write_refused,
  begin, end_read, end_write, read_lock, read_unlock, write_lock, write_unlock, System, Step, pick,
  Reach, here, later,
}
use cc_utils.Locked.Safety.{Quiet}
use cc_utils.Locked.Current.{IsCurrent, All-middle, Reach-IsCurrent}
use cc_utils.Rwstq.{
  run-reader, Op, is_empty, add_head, add_tail, del_head, del, free_all, run, rwstq,
}

-- The operations on a sequence of nodes.
abbrev pub remove : ℕ → List ℕ → List ℕ
remove n [] = []
remove n (x ∷ xs) = let rest = remove n xs in if x == n then xs else x ∷ rest

abbrev pub apply : Op → List ℕ → Answer × List ℕ
apply is_empty [] = (truth true, [])
apply is_empty (x ∷ xs) = (truth false, x ∷ xs)
apply (add_head n) xs = (nothing, n ∷ xs)
apply del_head [] = (node none, [])
apply del_head (x ∷ xs) = (node (some x), xs)
apply (add_tail n) xs = (nothing, xs ++ (n ∷ []))
apply (del n) xs = (nothing, remove n xs)
apply free_all xs = (nothing, [])

-- A node that is added is not in the queue.
abbrev pub Allowed : Op → List ℕ → Type 0
Allowed (add_head n) xs = Fresh n xs
Allowed (add_tail n) xs = Fresh n xs
Allowed _ xs = Unit {0}

abbrev pub replay : List (Op × Answer) → List ℕ → List ℕ
replay [] xs = xs
replay (event ∷ events) xs = replay events (apply event.0 xs).1

abbrev pub Legal : List (Op × Answer) → List ℕ → Type 0
Legal [] xs = Unit {0}
Legal (event ∷ events) xs = Allowed event.0 xs × Legal events (apply event.0 xs).1

-- Each operation returned what it returns on the sequence.
abbrev pub Answered : List (Op × Answer) → List ℕ → Type 0
Answered [] xs = Unit {0}
Answered (event ∷ events) xs =
    (event.1 ≡ (apply event.0 xs).0) × Answered events (apply event.0 xs).1

run-more :
    (free_node : (ℕ → Option ℕ) → ℕ → ℕ → Option ℕ) (op : Op) (fuel m : ℕ) (q : Queue)
    (r : Answer × Queue)
    → fuel ≤ m
    → run free_node fuel op q ≡ ok r
    → run free_node m op q ≡ ok r
unfolding run stq_del stq_free_all
run-more free_node is_empty fuel m q r le h = h
run-more free_node (add_head n) fuel m q r le h = h
run-more free_node del_head fuel m q r le h = h
run-more free_node (add_tail n) fuel m q r le h = h
run-more free_node (del n) fuel m q r le h =
    >>=_more (stq_del fuel q n) (stq_del m q n) (λ q. ok (nothing, q)) r
      (λ s.
        >>=_more (prev_of fuel q.next q.first none n) (prev_of m q.next q.first none n)
          (λ found. ok (del_found q found)) s
          (λ found. prev_of-more fuel m q.next q.first none n found le))
      h
run-more free_node free_all fuel m q r le h =
    >>=_more (stq_free_all free_node fuel q) (stq_free_all free_node m q)
      (λ (q, freed). ok (nothing, q)) r
      (λ s.
        >>=_more (free_nodes free_node fuel q.next q.first [])
          (free_nodes free_node m q.next q.first [])
          (λ (next, freed). ok (record { first = none; last = none; next = next }, freed)) s
          (λ t. free_nodes-more free_node fuel m q.next q.first [] t le))
      h

-- Where a node stands in a list, if it does.
remove-cases :
    (n : ℕ) (xs : List ℕ)
    → (Fresh n xs × (remove n xs ≡ xs))
      ⊎ ((ys : List ℕ) × (zs : List ℕ) × (xs ≡ ys ++ (n ∷ zs)) × (remove n xs ≡ ys ++ zs))
remove-cases n [] = inl (tt, refl)
remove-cases n (x ∷ xs) = elim (Bool-cases (x == n)) [
  | inl e ↦ inr ([], xs, ap (λ z. z ∷ xs) (ground (arith, e)), rw e refl)
  | inr e ↦ elim (remove-cases n xs) [
    | inl (f, same) ↦ inl ((e, f), rw (e, same) refl)
    | inr (ys, zs, split, gone) ↦ inr (x ∷ ys, zs, ap (λ l. x ∷ l) split, rw (e, gone) refl)
  ]
]

-- With enough rounds an operation ends, and returns and does what it does on the sequence.
run-enough :
    (free_node : (ℕ → Option ℕ) → ℕ → ℕ → Option ℕ) (op : Op) (q : Queue) (xs : List ℕ)
    → LeavesOthers free_node
    → Allowed op xs
    → Holds q xs
    → (r : Queue) × (run free_node (length xs + 1) op q ≡ ok ((apply op xs).0, r))
      × Holds r (apply op xs).1
unfolding run stq_is_empty
run-enough free_node is_empty q [] others a h =
    (q, ap (λ o. ok (truth (same_node o none), q)) h.chain, h)
run-enough free_node is_empty q (x ∷ xs) others a h =
    (q, ap (λ o. ok (truth (same_node o none), q)) h.chain.0, h)
run-enough free_node (add_head n) q xs others a h =
    (stq_add_head q n, refl, stq_add_head-Holds q xs n h a)
run-enough free_node (add_tail n) q xs others a h =
    (stq_add_tail q n, refl, stq_add_tail-Holds q xs n h a)
run-enough free_node del_head q [] others a h =
    let (taken, h') = stq_del_head-empty q h in
    ((stq_del_head q).1, ap (λ o. ok (node o, (stq_del_head q).1)) taken, h')
run-enough free_node del_head q (x ∷ xs) others a h =
    let (first, h') = stq_del_head-Holds q x xs h in
    ((stq_del_head q).1, ap (λ o. ok (node o, (stq_del_head q).1)) first, h')
run-enough free_node (del n) q xs others a h = elim (remove-cases n xs) [
  | inl (f, same) ↦ (
    q,
    rw (stq_del-absent (length xs + 1) q xs n h f (omega arith)) refl,
    subst (Holds q) (sym same) h,
  )
  | inr (ys, zs, split, gone) ↦
      let (r, e, h') =
        stq_del-Holds (length xs + 1) q ys n zs (subst (Holds q) split h)
          (omega (arith, ap length split)) in
      (r, rw e refl, subst (Holds r) (sym gone) h')
]
run-enough free_node free_all q xs others a h =
    let (r, e, h') = stq_free_all-Holds free_node (length xs + 1) q xs others h (omega arith) in
    (r, rw e refl, h')

run-Holds :
    (free_node : (ℕ → Option ℕ) → ℕ → ℕ → Option ℕ) (op : Op) (fuel : ℕ) (q r : Queue)
    (answer : Answer) (xs : List ℕ)
    → LeavesOthers free_node
    → Allowed op xs
    → Holds q xs
    → run free_node fuel op q ≡ ok (answer, r)
    → (answer ≡ (apply op xs).0) × Holds r (apply op xs).1
run-Holds free_node op fuel q r answer xs others a h e =
    let (r', e', h') = run-enough free_node op q xs others a h in
    let m = fuel + (length xs + 1) in
    let same =
      same_result (run-more free_node op (length xs + 1) m q ((apply op xs).0, r') (omega arith) e')
        (run-more free_node op fuel m q (answer, r) (omega arith) e) in
    (sym (ap (λ p. p.0) same), subst (λ z. Holds z (apply op xs).1) (ap (λ p. p.1) same) h')

replay-append :
    (events more : List (Op × Answer)) (xs : List ℕ)
    → replay (events ++ more) xs ≡ replay more (replay events xs)
replay-append [] more xs = refl
replay-append (event ∷ events) more xs = replay-append events more (apply event.0 xs).1

Legal-split :
    (events more : List (Op × Answer)) (xs : List ℕ)
    → Legal (events ++ more) xs
    → Legal events xs × Legal more (replay events xs)
Legal-split [] more xs l = (tt, l)
Legal-split (event ∷ events) more xs (a, l) =
    let (l, l') = Legal-split events more (apply event.0 xs).1 l in ((a, l), l')

Answered-join :
    (events more : List (Op × Answer)) (xs : List ℕ)
    → Answered events xs
    → Answered more (replay events xs)
    → Answered (events ++ more) xs
Answered-join [] more xs l l' = l'
Answered-join (event ∷ events) more xs (a, l) l' =
    (a, Answered-join events more (apply event.0 xs).1 l l')

module _ (lock : RwLock) (obliges : Obliges lock) (free_node : (ℕ → Option ℕ) → ℕ → ℕ → Option ℕ)
    (others : LeavesOthers free_node) where
  Move-Holds :
      {m m' : Shared lock (rwstq free_node)} {p p' : Pc Op Queue} {events : List (Op × Answer)}
      (xs : List ℕ)
      → Move lock (rwstq free_node) m p events m' p'
      → IsCurrent lock (rwstq free_node) m.value p
      → Legal events xs
      → Holds m.value xs
      → Answered events xs × Holds m'.value (replay events xs)
  Move-Holds xs (read_lock op held e got) now l h = (tt, h)
  Move-Holds xs (write_lock op held e got) now l h = (tt, h)
  Move-Holds xs (read_refused op held e got) now l h = (tt, h)
  Move-Holds xs (write_refused op held e got) now l h = (tt, h)
  Move-Holds xs (begin op) now l h = (tt, h)
  Move-Holds {m} xs (end_read op fuel v value answer e done) now l h =
      let same = run-reader free_node fuel op v value answer e done in
      let (a, h') =
        run-Holds free_node op fuel v value answer xs others l.0
          (subst (λ v. Holds v xs) (sym now) h) done in
      ((a, tt), subst (λ v. Holds v (apply op xs).1) (same ∙ now) h')
  Move-Holds xs (end_write op fuel v value answer e done) now l h =
      let (a, h') =
        run-Holds free_node op fuel v value answer xs others l.0
          (subst (λ v. Holds v xs) (sym now) h) done in
      ((a, tt), h')
  Move-Holds xs (read_unlock op e) now l h = (tt, h)
  Move-Holds xs (write_unlock op e) now l h = (tt, h)

  Step-Holds :
      {s t : System lock (rwstq free_node)} {events : List (Op × Answer)} (xs : List ℕ)
      → Step lock (rwstq free_node) s events t
      → All (IsCurrent lock (rwstq free_node) s.shared.value) s.threads
      → Legal events xs
      → Holds s.shared.value xs
      → Answered events xs × Holds t.shared.value (replay events xs)
  Step-Holds {s} xs (pick before p after events m p' e mv) now l h =
      Move-Holds xs mv
        (All-middle (IsCurrent lock (rwstq free_node) s.shared.value) before p after
          (subst (All (IsCurrent lock (rwstq free_node) s.shared.value)) e now)).1
        l h

  -- However the calls of the threads interleave, though an operation takes its time and works on the queue
  -- as it found it: from a state where no thread is inside, what the calls returned, and what the queue
  -- holds at any time, is what the operations give on a sequence of nodes, one after another in the order
  -- in which they ended. The lock refuses no caller, a node is added only where it is not in the queue, and
  -- `free_node` leaves the other nodes as they are.
  pub Reach-Holds :
      {s t : System lock (rwstq free_node)} {events : List (Op × Answer)} (xs : List ℕ)
      → Quiet lock (rwstq free_node) s
      → Reach lock (rwstq free_node) s events t
      → Legal events xs
      → Holds s.shared.value xs
      → Answered events xs × Holds t.shared.value (replay events xs)
  Reach-Holds xs q here l h = (tt, h)
  Reach-Holds xs q (later {t} {u} {events} {more} r st) l h =
      let (l, l') = Legal-split events more xs l in
      let (a, h) = Reach-Holds xs q r l h in
      let now = Reach-IsCurrent lock (rwstq free_node) obliges q r in
      let (a', h) = Step-Holds (replay events xs) st now l' h in
      (
        Answered-join events more xs a a',
        subst (Holds u.shared.value) (sym (replay-append events more xs)) h,
      )
