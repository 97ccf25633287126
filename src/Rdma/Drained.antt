-- ===== src/Rdma/Drained.antt =====
-- What handle_client_cm_request of src/rdma_verbs.c receives.
use cc_utils.Base.{
  ℕ, zero, suc, ◌<◌, ◌≤◌, ◌≡◌, refl, ap, sym, ◌∙◌, Bool, true, false, Bool-cases, subst, ◌⊎◌, inl,
  inr, some, List, [], ◌∷◌, ◌++◌, append_assoc, append-nil, ◌==◌, ◌&&◌, if◌then◌else◌, length,
  length-append, take, take-append, All, arith,
}
use cc_utils.Base.Outcome.{ok}
use cc_utils.Base.Int.{ℤ, pos}
use cc_utils.Rdma.{Verbs, Sge, Wc, WverbsReq, verbs_create_qp, verbs_mem_alloc}
use cc_utils.Rdma.Requests.{
  eio, cm_params, wc_loop, poll_loop, receive, answer, handle_client_cm_request,
}

-- The completions that wait in a queue, and what ibv_poll_cq is documented to do: it takes the next ones
-- off, at most as many as it is asked for, and none only where none wait. It does not fail.
pub record Completes (verbs : Verbs) : Type 0 where
  pub completions : verbs.State → ℕ → List Wc
  pub polled :
      (s : verbs.State) (cq : ℕ)
      → (n : ℕ) × (wcs : List Wc) × (s' : verbs.State) × (verbs.poll_cq s cq 8 ≡ ((pos n, wcs), s'))
        × (length wcs ≡ n)
        × (n ≤ 8)
        × (completions s cq ≡ wcs ++ completions s' cq)
        × (n ≡ 0 → completions s cq ≡ [])

-- No completion failed.
unfoldable pub all_good : List Wc → Bool
all_good [] = true
all_good (wc ∷ wcs) = wc.status == 0 && all_good wcs

-- The lengths in front of the first completion that failed.
unfoldable pub good_lengths : List Wc → List ℕ
good_lengths [] = []
good_lengths (wc ∷ wcs) =
    let rest = good_lengths wcs in if wc.status == 0 then wc.byte_len ∷ rest else []

-- The completion of the receive that was posted.
abbrev pub IsPosted : Wc → Type 0
IsPosted wc = wc.wr_id ≡ 1

abbrev pub status_of : Bool → ℤ
status_of true = pos 0
status_of false = eio

good_lengths-append :
    (a b : List Wc) → all_good a ≡ true → good_lengths (a ++ b) ≡ good_lengths a ++ good_lengths b
unfolding good_lengths all_good
good_lengths-append [] b h = refl
good_lengths-append (wc ∷ a) b h = elim (Bool-cases (wc.status == 0)) [
  | inl good ↦ rw good (ap (λ l. wc.byte_len ∷ l) (good_lengths-append a b (rw good at h)))
  | inr bad ↦ absurd (cc (rw bad at h))
]

all_good-append : (a b : List Wc) → all_good (a ++ b) ≡ (all_good a && all_good b)
unfolding all_good
all_good-append [] b = refl
all_good-append (wc ∷ a) b = elim (Bool-cases (wc.status == 0)) [
  | inl good ↦ rw good (all_good-append a b)
  | inr bad ↦ rw bad refl
]

-- Behind a completion that failed nothing is received.
good_lengths-failed : (a b : List Wc) → all_good a ≡ false → good_lengths (a ++ b) ≡ good_lengths a
unfolding good_lengths all_good
good_lengths-failed [] b h = absurd cc
good_lengths-failed (wc ∷ a) b h = elim (Bool-cases (wc.status == 0)) [
  | inl good ↦ rw good (ap (λ l. wc.byte_len ∷ l) (good_lengths-failed a b (rw good at h)))
  | inr bad ↦ rw bad refl
]

wc_loop-good_lengths :
    (wcs : List Wc) (received : List ℕ)
    → All IsPosted wcs
    → wc_loop wcs received ≡ ok (all_good wcs, received ++ good_lengths wcs)
unfolding wc_loop good_lengths all_good
wc_loop-good_lengths [] received all = rw (append-nil received) refl
wc_loop-good_lengths (wc ∷ wcs) received (posted, all) = elim (Bool-cases (wc.status == 0)) [
  | inl good ↦
      rw (posted, good)
        (wc_loop-good_lengths wcs (received ++ (wc.byte_len ∷ [])) all
          ∙ ap (λ l. ok (all_good wcs, l))
              (append_assoc received (wc.byte_len ∷ []) (good_lengths wcs)))
  | inr bad ↦ rw (posted, bad) (ap (λ l. ok (false, l)) (sym (append-nil received)))
]

take_whole : {A : Type 0} → (n : ℕ) (xs : List A) → length xs ≡ n → take n xs ≡ xs
take_whole n xs h = ap (take n) (sym (append-nil xs)) ∙ take-append xs [] n (sym h)

All-split : (a b : List Wc) → All IsPosted (a ++ b) → All IsPosted a × All IsPosted b
All-split [] b all = (tt, all)
All-split (wc ∷ a) b (posted, all) =
    let (left, right) = All-split a b all in ((posted, left), right)

all_good_nil : all_good [] ≡ true
unfolding all_good
all_good_nil = refl

no_more : (a b : List Wc) → a ++ b ≡ [] → b ≡ []
no_more [] b h = h
no_more (x ∷ a) b h = absurd cc

zero_or_suc : (n : ℕ) → (n ≡ 0) ⊎ ((k : ℕ) × (n ≡ suc k))
zero_or_suc zero = inl refl
zero_or_suc (suc k) = inr (k, refl)

module _ (verbs : Verbs) (queue : Completes verbs) where
  -- What is left of the completions `wcs` that waited: none, if all are good; what is behind a batch of
  -- at most 8 with one that failed, if only good ones are in front of that batch.
  abbrev pub Drained : verbs.State → ℕ → List Wc → Type 0
  Drained s cq wcs =
      ((all_good wcs ≡ true) × (queue.completions s cq ≡ []))
      ⊎ ((front batch : List Wc) × (wcs ≡ front ++ (batch ++ queue.completions s cq))
          × (all_good front ≡ true)
          × (all_good batch ≡ false)
          × (length batch ≤ 8))

  Drained-behind :
      (s : verbs.State) (cq : ℕ) (got left : List Wc)
      → all_good got ≡ true
      → Drained s cq left
      → Drained s cq (got ++ left)
  Drained-behind s cq got left good (inl (rest, empty)) =
      inl (all_good-append got left ∙ ap (λ b. b && all_good left) good ∙ rest, empty)
  Drained-behind s cq got left good (inr (front, batch, e, fine, bad, few)) = inr (
    got ++ front,
    batch,
    ap (λ l. got ++ l) e ∙ sym (append_assoc got front (batch ++ queue.completions s cq)),
    all_good-append got front ∙ ap (λ b. b && all_good front) good ∙ fine,
    bad,
    few,
  )

  -- The loop over the completion queue comes to its end, and has drained it.
  poll_loop-Drained :
      (fuel : ℕ) (s : verbs.State) (cq : ℕ) (received : List ℕ) (wcs : List Wc)
      → queue.completions s cq ≡ wcs
      → All IsPosted wcs
      → length wcs < fuel
      → (s' : verbs.State) × (poll_loop verbs fuel s cq received
          ≡ ok (status_of (all_good wcs), received ++ good_lengths wcs, s'))
        × Drained s' cq wcs
  unfolding poll_loop all_good good_lengths
  poll_loop-Drained zero s cq received wcs e all enough = absurd (omega arith)
  poll_loop-Drained (suc fuel) s cq received wcs e all enough =
      let (n, got, s₁, polled, count, few, split, over) = queue.polled s cq in
      let left = queue.completions s₁ cq in
      let whole : wcs ≡ got ++ left = sym e ∙ split in
      let (first, later) = All-split got left (subst (All IsPosted) whole all) in
      elim (zero_or_suc n) [
        | inl none_left ↦
            let nothing : wcs ≡ [] = sym e ∙ over none_left in
            let rest_empty : left ≡ [] = no_more got left (sym whole ∙ nothing) in
            (
              s₁,
              rw (polled, none_left, nothing)
                  (ap (λ l. ok (pos 0, l, s₁)) (sym (append-nil received))),
              inl (ap all_good nothing, rest_empty),
            )
        | inr (k, more) ↦
            let taken = take_whole (suc k) got (count ∙ more) in
            let looked = wc_loop-good_lengths got received first in
            let size = ap length whole ∙ length-append got left in
            elim (Bool-cases (all_good got)) [
              | inl good ↦
                  let (s₂, rest, drained) =
                    poll_loop-Drained fuel s₁ cq (received ++ good_lengths got) left refl later
                      (omega arith) in
                  (
                    s₂,
                    rw (polled, more, taken, looked, good)
                        (rest
                          ∙ ap (λ l. ok (status_of (all_good left), l, s₂))
                              (append_assoc received (good_lengths got) (good_lengths left)
                                ∙ ap (λ l. received ++ l) (sym (good_lengths-append got left good)))
                          ∙ ap (λ b. ok (status_of b, received ++ good_lengths (got ++ left), s₂))
                              (sym (all_good-append got left ∙ ap (λ b. b && all_good left) good))
                          ∙ ap (λ w. ok (status_of (all_good w), received ++ good_lengths w, s₂))
                              (sym whole)),
                    subst (Drained s₂ cq) (sym whole) (Drained-behind s₂ cq got left good drained),
                  )
              | inr bad ↦ (
                s₁,
                rw (polled, more, taken, looked, bad)
                    (ap (λ l. ok (eio, received ++ l, s₁)) (sym (good_lengths-failed got left bad))
                      ∙ ap (λ b. ok (status_of b, received ++ good_lengths (got ++ left), s₁))
                          (sym (all_good-append got left ∙ ap (λ b. b && all_good left) bad))
                      ∙ ap (λ w. ok (status_of (all_good w), received ++ good_lengths w, s₁))
                          (sym whole)),
                inr ([], got, whole, all_good_nil, bad, rw count few),
              )
            ]
      ]

  -- A client's request whose queues, memory, receive and accept succeed is handled to its end. Where all of
  -- the completions that wait behind the queue's event are good, they are all taken off it, and 0 is
  -- returned; where one failed, those are taken off up to the end of the batch of at most 8 in which the
  -- first one that failed is, and -EIO is returned. The lengths that were received are those of the good
  -- ones in front of the first that failed, in their order. A completion belongs to the receive that was
  -- posted, and ibv_poll_cq does not fail.
  pub handle_client_cm_request-Drained :
      (fuel : ℕ) (s s₁ s₂ s₃ s₄ s₅ : verbs.State) (stale req : WverbsReq) (cm_id cq : ℕ) (sge : Sge)
      (wcs : List Wc)
      → verbs_create_qp verbs s stale cm_id ≡ (pos 0, req, s₁)
      → verbs_mem_alloc verbs s₁ cm_id 4096 ≡ ok (pos 0, some sge, s₂)
      → verbs.post_recv s₂ cm_id (record { wr_id = 1; sge = sge }) ≡ (pos 0, s₃)
      → verbs.accept s₃ cm_id cm_params ≡ (pos 0, s₄)
      → verbs.get_cq_event s₄ req.channel ≡ (cq, s₅)
      → queue.completions (verbs.req_notify_cq (verbs.ack_cq_events s₅ cq 1) cq).1 cq ≡ wcs
      → All IsPosted wcs
      → length wcs < fuel
      → (s' : verbs.State) × (handle_client_cm_request verbs fuel s stale cm_id
          ≡ ok (status_of (all_good wcs), good_lengths wcs, s'))
        × Drained s' cq wcs
  unfolding handle_client_cm_request answer receive
  handle_client_cm_request-Drained fuel s s₁ s₂ s₃ s₄ s₅ stale req cm_id cq sge wcs created
        allocated posted accepted woken waits all enough =
      let (s', drained, left) =
        poll_loop-Drained fuel (verbs.req_notify_cq (verbs.ack_cq_events s₅ cq 1) cq).1 cq [] wcs
          waits all enough in
      (s', rw (created, allocated, posted, accepted, woken) drained, left)
