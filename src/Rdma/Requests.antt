-- ===== src/Rdma/Requests.antt =====
-- handle_client_cm_request of src/rdma_verbs.c: a client's request from its queues to its completions.
use cc_utils.Base.{
  ℕ, zero, suc, Bool, true, false, Option, none, some, List, [], ◌∷◌, ◌++◌, ◌==◌, if◌then◌else◌,
  take,
}
use cc_utils.Base.Outcome.{Outcome, ok, fault, out_of_fuel, ◌>>=◌, ◌>>◌, assert}
use cc_utils.Base.Int.{ℤ, pos, negsuc}
use cc_utils.Rdma.{Verbs, Sge, Wc, ConnParam, WverbsReq, is_zero, verbs_create_qp, verbs_mem_alloc}

-- -EIO
abbrev pub eio : ℤ
eio = negsuc 4

-- The loop over the completions of one ibv_poll_cq: the lengths that were received so far, and whether a
-- completion failed.
unfoldable pub wc_loop : List Wc → List ℕ → Outcome (Bool × List ℕ)
wc_loop [] received = ok (true, received)
wc_loop (wc ∷ wcs) received = do
  assert (wc.wr_id == 1)
  let rest = wc_loop wcs (received ++ (wc.byte_len ∷ []))
  if wc.status == 0 then rest else ok (false, received)

-- `cm_params`
abbrev pub cm_params : ConnParam
cm_params = record {
  responder_resources = 16;
  initiator_depth = 16;
  retry_count = 7;
  rnr_retry_count = 7;
}

module _ (verbs : Verbs) where
  -- What is returned, and the lengths that were received.
  abbrev pub Handled : Type 0
  Handled = ℤ × List ℕ × verbs.State

  abbrev behind_round :
      (List ℕ → verbs.State → Outcome Handled) → verbs.State → Bool × List ℕ → Outcome Handled
  behind_round rest s (true, received) = rest received s
  behind_round rest s (false, received) = ok (eio, received, s)

  -- A round of the loop behind its ibv_poll_cq, with the rounds that follow: one that fails is tried
  -- again.
  abbrev poll_round :
      (List ℕ → verbs.State → Outcome Handled)
      → List ℕ
      → (ℤ × List Wc) × verbs.State
      → Outcome Handled
  poll_round rest received ((negsuc n, wcs), s) = rest received s
  poll_round rest received ((pos zero, wcs), s) = ok (pos 0, received, s)
  poll_round rest received ((pos (suc n), wcs), s) =
      wc_loop (take (suc n) wcs) received >>= behind_round rest s

  unfoldable pub poll_loop : ℕ → verbs.State → ℕ → List ℕ → Outcome Handled
  poll_loop zero s cq received = out_of_fuel
  poll_loop (suc fuel) s cq received =
      poll_round (λ received s. poll_loop fuel s cq received) received (verbs.poll_cq s cq 8)

  -- Behind rdma_accept: the event of the completion queue, which sets `req.cq`.
  unfoldable pub receive : ℕ → WverbsReq → verbs.State → Outcome Handled
  receive fuel req s =
      let (cq, s) = verbs.get_cq_event s req.channel in
      let s = (verbs.req_notify_cq (verbs.ack_cq_events s cq 1) cq).1 in poll_loop fuel s cq []

  unfoldable pub answer : ℕ → WverbsReq → ℕ → Sge → verbs.State → Outcome Handled
  answer fuel req cm_id sge s = do
    let (rc, s) = verbs.post_recv s cm_id (record { wr_id = 1; sge = sge })
    assert (is_zero rc)
    let (rc, s) = verbs.accept s cm_id cm_params
    assert (is_zero rc)
    receive fuel req s

  abbrev with_memory : ℕ → WverbsReq → ℕ → ℤ × Option Sge × verbs.State → Outcome Handled
  with_memory fuel req cm_id (rc, none, s) = fault
  with_memory fuel req cm_id (rc, some sge, s) = answer fuel req cm_id sge s

  -- `stale` is what the array of the request holds. A call that fails up to here fails an assert.
  unfoldable pub handle_client_cm_request : ℕ → verbs.State → WverbsReq → ℕ → Outcome Handled
  handle_client_cm_request fuel s stale cm_id = do
    let (rc, req, s) = verbs_create_qp verbs s stale cm_id
    assert (is_zero rc)
    memory ← verbs_mem_alloc verbs s cm_id 4096
    with_memory fuel req cm_id memory
