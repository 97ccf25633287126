-- ===== src/Rdma/Tests.antt =====
-- A client whose first receive is completed and whose second one failed.
use cc_utils.Base.{ℕ, ◌≤◌, ◌≡◌, refl, some, List, [], ◌∷◌, ◌++◌, length, arith}
use cc_utils.Base.Outcome.{ok}
use cc_utils.Base.Int.{ℤ, pos}
use cc_utils.Rdma.{Verbs, Wc, WverbsReq, verbs_create_qp, verbs_mem_alloc}
use cc_utils.Rdma.Requests.{handle_client_cm_request}
use cc_utils.Rdma.Drained.{
  Completes, all_good, good_lengths, Drained, status_of, handle_client_cm_request-Drained,
}

-- The state is the completions that wait, and a poll takes one.
abbrev poll : List Wc → ℕ → ℕ → (ℤ × List Wc) × List Wc
poll [] cq n = ((pos 0, []), [])
poll (wc ∷ wcs) cq n = ((pos 1, wc ∷ []), wcs)

abbrev adapter : Verbs
adapter = record {
  State = List Wc;
  context_of = λ s id. 1;
  pd_of = λ s id. 2;
  alloc_pd = λ s c. (some 2, s);
  create_comp_channel = λ s c. (some 3, s);
  create_cq = λ s c n channel. (some 4, s);
  req_notify_cq = λ s cq. (pos 0, s);
  create_qp = λ s id pd attr. (pos 0, s);
  ibv_create_qp = λ s pd attr. (some 5, s);
  ibv_destroy_qp = λ s qp. (pos 0, s);
  aligned_alloc = λ s align n. (some 8192, s);
  reg_mr = λ s pd a n. (some 6, s);
  free = λ s a. s;
  post_recv = λ s id wr. (pos 0, s);
  accept = λ s id param. (pos 0, s);
  get_cq_event = λ s channel. (4, s);
  ack_cq_events = λ s cq n. s;
  poll_cq = poll;
}

poll_one :
    (s : List Wc) (cq : ℕ)
    → (n : ℕ) × (wcs s' : List Wc) × (poll s cq 8 ≡ ((pos n, wcs), s'))
      × (length wcs ≡ n)
      × (n ≤ 8)
      × (s ≡ wcs ++ s')
      × (n ≡ 0 → s ≡ [])
poll_one [] cq = (0, [], [], refl, refl, omega arith, refl, λ e. refl)
poll_one (wc ∷ wcs) cq = (1, wc ∷ [], wcs, refl, refl, omega arith, refl, λ e. absurd (omega arith))

abbrev adapter_completes : Completes adapter
adapter_completes = record { completions = λ s cq. s; polled = poll_one }

abbrev unset : WverbsReq
unset = record { cm_id = 0; pd = 0; channel = 0; cq = 0 }

abbrev arrived : List Wc
arrived =
    (record { wr_id = 1; status = 0; byte_len = 7 })
    ∷ (record { wr_id = 1; status = 5; byte_len = 0 })
    ∷ []

adapter_created :
    verbs_create_qp adapter arrived unset 9
    ≡ (pos 0, record { cm_id = 9; pd = 2; channel = 3; cq = 4 }, arrived)
unfolding verbs_create_qp
adapter_created = refl

adapter_allocated :
    verbs_mem_alloc adapter arrived 9 4096
    ≡ ok (pos 0, some (record { addr = 8192; length = 4096; lkey = 6 }), arrived)
unfolding verbs_mem_alloc
adapter_allocated = refl

handle_client_cm_request-Drained_example :
    (s' : List Wc) × (handle_client_cm_request adapter 5 arrived unset 9
      ≡ ok (status_of (all_good arrived), good_lengths arrived, s'))
    × Drained adapter adapter_completes s' 4 arrived
handle_client_cm_request-Drained_example =
    handle_client_cm_request-Drained adapter adapter_completes 5 arrived arrived arrived arrived
      arrived arrived unset (record { cm_id = 9; pd = 2; channel = 3; cq = 4 }) 9 4
      (record { addr = 8192; length = 4096; lkey = 6 }) arrived adapter_created adapter_allocated
      refl refl refl refl (refl, (refl, tt)) (omega arith)
