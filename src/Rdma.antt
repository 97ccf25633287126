-- ===== src/Rdma.antt =====
-- The server over libibverbs and librdmacm of src/rdma_verbs.c: a connection's queues and memory
-- (this file), the requests that come (Requests), the thread and the context (Context). What is written to
-- the log is left out, but for what was received.
pub mod Requests
pub mod Context
pub mod Drained
mod Tests
use cc_utils.Base.{
  ℕ, zero, suc, ◌+◌, ◌*◌, Bool, true, false, Option, none, some, List, [], ◌∷◌, ◌++◌, ◌==◌,
  if◌then◌else◌,
}
use cc_utils.Base.Outcome.{Outcome, ok, fault, ◌>>=◌, ◌>>◌, assert}
use cc_utils.Base.Int.{ℤ, pos, negsuc}

-- `ibv_qp_init_attr` of a reliable connection
pub record QpInitAttr : Type 0 where
  pub send_cq : ℕ
  pub recv_cq : ℕ
  pub max_send_wr : ℕ
  pub max_recv_wr : ℕ
  pub max_send_sge : ℕ
  pub max_recv_sge : ℕ

-- `ibv_sge`, and `ibv_recv_wr` of one of them
pub record Sge : Type 0 where
  pub addr : ℕ
  pub length : ℕ
  pub lkey : ℕ

pub record RecvWr : Type 0 where
  pub wr_id : ℕ
  pub sge : Sge

-- `ibv_wc`: the status is 0 for IBV_WC_SUCCESS.
pub record Wc : Type 0 where
  pub wr_id : ℕ
  pub status : ℕ
  pub byte_len : ℕ

-- The fields of `rdma_conn_param` that are set
pub record ConnParam : Type 0 where
  pub responder_resources : ℕ
  pub initiator_depth : ℕ
  pub retry_count : ℕ
  pub rnr_retry_count : ℕ

-- The libraries' calls, and the system's: objects are known by their addresses, `none` is NULL, and a
-- number is what a call returns.
pub record Verbs : Type 1 where
  pub State : Type 0
  pub context_of : State → ℕ → ℕ
  pub pd_of : State → ℕ → ℕ
  pub alloc_pd : State → ℕ → Option ℕ × State
  pub create_comp_channel : State → ℕ → Option ℕ × State
  pub create_cq : State → ℕ → ℕ → ℕ → Option ℕ × State
  pub req_notify_cq : State → ℕ → ℤ × State
  pub create_qp : State → ℕ → ℕ → QpInitAttr → ℤ × State
  pub ibv_create_qp : State → ℕ → QpInitAttr → Option ℕ × State
  pub ibv_destroy_qp : State → ℕ → ℤ × State
  pub aligned_alloc : State → ℕ → ℕ → Option ℕ × State
  pub reg_mr : State → ℕ → ℕ → ℕ → Option ℕ × State
  pub free : State → ℕ → State
  pub post_recv : State → ℕ → RecvWr → ℤ × State
  pub accept : State → ℕ → ConnParam → ℤ × State
  pub get_cq_event : State → ℕ → ℕ × State
  pub ack_cq_events : State → ℕ → ℕ → State
  pub poll_cq : State → ℕ → ℕ → (ℤ × List Wc) × State

-- -EFAULT
abbrev pub efault : ℤ
efault = negsuc 13

-- `wverbs_req_t`
pub record WverbsReq : Type 0 where
  pub cm_id : ℕ
  pub pd : ℕ
  pub channel : ℕ
  pub cq : ℕ

abbrev pub is_zero : ℤ → Bool
is_zero (pos zero) = true
is_zero _ = false

-- `qp_attr`
abbrev pub qp_attr : ℕ → QpInitAttr
qp_attr cq = record {
  send_cq = cq;
  recv_cq = cq;
  max_send_wr = 512;
  max_recv_wr = 512;
  max_send_sge = 1;
  max_recv_sge = 1;
}

-- `qp_init_attr`
abbrev pub qp_init_attr : ℕ → QpInitAttr
qp_init_attr cq = record {
  send_cq = cq;
  recv_cq = cq;
  max_send_wr = 2;
  max_recv_wr = 2;
  max_send_sge = 1;
  max_recv_sge = 1;
}

abbrev not_null : {A : Type 0} → Option ℕ × A → Outcome (ℕ × A)
not_null (none, s) = fault
not_null (some a, s) = ok (a, s)

module _ (verbs : Verbs) where
  unfoldable pub qp_create : verbs.State → ℕ → ℕ → Outcome (ℕ × verbs.State)
  qp_create s pd cq = not_null (verbs.ibv_create_qp s pd (qp_init_attr cq))

  unfoldable pub qp_destroy : verbs.State → Option ℕ → Outcome verbs.State
  qp_destroy s none = fault
  qp_destroy s (some qp) = do let (ret, s) = verbs.ibv_destroy_qp s qp; assert (is_zero ret); ok s

  -- What verbs_create_qp returns, the request, and the state: behind ibv_req_notify_cq, and so on up to
  -- its start.
  abbrev pub QpCreated : Type 0
  QpCreated = ℤ × WverbsReq × verbs.State

  abbrev with_notice : WverbsReq → ℤ × verbs.State → QpCreated
  with_notice req (rc, s) =
      let (rc', s') = verbs.create_qp s req.cm_id req.pd (qp_attr req.cq) in
      if is_zero rc then (rc', req, s') else (rc, req, s)

  abbrev with_cq : WverbsReq → Option ℕ × verbs.State → QpCreated
  with_cq req (none, s) = (efault, req, s)
  with_cq req (some cq, s) = with_notice (record req { cq = cq }) (verbs.req_notify_cq s cq)

  abbrev with_channel : ℕ → WverbsReq → Option ℕ × verbs.State → QpCreated
  with_channel context req (none, s) = (efault, req, s)
  with_channel context req (some channel, s) =
      with_cq (record req { channel = channel }) (verbs.create_cq s context 512 channel)

  abbrev with_pd : ℕ → WverbsReq → Option ℕ × verbs.State → QpCreated
  with_pd context req (none, s) = (efault, req, s)
  with_pd context req (some pd, s) =
      with_channel context (record req { pd = pd }) (verbs.create_comp_channel s context)

  -- `req` is what the caller's struct holds.
  unfoldable pub verbs_create_qp : verbs.State → WverbsReq → ℕ → QpCreated
  verbs_create_qp s req cm_id =
      let context = verbs.context_of s cm_id in
      with_pd context (record req { cm_id = cm_id }) (verbs.alloc_pd s context)

  -- 4096 bytes are registered, whatever `size` is; memset() of a NULL is a fault. `sge` is set only on
  -- success.
  abbrev with_mr : ℕ → Option ℕ × verbs.State → ℤ × Option Sge × verbs.State
  with_mr buf (none, s) = (efault, none, verbs.free s buf)
  with_mr buf (some lkey, s) = (pos 0, some (record { addr = buf; length = 4096; lkey = lkey }), s)

  abbrev with_buf : ℕ → Option ℕ × verbs.State → Outcome (ℤ × Option Sge × verbs.State)
  with_buf cm_id (none, s) = fault
  with_buf cm_id (some buf, s) = ok (with_mr buf (verbs.reg_mr s (verbs.pd_of s cm_id) buf 4096))

  unfoldable pub verbs_mem_alloc : verbs.State → ℕ → ℕ → Outcome (ℤ × Option Sge × verbs.State)
  verbs_mem_alloc s cm_id size = with_buf cm_id (verbs.aligned_alloc s 4096 size)
