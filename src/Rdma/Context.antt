-- ===== src/Rdma/Context.antt =====
-- The context of the server of src/rdma_verbs.c, and the thread that takes its events.
use cc_utils.Base.{ℕ, zero, suc, Option, none, some, if◌then◌else◌}
use cc_utils.Base.Outcome.{Outcome, ok, fault, ◌>>=◌, ◌>>◌, assert}
use cc_utils.Base.Int.{ℤ, pos, negsuc}
use cc_utils.Rdma.{Verbs, WverbsReq, is_zero}
use cc_utils.Rdma.Requests.{handle_client_cm_request}

-- RDMA_CM_EVENT_CONNECT_REQUEST, and any other one
pub data CmEvent : Type 0 where
  connect_request : CmEvent
  other_event : CmEvent

-- The connection manager's calls, over those of the queues. rdma_get_cm_event() gives the address of an
-- event, event_at() what is there, `none` once the event was given back by rdma_ack_cm_event(), and its
-- connection is known by an address. create_event_channel() gives an errno where it fails.
pub record Manager : Type 1 where
  pub verbs : Verbs
  pub get_cm_event : verbs.State → ℕ → (ℤ × ℕ) × verbs.State
  pub event_at : verbs.State → ℕ → Option (CmEvent × ℕ)
  pub ack_cm_event : verbs.State → ℕ → verbs.State
  pub create_event_channel : verbs.State → (Option ℕ × ℕ) × verbs.State
  pub create_id : verbs.State → ℕ → (ℤ × ℕ) × verbs.State
  pub bind_addr : verbs.State → ℕ → ℕ → ℕ → ℤ × verbs.State
  pub listen : verbs.State → ℕ → ℕ → ℤ × verbs.State
  pub thread_create : verbs.State → ℕ → ℤ × verbs.State

-- -errno
abbrev pub minus : ℕ → ℤ
minus zero = pos 0
minus (suc n) = negsuc n

-- inet_addr("192.168.2.160") as four bytes, and the port
abbrev pub listen_addr : ℕ
listen_addr = 0xc0a802a0

abbrev pub listen_port : ℕ
listen_port = 8080

-- `wrnet_context_t` without its thread
pub record WrnetContext : Type 0 where
  pub cm_id : ℕ
  pub cm_channel : ℕ

module _ (os : Manager) where
  -- What verbs_create_ctx returns, the context and the state. The result of rdma_listen is overwritten,
  -- and that of pthread_create is only printed.
  abbrev pub CtxCreated : Type 0
  CtxCreated = ℤ × WrnetContext × os.verbs.State

  abbrev bound : WrnetContext → ℤ × os.verbs.State → CtxCreated
  bound context (rc, s) =
      let s' = (os.thread_create (os.listen s context.cm_id 10).1 context.cm_channel).1 in
      if is_zero rc then (pos 0, context, s') else (rc, context, s)

  abbrev with_id : WrnetContext → (ℤ × ℕ) × os.verbs.State → CtxCreated
  with_id context ((rc, cm_id), s) =
      let named = record context { cm_id = cm_id } in
      let on = bound named (os.bind_addr s cm_id listen_addr listen_port) in
      if is_zero rc then on else (rc, context, s)

  abbrev with_event_channel : WrnetContext → (Option ℕ × ℕ) × os.verbs.State → CtxCreated
  with_event_channel context ((none, errno), s) = (minus errno, context, s)
  with_event_channel context ((some channel, errno), s) =
      with_id (record context { cm_channel = channel }) (os.create_id s channel)

  unfoldable pub verbs_create_ctx : os.verbs.State → CtxCreated
  verbs_create_ctx s =
      with_event_channel (record { cm_id = 0; cm_channel = 0 }) (os.create_event_channel s)

  -- The event once more, behind rdma_ack_cm_event: a read of it faults where it is gone. `event` is the
  -- copy that was taken before.
  unfoldable pub handle_event :
      ℕ → WverbsReq → CmEvent × ℕ → Option (CmEvent × ℕ) → os.verbs.State → Outcome os.verbs.State
  handle_event fuel stale event none s = fault
  handle_event fuel stale event (some (other_event, _)) s = ok s
  handle_event fuel stale event (some (connect_request, _)) s = do
    (_, _, s) ← handle_client_cm_request os.verbs fuel s stale event.1
    ok s

  unfoldable pub take_event :
      ℕ → WverbsReq → ℕ → Option (CmEvent × ℕ) → os.verbs.State → Outcome os.verbs.State
  take_event fuel stale address none s = fault
  take_event fuel stale address (some event) s =
      let s = os.ack_cm_event s address in handle_event fuel stale event (os.event_at s address) s

  -- A round of the thread; `before` is the event of the round before, which a failure gives back again.
  -- The loop has no end, and the fuel says how many of its rounds are looked at.
  unfoldable pub cm_round :
      (ℕ → os.verbs.State → Outcome os.verbs.State)
      → ℕ
      → WverbsReq
      → ℕ
      → (ℤ × ℕ) × os.verbs.State
      → Outcome os.verbs.State
  cm_round rest fuel stale before ((rc, address), s) =
      let handled =
        take_event fuel stale address (os.event_at s address) s >>= λ s. rest address s in
      let failed = rest before (os.ack_cm_event s before) in if is_zero rc then handled else failed

  unfoldable pub verbs_cm_thread :
      ℕ → ℕ → WverbsReq → ℕ → ℕ → os.verbs.State → Outcome os.verbs.State
  verbs_cm_thread zero fuel stale channel before s = ok s
  verbs_cm_thread (suc rounds) fuel stale channel before s =
      cm_round (λ before s. verbs_cm_thread rounds fuel stale channel before s) fuel stale before
        (os.get_cm_event s channel)

  -- main, up to the loop that only sleeps: a context that could not be created fails an assert.
  unfoldable pub main : os.verbs.State → Outcome (WrnetContext × os.verbs.State)
  main s = do let (rc, context, s) = verbs_create_ctx s; assert (is_zero rc); ok (context, s)
