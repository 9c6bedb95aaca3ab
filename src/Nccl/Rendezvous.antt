-- ===== src/Nccl/Rendezvous.antt =====
-- transport/nccl/rendezvous.py: the methods of `AckRendezvous` on the slots of one transfer.
-- `compare_set` is TCPStore's: it returns what the key holds afterwards. What it returns for a key
-- that is not there is the parameter `absent`.
pub mod Handshake
pub mod Agreement
pub mod Results
use alpagym.Base.{
  ℕ, ◌+◌, ◌*◌, Bool, true, false, not, Option, none, some, String, ◌==◌, if◌then◌else◌, ltb,
}
use alpagym.Base.Outcome.{Outcome, ok, raise}
use alpagym.Nccl.Store.{
  Status, requested, accepted, missing, cancelled, same_status, NcclTransferRequest,
  NcclTransferAck, Slots,
}

-- `SendDecision`
pub record SendDecision (T : Type 0) : Type 0 where
  pub status : Status
  pub request_id : ℕ
  pub transfer_id : ℕ
  pub requester_rank : ℕ
  pub tensors_map : Option T
  pub pending_count : ℕ

-- `NcclRendezvousError`, by the place that raises it.
pub data NcclRendezvousError : Type 0 where
  no_request misrouted unexpected_state : NcclRendezvousError

abbrev pub compare_set : Status → Option Status → Status → Status → Status × Option Status
compare_set absent none expected desired = (absent, none)
compare_set absent (some current) expected desired =
    if same_status current expected then (desired, some desired) else (current, some current)

-- `_try_transition_state`
unfoldable pub try_transition_state : Status → Status → Status → Slots → Status × Slots
try_transition_state absent expected desired k =
    let (status, state) = compare_set absent k.state expected desired in
    (status, record k { state = state })

-- `_cancel_unaccepted_request`
unfoldable pub cancel_unaccepted_request : Status → Slots → Status × Slots
unfolding try_transition_state
cancel_unaccepted_request absent k = try_transition_state absent requested cancelled k

-- The request that `_publish_request` writes, and its two writes in order.
unfoldable pub new_request : ℕ → ℕ → ℕ → ℕ → ℕ → ℕ → NcclTransferRequest
new_request request_id transfer_id requester_rank rollout_idx start_ms ack_timeout_ms = record {
  request_id = request_id;
  transfer_id = transfer_id;
  requester_rank = requester_rank;
  rollout_idx = rollout_idx;
  deadline_ms = start_ms + ack_timeout_ms;
  state = requested;
}

abbrev pub publish_state : Slots → Slots
publish_state k = record k { state = some requested }

abbrev pub publish_request : NcclTransferRequest → Slots → Slots
publish_request r k = record k { request = some r }

-- `_write_ack`
unfoldable pub write_ack : NcclTransferRequest → Status → String → ℕ → Option ℕ → Slots → Slots
write_ack r status message pending_count accepted_at_ms k = record k {
  ack = some (record {
    request_id = r.request_id;
    transfer_id = r.transfer_id;
    status = status;
    message = message;
    pending_count = pending_count;
    accepted_at_ms = accepted_at_ms;
  });
}

-- `_delete_rendezvous_keys`, its three deletes as one step.
abbrev pub delete_rendezvous_keys : Slots → Slots
delete_rendezvous_keys k = record { state = none; request = none; ack = none }

abbrev pub Decides : Type 0 → Type 0
Decides T = Outcome NcclRendezvousError (SendDecision T) × Slots

module _ {T : Type 0} where
  -- `_build_no_send_decision`
  unfoldable pub build_no_send_decision : NcclTransferRequest → Status → ℕ → SendDecision T
  build_no_send_decision r status pending_count = record {
    status = status;
    request_id = r.request_id;
    transfer_id = r.transfer_id;
    requester_rank = r.requester_rank;
    tensors_map = none;
    pending_count = pending_count;
  }

  abbrev pub after_missing : NcclTransferRequest → ℕ → Status × Slots → Decides T
  after_missing r pending (missing, k) = (
    ok (build_no_send_decision r missing pending),
    write_ack r missing "sender no longer owns transfer payload" pending none k,
  )
  after_missing r pending (cancelled, k) =
      (ok (build_no_send_decision r cancelled pending), delete_rendezvous_keys k)
  after_missing r pending (_, k) = (raise unexpected_state, k)

  -- `_handle_missing_payload`
  unfoldable pub handle_missing_payload : Status → NcclTransferRequest → ℕ → Slots → Decides T
  unfolding try_transition_state write_ack build_no_send_decision
  handle_missing_payload absent r pending k =
      after_missing r pending (try_transition_state absent requested missing k)

  abbrev pub after_present : NcclTransferRequest → T → ℕ → ℕ → Status × Slots → Decides T
  after_present r tensors pending now_ms (cancelled, k) =
      (ok (build_no_send_decision r cancelled pending), delete_rendezvous_keys k)
  after_present r tensors pending now_ms (accepted, k) = (
    ok (record {
      status = accepted;
      request_id = r.request_id;
      transfer_id = r.transfer_id;
      requester_rank = r.requester_rank;
      tensors_map = some tensors;
      pending_count = pending;
    }),
    write_ack r accepted "sender accepted rendezvous" pending (some now_ms) k,
  )
  after_present r tensors pending now_ms (_, k) = (raise unexpected_state, k)

  -- `_handle_present_payload`
  unfoldable pub handle_present_payload :
      Status → NcclTransferRequest → T → ℕ → ℕ → Slots → Decides T
  unfolding try_transition_state write_ack build_no_send_decision
  handle_present_payload absent r tensors pending now_ms k =
      after_present r tensors pending now_ms (try_transition_state absent requested accepted k)

  abbrev pub decide : Status → NcclTransferRequest → Option T × ℕ → ℕ → Slots → Decides T
  decide absent r (none, pending) now_ms k = handle_missing_payload absent r pending k
  decide absent r (some tensors, pending) now_ms k =
      handle_present_payload absent r tensors pending now_ms k

  abbrev pub process_read :
      Status → ℕ → Option NcclTransferRequest → (ℕ → Option T × ℕ) → ℕ → Slots → Decides T
  process_read absent rollout_idx none claim now_ms k = (raise no_request, k)
  process_read absent rollout_idx (some r) claim now_ms k =
      if r.rollout_idx == rollout_idx
      then decide absent r (claim r.transfer_id) now_ms k
      else (raise misrouted, k)

  -- `process_request`: `claim` is `claim_transfer_snapshot`, without its log preview.
  unfoldable pub process_request : Status → ℕ → (ℕ → Option T × ℕ) → ℕ → Slots → Decides T
  unfolding handle_missing_payload handle_present_payload
  process_request absent rollout_idx claim now_ms k =
      process_read absent rollout_idx k.request claim now_ms k
