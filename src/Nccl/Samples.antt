-- ===== src/Nccl/Samples.antt =====
-- transport/nccl: one transfer between a sender and a receiver, and the theorems on it.
use alpagym.Base.{
  All, ℕ, ◌<◌, ◌≤◌, ◌≡◌, ◌≢◌, refl, true, false, Option, none, some, List, [], ◌∷◌, length,
}
use alpagym.Base.Outcome.{raise}
use alpagym.Nccl.Store.{
  Status, requested, accepted, missing, cancelled, NcclTransferRequest, NcclTransferAck, Slots,
  empty,
}
use alpagym.Nccl.Rendezvous.{
  process_request, new_request, try_transition_state, cancel_unaccepted_request, write_ack,
}
use alpagym.Nccl.Rendezvous.Handshake.{
  returned, raised_cancelled, raised_status, waiting, polling, decided, raised_unexpected,
  set_state, set_request, ack_seen, timed_out, cancel, finish, see_request, claim, transition,
  acknowledge, Reach, start, next,
}
use alpagym.Nccl.Rendezvous.Results.{
  accepts, IsAnswered, returned-sends, cancelled-never_accepted, refused-missing, never_unexpected,
  process_request-IsAnswered,
}
use alpagym.Nccl.CommInit.{policy}
use alpagym.Nccl.CommInit.Ranks
use alpagym.Nccl.Sender.{NcclSenderConfig, NcclSender, send, serve, not_initialized}
use alpagym.Nccl.Sender.Invariant.{
  Op, setup_op, send_op, claim_op, fail_op, run, created, Exclusive, run-holds,
}
use alpagym.Nccl.Sender.Serving.{Settled, serve-Settled}

abbrev request : NcclTransferRequest
request = new_request 11 42 1 0 1000 500

abbrev posted : Slots
posted = record { state = some requested; request = some request; ack = none }

-- Both writes of the receiver are done, and the sender polls.
waiting-Reach : Reach missing waiting polling posted
waiting-Reach = next (next start set_state) (set_request request)

abbrev answered : Status → Slots
answered status = record {
  state = some status;
  request = some request;
  ack = some (record {
    request_id = 11;
    transfer_id = 42;
    status = status;
    message = "";
    pending_count = 1;
    accepted_at_ms = none;
  });
}

abbrev ack_of : Status → NcclTransferAck
ack_of status = record {
  request_id = 11;
  transfer_id = 42;
  status = status;
  message = "";
  pending_count = 1;
  accepted_at_ms = none;
}

accepted-Reach : Reach missing waiting (decided true) (answered accepted)
unfolding try_transition_state write_ack new_request
accepted-Reach =
    next
      (next (next (next waiting-Reach (see_request request refl)) (claim true)) (transition true))
      (acknowledge true request "" 1 none)

missing-Reach : Reach missing waiting (decided false) (answered missing)
unfolding try_transition_state write_ack new_request
missing-Reach =
    next
      (next (next (next waiting-Reach (see_request request refl)) (claim false)) (transition false))
      (acknowledge false request "" 1 none)

returned-Reach : Reach missing returned (decided true) empty
returned-Reach =
    next (next accepted-Reach (ack_seen (ack_of accepted) refl)) (finish (ack_of accepted))

refused-Reach : Reach missing (raised_status missing) (decided false) empty
refused-Reach = next (next missing-Reach (ack_seen (ack_of missing) refl)) (finish (ack_of missing))

cancelled-Reach : Reach missing raised_cancelled polling (record posted { state = some cancelled })
unfolding cancel_unaccepted_request
cancelled-Reach = next (next waiting-Reach timed_out) cancel

returned-sends_example : decided true ≡ decided true
returned-sends_example = returned-sends missing empty (decided true) returned-Reach

cancelled-never_accepted_example : accepts polling ≡ false
cancelled-never_accepted_example =
    cancelled-never_accepted missing (record posted { state = some cancelled }) polling
      cancelled-Reach

refused-missing_example : (missing ≡ missing) × (decided false ≡ decided false)
refused-missing_example = refused-missing missing empty missing (decided false) refused-Reach

never_unexpected_example : decided true ≢ raised_unexpected
never_unexpected_example = never_unexpected missing empty returned (decided true) returned-Reach

posted_state : posted.state ≢ none
posted_state e = cc e

abbrev claim_five : ℕ → Option ℕ × ℕ
claim_five id = (some 5, 1)

process_request-IsAnswered_example :
    IsAnswered posted (process_request missing 0 claim_five 1200 posted)
process_request-IsAnswered_example =
    process_request-IsAnswered missing 0 claim_five 1200 posted posted_state

abbrev config : NcclSenderConfig
config = record { max_pending_transfers = 2; released_transfer_retention = some 30 }

abbrev ops : List (Op ℕ)
ops = setup_op 3 ∷ send_op 5 42 ∷ claim_op 42 ∷ fail_op ∷ []

run-holds_example :
    let s = run config ops created in
    Exclusive s.pending_sends s.released_transfers
    × (0 < 2 → length s.pending_sends ≤ 2)
    × (s.comm_idx ≡ none
        → (s.pending_sends ≡ [])
          × (s.claimed_sends ≡ [])
          × ((t : ℕ) (id : ℕ) → send config t id s ≡ raise not_initialized))
run-holds_example = run-holds config ops

abbrev holding : NcclSender ℕ
holding = record {
  comm_idx = some 3;
  pending_sends = (42, 5) ∷ [];
  claimed_sends = [];
  released_transfers = [];
  nccl_sent = [];
  aborted = [];
}

own_request : (q : NcclTransferRequest) → some request ≡ some q → q.transfer_id ≡ 42
unfolding new_request
own_request q e = cc e

serve-Settled_example : Settled 42 holding (serve missing 0 1200 true 42 holding posted).0
serve-Settled_example = serve-Settled missing 0 1200 true holding posted 42 refl own_request

-- Two policy processes for one place: the second is refused and takes its increment back.
one_rank-Reach : Ranks.Reach policy 1 2 (record { counter = 1; refusing = 0; issued = 0 ∷ [] })
one_rank-Reach =
    Ranks.next (Ranks.next (Ranks.next Ranks.start (Ranks.grant refl)) (Ranks.refuse_rank refl))
      (Ranks.take_back refl)

issued-dense_example :
    (0 ∷ [] ≡ Ranks.count_up 0 1) × All (λ r. r < Ranks.limit policy 1 2) (0 ∷ [])
issued-dense_example =
    Ranks.issued-dense policy 1 2 (record { counter = 1; refusing = 0; issued = 0 ∷ [] })
      one_rank-Reach
