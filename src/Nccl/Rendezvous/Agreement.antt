-- ===== src/Nccl/Rendezvous/Agreement.antt =====
-- transport/nccl/rendezvous.py: the two threads of a handshake never end in contradiction.
use alpagym.Base.{ℕ, String, ◌≡◌, refl, ap, Bool, true, false, Option, none, some}
use alpagym.Nccl.Store.{
  Status, requested, missing, cancelled, NcclTransferRequest, NcclTransferAck, Slots,
}
use alpagym.Nccl.Rendezvous.{
  try_transition_state, cancel_unaccepted_request, publish_state, publish_request, write_ack,
  delete_rendezvous_keys,
}
use alpagym.Nccl.Rendezvous.Handshake.{
  Receiver, idle, stated, waiting, cancelling, grace, acked, returned, raised_cancelled,
  raised_grace, raised_status, Sender, polling, checked, claimed, writing, cleaning, decided,
  decided_cancelled, raised_unexpected, desired, after_cancel, after_ack, after_claim, Step,
  set_state, set_request, ack_seen, timed_out, cancel, ack_seen_late, timed_out_again, finish,
  see_request, claim, transition, acknowledge, clean, Reach, start, next,
}

abbrev pub status_of : Option NcclTransferAck → Option Status
status_of none = none
status_of (some a) = some a.status

-- Before the sender's compare_set; `open` says that the request key is written.
abbrev Before : Receiver → Slots → Type 0
Before waiting k = (k.state ≡ some requested) × (k.ack ≡ none)
Before cancelling k = (k.state ≡ some requested) × (k.ack ≡ none)
Before raised_cancelled k = (k.state ≡ some cancelled) × (k.ack ≡ none)
Before _ k = ⊥

-- Between the sender's compare_set and its ACK.
abbrev Writing : Bool → Receiver → Slots → Type 0
Writing found waiting k = (k.state ≡ some (desired found)) × (k.ack ≡ none)
Writing found cancelling k = (k.state ≡ some (desired found)) × (k.ack ≡ none)
Writing found grace k = (k.state ≡ some (desired found)) × (k.ack ≡ none)
Writing found raised_grace k = Unit
Writing _ _ k = ⊥

-- After the sender's ACK.
abbrev Decided : Bool → Receiver → Slots → Type 0
Decided found waiting k =
    (k.state ≡ some (desired found)) × (status_of k.ack ≡ some (desired found))
Decided found cancelling k =
    (k.state ≡ some (desired found)) × (status_of k.ack ≡ some (desired found))
Decided found grace k = (k.state ≡ some (desired found)) × (status_of k.ack ≡ some (desired found))
Decided found (acked a) k = a.status ≡ desired found
Decided true returned k = Unit
Decided false (raised_status missing) k = Unit
Decided found raised_grace k = Unit
Decided _ _ k = ⊥

abbrev Ended : Receiver → Slots → Type 0
Ended raised_cancelled k = Unit
Ended _ k = ⊥

abbrev Cleaning : Receiver → Slots → Type 0
Cleaning raised_cancelled k = k.ack ≡ none
Cleaning _ k = ⊥

abbrev Polling : Receiver → Slots → Type 0
Polling idle k = (k.request ≡ none) × (k.ack ≡ none)
Polling stated k = (k.state ≡ some requested) × (k.request ≡ none) × (k.ack ≡ none)
Polling r k = Before r k

-- What holds of the two threads and the store together.
abbrev pub Agrees : Receiver → Sender → Slots → Type 0
Agrees r polling k = Polling r k
Agrees r checked k = Before r k
Agrees r (claimed found) k = Before r k
Agrees r (writing found) k = Writing found r k
Agrees r cleaning k = Cleaning r k
Agrees r (decided found) k = Decided found r k
Agrees r decided_cancelled k = Ended r k
Agrees r raised_unexpected k = ⊥

module _ (absent : Status) where
  step-set_state : (s : Sender) (k : Slots) → Agrees idle s k → Agrees stated s (publish_state k)
  step-set_state polling k h = (refl, h.0, h.1)
  step-set_state _ k h = absurd h

  step-set_request :
      (q : NcclTransferRequest) (s : Sender) (k : Slots)
      → Agrees stated s k
      → Agrees waiting s (publish_request q k)
  step-set_request q polling k h = (h.0, h.2)
  step-set_request q _ k h = absurd h

  -- The two waits of the receiver carry the same facts.
  step-ack :
      (a : NcclTransferAck) (s : Sender) (k : Slots)
      → k.ack ≡ some a
      → Agrees waiting s k
      → Agrees (acked a) s k
  step-ack a polling k e h = cc (e, h.1)
  step-ack a checked k e h = cc (e, h.1)
  step-ack a (claimed found) k e h = cc (e, h.1)
  step-ack a (writing found) k e h = cc (e, h.1)
  step-ack a (decided found) k e h = cc (ap status_of e, h.1)
  step-ack a _ k e h = absurd h

  step-timeout : (s : Sender) (k : Slots) → Agrees waiting s k → Agrees cancelling s k
  step-timeout polling k h = h
  step-timeout checked k h = h
  step-timeout (claimed found) k h = h
  step-timeout (writing found) k h = h
  step-timeout (decided found) k h = h
  step-timeout _ k h = absurd h

  cancel_requested :
      (k : Slots)
      → k.state ≡ some requested
      → cancel_unaccepted_request absent k ≡ (cancelled, record k { state = some cancelled })
  unfolding cancel_unaccepted_request
  cancel_requested k e = rw (e, cancel_unaccepted_request)

  cancel_answered :
      (found : Bool) (k : Slots)
      → k.state ≡ some (desired found)
      → cancel_unaccepted_request absent k
        ≡ (desired found, record k { state = some (desired found) })
  unfolding cancel_unaccepted_request
  cancel_answered true k e = rw (e, cancel_unaccepted_request)
  cancel_answered false k e = rw (e, cancel_unaccepted_request)

  claim_requested :
      (found : Bool) (k : Slots)
      → k.state ≡ some requested
      → try_transition_state absent requested (desired found) k
        ≡ (desired found, record k { state = some (desired found) })
  unfolding try_transition_state
  claim_requested found k e = rw (e, try_transition_state)

  claim_cancelled :
      (found : Bool) (k : Slots)
      → k.state ≡ some cancelled
      → try_transition_state absent requested (desired found) k
        ≡ (cancelled, record k { state = some cancelled })
  unfolding try_transition_state
  claim_cancelled found k e = rw (e, try_transition_state)

  -- The receiver's cancel, by the sender's progress.
  abbrev Cancelled : Sender → Status × Slots → Type 0
  Cancelled s (status, k) = Agrees (after_cancel status) s k

  step-cancel :
      (s : Sender) (k : Slots)
      → Agrees cancelling s k
      → Cancelled s (cancel_unaccepted_request absent k)
  step-cancel polling k h = rw (cancel_requested k h.0) (refl, h.1)
  step-cancel checked k h = rw (cancel_requested k h.0) (refl, h.1)
  step-cancel (claimed found) k h = rw (cancel_requested k h.0) (refl, h.1)
  step-cancel (writing true) k h = rw (cancel_answered true k h.0) (refl, h.1)
  step-cancel (writing false) k h = rw (cancel_answered false k h.0) (refl, h.1)
  step-cancel (decided true) k h = rw (cancel_answered true k h.0) (refl, h.1)
  step-cancel (decided false) k h = rw (cancel_answered false k h.0) (refl, h.1)
  step-cancel _ k h = absurd h

  step-ack_late :
      (a : NcclTransferAck) (s : Sender) (k : Slots)
      → k.ack ≡ some a
      → Agrees grace s k
      → Agrees (acked a) s k
  step-ack_late a (writing found) k e h = cc (e, h.1)
  step-ack_late a (decided found) k e h = cc (ap status_of e, h.1)
  step-ack_late a _ k e h = absurd h

  step-timeout_again :
      (s : Sender) (k : Slots) → Agrees grace s k → Agrees raised_grace s (delete_rendezvous_keys k)
  step-timeout_again (writing found) k h = tt
  step-timeout_again (decided true) k h = tt
  step-timeout_again (decided false) k h = tt
  step-timeout_again _ k h = absurd h

  step-finish :
      (a : NcclTransferAck) (s : Sender) (k : Slots)
      → Agrees (acked a) s k
      → Agrees (after_ack a.status) s (delete_rendezvous_keys k)
  step-finish a (decided true) k h = rw h tt
  step-finish a (decided false) k h = rw h tt
  step-finish a _ k h = absurd h

  step-see :
      (q : NcclTransferRequest) (r : Receiver) (k : Slots)
      → k.request ≡ some q
      → Polling r k
      → Before r k
  step-see q idle k e h = cc (e, h.0)
  step-see q stated k e h = cc (e, h.1)
  step-see q _ k e h = h

  abbrev Claimed : Receiver → Bool → Status × Slots → Type 0
  Claimed r found (status, k) = Agrees r (after_claim found status) k

  step-transition :
      (found : Bool) (r : Receiver) (k : Slots)
      → Before r k
      → Claimed r found (try_transition_state absent requested (desired found) k)
  step-transition true waiting k h = rw (claim_requested true k h.0) (refl, h.1)
  step-transition false waiting k h = rw (claim_requested false k h.0) (refl, h.1)
  step-transition true cancelling k h = rw (claim_requested true k h.0) (refl, h.1)
  step-transition false cancelling k h = rw (claim_requested false k h.0) (refl, h.1)
  step-transition found raised_cancelled k h = rw (claim_cancelled found k h.0) h.1
  step-transition found _ k h = absurd h

  step-acknowledge :
      (found : Bool) (r : Receiver) (k : Slots) (q : NcclTransferRequest) (message : String)
      (pending : ℕ) (at : Option ℕ)
      → Writing found r k
      → Decided found r (write_ack q (desired found) message pending at k)
  unfolding write_ack
  step-acknowledge found waiting k q m p at h = (h.0, refl)
  step-acknowledge found cancelling k q m p at h = (h.0, refl)
  step-acknowledge found grace k q m p at h = (h.0, refl)
  step-acknowledge true raised_grace k q m p at h = tt
  step-acknowledge false raised_grace k q m p at h = tt
  step-acknowledge found _ k q m p at h = absurd h

  step-clean : (r : Receiver) (k : Slots) → Cleaning r k → Ended r (delete_rendezvous_keys k)
  step-clean raised_cancelled k h = tt
  step-clean _ k h = absurd h

  Step-Agrees :
      {r : Receiver} {s : Sender} {k : Slots} {r' : Receiver} {s' : Sender} {k' : Slots}
      → Step absent r s k r' s' k'
      → Agrees r s k
      → Agrees r' s' k'
  Step-Agrees (set_state {s} {k}) h = step-set_state s k h
  Step-Agrees (set_request {s} {k} q) h = step-set_request q s k h
  Step-Agrees (ack_seen {s} {k} a e) h = step-ack a s k e h
  Step-Agrees (timed_out {s} {k}) h = step-timeout s k h
  Step-Agrees (cancel {s} {k}) h = step-cancel s k h
  Step-Agrees (ack_seen_late {s} {k} a e) h = step-ack_late a s k e h
  Step-Agrees (timed_out_again {s} {k}) h = step-timeout_again s k h
  Step-Agrees (finish {s} {k} a) h = step-finish a s k h
  Step-Agrees (see_request {r} {k} q e) h = step-see q r k e h
  Step-Agrees (claim found) h = h
  Step-Agrees (transition {r} {k} found) h = step-transition found r k h
  Step-Agrees (acknowledge {r} {k} found q m p at) h = step-acknowledge found r k q m p at h
  Step-Agrees (clean {r} {k}) h = step-clean r k h

  pub Reach-Agrees : {r : Receiver} {s : Sender} {k : Slots} → Reach absent r s k → Agrees r s k
  Reach-Agrees start = (refl, refl)
  Reach-Agrees (next r st) = Step-Agrees st (Reach-Agrees r)
