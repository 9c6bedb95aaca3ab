-- ===== src/Nccl/Rendezvous/Handshake.antt =====
-- transport/nccl/rendezvous.py: the receiver's `request_ack` and the sender's `process_request` for
-- one transfer, as two threads whose store operations interleave in any order.
use alpagym.Base.{ℕ, ◌≡◌, String, Bool, true, false, Option, some}
use alpagym.Nccl.Store.{
  Status, requested, accepted, missing, cancelled, NcclTransferRequest, NcclTransferAck, Slots,
  empty,
}
use alpagym.Nccl.Rendezvous.{
  try_transition_state, cancel_unaccepted_request, publish_state, publish_request, write_ack,
  delete_rendezvous_keys,
}

-- Where `request_ack` stands: before its first write; between the two writes of
-- `_publish_request`; in the first wait; timed out and about to cancel; in the second wait; the
-- ACK read. Then how it ended: returned, or raised after its own cancel, after the second wait,
-- or for the status of the ACK.
pub data Receiver : Type 0 where
  idle stated waiting cancelling grace : Receiver
  acked : NcclTransferAck → Receiver
  returned raised_cancelled raised_grace : Receiver
  raised_status : Status → Receiver

-- Where `process_request` stands: the request key not seen; seen; the payload claimed or not;
-- about to write the ACK of that status; about to delete the keys. Then how it ended.
pub data Sender : Type 0 where
  polling checked : Sender
  claimed : (found : Bool) → Sender
  writing : (found : Bool) → Sender
  cleaning : Sender
  decided : (found : Bool) → Sender
  decided_cancelled raised_unexpected : Sender

-- The state that a sender asks for, by whether it owns the payload.
abbrev pub desired : Bool → Status
desired true = accepted
desired false = missing

abbrev pub after_cancel : Status → Receiver
after_cancel cancelled = raised_cancelled
after_cancel _ = grace

abbrev pub after_ack : Status → Receiver
after_ack accepted = returned
after_ack status = raised_status status

-- What the state after the sender's compare_set leads to.
abbrev pub after_claim : Bool → Status → Sender
after_claim found cancelled = cleaning
after_claim true accepted = writing true
after_claim false missing = writing false
after_claim found _ = raised_unexpected

pub data Step (absent : Status)
    : Receiver → Sender → Slots → Receiver → Sender → Slots → Type 0 where
  set_state : {s : Sender} {k : Slots} → Step absent idle s k stated s (publish_state k)
  set_request :
      {s : Sender} {k : Slots} (r : NcclTransferRequest)
      → Step absent stated s k waiting s (publish_request r k)
  ack_seen :
      {s : Sender} {k : Slots} (a : NcclTransferAck)
      → k.ack ≡ some a
      → Step absent waiting s k (acked a) s k
  timed_out : {s : Sender} {k : Slots} → Step absent waiting s k cancelling s k
  cancel :
      {s : Sender} {k : Slots}
      → Step absent cancelling s k
          (after_cancel (cancel_unaccepted_request absent k).0)
          s
          (cancel_unaccepted_request absent k).1
  ack_seen_late :
      {s : Sender} {k : Slots} (a : NcclTransferAck)
      → k.ack ≡ some a
      → Step absent grace s k (acked a) s k
  timed_out_again :
      {s : Sender} {k : Slots} → Step absent grace s k raised_grace s (delete_rendezvous_keys k)
  finish :
      {s : Sender} {k : Slots} (a : NcclTransferAck)
      → Step absent (acked a) s k (after_ack a.status) s (delete_rendezvous_keys k)
  see_request :
      {r : Receiver} {k : Slots} (q : NcclTransferRequest)
      → k.request ≡ some q
      → Step absent r polling k r checked k
  claim : {r : Receiver} {k : Slots} (found : Bool) → Step absent r checked k r (claimed found) k
  transition :
      {r : Receiver} {k : Slots} (found : Bool)
      → Step absent r
          (claimed found)
          k
          r
          (after_claim found (try_transition_state absent requested (desired found) k).0)
          (try_transition_state absent requested (desired found) k).1
  acknowledge :
      {r : Receiver} {k : Slots} (found : Bool) (q : NcclTransferRequest) (message : String)
      (pending : ℕ) (at : Option ℕ)
      → Step absent r
          (writing found)
          k
          r
          (decided found)
          (write_ack q (desired found) message pending at k)
  clean :
      {r : Receiver} {k : Slots}
      → Step absent r cleaning k r decided_cancelled (delete_rendezvous_keys k)

pub data Reach (absent : Status) : Receiver → Sender → Slots → Type 0 where
  start : Reach absent idle polling empty
  next :
      {r r' : Receiver} {s s' : Sender} {k k' : Slots}
      → Reach absent r s k
      → Step absent r s k r' s' k'
      → Reach absent r' s' k'
