-- ===== src/Nccl/Store.antt =====
-- transport/nccl/protocol.py: the messages of one transfer, and the three TCPStore keys that hold
-- them (`build_state_key`, `build_req_key`, `build_ack_key`), as one record of slots.
-- The values are stored typed: the JSON text that carries them is left out.
use alpagym.Base.{ℕ, Bool, true, false, Option, none, String}

-- `NCCL_RENDEZVOUS_REQUESTED` and the other three states.
pub data Status : Type 0 where
  requested accepted missing cancelled : Status

abbrev pub same_status : Status → Status → Bool
same_status requested requested = true
same_status accepted accepted = true
same_status missing missing = true
same_status cancelled cancelled = true
same_status _ _ = false

-- `NcclTransferRequest`
pub record NcclTransferRequest : Type 0 where
  pub request_id : ℕ
  pub transfer_id : ℕ
  pub requester_rank : ℕ
  pub rollout_idx : ℕ
  pub deadline_ms : ℕ
  pub state : Status

-- `NcclTransferAck`
pub record NcclTransferAck : Type 0 where
  pub request_id : ℕ
  pub transfer_id : ℕ
  pub status : Status
  pub message : String
  pub pending_count : ℕ
  pub accepted_at_ms : Option ℕ

pub record Slots : Type 0 where
  pub state : Option Status
  pub request : Option NcclTransferRequest
  pub ack : Option NcclTransferAck

abbrev pub empty : Slots
empty = record { state = none; request = none; ack = none }
