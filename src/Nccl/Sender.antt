-- ===== src/Nccl/Sender.antt =====
-- transport/nccl/sender.py: the registries of `NcclSender`, each critical section one function.
-- A transfer id stands as a number, in the order that `sorted` gives its hex text; `T` is the type
-- of a tensor map. A handle is taken as normalised, as `normalize_nccl_handle` leaves it.
pub mod Invariant
pub mod Serving
use alpagym.Base.{
  ℕ, ◌+◌, ◌-◌, ◌==◌, ltb, leb, Bool, true, false, not, ◌&&◌, ◌||◌, Option, none, some, List, [],
  ◌∷◌, ◌++◌, map, if◌then◌else◌, length,
}
use alpagym.Base.Outcome.{Outcome, ok, raise}
use alpagym.Base.Dict.{Dict, get, has, put, pop}
use alpagym.Nccl.Store.{Status, accepted, missing, cancelled, Slots, NcclTransferRequest}
use alpagym.Nccl.Rendezvous.{SendDecision, Decides, process_request}

-- `NcclSenderConfig`, in milliseconds; the retention `none` stands for a negative one.
pub record NcclSenderConfig : Type 0 where
  pub max_pending_transfers : ℕ
  pub released_transfer_retention : Option ℕ

-- Why a transfer is released; `other` covers every other text.
pub data ReleaseReason : Type 0 where
  read_complete metadata_publish_error rendezvous_cancelled other : ReleaseReason

pub data SendError : Type 0 where
  not_initialized registry_full : SendError

-- `nccl_sent` and `aborted` record the calls of `nccl_send` and `nccl_abort`.
pub record NcclSender (T : Type 0) : Type 0 where
  pub comm_idx : Option ℕ
  pub pending_sends : Dict T
  pub claimed_sends : Dict T
  pub released_transfers : Dict ℕ
  pub nccl_sent : List (ℕ × T)
  pub aborted : List ℕ

-- `assign_rollout_idx` on the shared counter: the id, and the counter afterwards.
unfoldable pub assign_rollout_idx : ℕ → ℕ → Outcome ℕ ℕ × ℕ
assign_rollout_idx num_rollout_replicas counter =
    let rollout_idx = (counter + 1) - 1 in
    if leb num_rollout_replicas rollout_idx
    then (raise rollout_idx, (counter + 1) - 1)
    else (ok rollout_idx, counter + 1)

abbrev pub expire : ℕ → Dict ℕ → Dict ℕ
expire cutoff [] = []
expire cutoff ((id, released_at) ∷ d) =
    let rest = expire cutoff d in if ltb released_at cutoff then rest else (id, released_at) ∷ rest

-- A set of ids as `sorted` lists it.
abbrev pub insert : ℕ → List ℕ → List ℕ
insert a [] = a ∷ []
insert a (b ∷ l) =
    let rest = insert a l in if ltb a b then a ∷ b ∷ l else if a == b then b ∷ l else b ∷ rest

abbrev pub insert_keys : {V : Type 0} → Dict V → List ℕ → List ℕ
insert_keys [] l = l
insert_keys ((id, v) ∷ d) l = insert id (insert_keys d l)

-- `_release_needs_discard_marker`
unfoldable pub release_needs_discard_marker : ReleaseReason → Bool
release_needs_discard_marker read_complete = false
release_needs_discard_marker metadata_publish_error = false
release_needs_discard_marker rendezvous_cancelled = false
release_needs_discard_marker other = true

abbrev pub marked : Bool → ℕ → ℕ → Dict ℕ → Dict ℕ
marked true transfer_id now d = put transfer_id now d
marked false transfer_id now d = d

module _ {T : Type 0} where
  abbrev pub registered : ℕ → T → NcclSender T → NcclSender T
  registered transfer_id tensors s = record s {
    pending_sends = put transfer_id tensors s.pending_sends;
    released_transfers = pop transfer_id s.released_transfers;
  }

  abbrev pub send_with :
      NcclSenderConfig → T → ℕ → NcclSender T → Option ℕ → Outcome SendError (NcclSender T)
  send_with config tensors transfer_id s none = raise not_initialized
  send_with config tensors transfer_id s (some comm) =
      if ltb 0 config.max_pending_transfers
        && (not (has transfer_id s.pending_sends)
            && leb config.max_pending_transfers (length s.pending_sends))
      then raise registry_full
      else ok (registered transfer_id tensors s)

  -- `send`: a call that raises leaves the sender as it was.
  unfoldable pub send : NcclSenderConfig → T → ℕ → NcclSender T → Outcome SendError (NcclSender T)
  send config tensors transfer_id s = send_with config tensors transfer_id s s.comm_idx

  -- `not self._claimed_sends`, which `wait_until_drained` polls.
  abbrev pub drained : Dict T → Bool
  drained [] = true
  drained (c ∷ d) = false

  -- `wait_until_drained`, on the claimed registry at each poll and at the last look.
  unfoldable pub wait_until_drained : List (Dict T) → Dict T → Bool
  wait_until_drained [] last = drained last
  wait_until_drained (c ∷ polls) last =
      let rest = wait_until_drained polls last in if drained c then true else rest

  abbrev pub abort : Option ℕ → NcclSender T → NcclSender T
  abort none s = s
  abort (some comm) s = record s { aborted = comm ∷ s.aborted }

  abbrev pub cleared : NcclSender T → NcclSender T
  cleared s = record s { pending_sends = []; claimed_sends = []; released_transfers = [] }

  -- `close`
  unfoldable pub close : NcclSender T → NcclSender T
  close s = abort s.comm_idx (cleared s)

  -- `_request_scan_ids`
  unfoldable pub request_scan_ids : NcclSender T → List ℕ
  request_scan_ids s = insert_keys s.pending_sends (insert_keys s.released_transfers [])

  abbrev pub gc_with : Option ℕ → ℕ → NcclSender T → NcclSender T
  gc_with none now s = s
  gc_with (some retention) now s = record s {
    released_transfers = expire (now - retention) s.released_transfers;
  }

  -- `_gc_released_transfers`; a cutoff below 0 expires nothing, as a cutoff of 0 does.
  unfoldable pub gc_released_transfers : NcclSenderConfig → ℕ → NcclSender T → NcclSender T
  gc_released_transfers config now s = gc_with config.released_transfer_retention now s

  abbrev pub claim_with : ℕ → NcclSender T → Option ℕ → Option T → (Option T × ℕ) × NcclSender T
  claim_with transfer_id s (some comm) (some tensors) = (
    (some tensors, length s.pending_sends),
    record s {
      pending_sends = pop transfer_id s.pending_sends;
      claimed_sends = put transfer_id tensors s.claimed_sends;
    },
  )
  claim_with transfer_id s _ _ = ((none, length s.pending_sends), s)

  -- `_claim_transfer_snapshot`, without its preview for the log.
  unfoldable pub claim_transfer_snapshot : ℕ → NcclSender T → (Option T × ℕ) × NcclSender T
  claim_transfer_snapshot transfer_id s =
      claim_with transfer_id s s.comm_idx (get transfer_id s.pending_sends)

  -- `_complete_claimed_transfer` and `_drop_claimed_transfer`, which differ in the log only.
  unfoldable pub drop_claimed_transfer : ℕ → NcclSender T → NcclSender T
  drop_claimed_transfer transfer_id s = record s { claimed_sends = pop transfer_id s.claimed_sends }

  -- `_drop_released_marker`
  unfoldable pub drop_released_marker : ℕ → NcclSender T → NcclSender T
  drop_released_marker transfer_id s = record s {
    released_transfers = pop transfer_id s.released_transfers;
  }

  -- `_handle_post_accept_send_failure`
  unfoldable pub handle_post_accept_send_failure : NcclSender T → NcclSender T
  handle_post_accept_send_failure s = abort s.comm_idx (record (cleared s) { comm_idx = none })

  abbrev pub release_with : Bool → Bool → ℕ → ℕ → NcclSender T → NcclSender T
  release_with false needs transfer_id now s = s
  release_with true needs transfer_id now s = record s {
    pending_sends = pop transfer_id s.pending_sends;
    released_transfers = marked needs transfer_id now s.released_transfers;
  }

  -- `release`
  unfoldable pub release : ℕ → ReleaseReason → ℕ → NcclSender T → Bool × NcclSender T
  unfolding release_needs_discard_marker
  release transfer_id reason now s = (
    has transfer_id s.pending_sends || has transfer_id s.claimed_sends,
    release_with (has transfer_id s.pending_sends) (release_needs_discard_marker reason) transfer_id
        now s,
  )

  -- What the loop does with a decision on `transfer_id`, or with an exception; `sent` says
  -- whether `_send_registered_transfer` gets all tensors across.
  abbrev pub act_on : Status → Option T → ℕ → Bool → NcclSender T → NcclSender T
  act_on accepted (some tensors) id true s = record (drop_claimed_transfer id s) {
    nccl_sent = (id, tensors) ∷ s.nccl_sent;
  }
  act_on accepted (some tensors) id false s = handle_post_accept_send_failure s
  act_on cancelled _ id sent s = drop_released_marker id (drop_claimed_transfer id s)
  act_on missing _ id sent s = drop_released_marker id s
  act_on _ _ id sent s = s

  abbrev pub after_decision :
      {E : Type 0} → ℕ → Bool → Outcome E (SendDecision T) → NcclSender T → NcclSender T
  after_decision transfer_id sent (raise e) s = drop_claimed_transfer transfer_id s
  after_decision transfer_id sent (ok d) s = act_on d.status d.tensors_map d.transfer_id sent s

  -- What the claim made inside `process_request` returns and leaves, for a request `q`.
  abbrev pub claim_for : Bool → ℕ → NcclSender T → (Option T × ℕ) × NcclSender T
  claim_for true id s = claim_transfer_snapshot id s
  claim_for false id s = ((none, 0), s)

  abbrev pub serve_request :
      Status
      → ℕ
      → ℕ
      → Bool
      → ℕ
      → Option NcclTransferRequest
      → NcclSender T
      → Slots
      → NcclSender T × Slots
  serve_request absent rollout_idx now sent transfer_id none s k = (s, k)
  serve_request absent rollout_idx now sent transfer_id (some q) s k =
      let claim = claim_for (q.rollout_idx == rollout_idx) q.transfer_id s in
      let answer = process_request absent rollout_idx (λ _. claim.0) now k in
      (after_decision transfer_id sent answer.0 claim.1, answer.1)

  -- The loop's body for one scanned id.
  unfoldable pub serve : Status → ℕ → ℕ → Bool → ℕ → NcclSender T → Slots → NcclSender T × Slots
  serve absent rollout_idx now sent transfer_id s k =
      serve_request absent rollout_idx now sent transfer_id k.request s k
