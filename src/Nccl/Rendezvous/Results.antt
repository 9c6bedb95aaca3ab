-- ===== src/Nccl/Rendezvous/Results.antt =====
-- transport/nccl/rendezvous.py: how a handshake can end for its two threads.
use alpagym.Base.{
  ℕ, ◌≡◌, ◌≢◌, refl, Bool, true, false, Option, none, some, ◌==◌, ◌⊎◌, inl, inr, Bool-cases,
}
use alpagym.Base.Outcome.{ok, raise}
use alpagym.Nccl.Store.{
  Status, requested, accepted, missing, cancelled, NcclTransferRequest, NcclTransferAck, Slots,
  empty, same_status,
}
use alpagym.Nccl.Rendezvous.{
  Decides, process_request, compare_set, decide, process_read, after_missing, after_present,
  handle_missing_payload, handle_present_payload, try_transition_state, write_ack,
  build_no_send_decision,
}
use alpagym.Nccl.Rendezvous.Handshake.{
  Receiver, returned, raised_cancelled, raised_status, Sender, polling, checked, claimed, writing,
  cleaning, decided, decided_cancelled, raised_unexpected, Reach,
}
use alpagym.Nccl.Rendezvous.Agreement.{Agrees, Reach-Agrees}

-- The sender has accepted the transfer: it is about to write that ACK, or it will send.
abbrev pub accepts : Sender → Bool
accepts (writing found) = found
accepts (decided found) = found
accepts _ = false

returned_case : (s : Sender) (k : Slots) → Agrees returned s k → s ≡ decided true
returned_case (decided true) k h = refl
returned_case (decided false) k h = absurd h
returned_case polling k h = absurd h
returned_case checked k h = absurd h
returned_case (claimed found) k h = absurd h
returned_case (writing found) k h = absurd h
returned_case cleaning k h = absurd h
returned_case decided_cancelled k h = absurd h
returned_case raised_unexpected k h = absurd h

cancelled_case : (s : Sender) (k : Slots) → Agrees raised_cancelled s k → accepts s ≡ false
cancelled_case polling k h = refl
cancelled_case checked k h = refl
cancelled_case (claimed found) k h = refl
cancelled_case (writing found) k h = absurd h
cancelled_case cleaning k h = refl
cancelled_case (decided found) k h = absurd h
cancelled_case decided_cancelled k h = refl
cancelled_case raised_unexpected k h = refl

status_case :
    (status : Status) (s : Sender) (k : Slots)
    → Agrees (raised_status status) s k
    → (status ≡ missing) × (s ≡ decided false)
status_case missing (decided false) k h = (refl, refl)
status_case requested (decided false) k h = absurd h
status_case accepted (decided false) k h = absurd h
status_case cancelled (decided false) k h = absurd h
status_case status (decided true) k h = absurd h
status_case status polling k h = absurd h
status_case status checked k h = absurd h
status_case status (claimed found) k h = absurd h
status_case status (writing found) k h = absurd h
status_case status cleaning k h = absurd h
status_case status decided_cancelled k h = absurd h
status_case status raised_unexpected k h = absurd h

never_case : (r : Receiver) (s : Sender) (k : Slots) → Agrees r s k → s ≢ raised_unexpected
never_case r polling k h e = cc e
never_case r checked k h e = cc e
never_case r (claimed found) k h e = cc e
never_case r (writing found) k h e = cc e
never_case r cleaning k h e = cc e
never_case r (decided found) k h e = cc e
never_case r decided_cancelled k h e = cc e
never_case r raised_unexpected k h e = h

module _ (absent : Status) (k : Slots) where
  -- In every interleaving of the two threads, a receiver that returns from `request_ack` faces a
  -- sender that has decided to send.
  pub returned-sends : (s : Sender) → Reach absent returned s k → s ≡ decided true
  returned-sends s r = returned_case s k (Reach-Agrees absent r)

  -- In every interleaving, a sender that accepts the transfer never faces a receiver that has
  -- cancelled it: the receiver's compare-and-set either wins before the sender's or reads
  -- the sender's answer.
  pub cancelled-never_accepted :
      (s : Sender) → Reach absent raised_cancelled s k → accepts s ≡ false
  cancelled-never_accepted s r = cancelled_case s k (Reach-Agrees absent r)

  -- In every interleaving, an ACK that makes `request_ack` raise says that the payload is missing,
  -- and then the sender has decided not to send.
  pub refused-missing :
      (status : Status) (s : Sender)
      → Reach absent (raised_status status) s k
      → (status ≡ missing) × (s ≡ decided false)
  refused-missing status s r = status_case status s k (Reach-Agrees absent r)

  -- In every interleaving, the sender's "unexpected rendezvous state" error is not raised.
  pub never_unexpected : (r : Receiver) (s : Sender) → Reach absent r s k → s ≢ raised_unexpected
  never_unexpected r s h = never_case r s k (Reach-Agrees absent h)

-- A compare_set on a key that is there returns what the key holds afterwards.
compare_set-holds :
    (absent : Status) (o : Option Status) (e d s : Status)
    → o ≢ none
    → (compare_set absent o e d).0 ≡ s
    → (compare_set absent o e d).1 ≡ some s
compare_set-holds absent none e d s h eq = absurd (h refl)
compare_set-holds absent (some c) e d s h eq = elim (Bool-cases (same_status c e)) [
  | inl t ↦ cc (t, eq)
  | inr f ↦ cc (f, eq)
]

module _ {T : Type 0} where
  abbrev pub carries : Status → Option T → Bool
  carries accepted (some t) = true
  carries missing none = true
  carries _ _ = false

  -- The answer that the store holds is the decision that the caller got.
  abbrev pub IsAnswered : Slots → Decides T → Type 0
  IsAnswered k (raise e, k') = (k'.ack ≡ k.ack) × (k'.request ≡ k.request)
  IsAnswered k (ok d, k') =
      ((d.status ≡ cancelled) × (d.tensors_map ≡ none) × (k' ≡ empty))
      ⊎ ((carries d.status d.tensors_map ≡ true)
          × (k'.state ≡ some d.status)
          × ((a : NcclTransferAck) × (k'.ack ≡ some a)
              × (a.status ≡ d.status)
              × (a.request_id ≡ d.request_id)
              × (a.transfer_id ≡ d.transfer_id)
              × (a.pending_count ≡ d.pending_count)))

  after_missing-IsAnswered :
      (d : Option T) (q : NcclTransferRequest) (n : ℕ) (k : Slots) (status : Status)
      (state : Option Status)
      → (status ≡ missing → state ≡ some missing)
      → IsAnswered k (after_missing {T = T} q n (status, record k { state = state }))
  unfolding write_ack build_no_send_decision
  after_missing-IsAnswered d q n k missing state h =
      inr (refl, h refl, (_, refl, refl, refl, refl, refl))
  after_missing-IsAnswered d q n k cancelled state h = inl (refl, refl, refl)
  after_missing-IsAnswered d q n k requested state h = (refl, refl)
  after_missing-IsAnswered d q n k accepted state h = (refl, refl)

  after_present-IsAnswered :
      (q : NcclTransferRequest) (t : T) (n now : ℕ) (k : Slots) (status : Status)
      (state : Option Status)
      → (status ≡ accepted → state ≡ some accepted)
      → IsAnswered k (after_present q t n now (status, record k { state = state }))
  unfolding write_ack build_no_send_decision
  after_present-IsAnswered q t n now k accepted state h =
      inr (refl, h refl, (_, refl, refl, refl, refl, refl))
  after_present-IsAnswered q t n now k cancelled state h = inl (refl, refl, refl)
  after_present-IsAnswered q t n now k requested state h = (refl, refl)
  after_present-IsAnswered q t n now k missing state h = (refl, refl)

  module _ (absent : Status) (q : NcclTransferRequest) (k : Slots) (h : k.state ≢ none) where
    decide-IsAnswered :
        (now : ℕ) (claimed : Option T × ℕ) → IsAnswered k (decide absent q claimed now k)
    unfolding handle_missing_payload handle_present_payload try_transition_state
    decide-IsAnswered now (none, n) =
        after_missing-IsAnswered none q n k _ _
          (compare_set-holds absent k.state requested missing missing h)
    decide-IsAnswered now (some t, n) =
        after_present-IsAnswered q t n now k _ _
          (compare_set-holds absent k.state requested accepted accepted h)

  -- When the state key is there, `process_request` either raises and leaves request and ACK as
  -- they were, or finds the transfer cancelled and deletes its keys, or returns a decision that
  -- carries the payload exactly if it accepts, with a state key and an ACK in the store that say
  -- the same as the decision.
  pub process_request-IsAnswered :
      (absent : Status) (rollout_idx : ℕ) (claim : ℕ → Option T × ℕ) (now : ℕ) (k : Slots)
      → k.state ≢ none
      → IsAnswered k (process_request absent rollout_idx claim now k)
  unfolding process_request
  process_request-IsAnswered absent i claim now k h = read k.request refl
    where
      read :
          (o : Option NcclTransferRequest)
          → k.request ≡ o
          → IsAnswered k (process_read absent i o claim now k)
      read none e = (refl, refl)
      read (some q) e = elim (Bool-cases (q.rollout_idx == i)) [
        | inl t ↦ simp t (decide-IsAnswered absent q k h now (claim q.transfer_id))
        | inr f ↦ simp f (refl, refl)
      ]
