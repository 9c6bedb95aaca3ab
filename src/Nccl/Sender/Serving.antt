-- ===== src/Nccl/Sender/Serving.antt =====
-- transport/nccl/sender.py: one scanned transfer, from the request in the store to the sender's
-- registries, on one thread.
use alpagym.Base.{
  ℕ, ◌==◌, ◌≡◌, refl, subst, ◌∙◌, ap, Bool, true, false, ◌⊎◌, inl, inr, Option, none, some, [], ◌∷◌,
  arith, Bool-cases,
}
use alpagym.Base.Dict.{get, has, put, pop, has-pop_self}
use alpagym.Nccl.Store.{Status, requested, accepted, missing, cancelled, Slots, NcclTransferRequest}
use alpagym.Nccl.Rendezvous.{
  process_request, process_read, decide, handle_missing_payload, handle_present_payload,
  after_missing, after_present, try_transition_state, build_no_send_decision,
}
use alpagym.Nccl.Sender.{
  NcclSender, claim_transfer_snapshot, claim_with, claim_for, drop_claimed_transfer,
  drop_released_marker, handle_post_accept_send_failure, abort, cleared, after_decision, serve,
  serve_request,
}

module _ {T : Type 0} where
  -- One pass over `id` leaves nothing claimed, and ships at most the transfer `id`, which it held.
  abbrev pub Settled : ℕ → NcclSender T → NcclSender T → Type 0
  Settled id s s' =
      (s'.claimed_sends ≡ [])
      × ((s'.nccl_sent ≡ s.nccl_sent)
          ⊎ ((tensors : T) × (s'.nccl_sent ≡ (id, tensors) ∷ s.nccl_sent)
              × (get id s.pending_sends ≡ some tensors)
              × (has id s'.pending_sends ≡ false)))

  after_missing-Settled :
      (q : NcclTransferRequest) (n : ℕ) (sent : Bool) (s : NcclSender T) (x : Status × Slots)
      (id : ℕ)
      → s.claimed_sends ≡ []
      → Settled id s (after_decision id sent (after_missing q n x).0 s)
  unfolding drop_claimed_transfer drop_released_marker build_no_send_decision
  after_missing-Settled q n sent s (missing, k) id h = (h, inl refl)
  after_missing-Settled q n sent s (cancelled, k) id h = (ap (pop q.transfer_id) h, inl refl)
  after_missing-Settled q n sent s (requested, k) id h = (ap (pop id) h, inl refl)
  after_missing-Settled q n sent s (accepted, k) id h = (ap (pop id) h, inl refl)

  pop-put_empty : (id : ℕ) (t : T) → pop id (put id t []) ≡ []
  pop-put_empty id t = ground arith

  failed-Settled :
      (id : ℕ) (s s' : NcclSender T) (o : Option ℕ)
      → s'.nccl_sent ≡ s.nccl_sent
      → Settled id s (abort o (record (cleared s') { comm_idx = none }))
  failed-Settled id s s' none h = (refl, inl h)
  failed-Settled id s s' (some c) h = (refl, inl h)

  abbrev taken : ℕ → T → NcclSender T → NcclSender T
  taken id t s = record s {
    pending_sends = pop id s.pending_sends;
    claimed_sends = put id t s.claimed_sends;
  }

  after_present-Settled :
      (q : NcclTransferRequest) (t : T) (n now : ℕ) (sent : Bool) (s : NcclSender T)
      (x : Status × Slots)
      → s.claimed_sends ≡ []
      → get q.transfer_id s.pending_sends ≡ some t
      → Settled q.transfer_id s (
          after_decision q.transfer_id sent (after_present q t n now x).0 (taken q.transfer_id t s))
  unfolding drop_claimed_transfer drop_released_marker build_no_send_decision
      handle_post_accept_send_failure
  after_present-Settled q t n now true s (accepted, k) h g = (
    ap (λ c. pop q.transfer_id (put q.transfer_id t c)) h ∙ pop-put_empty q.transfer_id t,
    inr (t, refl, g, has-pop_self q.transfer_id s.pending_sends),
  )
  after_present-Settled q t n now false s (accepted, k) h g =
      failed-Settled q.transfer_id s (taken q.transfer_id t s) s.comm_idx refl
  after_present-Settled q t n now sent s (cancelled, k) h g = (
    ap (λ c. pop q.transfer_id (put q.transfer_id t c)) h ∙ pop-put_empty q.transfer_id t,
    inl refl,
  )
  after_present-Settled q t n now sent s (requested, k) h g = (
    ap (λ c. pop q.transfer_id (put q.transfer_id t c)) h ∙ pop-put_empty q.transfer_id t,
    inl refl,
  )
  after_present-Settled q t n now sent s (missing, k) h g = (
    ap (λ c. pop q.transfer_id (put q.transfer_id t c)) h ∙ pop-put_empty q.transfer_id t,
    inl refl,
  )

  module _ (absent : Status) (rollout_idx now : ℕ) (sent : Bool) (s : NcclSender T) (k : Slots)
      (h : s.claimed_sends ≡ []) where
    routed-Settled :
        (q : NcclTransferRequest) (o : Option ℕ) (g : Option T)
        → get q.transfer_id s.pending_sends ≡ g
        → let claim = claim_with q.transfer_id s o g in
          Settled q.transfer_id s
            (after_decision q.transfer_id sent (decide absent q claim.0 now k).0 claim.1)
    unfolding handle_missing_payload handle_present_payload
    routed-Settled q (some c) (some t) e =
        after_present-Settled q t _ now sent s (try_transition_state absent requested accepted k) h
          e
    routed-Settled q none g e =
        after_missing-Settled q _ sent s (try_transition_state absent requested missing k)
          q.transfer_id h
    routed-Settled q (some c) none e =
        after_missing-Settled q _ sent s (try_transition_state absent requested missing k)
          q.transfer_id h

    request-Settled :
        (q : NcclTransferRequest)
        → let claim = claim_for (q.rollout_idx == rollout_idx) q.transfer_id s in
          Settled q.transfer_id s (
            after_decision q.transfer_id sent
              (process_read absent rollout_idx (some q) (λ _. claim.0) now k).0
              claim.1)
    unfolding claim_transfer_snapshot drop_claimed_transfer
    request-Settled q = elim (Bool-cases (q.rollout_idx == rollout_idx)) [
      | inl t ↦ simp t (routed-Settled q s.comm_idx (get q.transfer_id s.pending_sends) refl)
      | inr f ↦ simp f (ap (pop q.transfer_id) h, inl refl)
    ]

  module _ (absent : Status) (rollout_idx now : ℕ) (sent : Bool) (s : NcclSender T) (k : Slots)
      (transfer_id : ℕ) where
    -- One pass of the loop over a scanned transfer, alone on the sender, with nothing claimed before
    -- and a request that, if there is one, names that transfer: nothing stays claimed, whatever the decision, an exception or the send's outcome;
    -- and at most the payload held for that transfer is shipped, which is then held no longer.
    pub serve-Settled :
        s.claimed_sends ≡ []
        → ((q : NcclTransferRequest) → k.request ≡ some q → q.transfer_id ≡ transfer_id)
        → Settled transfer_id s (serve absent rollout_idx now sent transfer_id s k).0
    unfolding serve process_request
    serve-Settled h own = by_request k.request own
      where
        by_request :
            (o : Option NcclTransferRequest)
            → ((q : NcclTransferRequest) → o ≡ some q → q.transfer_id ≡ transfer_id)
            → Settled transfer_id s
                (serve_request absent rollout_idx now sent transfer_id o s
                  (record k { request = o })).0
        by_request none named = (h, inl refl)
        by_request (some q) named =
            subst
              (λ i.
                Settled i s
                  (serve_request absent rollout_idx now sent i (some q) s
                    (record k { request = some q })).0)
              (named q refl)
              (request-Settled absent rollout_idx now sent s (record k { request = some q }) h q)
