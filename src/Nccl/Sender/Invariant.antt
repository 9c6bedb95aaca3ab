-- ===== src/Nccl/Sender/Invariant.antt =====
-- transport/nccl/sender.py: what every sequence of critical sections keeps.
use alpagym.Base.{
  ℕ, ◌-◌, ◌≤◌, ◌<◌, ltb, leb, ◌≡◌, ◌≢◌, refl, ap, sym, ◌∙◌, Bool, true, false, not, ◌&&◌, Option,
  none, some, List, [], ◌∷◌, length, arith, Bool-cases, inl, inr, ℕ_discrete,
}
use alpagym.Base.Outcome.{Outcome, ok, raise}
use alpagym.Base.Dict.{
  Dict, get, has, put, pop, has-pop_self, has-pop_ne, has-put_ne, length-pop, length-put,
  length-put-has,
}
use alpagym.Nccl.Sender.{
  NcclSenderConfig, ReleaseReason, SendError, not_initialized, marked, release_with,
  release_needs_discard_marker, gc_with, abort, cleared, NcclSender, send, close,
  gc_released_transfers, claim_transfer_snapshot, drop_claimed_transfer, drop_released_marker,
  handle_post_accept_send_failure, release, expire, claim_with, send_with,
}

-- A critical section of the sender, on whatever thread it runs.
pub data Op (T : Type 0) : Type 0 where
  setup_op : (comm : ℕ) → Op T
  send_op : (tensors : T) (transfer_id : ℕ) → Op T
  claim_op drop_claimed_op drop_released_op : (transfer_id : ℕ) → Op T
  fail_op close_op : Op T
  gc_op : (now : ℕ) → Op T
  release_op : (transfer_id : ℕ) (reason : ReleaseReason) (now : ℕ) → Op T

module _ {T : Type 0} where
  abbrev kept : NcclSender T → Outcome SendError (NcclSender T) → NcclSender T
  kept s (ok s') = s'
  kept s (raise e) = s

  unfoldable pub apply : NcclSenderConfig → Op T → NcclSender T → NcclSender T
  apply cfg (setup_op comm) s = record s { comm_idx = some comm }
  apply cfg (send_op tensors id) s = kept s (send cfg tensors id s)
  apply cfg (claim_op id) s = (claim_transfer_snapshot id s).1
  apply cfg (drop_claimed_op id) s = drop_claimed_transfer id s
  apply cfg (drop_released_op id) s = drop_released_marker id s
  apply cfg fail_op s = handle_post_accept_send_failure s
  apply cfg close_op s = close s
  apply cfg (gc_op now) s = gc_released_transfers cfg now s
  apply cfg (release_op id reason now) s = (release id reason now s).1

  unfoldable pub run : NcclSenderConfig → List (Op T) → NcclSender T → NcclSender T
  run cfg [] s = s
  run cfg (op ∷ ops) s = run cfg ops (apply cfg op s)

-- No transfer is held and marked as discarded at once.
abbrev pub Exclusive : {T : Type 0} → Dict T → Dict ℕ → Type 0
Exclusive p r = (id : ℕ) → has id p ≡ true → has id r ≡ false

has-expire : (cutoff id : ℕ) (d : Dict ℕ) → has id d ≡ false → has id (expire cutoff d) ≡ false
has-expire cutoff id [] h = refl
has-expire cutoff id ((j, t) ∷ d) h = ground (arith, has-expire cutoff id d)

has-pop-false : (k id : ℕ) (d : Dict ℕ) → has id d ≡ false → has id (pop k d) ≡ false
has-pop-false k id d h = elim (ℕ_discrete k id) [
  | yes e ↦ cc (e, has-pop_self k d)
  | no n ↦ has-pop_ne k id d n ∙ h
]

module _ {T : Type 0} where
  has-pop-true : (k id : ℕ) (p : Dict T) → has id (pop k p) ≡ true → (k ≢ id) × (has id p ≡ true)
  has-pop-true k id p h = elim (ℕ_discrete k id) [
    | yes e ↦ absurd (cc (e, h, has-pop_self k p))
    | no n ↦ (n, cc (h, has-pop_ne k id p n))
  ]

  Exclusive-put :
      (k : ℕ) (t : T) (p : Dict T) (r : Dict ℕ) → Exclusive p r → Exclusive (put k t p) (pop k r)
  Exclusive-put k t p r h id held = elim (ℕ_discrete k id) [
    | yes e ↦ rw⁻¹ e (has-pop_self k r)
    | no n ↦ has-pop_ne k id r n ∙ h id (sym (has-put_ne k id t p n) ∙ held)
  ]

  Exclusive-marked :
      (b : Bool) (k now : ℕ) (p : Dict T) (r : Dict ℕ)
      → Exclusive p r
      → Exclusive (pop k p) (marked b k now r)
  Exclusive-marked true k now p r h id held =
      let (n, old) = has-pop-true k id p held in has-put_ne k id now r n ∙ h id old
  Exclusive-marked false k now p r h id held = h id (has-pop-true k id p held).1

  record IsValid (cfg : NcclSenderConfig) (s : NcclSender T) : Type 0 where
    exclusive : Exclusive s.pending_sends s.released_transfers
    bounded : 0 < cfg.max_pending_transfers → length s.pending_sends ≤ cfg.max_pending_transfers
    poisoned : s.comm_idx ≡ none → (s.pending_sends ≡ []) × (s.claimed_sends ≡ [])

  module _ (cfg : NcclSenderConfig) (s : NcclSender T) where
    send_bound :
        (t : T) (id : ℕ)
        → (ltb 0 cfg.max_pending_transfers
            && (not (has id s.pending_sends)
                && leb cfg.max_pending_transfers (length s.pending_sends)))
          ≡ false
        → (0 < cfg.max_pending_transfers → length s.pending_sends ≤ cfg.max_pending_transfers)
        → 0 < cfg.max_pending_transfers
        → length (put id t s.pending_sends) ≤ cfg.max_pending_transfers
    send_bound t id h b pos = elim (Bool-cases (has id s.pending_sends)) [
      | inl e ↦ omega (arith, length-put-has id t s.pending_sends e, b pos)
      | inr e ↦ ground (arith, length-put id t s.pending_sends, e, h)
    ]

    send-IsValid : (t : T) (id : ℕ) → IsValid cfg s → IsValid cfg (kept s (send cfg t id s))
    unfolding send
    send-IsValid t id v = by_comm s.comm_idx refl
      where
        by_comm : (o : Option ℕ) → s.comm_idx ≡ o → IsValid cfg (kept s (send_with cfg t id s o))
        by_comm none e = v
        by_comm (some c) e =
            elim (Bool-cases (
              ltb 0 cfg.max_pending_transfers
              && (not (has id s.pending_sends)
                  && leb cfg.max_pending_transfers (length s.pending_sends)))) [
                    | inl full ↦ simp full v
                    | inr room ↦ simp room (record {
                      exclusive =
                          Exclusive-put id t s.pending_sends s.released_transfers v.exclusive;
                      bounded = send_bound t id room v.bounded;
                      poisoned = λ n. cc (e, n);
                    })
                  ]

    claim-IsValid : (id : ℕ) → IsValid cfg s → IsValid cfg (claim_transfer_snapshot id s).1
    unfolding claim_transfer_snapshot
    claim-IsValid id v = by_claim s.comm_idx (get id s.pending_sends) refl
      where
        by_claim :
            (o : Option ℕ) (g : Option T) → s.comm_idx ≡ o → IsValid cfg (claim_with id s o g).1
        by_claim none g e = v
        by_claim (some c) none e = v
        by_claim (some c) (some t) e = record {
          exclusive = λ i held. v.exclusive i (has-pop-true id i s.pending_sends held).1;
          bounded = λ pos. omega (arith, length-pop id s.pending_sends, v.bounded pos);
          poisoned = λ n. cc (e, n);
        }

    drop_claimed-IsValid : (id : ℕ) → IsValid cfg s → IsValid cfg (drop_claimed_transfer id s)
    unfolding drop_claimed_transfer
    drop_claimed-IsValid id v = record {
      exclusive = v.exclusive;
      bounded = v.bounded;
      poisoned = λ n. let (p, c) = v.poisoned n in (p, ap (pop id) c);
    }

    drop_released-IsValid : (id : ℕ) → IsValid cfg s → IsValid cfg (drop_released_marker id s)
    unfolding drop_released_marker
    drop_released-IsValid id v = record {
      exclusive = λ i held. has-pop-false id i s.released_transfers (v.exclusive i held);
      bounded = v.bounded;
      poisoned = v.poisoned;
    }

    cleared-IsValid :
        (o : Option ℕ) (c : Option ℕ) → IsValid cfg (abort o (record (cleared s) { comm_idx = c }))
    cleared-IsValid none c = record {
      exclusive = λ i held. refl;
      bounded = λ pos. omega arith;
      poisoned = λ n. (refl, refl);
    }
    cleared-IsValid (some a) c = record {
      exclusive = λ i held. refl;
      bounded = λ pos. omega arith;
      poisoned = λ n. (refl, refl);
    }

    fail-IsValid : IsValid cfg (handle_post_accept_send_failure s)
    unfolding handle_post_accept_send_failure
    fail-IsValid = cleared-IsValid s.comm_idx none

    close-IsValid : IsValid cfg (close s)
    unfolding close
    close-IsValid = cleared-IsValid s.comm_idx s.comm_idx

    gc-IsValid : (now : ℕ) → IsValid cfg s → IsValid cfg (gc_released_transfers cfg now s)
    unfolding gc_released_transfers
    gc-IsValid now v = by_retention cfg.released_transfer_retention
      where
        by_retention : (o : Option ℕ) → IsValid cfg (gc_with o now s)
        by_retention none = v
        by_retention (some r) = record {
          exclusive = λ i held. has-expire (now - r) i s.released_transfers (v.exclusive i held);
          bounded = v.bounded;
          poisoned = v.poisoned;
        }

    release-IsValid :
        (id : ℕ) (reason : ReleaseReason) (now : ℕ)
        → IsValid cfg s
        → IsValid cfg (release id reason now s).1
    unfolding release
    release-IsValid id reason now v = by_held (has id s.pending_sends)
      where
        by_held :
            (b : Bool) → IsValid cfg (release_with b (release_needs_discard_marker reason) id now s)
        by_held false = v
        by_held true = record {
          exclusive =
              Exclusive-marked (release_needs_discard_marker reason) id now s.pending_sends
                s.released_transfers v.exclusive;
          bounded = λ pos. omega (arith, length-pop id s.pending_sends, v.bounded pos);
          poisoned = λ n. let (p, c) = v.poisoned n in (ap (pop id) p, c);
        }

  apply-IsValid :
      (cfg : NcclSenderConfig) (op : Op T) (s : NcclSender T)
      → IsValid cfg s
      → IsValid cfg (apply cfg op s)
  unfolding apply
  apply-IsValid cfg (setup_op comm) s v = record {
    exclusive = v.exclusive;
    bounded = v.bounded;
    poisoned = λ n. cc n;
  }
  apply-IsValid cfg (send_op tensors id) s v = send-IsValid cfg s tensors id v
  apply-IsValid cfg (claim_op id) s v = claim-IsValid cfg s id v
  apply-IsValid cfg (drop_claimed_op id) s v = drop_claimed-IsValid cfg s id v
  apply-IsValid cfg (drop_released_op id) s v = drop_released-IsValid cfg s id v
  apply-IsValid cfg fail_op s v = fail-IsValid cfg s
  apply-IsValid cfg close_op s v = close-IsValid cfg s
  apply-IsValid cfg (gc_op now) s v = gc-IsValid cfg s now v
  apply-IsValid cfg (release_op id reason now) s v = release-IsValid cfg s id reason now v

  run-IsValid :
      (cfg : NcclSenderConfig) (ops : List (Op T)) (s : NcclSender T)
      → IsValid cfg s
      → IsValid cfg (run cfg ops s)
  unfolding run
  run-IsValid cfg [] s v = v
  run-IsValid cfg (op ∷ ops) s v = run-IsValid cfg ops (apply cfg op s) (apply-IsValid cfg op s v)

  abbrev pub created : NcclSender T
  created = record {
    comm_idx = none;
    pending_sends = [];
    claimed_sends = [];
    released_transfers = [];
    nccl_sent = [];
    aborted = [];
  }

  -- After any sequence of critical sections of a new sender, on any threads: no transfer is both
  -- held and marked as discarded, a positive `max_pending_transfers` bounds the held ones, and
  -- without a communicator nothing is held or claimed and every `send` raises.
  pub run-holds :
      (cfg : NcclSenderConfig) (ops : List (Op T))
      → let s = run cfg ops created in
        Exclusive s.pending_sends s.released_transfers
        × (0 < cfg.max_pending_transfers → length s.pending_sends ≤ cfg.max_pending_transfers)
        × (s.comm_idx ≡ none
            → (s.pending_sends ≡ [])
              × (s.claimed_sends ≡ [])
              × ((t : T) (id : ℕ) → send cfg t id s ≡ raise not_initialized))
  unfolding send
  run-holds cfg ops =
      let v = run-IsValid cfg ops created (record {
        exclusive = λ id h. refl;
        bounded = λ pos. omega arith;
        poisoned = λ n. (refl, refl);
      }) in
      (v.exclusive, v.bounded, λ n. let (p, c) = v.poisoned n in (p, c, λ t id. simp n refl))
