-- ===== src/Nccl/Receiver/Poisoned.antt =====
-- A communicator that failed is never used again.
use alpagym.Base.{
  ℕ, ◌≡◌, refl, ◌∙◌, inl, inr, Bool, true, false, Option, none, some, List, [], ◌∷◌, any,
  ℕ_discrete, Bool-cases, if◌then◌else◌, subst,
}
use alpagym.Base.Dict.{Dict, get, has, pop, has-pop_self, has-pop_ne, get-none}
use alpagym.Base.Outcome.{ok, raise}
use alpagym.Nccl.Receiver.{
  Receiver, ReceiverError, Answer, closed, abort_all_communicators, drop, logged,
  abort_and_drop_comm, receive, route, no_comms, no_communicator, not_set_up, recv, close, Call,
  setup_call, recv_call, close_call, call, calls,
}
use alpagym.Nccl.Receiver.Once.{get_absent}
use alpagym.Nccl.Receiver.Routing.{Aligned, calls-Aligned}

pop_absent : (k i : ℕ) (d : Dict ℕ) → has i d ≡ false → has i (pop k d) ≡ false
pop_absent k i d h = elim (ℕ_discrete k i) [
  | yes s ↦ subst (λ j. has j (pop k d) ≡ false) s (has-pop_self k d)
  | no s ↦ has-pop_ne k i d s ∙ h
]

unfoldable pub is_setup : {X : Type 0} → Call X → Bool
is_setup (setup_call answers) = true
is_setup c = false

dropped : (i : ℕ) (s : Receiver) (o : Option ℕ) → has i (logged o (drop i s)).rollout_comms ≡ false
unfolding logged drop
dropped i s none = has-pop_self i s.rollout_comms
dropped i s (some c) = has-pop_self i s.rollout_comms

still_dropped :
    (i k : ℕ) (s : Receiver) (o : Option ℕ)
    → has i s.rollout_comms ≡ false
    → has i (logged o (drop k s)).rollout_comms ≡ false
unfolding logged drop
still_dropped i k s none h = pop_absent k i s.rollout_comms h
still_dropped i k s (some c) h = pop_absent k i s.rollout_comms h

module _ {X : Type 0} where
  route-absent :
      (i k : ℕ) (comm rank prefix : Option ℕ) (ack : Answer Unit) (received : Answer X)
      (s : Receiver)
      → has i s.rollout_comms ≡ false
      → has i (route comm rank prefix k ack received s).1.rollout_comms ≡ false
  unfolding route receive abort_and_drop_comm
  route-absent i k none rank prefix ack received s h = h
  route-absent i k (some c) none prefix ack received s h = h
  route-absent i k (some c) (some r) none ack received s h = h
  route-absent i k (some c) (some r) (some p) (raise e) received s h = h
  route-absent i k (some c) (some r) (some p) (ok u) (raise e) s h =
      still_dropped i k s (get k s.rollout_comms) h
  route-absent i k (some c) (some r) (some p) (ok u) (ok x) s h = h

  recv-absent :
      (i : ℕ) (idx : Answer ℕ) (ack : Answer Unit) (received : Answer X) (s : Receiver)
      → has i s.rollout_comms ≡ false
      → has i (recv idx ack received s).1.rollout_comms ≡ false
  unfolding recv
  recv-absent i (raise e) ack received s h = h
  recv-absent i (ok k) ack received s h = either (no_comms s.rollout_comms)
    where
      either :
          (b : Bool)
          → let r =
              if b
              then (raise not_set_up, s)
              else route
                  (get k s.rollout_comms)
                  (get k s.policy_ranks)
                  (get k s.rollout_prefixes)
                  k
                  ack
                  received
                  s in
            has i r.1.rollout_comms ≡ false
      either true = h
      either false =
          route-absent i k (get k s.rollout_comms) (get k s.policy_ranks) (get k s.rollout_prefixes)
            ack received s h

  calls-absent :
      (i : ℕ) (cs : List (Call X)) (s : Receiver)
      → any is_setup cs ≡ false
      → has i s.rollout_comms ≡ false
      → has i (calls cs s).rollout_comms ≡ false
  unfolding calls call close abort_all_communicators is_setup
  calls-absent i [] s n h = h
  calls-absent i (setup_call answers ∷ cs) s n h = absurd (cc n)
  calls-absent i (recv_call idx ack received ∷ cs) s n h =
      calls-absent i cs (recv idx ack received s).1 n (recv-absent i idx ack received s h)
  calls-absent i (close_call ∷ cs) s n h = calls-absent i cs (close s) n h

  -- A replica without a communicator is refused before any answer is asked for.
  absent-refused :
      (i : ℕ) (ack : Answer Unit) (received : Answer X) (s : Receiver)
      → has i s.rollout_comms ≡ false
      → (e : ReceiverError) × (recv (ok i) ack received s ≡ (raise e, s))
  unfolding recv route
  absent-refused i ack received s h = elim (Bool-cases (no_comms s.rollout_comms)) [
    | inl b ↦ (not_set_up, rw b refl)
    | inr b ↦ (no_communicator, rw (b, get_absent i s.rollout_comms h) refl)
  ]

module _ (X : Type 0) where
  failed-absent :
      (i : ℕ) (comm rank prefix : Option ℕ) (error : ReceiverError) (s : Receiver)
      → Aligned i s
      → get i s.rollout_comms ≡ comm
      → get i s.policy_ranks ≡ rank
      → get i s.rollout_prefixes ≡ prefix
      → has i (route {X = X} comm rank prefix i (ok tt) (raise error) s).1.rollout_comms ≡ false
  unfolding route receive abort_and_drop_comm
  failed-absent i none rank prefix error s a c r p = get-none i s.rollout_comms c
  failed-absent i (some u) none prefix error s a c r p = a.0 ∙ get-none i s.policy_ranks r
  failed-absent i (some u) (some v) none error s a c r p = a.1 ∙ get-none i s.rollout_prefixes p
  failed-absent i (some u) (some v) (some w) error s a c r p = dropped i s (get i s.rollout_comms)

  recv_failed-absent :
      (i : ℕ) (error : ReceiverError) (s : Receiver)
      → Aligned i s
      → has i (recv {X = X} (ok i) (ok tt) (raise error) s).1.rollout_comms ≡ false
  unfolding recv no_comms
  recv_failed-absent i error s a = elim (Bool-cases (no_comms s.rollout_comms)) [
    | inl b ↦ rw b (empty_absent s.rollout_comms b)
    | inr b ↦ rw b (
        failed-absent i (get i s.rollout_comms) (get i s.policy_ranks) (get i s.rollout_prefixes)
          error s a refl refl refl)
  ]
    where
      empty_absent : (d : Dict ℕ) → no_comms d ≡ true → has i d ≡ false
      empty_absent [] b = refl
      empty_absent (x ∷ d) b = absurd (cc b)

module _ {X : Type 0} where
  -- After any calls of a new receiver, when the reception from a replica fails once its transfer was accepted: whatever
  -- is called then, short of a new `setup`, the next `recv` from that replica raises and changes nothing, whatever
  -- the rendezvous and NCCL would answer.
  pub failed_recv-refused :
      (i : ℕ) (error : ReceiverError) (before later : List (Call X)) (ack : Answer Unit)
      (received : Answer X)
      → any is_setup later ≡ false
      → let s =
          calls later
            (call {X = X} (recv_call (ok i) (ok tt) (raise error)) (calls before closed)) in
        (e : ReceiverError) × (recv (ok i) ack received s ≡ (raise e, s))
  unfolding call
  failed_recv-refused i error before later ack received n =
      let s = calls before closed in
      let t = (recv {X = X} (ok i) (ok tt) (raise error) s).1 in
      absent-refused i ack received (calls later t)
        (calls-absent i later t n (recv_failed-absent X i error s (calls-Aligned i before)))
