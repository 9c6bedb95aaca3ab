-- ===== src/Nccl/Receiver/Routing.antt =====
-- The three routing tables agree, and a communicator that failed is never used again.
use alpagym.Base.{
  ℕ, suc, ◌≡◌, refl, sym, ◌∙◌, Bool, true, false, Option, none, some, List, [], ◌∷◌, ℕ_discrete,
  if◌then◌else◌, subst,
}
use alpagym.Base.Dict.{Dict, get, has, put, pop, has-pop_self, has-pop_ne, has-put_self, has-put_ne}
use alpagym.Base.Outcome.{ok, raise}
use alpagym.Nccl.Receiver.{
  Receiver, Answer, closed, abort_all_communicators, forget_all, connect, setup_from, setup, drop,
  logged, abort_and_drop_comm, receive, route, no_comms, not_set_up, recv, close, Call, setup_call,
  recv_call, close_call, call, calls,
}

same-put : (k u v i : ℕ) (d e : Dict ℕ) → has i d ≡ has i e → has i (put k u d) ≡ has i (put k v e)
same-put k u v i d e h = elim (ℕ_discrete k i) [
  | yes s ↦
      subst (λ j. has j (put k u d) ≡ has j (put k v e)) s
        (has-put_self k u d ∙ sym (has-put_self k v e))
  | no s ↦ has-put_ne k i u d s ∙ (h ∙ sym (has-put_ne k i v e s))
]

same-pop : (k i : ℕ) (d e : Dict ℕ) → has i d ≡ has i e → has i (pop k d) ≡ has i (pop k e)
same-pop k i d e h = elim (ℕ_discrete k i) [
  | yes s ↦
      subst (λ j. has j (pop k d) ≡ has j (pop k e)) s (has-pop_self k d ∙ sym (has-pop_self k e))
  | no s ↦ has-pop_ne k i d s ∙ (h ∙ sym (has-pop_ne k i e s))
]

-- The replica `i` stands in all three tables or in none.
abbrev pub Aligned : ℕ → Receiver → Type 0
Aligned i s =
    (has i s.rollout_comms ≡ has i s.policy_ranks)
    × (has i s.rollout_comms ≡ has i s.rollout_prefixes)

setup_from-Aligned :
    (i idx : ℕ) (answers : List (Answer (ℕ × ℕ))) (s : Receiver)
    → Aligned i s
    → Aligned i (setup_from idx answers s).1
unfolding setup_from forget_all abort_all_communicators connect
setup_from-Aligned i idx [] s a = a
setup_from-Aligned i idx (raise e ∷ answers) s a = (refl, refl)
setup_from-Aligned i idx (ok (rank, comm) ∷ answers) s a =
    setup_from-Aligned i (suc idx) answers (connect idx rank comm s) (
      same-put idx comm rank i s.rollout_comms s.policy_ranks a.0,
      same-put idx comm idx i s.rollout_comms s.rollout_prefixes a.1,
    )

drop-Aligned :
    (i k : ℕ) (s : Receiver) (o : Option ℕ) → Aligned i s → Aligned i (logged o (drop k s))
unfolding logged drop
drop-Aligned i k s none a = (
  same-pop k i s.rollout_comms s.policy_ranks a.0,
  same-pop k i s.rollout_comms s.rollout_prefixes a.1,
)
drop-Aligned i k s (some c) a = (
  same-pop k i s.rollout_comms s.policy_ranks a.0,
  same-pop k i s.rollout_comms s.rollout_prefixes a.1,
)

module _ {X : Type 0} where
  receive-Aligned :
      (i k : ℕ) (ack : Answer Unit) (received : Answer X) (s : Receiver)
      → Aligned i s
      → Aligned i (receive k ack received s).1
  unfolding receive abort_and_drop_comm
  receive-Aligned i k (raise e) received s a = a
  receive-Aligned i k (ok u) (raise e) s a = drop-Aligned i k s (get k s.rollout_comms) a
  receive-Aligned i k (ok u) (ok x) s a = a

  route-Aligned :
      (i k : ℕ) (comm rank prefix : Option ℕ) (ack : Answer Unit) (received : Answer X)
      (s : Receiver)
      → Aligned i s
      → Aligned i (route comm rank prefix k ack received s).1
  unfolding route
  route-Aligned i k none rank prefix ack received s a = a
  route-Aligned i k (some c) none prefix ack received s a = a
  route-Aligned i k (some c) (some r) none ack received s a = a
  route-Aligned i k (some c) (some r) (some p) ack received s a =
      receive-Aligned i k ack received s a

  recv-Aligned :
      (i : ℕ) (idx : Answer ℕ) (ack : Answer Unit) (received : Answer X) (s : Receiver)
      → Aligned i s
      → Aligned i (recv idx ack received s).1
  unfolding recv
  recv-Aligned i (raise e) ack received s a = a
  recv-Aligned i (ok k) ack received s a = either (no_comms s.rollout_comms)
    where
      either :
          (b : Bool)
          → let r =
              if b
              then (raise not_set_up, s)
              else route
                  (get k s.rollout_comms)
                  (get k s.policy_ranks)
                  (get k s.rollout_prefixes)
                  k
                  ack
                  received
                  s in
            Aligned i r.1
      either true = a
      either false =
          route-Aligned i k (get k s.rollout_comms) (get k s.policy_ranks)
            (get k s.rollout_prefixes) ack received s a

  calls-keep : (i : ℕ) (cs : List (Call X)) (s : Receiver) → Aligned i s → Aligned i (calls cs s)
  unfolding calls call setup close abort_all_communicators
  calls-keep i [] s a = a
  calls-keep i (setup_call answers ∷ cs) s a =
      calls-keep i cs (setup answers s).1 (setup_from-Aligned i 0 answers s a)
  calls-keep i (recv_call idx ack received ∷ cs) s a =
      calls-keep i cs (recv idx ack received s).1 (recv-Aligned i idx ack received s a)
  calls-keep i (close_call ∷ cs) s a = calls-keep i cs (close s) a

  -- After any calls of a new receiver, a replica stands in all three of its routing tables or in none of them.
  pub calls-Aligned : (i : ℕ) (cs : List (Call X)) → Aligned i (calls cs closed)
  calls-Aligned i cs = calls-keep i cs closed (refl, refl)
