-- ===== src/Inference/Drain.antt =====
-- After a shutdown, the worker serves what is ahead of it in the queue and returns.
use alpagym.Base.{
  ℕ, zero, suc, ◌+◌, ◌*◌, ◌≤◌, ◌≡◌, sym, inl, inr, true, false, ltb, List, [], ◌∷◌, ◌++◌, map, All,
  length, arith, Bool-cases, subst, replicate,
}
use mathlib.Core.List.{append_assoc, append-nil}
use alpagym.Base.Outcome.{ok}
use alpagym.Inference.{Torch, ModelInput, ModelOutput, BatchedModelOutput, Result}
use alpagym.Inference.Engine.{
  PendingRequest, Item, pending, shutdown_item, blocked, collecting, dispatching, returned, work,
  zipped, forward, run_events,
}
use alpagym.Inference.Queue.{Answered}
use alpagym.Inference.Steps.{
  works, at, Served, done, done-Served, Served-append, pass-Answered, next_full, next_taken,
  next_last, next_passed, next_returns, after_step, next_shutdown, next_first, Answered-none,
}

module _ {T : Type 0} (torch : Torch T) (sample : ModelInput T → Result (BatchedModelOutput T))
    (max_batch_size : ℕ) where
  module _ (P : ModelInput T → Type 0)
      (passes : (r : PendingRequest T) (b : List (PendingRequest T))
        → All (λ r. P r.model_input) (r ∷ b)
        → (ys : List (ModelOutput T)) × (forward torch sample max_batch_size
              (map (λ r. r.model_input) (r ∷ b))
            ≡ ok ys))
      (rest : List (Item T)) (k : ℕ) where
    abbrev Fit : List (PendingRequest T) → Type 0
    Fit = All (λ r. P r.model_input)

    Fit-snoc :
        (b : List (PendingRequest T)) (q : PendingRequest T)
        → Fit b
        → P q.model_input
        → Fit (b ++ q ∷ [])
    Fit-snoc [] q w f = (f, tt)
    Fit-snoc (r ∷ b) q w f = (w.0, Fit-snoc b q w.1 f)

    last_drains :
        (n : ℕ) (r : PendingRequest T) (b : List (PendingRequest T))
        (out : List (ℕ × ModelOutput T))
        → Fit (r ∷ b)
        → 1 ≤ n
        → Served torch sample max_batch_size rest k (r ∷ b) out (
            works torch sample max_batch_size rest k n (record {
              queue = rest;
              phase = dispatching (r ∷ b) true;
              next_future = k;
              resolved = out;
            }))
    last_drains zero r b out w le = absurd (omega arith)
    last_drains (suc n) r b out w le =
        let (ys, e) = passes r b w in
        after_step torch sample max_batch_size rest k n (r ∷ b) out _
          (done torch sample max_batch_size rest k (out ++ zipped (r ∷ b) ys))
          (next_returns torch sample max_batch_size rest k (r ∷ b) out ys e)
          (done-Served torch sample max_batch_size rest k n (r ∷ b) out (zipped (r ∷ b) ys)
            (pass-Answered torch sample max_batch_size rest k r b ys e))

    mutual
      blocked_drains :
          (n : ℕ) (p : List (PendingRequest T)) (out : List (ℕ × ModelOutput T))
          → Fit p
          → 3 * length p + 1 ≤ n
          → Served torch sample max_batch_size rest k p out (
              works torch sample max_batch_size rest k n
                (at torch sample max_batch_size rest k p blocked out))
      blocked_drains zero p out v le = absurd (omega arith)
      blocked_drains (suc n) [] out v le =
          after_step torch sample max_batch_size rest k n [] out
            (at torch sample max_batch_size rest k [] blocked out)
            (done torch sample max_batch_size rest k (out ++ []))
            (next_shutdown torch sample max_batch_size rest k out)
            (done-Served torch sample max_batch_size rest k n [] out []
              (Answered-none torch sample max_batch_size rest k))
      blocked_drains (suc n) (r ∷ p) out v le =
          after_step torch sample max_batch_size rest k n (r ∷ p) out
            (at torch sample max_batch_size rest k (r ∷ p) blocked out)
            (at torch sample max_batch_size rest k p (collecting (r ∷ [])) out)
            (next_first torch sample max_batch_size rest k r p out)
            (collecting_drains n r [] p out (v.0, tt) v.1 (omega arith))

      collecting_drains :
          (n : ℕ) (r : PendingRequest T) (b p : List (PendingRequest T))
          (out : List (ℕ × ModelOutput T))
          → Fit (r ∷ b)
          → Fit p
          → 3 * length p + 3 ≤ n
          → Served torch sample max_batch_size rest k ((r ∷ b) ++ p) out (
              works torch sample max_batch_size rest k n
                (at torch sample max_batch_size rest k p (collecting (r ∷ b)) out))
      collecting_drains zero r b p out w v le = absurd (omega arith)
      collecting_drains (suc n) r b [] out w v le =
          elim (Bool-cases (ltb (length (r ∷ b)) max_batch_size)) [
            | inl t ↦
                subst
                  (λ l. Served torch sample max_batch_size rest k l out (
                    works torch sample max_batch_size rest k (suc n)
                      (at torch sample max_batch_size rest k [] (collecting (r ∷ b)) out)))
                  (sym (append-nil (r ∷ b)))
                  (after_step torch sample max_batch_size rest k n (r ∷ b) out
                    (at torch sample max_batch_size rest k [] (collecting (r ∷ b)) out) _
                    (next_last torch sample max_batch_size rest k (r ∷ b) out t)
                    (last_drains n r b out w (omega arith)))
            | inr f ↦
                after_step torch sample max_batch_size rest k n ((r ∷ b) ++ []) out
                  (at torch sample max_batch_size rest k [] (collecting (r ∷ b)) out)
                  (at torch sample max_batch_size rest k [] (dispatching (r ∷ b) false) out)
                  (next_full torch sample max_batch_size rest k (r ∷ b) [] out f)
                  (dispatching_drains n r b [] out w tt (omega arith))
          ]
      collecting_drains (suc n) r b (q ∷ p) out w v le =
          elim (Bool-cases (ltb (length (r ∷ b)) max_batch_size)) [
            | inl t ↦
                after_step torch sample max_batch_size rest k n ((r ∷ b) ++ q ∷ p) out
                  (at torch sample max_batch_size rest k (q ∷ p) (collecting (r ∷ b)) out)
                  (at torch sample max_batch_size rest k p (collecting (r ∷ (b ++ q ∷ []))) out)
                  (next_taken torch sample max_batch_size rest k q (r ∷ b) p out t)
                  (subst
                    (λ l. Served torch sample max_batch_size rest k l out (
                      works torch sample max_batch_size rest k n (
                        at torch sample max_batch_size rest k p (collecting (r ∷ (b ++ q ∷ [])))
                          out)))
                    (append_assoc (r ∷ b) (q ∷ []) p)
                    (collecting_drains n r (b ++ q ∷ []) p out (Fit-snoc (r ∷ b) q w v.0) v.1
                      (omega arith)))
            | inr f ↦
                after_step torch sample max_batch_size rest k n ((r ∷ b) ++ q ∷ p) out
                  (at torch sample max_batch_size rest k (q ∷ p) (collecting (r ∷ b)) out)
                  (at torch sample max_batch_size rest k (q ∷ p) (dispatching (r ∷ b) false) out)
                  (next_full torch sample max_batch_size rest k (r ∷ b) (q ∷ p) out f)
                  (dispatching_drains n r b (q ∷ p) out w v (omega arith))
          ]

      dispatching_drains :
          (n : ℕ) (r : PendingRequest T) (b p : List (PendingRequest T))
          (out : List (ℕ × ModelOutput T))
          → Fit (r ∷ b)
          → Fit p
          → 3 * length p + 2 ≤ n
          → Served torch sample max_batch_size rest k ((r ∷ b) ++ p) out (
              works torch sample max_batch_size rest k n
                (at torch sample max_batch_size rest k p (dispatching (r ∷ b) false) out))
      dispatching_drains zero r b p out w v le = absurd (omega arith)
      dispatching_drains (suc n) r b p out w v le =
          let (ys, e) = passes r b w in
          after_step torch sample max_batch_size rest k n ((r ∷ b) ++ p) out
            (at torch sample max_batch_size rest k p (dispatching (r ∷ b) false) out)
            (at torch sample max_batch_size rest k p blocked (out ++ zipped (r ∷ b) ys))
            (next_passed torch sample max_batch_size rest k (r ∷ b) p out ys e)
            (Served-append torch sample max_batch_size rest k (r ∷ b) p out (zipped (r ∷ b) ys) _
              (pass-Answered torch sample max_batch_size rest k r b ys e)
              (blocked_drains n p (out ++ zipped (r ∷ b) ys) v (omega arith)))

    -- Where every forward pass over inputs with the property `P` succeeds, and the requests `rs` have it: a worker that is about to take the requests `rs` from the queue, with a shutdown
    -- behind them, has returned after three steps for each request and one more, or any larger number of steps; it has then
    -- answered just these requests, in their order, and left what stands behind the shutdown in the queue.
    pub worker-drains :
        (rs : List (PendingRequest T)) (out : List (ℕ × ModelOutput T)) (n : ℕ)
        → Fit rs
        → 3 * length rs + 1 ≤ n
        → let s = run_events torch sample max_batch_size (replicate n work) (record {
          queue = map pending rs ++ shutdown_item ∷ rest;
          phase = blocked;
          next_future = k;
          resolved = out;
        }) in
          (s.phase ≡ returned)
          × ((s.queue ≡ rest)
              × ((more : List (ℕ × ModelOutput T)) × ((s.resolved ≡ out ++ more)
                    × Answered (λ x y. Unit) rs more [])))
    unfolding Served at works
    worker-drains rs out n v le = blocked_drains n rs out v le
