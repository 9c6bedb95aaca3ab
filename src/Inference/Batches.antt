-- ===== src/Inference/Batches.antt =====
-- How large a batch gets.
use alpagym.Base.{
  ℕ, ◌≤◌, ◌≡◌, refl, sym, inl, inr, Bool, true, false, ltb, List, [], ◌∷◌, map, length,
  length-append, max, arith, Bool-cases, subst, ◌<◌,
}
use alpagym.Base.Outcome.{ok, raise}
use alpagym.Inference.{Torch, ModelInput, ModelOutput, BatchedModelOutput, Result}
use alpagym.Inference.Engine.{
  PendingRequest, Item, pending, shutdown_item, Phase, blocked, collecting, dispatching, returned,
  exited, Engine, Event, infer_call, shutdown_call, work, infer, shutdown, take_first, take_next,
  forward, resolve, work_in, happen, run_events,
}

module _ {T : Type 0} where
  -- A batch that is being collected or dispatched has a request, and at most `n` of them, or one.
  unfoldable pub Bounded : ℕ → Phase T → Type 0
  Bounded n (collecting batch) = (1 ≤ length batch) × (length batch ≤ max 1 n)
  Bounded n (dispatching batch saw) = (1 ≤ length batch) × (length batch ≤ max 1 n)
  Bounded n _ = Unit

module _ {T : Type 0} (torch : Torch T) (sample : ModelInput T → Result (BatchedModelOutput T))
    (max_batch_size : ℕ) where
  first-Bounded :
      (q : List (Item T)) (s : Engine T)
      → Bounded max_batch_size s.phase
      → Bounded max_batch_size (take_first q s).phase
  unfolding take_first Bounded
  first-Bounded [] s b = b
  first-Bounded (shutdown_item ∷ q) s b = tt
  first-Bounded (pending r ∷ q) s b = (omega arith, omega arith)

  next-Bounded :
      (q : List (Item T)) (batch : List (PendingRequest T)) (s : Engine T)
      → length batch < max_batch_size
      → 1 ≤ length batch
      → Bounded max_batch_size (take_next q batch s).phase
  unfolding take_next Bounded
  next-Bounded [] batch s lt le = (le, omega arith)
  next-Bounded (shutdown_item ∷ q) batch s lt le = (le, omega arith)
  next-Bounded (pending r ∷ q) batch s lt le =
      let e = length-append batch (r ∷ []) in (omega (arith, e), omega (arith, e))

  resolve-Bounded :
      (batch : List (PendingRequest T)) (saw : Bool) (out : Result (List (ModelOutput T)))
      (s : Engine T)
      → Bounded max_batch_size (resolve torch sample max_batch_size batch saw out s).phase
  unfolding resolve Bounded
  resolve-Bounded batch saw (raise e) s = tt
  resolve-Bounded batch true (ok ys) s = tt
  resolve-Bounded batch false (ok ys) s = tt

  work-Bounded :
      (s : Engine T) (ph : Phase T)
      → s.phase ≡ ph
      → Bounded max_batch_size ph
      → Bounded max_batch_size (work_in torch sample max_batch_size ph s).phase
  unfolding work_in Bounded
  work-Bounded s blocked p b = first-Bounded s.queue s (subst (Bounded max_batch_size) (sym p) b)
  work-Bounded s (collecting batch) p b = elim (Bool-cases (ltb (length batch) max_batch_size)) [
    | inl t ↦ rw t (next-Bounded s.queue batch s (ground arith) b.0)
    | inr f ↦ rw f b
  ]
  work-Bounded s (dispatching batch saw) p b =
      resolve-Bounded batch saw
        (forward torch sample max_batch_size (map (λ r. r.model_input) batch)) s
  work-Bounded s returned p b = subst (Bounded max_batch_size) (sym p) tt
  work-Bounded s exited p b = subst (Bounded max_batch_size) (sym p) tt

  -- From a state whose batch is within the bounds, any events lead to one: every forward pass is over at least
  -- one request and at most `max_batch_size`, or one where that setting is 0.
  pub run_events-Bounded :
      (es : List (Event T)) (s : Engine T)
      → Bounded max_batch_size s.phase
      → Bounded max_batch_size (run_events torch sample max_batch_size es s).phase
  unfolding run_events happen infer shutdown
  run_events-Bounded [] s b = b
  run_events-Bounded (infer_call x ∷ es) s b = run_events-Bounded es (infer x s) b
  run_events-Bounded (shutdown_call ∷ es) s b = run_events-Bounded es (shutdown s) b
  run_events-Bounded (work ∷ es) s b =
      run_events-Bounded es (work_in torch sample max_batch_size s.phase s)
        (work-Bounded s s.phase refl b)
