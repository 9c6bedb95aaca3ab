-- ===== src/Inference/Engine.antt =====
-- inference/inference_engine.py: the queue that the sessions fill and the worker thread that serves it.
-- Sessions call `infer` and `shutdown`; the worker runs `run_loop`, here one step at a time, so that the
-- calls of the sessions fall between any two of its accesses to the queue. A future is the number of
-- its request. `os._exit(1)` is the phase `exited`.
use alpagym.Base.{
  ℕ, suc, Bool, true, false, not, ◌==◌, ltb, List, [], ◌∷◌, ◌++◌, map, if◌then◌else◌, length,
}
use alpagym.Base.Outcome.{ok, raise, ◌>>=◌, ◌>>◌, refuse}
use alpagym.Inference.{
  Torch, ModelInput, ModelOutput, BatchedModelOutput, Result, output_count, stack, unbind,
}

-- `_PendingRequest`
pub record PendingRequest (T : Type 0) : Type 0 where
  pub model_input : ModelInput T
  pub result : ℕ

pub data Item (T : Type 0) : Type 0 where
  pending : PendingRequest T → Item T
  shutdown_item : Item T

-- Where the worker stands in `run_loop`.
pub data Phase (T : Type 0) : Type 0 where
  blocked : Phase T
  collecting : List (PendingRequest T) → Phase T
  dispatching : List (PendingRequest T) → Bool → Phase T
  returned exited : Phase T

pub record Engine (T : Type 0) : Type 0 where
  pub queue : List (Item T)
  pub phase : Phase T
  pub next_future : ℕ
  pub resolved : List (ℕ × ModelOutput T)

-- A call of a session, or the worker's next step.
pub data Event (T : Type 0) : Type 0 where
  infer_call : ModelInput T → Event T
  shutdown_call work : Event T

abbrev pub start : {T : Type 0} → Engine T
start = record { queue = []; phase = blocked; next_future = 0; resolved = [] }

module _ {T : Type 0} where
  unfoldable pub infer : ModelInput T → Engine T → Engine T
  infer x s = record s {
    queue = s.queue ++ pending (record { model_input = x; result = s.next_future }) ∷ [];
    next_future = suc s.next_future;
  }

  unfoldable pub shutdown : Engine T → Engine T
  shutdown s = record s { queue = s.queue ++ shutdown_item ∷ [] }

  -- `zip(batch, model_outputs, strict=True)`
  unfoldable pub zipped : List (PendingRequest T) → List (ModelOutput T) → List (ℕ × ModelOutput T)
  zipped [] ys = []
  zipped (r ∷ rs) [] = []
  zipped (r ∷ rs) (y ∷ ys) = (r.result, y) ∷ zipped rs ys

  -- `self._queue.get()`: an empty queue blocks.
  unfoldable pub take_first : List (Item T) → Engine T → Engine T
  take_first [] s = s
  take_first (shutdown_item ∷ q) s = record s { queue = q; phase = returned }
  take_first (pending r ∷ q) s = record s { queue = q; phase = collecting (r ∷ []) }

  -- `self._queue.get_nowait()`
  unfoldable pub take_next : List (Item T) → List (PendingRequest T) → Engine T → Engine T
  take_next [] batch s = record s { phase = dispatching batch false }
  take_next (shutdown_item ∷ q) batch s = record s { queue = q; phase = dispatching batch true }
  take_next (pending r ∷ q) batch s = record s { queue = q; phase = collecting (batch ++ r ∷ []) }

module _ {T : Type 0} (torch : Torch T) (sample : ModelInput T → Result (BatchedModelOutput T))
    (max_batch_size : ℕ) where
  -- The `try` block: the outputs of one forward pass over the batch.
  unfoldable pub forward : List (ModelInput T) → Result (List (ModelOutput T))
  forward xs = stack torch xs >>= λ b. sample b >>= λ o.
      unbind torch o >>= λ ys. refuse (not (length ys == length xs)) output_count >> ok ys

  -- The futures that a forward pass resolves; a failed pass ends the process.
  unfoldable pub resolve :
      List (PendingRequest T) → Bool → Result (List (ModelOutput T)) → Engine T → Engine T
  resolve batch saw (raise e) s = record s { phase = exited }
  resolve batch saw (ok ys) s = record s {
    phase = if saw then returned else blocked;
    resolved = s.resolved ++ zipped batch ys;
  }

  unfoldable pub work_in : Phase T → Engine T → Engine T
  work_in blocked s = take_first s.queue s
  work_in (collecting batch) s =
      if ltb (length batch) max_batch_size
      then take_next s.queue batch s
      else record s { phase = dispatching batch false }
  work_in (dispatching batch saw) s = resolve batch saw (forward (map (λ r. r.model_input) batch)) s
  work_in returned s = s
  work_in exited s = s

  unfoldable pub happen : Event T → Engine T → Engine T
  happen (infer_call x) s = infer x s
  happen shutdown_call s = shutdown s
  happen work s = work_in s.phase s

  unfoldable pub run_events : List (Event T) → Engine T → Engine T
  run_events [] s = s
  run_events (e ∷ es) s = run_events es (happen e s)
