-- ===== src/Inference/Fifo.antt =====
-- Every future once, in the order of the calls, after any events.
use alpagym.Base.{
  ℕ, suc, ◌≡◌, ◌≢◌, refl, sym, ap, ◌∙◌, inl, inr, Bool, true, false, ltb, List, [], ◌∷◌, ◌++◌, map,
  length, length-map, arith, Bool-cases, subst,
}
use mathlib.Core.List.{append_assoc, append-nil}
use alpagym.Base.Outcome.{ok, raise, refuse-ok, then-value, ok-ok}
use alpagym.Inference.{
  Torch, ModelInput, ModelOutput, BatchedModelOutput, Result, stack, unbind, output_count,
}
use alpagym.Inference.Engine.{
  PendingRequest, Item, pending, shutdown_item, Phase, blocked, collecting, dispatching, returned,
  exited, Engine, Event, infer_call, shutdown_call, work, start, infer, shutdown, zipped,
  take_first, take_next, forward, resolve, work_in, happen, run_events,
}
use alpagym.Inference.Queue.{
  in_batch, queued, submitted, requests_from, Answered, Owed, Answered-append, Answered-zipped,
  Answered-infer, Answered-queue, queued-shutdown, zipped-Answered, Owed-whole,
}

module _ {T : Type 0} (torch : Torch T) (sample : ModelInput T → Result (BatchedModelOutput T))
    (max_batch_size : ℕ) where
  next_future-first :
      (q : List (Item T)) (s : Engine T) → (take_first q s).next_future ≡ s.next_future
  unfolding take_first
  next_future-first [] s = refl
  next_future-first (shutdown_item ∷ q) s = refl
  next_future-first (pending r ∷ q) s = refl

  next_future-next :
      (q : List (Item T)) (batch : List (PendingRequest T)) (s : Engine T)
      → (take_next q batch s).next_future ≡ s.next_future
  unfolding take_next
  next_future-next [] batch s = refl
  next_future-next (shutdown_item ∷ q) batch s = refl
  next_future-next (pending r ∷ q) batch s = refl

  next_future-resolve :
      (batch : List (PendingRequest T)) (saw : Bool) (out : Result (List (ModelOutput T)))
      (s : Engine T)
      → (resolve torch sample max_batch_size batch saw out s).next_future ≡ s.next_future
  unfolding resolve
  next_future-resolve batch saw (raise e) s = refl
  next_future-resolve batch saw (ok ys) s = refl

  next_future-work :
      (s : Engine T) (ph : Phase T)
      → (work_in torch sample max_batch_size ph s).next_future ≡ s.next_future
  unfolding work_in take_first take_next resolve
  next_future-work s blocked = next_future-first s.queue s
  next_future-work s (collecting batch) = elim (Bool-cases (ltb (length batch) max_batch_size)) [
    | inl t ↦ rw t (next_future-next s.queue batch s)
    | inr f ↦ rw f refl
  ]
  next_future-work s (dispatching batch saw) =
      next_future-resolve batch saw
        (forward torch sample max_batch_size (map (λ r. r.model_input) batch)) s
  next_future-work s returned = refl
  next_future-work s exited = refl

module _ {T : Type 0} (torch : Torch T) (sample : ModelInput T → Result (BatchedModelOutput T))
    (max_batch_size : ℕ) (R : ModelInput T → ModelOutput T → Type 0)
    (passes : (batch : List (PendingRequest T)) (ys : List (ModelOutput T))
      → forward torch sample max_batch_size (map (λ r. r.model_input) batch) ≡ ok ys
      → Answered R batch (zipped batch ys) []) where
  abbrev step : Event T → Engine T → Engine T
  step = happen torch sample max_batch_size

  infer-Owed :
      (x : ModelInput T) (rs : List (PendingRequest T)) (s : Engine T) (ph : Phase T)
      → Owed R rs ph s
      → Owed R (rs ++ record { model_input = x; result = s.next_future } ∷ []) ph (infer x s)
  unfolding infer Owed in_batch
  infer-Owed x rs s exited (left, o) = (
    left ++ record { model_input = x; result = s.next_future } ∷ [],
    Answered-append R rs _ left s.resolved o,
  )
  infer-Owed x rs s ph o =
      Answered-infer R rs (in_batch ph) s.queue (record { model_input = x; result = s.next_future })
        s.resolved o

  shutdown-Owed :
      (rs : List (PendingRequest T)) (s : Engine T) (ph : Phase T)
      → Owed R rs ph s
      → Owed R rs ph (shutdown s)
  unfolding shutdown Owed
  shutdown-Owed rs s exited o = o
  shutdown-Owed rs s ph o =
      Answered-queue R rs (in_batch ph) (queued (s.queue ++ shutdown_item ∷ [])) (queued s.queue)
        s.resolved (queued-shutdown s.queue) o

  first-Owed :
      (q : List (Item T)) (rs : List (PendingRequest T)) (s : Engine T)
      → s.queue ≡ q
      → s.phase ≡ blocked
      → Answered R rs s.resolved (queued q)
      → let t = take_first q s in Owed R rs t.phase t
  unfolding take_first Owed queued in_batch
  first-Owed [] rs s e p o =
      subst (λ ph. Owed R rs ph s) (sym p)
        (Answered-queue R rs [] (queued s.queue) [] s.resolved (ap queued e) o)
  first-Owed (shutdown_item ∷ q) rs s e p o = o
  first-Owed (pending r ∷ q) rs s e p o = o

  next-Owed :
      (q : List (Item T)) (batch : List (PendingRequest T)) (rs : List (PendingRequest T))
      (s : Engine T)
      → s.queue ≡ q
      → Answered R rs s.resolved (batch ++ queued q)
      → let t = take_next q batch s in Owed R rs t.phase t
  unfolding take_next Owed queued in_batch
  next-Owed [] batch rs s e o =
      Answered-queue R rs batch (queued s.queue) [] s.resolved (ap queued e) o
  next-Owed (shutdown_item ∷ q) batch rs s e o = o
  next-Owed (pending r ∷ q) batch rs s e o =
      subst (λ l. Answered R rs s.resolved l) (sym (append_assoc batch (r ∷ []) (queued q))) o

  resolve-Owed :
      (batch : List (PendingRequest T)) (saw : Bool) (rs : List (PendingRequest T)) (s : Engine T)
      (out : Result (List (ModelOutput T)))
      → forward torch sample max_batch_size (map (λ r. r.model_input) batch) ≡ out
      → Answered R rs s.resolved (batch ++ queued s.queue)
      → let t = resolve torch sample max_batch_size batch saw out s in Owed R rs t.phase t
  unfolding resolve Owed in_batch
  resolve-Owed batch saw rs s (raise e) h o = (batch ++ queued s.queue, o)
  resolve-Owed batch true rs s (ok ys) h o =
      Answered-zipped R rs batch (queued s.queue) s.resolved ys o (passes batch ys h)
  resolve-Owed batch false rs s (ok ys) h o =
      Answered-zipped R rs batch (queued s.queue) s.resolved ys o (passes batch ys h)

  work-Owed :
      (rs : List (PendingRequest T)) (s : Engine T) (ph : Phase T)
      → s.phase ≡ ph
      → Owed R rs ph s
      → let t = work_in torch sample max_batch_size ph s in Owed R rs t.phase t
  unfolding work_in Owed in_batch
  work-Owed rs s blocked p o = first-Owed s.queue rs s refl p o
  work-Owed rs s (collecting batch) p o = elim (Bool-cases (ltb (length batch) max_batch_size)) [
    | inl t ↦ rw t (next-Owed s.queue batch rs s refl o)
    | inr f ↦ rw f o
  ]
  work-Owed rs s (dispatching batch saw) p o =
      resolve-Owed batch saw rs s
        (forward torch sample max_batch_size (map (λ r. r.model_input) batch)) refl o
  work-Owed rs s returned p o = subst (λ ph. Owed R rs ph s) (sym p) o
  work-Owed rs s exited p o = subst (λ ph. Owed R rs ph s) (sym p) o

  pub run-Owed :
      (es : List (Event T)) (rs : List (PendingRequest T)) (s : Engine T)
      → Owed R rs s.phase s
      → let t = run_events torch sample max_batch_size es s in
        Owed R (rs ++ requests_from s.next_future (submitted es)) t.phase t
  unfolding run_events happen submitted requests_from infer shutdown
  run-Owed [] rs s o = subst (λ l. Owed R l s.phase s) (sym (append-nil rs)) o
  run-Owed (infer_call x ∷ es) rs s o =
      subst
        (λ l. let t = run_events torch sample max_batch_size es (infer x s) in Owed R l t.phase t)
        (append_assoc rs (r ∷ []) (requests_from (suc s.next_future) (submitted es)))
        (run-Owed es (rs ++ r ∷ []) (infer x s) (infer-Owed x rs s s.phase o))
    where
      r : PendingRequest T
      r = record { model_input = x; result = s.next_future }
  run-Owed (shutdown_call ∷ es) rs s o = run-Owed es rs (shutdown s) (shutdown-Owed rs s s.phase o)
  run-Owed (work ∷ es) rs s o =
      subst
        (λ n.
          let t =
            run_events torch sample max_batch_size es
              (work_in torch sample max_batch_size s.phase s) in
          Owed R (rs ++ requests_from n (submitted es)) t.phase t)
        (next_future-work torch sample max_batch_size s s.phase)
        (run-Owed es rs (work_in torch sample max_batch_size s.phase s)
          (work-Owed rs s s.phase refl o))

module _ {T : Type 0} (torch : Torch T) (sample : ModelInput T → Result (BatchedModelOutput T))
    (max_batch_size : ℕ) where
  abbrev after : List (Event T) → Engine T
  after es = run_events torch sample max_batch_size es start

  pub length-forward :
      (xs : List (ModelInput T)) (ys : List (ModelOutput T))
      → forward torch sample max_batch_size xs ≡ ok ys
      → length ys ≡ length xs
  unfolding forward
  length-forward xs ys h =
      let (b, (e, h1)) = then-value (stack torch xs) _ ys h in
      let (o, (f, h2)) = then-value (sample b) _ ys h1 in
      let (zs, (g, h3)) = then-value (unbind torch o) _ ys h2 in
      let (eq, last) = refuse-ok output_count h3 in
      ap length (sym (ok-ok zs ys last)) ∙ ground arith

  -- After any calls and worker steps, while the process lives: the futures resolved so far, then
  -- the batch in the worker's hands, then the queue are the calls of `infer` in their order, none missing and none twice.
  pub resolved-in_order :
      (es : List (Event T))
      → (after es).phase ≢ exited
      → Answered
          (λ x y. Unit)
          (requests_from 0 (submitted es))
          (after es).resolved
          (in_batch (after es).phase ++ queued (after es).queue)
  unfolding Owed in_batch queued Answered
  resolved-in_order es ne =
      Owed-whole (λ x y. Unit) (requests_from 0 (submitted es)) (after es).phase (after es) ne
        (run-Owed torch sample max_batch_size (λ x y. Unit) passes es [] start refl)
    where
      passes :
          (batch : List (PendingRequest T)) (ys : List (ModelOutput T))
          → forward torch sample max_batch_size (map (λ r. r.model_input) batch) ≡ ok ys
          → Answered (λ x y. Unit) batch (zipped batch ys) []
      passes batch ys h = zipped-Answered batch ys (
          length-forward (map (λ r. r.model_input) batch) ys h
          ∙ length-map (λ r. r.model_input) batch)
