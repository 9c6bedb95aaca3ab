-- ===== src/Inference/Served.antt =====
-- A batch is served as its requests would be one by one, by a model that treats each row on its own.
use alpagym.Base.{
  ℕ, ◌≡◌, refl, sym, ap, ◌∙◌, List, [], map, length, length-map, subst, some, get_elem?,
}
use alpagym.Base.Outcome.{ok, refuse-ok, then-value, ok-ok}
use alpagym.Inference.{
  Torch, ModelInput, ModelOutput, BatchedModelOutput, Result, stack, unbind, output_count,
  rot_leading, logprob_leading, output_at,
}
use alpagym.Inference.Engine.{PendingRequest, Event, start, zipped, forward, run_events}
use alpagym.Inference.Fifo.{length-forward}
use alpagym.Inference.Queue.{
  in_batch, queued, submitted, requests_from, Answered, Owed, Owed-prefix,
}
use alpagym.Inference.Rows.{input_row, zipped-rows, outputs-at, stack-row, get-input}
use alpagym.Inference.Fifo.{run-Owed, length-forward}

module _ {T : Type 0} (torch : Torch T) (sample : ModelInput T → Result (BatchedModelOutput T))
    (max_batch_size : ℕ)
    (stack_leading : (ts : List T) (b : T) → torch.stack ts ≡ some b → torch.leading b ≡ length ts)
    (stack_select : (ts : List T) (b t : T) (i : ℕ)
      → torch.stack ts ≡ some b
      → get_elem? ts i ≡ some t
      → torch.select b i ≡ t)
    (row : ModelInput T → ModelOutput T)
    (rowwise : (b : ModelInput T) (o : BatchedModelOutput T) (i : ℕ) (y : ModelOutput T)
      → sample b ≡ ok o
      → output_at torch o (torch.leading o.pred_xyz) i ≡ ok y
      → y ≡ row (input_row torch b i)) where
  pass-rows :
      (batch : List (PendingRequest T)) (ys : List (ModelOutput T))
      → forward torch sample max_batch_size (map (λ r. r.model_input) batch) ≡ ok ys
      → Answered (λ x y. y ≡ row x) batch (zipped batch ys) []
  unfolding forward unbind
  pass-rows batch ys h =
      let xs = map (λ r. r.model_input) batch in
      let (b, (e, h1)) = then-value (stack torch xs) _ ys h in
      let (o, (f, h2)) = then-value (sample b) _ ys h1 in
      let (zs, (g, h3)) = then-value (unbind torch o) _ ys h2 in
      let (eq, last) = refuse-ok output_count h3 in
      let (ok_rot, g1) = refuse-ok rot_leading g in
      let (ok_logprob, g2) = refuse-ok logprob_leading g1 in
      zipped-rows torch (λ x y. y ≡ row x) batch ys
        (length-forward torch sample max_batch_size xs ys h ∙ length-map (λ r. r.model_input) batch)
        (λ i r y at_r at_y.
          rowwise b o i y f (
            outputs-at torch o (torch.leading o.pred_xyz) (torch.leading o.pred_xyz) zs i y g2
              (subst (λ l. get_elem? l i ≡ some y) (sym (ok-ok zs ys last)) at_y))
          ∙ ap row (
              (stack-row torch stack_leading stack_select xs b e).1 i r.model_input
                (get-input batch i r at_r)))

  -- Where `torch.stack` does what PyTorch says, and the model's output in each row is `row` of the input in that row:
  -- after any calls and worker steps, however they fell into batches, the futures resolved so far are those of the
  -- first calls of `infer`, in their order, each with `row` of its own input.
  pub resolved-rows :
      (es : List (Event T))
      → (left : List (PendingRequest T)) × Answered
          (λ x y. y ≡ row x)
          (requests_from 0 (submitted es))
          (run_events torch sample max_batch_size es start).resolved
          left
  unfolding Owed in_batch queued Answered
  resolved-rows es =
      let s = run_events torch sample max_batch_size es start in
      Owed-prefix (λ x y. y ≡ row x) (requests_from 0 (submitted es)) s.phase s
        (run-Owed torch sample max_batch_size (λ x y. y ≡ row x) pass-rows es [] start refl)
