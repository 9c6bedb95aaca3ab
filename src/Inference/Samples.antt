-- ===== src/Inference/Samples.antt =====
-- An engine over a model that gives each input's history back, with tensors as nested lists.
use alpagym.Base.{
  ℕ, zero, suc, ◌≡◌, refl, sym, ap, ◌∙◌, true, false, ◌==◌, all, none, some, List, [], ◌∷◌, ◌++◌,
  map, length, All, arith, subst, get_elem?, replicate, length-map, length-replicate,
}
use alpagym.Base.Outcome.{ok, ◌>>=◌, ◌>>◌, refuse, ok-ok}
use alpagym.Inference.{
  Torch, ModelInput, ModelOutput, BatchedModelOutput, Result, output_at, split_extra,
  select_optional, stack, unbind, stack_field, stack_optional_tensors, or_raise, is_none, is_empty,
  outputs_from, bad_leading,
}
use alpagym.Inference.Engine.{
  PendingRequest, pending, shutdown_item, blocked, returned, Event, infer_call, work, start, infer,
  zipped, take_first, take_next, forward, resolve, work_in, happen, run_events,
}
use alpagym.Inference.Queue.{in_batch, queued, submitted, requests_from, Answered}
use alpagym.Inference.Rows.{input_row}
use alpagym.Inference.Fifo.{resolved-in_order}
use alpagym.Inference.Batches.{Bounded, run_events-Bounded}
use alpagym.Inference.Drain.{worker-drains}
use alpagym.Inference.Served.{resolved-rows}

data Grid : Type 0 where
  cell : ℕ → Grid
  no_rows : Grid
  row_then : Grid → Grid → Grid

piled : List Grid → Grid
piled [] = no_rows
piled (t ∷ ts) = row_then t (piled ts)

picked : Grid → ℕ → Grid
picked (row_then t g) zero = t
picked (row_then t g) (suc i) = picked g i
picked g i = g

rows : Grid → ℕ
rows (row_then t g) = suc (rows g)
rows g = 0

abbrev torch : Torch Grid
torch = record {
  stack = λ ts. some (piled ts);
  select = picked;
  leading = rows;
  is_scalar = λ g. false;
}

stack_leading : (ts : List Grid) (b : Grid) → torch.stack ts ≡ some b → torch.leading b ≡ length ts
unfolding rows piled
stack_leading ts b h = let e : piled ts ≡ b = cc h in ap rows (sym e) ∙ rows-piled ts
  where
    rows-piled : (us : List Grid) → rows (piled us) ≡ length us
    rows-piled [] = refl
    rows-piled (u ∷ us) = ap suc (rows-piled us)

stack_select :
    (ts : List Grid) (b t : Grid) (i : ℕ)
    → torch.stack ts ≡ some b
    → get_elem? ts i ≡ some t
    → torch.select b i ≡ t
unfolding picked piled
stack_select ts b t i h g =
    let e : piled ts ≡ b = cc h in ap (λ c. picked c i) (sym e) ∙ picked-piled ts i g
  where
    picked-piled : (us : List Grid) (j : ℕ) → get_elem? us j ≡ some t → picked (piled us) j ≡ t
    picked-piled [] j k = absurd (cc k)
    picked-piled (u ∷ us) zero k = cc k
    picked-piled (u ∷ us) (suc j) k = picked-piled us j k

abbrev echo : ModelInput Grid → Result (BatchedModelOutput Grid)
echo b = ok (record {
  pred_xyz = b.ego_history_xyz;
  pred_rot = b.ego_history_rot;
  logprob = none;
  extra = [];
})

abbrev echo_row : ModelInput Grid → ModelOutput Grid
echo_row x = record {
  pred_xyz = x.ego_history_xyz;
  pred_rot = x.ego_history_rot;
  logprob = none;
  extra = [];
}

echo_rowwise :
    (b : ModelInput Grid) (o : BatchedModelOutput Grid) (i : ℕ) (y : ModelOutput Grid)
    → echo b ≡ ok o
    → output_at torch o (torch.leading o.pred_xyz) i ≡ ok y
    → y ≡ echo_row (input_row torch b i)
unfolding output_at split_extra select_optional input_row ◌>>=◌
echo_rowwise b o i y f h =
    let same =
      ok-ok
        (record {
          pred_xyz = b.ego_history_xyz;
          pred_rot = b.ego_history_rot;
          logprob = none;
          extra = [];
        })
        o f in
    sym
      (ok-ok _ y (subst (λ c. output_at torch c (torch.leading c.pred_xyz) i ≡ ok y) (sym same) h))

abbrev seen : ℕ → ModelInput Grid
seen n = record {
  ego_history_xyz = cell n;
  ego_history_rot = cell 1;
  camera_frames = cell 2;
  camera_indices = cell 3;
  relative_timestamps = cell 4;
  route_xy = cell 5;
  seed = none;
}

abbrev calls : List (Event Grid)
calls = infer_call (seen 7) ∷ work ∷ infer_call (seen 8) ∷ work ∷ work ∷ infer_call (seen 9) ∷ []

resolved-in_order_example :
    Answered
      (λ x y. Unit)
      (requests_from 0 (submitted calls))
      (run_events torch echo 2 calls start).resolved
      (in_batch (run_events torch echo 2 calls start).phase
        ++ queued (run_events torch echo 2 calls start).queue)
unfolding run_events happen infer work_in take_first take_next forward resolve stack unbind
    stack_field or_raise stack_optional_tensors is_none output_at outputs_from split_extra refuse
    ◌>>◌ ◌>>=◌ is_empty bad_leading zipped rows piled
resolved-in_order_example = resolved-in_order torch echo 2 calls (λ z. absurd (cc z))

run_events-Bounded_example : Bounded 2 (run_events torch echo 2 calls start).phase
unfolding Bounded
run_events-Bounded_example = run_events-Bounded torch echo 2 calls start tt

resolved-rows_example :
    (left : List (PendingRequest Grid)) × Answered
      (λ x y. y ≡ echo_row x)
      (requests_from 0 (submitted calls))
      (run_events torch echo 2 calls start).resolved
      left
resolved-rows_example =
    resolved-rows torch echo 2 stack_leading stack_select echo_row echo_rowwise calls

-- A tensor by its number of rows.
abbrev counting : Torch ℕ
counting = record {
  stack = λ ts. some (length ts);
  select = λ t i. 0;
  leading = λ t. t;
  is_scalar = λ t. false;
}

abbrev count : ModelInput ℕ → Result (BatchedModelOutput ℕ)
count b = ok (record {
  pred_xyz = b.ego_history_xyz;
  pred_rot = b.ego_history_xyz;
  logprob = none;
  extra = [];
})

abbrev counted : ModelOutput ℕ
counted = record { pred_xyz = 0; pred_rot = 0; logprob = none; extra = [] }

outputs_from-count :
    (n m i k : ℕ)
    → outputs_from counting
        (record { pred_xyz = n; pred_rot = n; logprob = none; extra = [] })
        m
        i
        k
      ≡ ok (replicate k counted)
unfolding outputs_from output_at split_extra select_optional ◌>>=◌
outputs_from-count n m i zero = refl
outputs_from-count n m i (suc k) = rw (outputs_from-count n m (suc i) k) refl

none_seeded :
    (b : List (PendingRequest ℕ))
    → All (λ r. r.model_input.seed ≡ none) b
    → all (is_none counting) (map (λ x. x.seed) (map (λ r. r.model_input) b)) ≡ true
unfolding is_none
none_seeded [] w = refl
none_seeded (r ∷ b) w = rw w.0 (none_seeded b w.1)

unseeded :
    (b : List (PendingRequest ℕ))
    → All (λ r. r.model_input.seed ≡ none) b
    → stack_optional_tensors counting (map (λ x. x.seed) (map (λ r. r.model_input) b)) ≡ ok none
unfolding stack_optional_tensors
unseeded b w = rw (none_seeded b w) refl

same_count : (n : ℕ) → (n == n) ≡ true
same_count n = ground arith

unbound :
    (n : ℕ)
    → unbind counting (record { pred_xyz = n; pred_rot = n; logprob = none; extra = [] })
      ≡ ok (replicate n counted)
unfolding unbind bad_leading refuse ◌>>◌
unbound n = rw (same_count n) (outputs_from-count n n 0 n)

stacked_count :
    (r : PendingRequest ℕ) (b : List (PendingRequest ℕ))
    → All (λ r. r.model_input.seed ≡ none) (r ∷ b)
    → let n = length (r ∷ b) in
      stack counting (map (λ r. r.model_input) (r ∷ b))
      ≡ ok (record {
        ego_history_xyz = n;
        ego_history_rot = n;
        camera_frames = n;
        camera_indices = n;
        relative_timestamps = n;
        route_xy = n;
        seed = none;
      })
unfolding stack stack_field or_raise ◌>>=◌ ◌>>◌ is_empty refuse
stacked_count r b w = simp (unseeded (r ∷ b) w, length-map) refl

count_passes :
    (r : PendingRequest ℕ) (b : List (PendingRequest ℕ))
    → All (λ r. r.model_input.seed ≡ none) (r ∷ b)
    → (ys : List (ModelOutput ℕ)) × (forward counting count 2 (map (λ r. r.model_input) (r ∷ b))
        ≡ ok ys)
unfolding forward ◌>>=◌ ◌>>◌ refuse
count_passes r b w = (
  replicate (length (r ∷ b)) counted,
  rw (stacked_count r b w, unbound (length (r ∷ b)))
      (simp (length-replicate, length-map, same_count (suc (length b))) refl),
)

abbrev request : ℕ → PendingRequest ℕ
request n = record {
  model_input = record {
    ego_history_xyz = 1;
    ego_history_rot = 1;
    camera_frames = 1;
    camera_indices = 1;
    relative_timestamps = 1;
    route_xy = 1;
    seed = none;
  };
  result = n;
}

abbrev requests : List (PendingRequest ℕ)
requests = request 0 ∷ request 1 ∷ request 2 ∷ []

worker-drains_example :
    let s = run_events counting count 2 (replicate 10 work) (record {
      queue = map pending requests ++ shutdown_item ∷ [];
      phase = blocked;
      next_future = 3;
      resolved = [];
    }) in
    (s.phase ≡ returned)
    × ((s.queue ≡ [])
        × ((more : List (ℕ × ModelOutput ℕ)) × ((s.resolved ≡ [] ++ more)
              × Answered (λ x y. Unit) requests more [])))
worker-drains_example =
    worker-drains counting count 2 (λ x. x.seed ≡ none) count_passes [] 3 requests [] 10
      (refl, (refl, (refl, tt))) (omega arith)
