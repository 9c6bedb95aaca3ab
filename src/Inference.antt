-- ===== src/Inference.antt =====
-- inference/types.py: the inputs and outputs of a model, one call at a time and in batches.
-- A tensor is opaque: `Torch` holds the calls that the code makes of it.
pub mod Engine
pub mod Queue
pub mod Fifo
pub mod Batches
pub mod Steps
pub mod Drain
pub mod Rows
pub mod Served
mod Samples
use alpagym.Base.{
  ℕ, zero, suc, String, Bool, true, false, not, ◌||◌, ◌==◌, Option, none, some, List, [], ◌∷◌, map,
  if◌then◌else◌, all, length, get_elem?,
}
use alpagym.Base.Outcome.{Outcome, ok, raise, ◌>>=◌, ◌>>◌, refuse}

-- `torch.stack(ts, dim=0)`, `none` where it raises; `t[i]`; `t.shape[0]`; `t.ndim == 0`.
pub record Torch (T : Type 0) : Type 0 where
  pub stack : List T → Option T
  pub select : T → ℕ → T
  pub leading : T → ℕ
  pub is_scalar : T → Bool

-- `_ModelInputFields`: a `ModelInput`, or a `BatchedModelInput` with a leading axis on each field.
pub record ModelInput (T : Type 0) : Type 0 where
  pub ego_history_xyz : T
  pub ego_history_rot : T
  pub camera_frames : T
  pub camera_indices : T
  pub relative_timestamps : T
  pub route_xy : T
  pub seed : Option T

-- A leaf of a batch's `extra`: an array, a list or tuple of objects, or none of those.
pub data Leaf (T : Type 0) : Type 0 where
  array : T → Leaf T
  sequence : List T → Leaf T
  other_leaf : Leaf T

pub record ModelOutput (T : Type 0) : Type 0 where
  pub pred_xyz : T
  pub pred_rot : T
  pub logprob : Option T
  pub extra : List (String × T)

pub record BatchedModelOutput (T : Type 0) : Type 0 where
  pub pred_xyz : T
  pub pred_rot : T
  pub logprob : Option T
  pub extra : List (String × Leaf T)

pub data EngineError : Type 0 where
  no_inputs stack_error rot_leading logprob_leading extra_leading extra_length extra_type :
      EngineError
  output_count model_error : EngineError

abbrev pub Result : Type 0 → Type 0
Result B = Outcome EngineError B

unfoldable pub or_raise : {B : Type 0} → EngineError → Option B → Result B
or_raise e none = raise e
or_raise e (some b) = ok b

module _ {T : Type 0} (torch : Torch T) where
  unfoldable pub is_none : Option T → Bool
  is_none none = true
  is_none (some t) = false

  unfoldable pub cons_present : T → Option (List T) → Option (List T)
  cons_present t none = none
  cons_present t (some ts) = some (t ∷ ts)

  -- `cast(list[Tensor], values)`, as `torch.stack` reads it: none of the values may be None.
  unfoldable pub present : List (Option T) → Option (List T)
  present [] = some []
  present (none ∷ os) = none
  present (some t ∷ os) = cons_present t (present os)

  unfoldable pub stack_present : Option (List T) → Result (Option T)
  stack_present none = raise stack_error
  stack_present (some ts) = or_raise stack_error (torch.stack ts) >>= λ t. ok (some t)

  -- `_stack_optional_tensors`
  unfoldable pub stack_optional_tensors : List (Option T) → Result (Option T)
  stack_optional_tensors os = if all is_none os then ok none else stack_present (present os)

  unfoldable pub stack_field : (ModelInput T → T) → List (ModelInput T) → Result T
  stack_field field xs = or_raise stack_error (torch.stack (map field xs))

  unfoldable pub is_empty : List (ModelInput T) → Bool
  is_empty [] = true
  is_empty (x ∷ xs) = false

  -- `BatchedModelInput.stack`
  unfoldable pub stack : List (ModelInput T) → Result (ModelInput T)
  stack xs =
      refuse (is_empty xs) no_inputs
      >> (stack_field (λ x. x.ego_history_xyz) xs >>= λ xyz.
          stack_field (λ x. x.ego_history_rot) xs >>= λ rot.
          stack_field (λ x. x.camera_frames) xs >>= λ frames.
          stack_field (λ x. x.camera_indices) xs >>= λ indices.
          stack_field (λ x. x.relative_timestamps) xs >>= λ timestamps.
          stack_field (λ x. x.route_xy) xs >>= λ route.
          stack_optional_tensors (map (λ x. x.seed) xs) >>= λ seeds. ok (record {
            ego_history_xyz = xyz;
            ego_history_rot = rot;
            camera_frames = frames;
            camera_indices = indices;
            relative_timestamps = timestamps;
            route_xy = route;
            seed = seeds;
          }))

  -- One leaf of `_split_extra_per_model_output`.
  unfoldable pub split_leaf : ℕ → ℕ → Leaf T → Result T
  split_leaf i n (array t) =
      refuse (torch.is_scalar t || not (torch.leading t == n)) extra_leading
      >> ok (torch.select t i)
  split_leaf i n (sequence ts) =
      refuse (not (length ts == n)) extra_length >> or_raise extra_length (get_elem? ts i)
  split_leaf i n other_leaf = raise extra_type

  unfoldable pub split_extra : ℕ → ℕ → List (String × Leaf T) → Result (List (String × T))
  split_extra i n [] = ok []
  split_extra i n ((k, leaf) ∷ rest) =
      split_leaf i n leaf >>= λ t. split_extra i n rest >>= λ out. ok ((k, t) ∷ out)

  unfoldable pub select_optional : ℕ → Option T → Option T
  select_optional i none = none
  select_optional i (some t) = some (torch.select t i)

  unfoldable pub bad_leading : ℕ → Option T → Bool
  bad_leading n none = false
  bad_leading n (some t) = not (torch.leading t == n)

  -- The `ModelOutput` at index `i`.
  unfoldable pub output_at : BatchedModelOutput T → ℕ → ℕ → Result (ModelOutput T)
  output_at o n i = split_extra i n o.extra >>= λ extra. ok (record {
    pred_xyz = torch.select o.pred_xyz i;
    pred_rot = torch.select o.pred_rot i;
    logprob = select_optional i o.logprob;
    extra = extra;
  })

  -- `for i in range(batch_size)`, with the k iterations from `i` on to go.
  unfoldable pub outputs_from : BatchedModelOutput T → ℕ → ℕ → ℕ → Result (List (ModelOutput T))
  outputs_from o n i zero = ok []
  outputs_from o n i (suc k) =
      output_at o n i >>= λ y. outputs_from o n (suc i) k >>= λ ys. ok (y ∷ ys)

  -- `BatchedModelOutput.unbind`
  unfoldable pub unbind : BatchedModelOutput T → Result (List (ModelOutput T))
  unbind o =
      refuse (not (torch.leading o.pred_rot == n)) rot_leading
      >> (refuse (bad_leading n o.logprob) logprob_leading >> outputs_from o n 0 n)
    where
      n : ℕ
      n = torch.leading o.pred_xyz
