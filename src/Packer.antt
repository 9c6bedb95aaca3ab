-- ===== src/Packer.antt =====
-- cosmos/packer.py: the egress of finished episodes on a rollout worker, and the replay rows that the
-- trainer gets of one rollout.
-- Tensors and replay payloads are opaque. The family's `build_model_inputs` and the tests of tensors are
-- the record `Family`; `clone_model_inputs` copies tensors, so that its value is its argument.
-- What `build_model_inputs` and `reshape(1)` raise is left out: both return here.
pub mod Kept
pub mod Inputs
pub mod Lost
mod Samples
use alpagym.Base.{
  ℕ, zero, suc, ◌+◌, ◌-◌, String, Bool, true, false, not, ◌&&◌, ◌||◌, ltb, Option, none, some, List,
  [], ◌∷◌, ◌++◌, map, if◌then◌else◌, length, all, any, replicate,
}
use alpagym.Base.Texts.{same_text}
use alpagym.Base.Outcome.{Outcome, ok, raise, ◌>>=◌, ◌>>◌, refuse}

-- Replay payloads, model inputs and logprobs; `zeros` is `torch.zeros(1)`, `flat` the `reshape(1)` in float32.
pub record Family (R I L : Type 0) : Type 0 where
  pub build_model_inputs : R → I × L
  pub is_finite : L → Bool
  pub zeros : L
  pub flat : L → L
  pub keys : I → List String

-- `TrainerReplayData`, with the two fields of its `TrainingSignal`.
pub record TrainerReplayData (I L : Type 0) : Type 0 where
  pub model_inputs : I
  pub old_logprobs : L
  pub is_padding : Bool
  pub rollout_id : String
  pub weight_version : ℕ

-- What the packer reads of an `EpisodeOutput`: the replay data of its policy outputs, and its session.
pub record Episode (R : Type 0) : Type 0 where
  pub replay_data : List (Option R)
  pub session_uuid : String

pub data PackerError : Type 0 where
  missing_replay too_many_rows no_rows mixed_keys no_writer text_mode not_an_episode write_failed :
      PackerError

abbrev pub Result : Type 0 → Type 0
Result B = Outcome PackerError B

module _ {R : Type 0} where
  unfoldable pub replay_rows : List (Option R) → Result (List R)
  replay_rows [] = ok []
  replay_rows (none ∷ outputs) = raise missing_replay
  replay_rows (some r ∷ outputs) = replay_rows outputs >>= λ rows. ok (r ∷ rows)

  unfoldable pub is_nil : List R → Bool
  is_nil [] = true
  is_nil (r ∷ rs) = false

-- `set(a) != set(b)`
unfoldable pub holds : List String → String → Bool
holds ks k = any (λ j. same_text j k) ks

unfoldable pub same_keys : List String → List String → Bool
same_keys a b = all (holds b) a && all (holds a) b

module _ {I L : Type 0} where
  -- The inputs of the first step that is not bad.
  unfoldable pub first_good : List (TrainerReplayData I L) → Option I
  first_good [] = none
  first_good (s ∷ ss) = if s.is_padding then first_good ss else some s.model_inputs

  -- A bad step is one that was marked as padding.
  unfoldable pub with_template : I → TrainerReplayData I L → TrainerReplayData I L
  with_template t s = if s.is_padding then record s { model_inputs = t } else s

  unfoldable pub repaired_by :
      Option I → List (TrainerReplayData I L) → List (TrainerReplayData I L)
  repaired_by none ss = ss
  repaired_by (some t) ss = map (with_template t) ss

  unfoldable pub repaired : List (TrainerReplayData I L) → List (TrainerReplayData I L)
  repaired ss = repaired_by (first_good ss) ss

module _ {R I L : Type 0} (family : Family R I L) where
  unfoldable pub sample_with : String → I → L → Bool → TrainerReplayData I L
  sample_with id inputs logprob finite = record {
    model_inputs = inputs;
    old_logprobs = if finite then family.flat logprob else family.zeros;
    is_padding = not finite;
    rollout_id = id;
    weight_version = 0;
  }

  unfoldable pub step_sample : String → R → TrainerReplayData I L
  step_sample id r =
      let (inputs, logprob) = family.build_model_inputs r in
      sample_with id inputs logprob (family.is_finite logprob)

  unfoldable pub padding_row : String → I → TrainerReplayData I L
  padding_row id template = record {
    model_inputs = template;
    old_logprobs = family.zeros;
    is_padding = true;
    rollout_id = id;
    weight_version = 0;
  }

  -- `while len(step_samples) < self._expected_valid_steps`
  unfoldable pub padded : ℕ → String → List (TrainerReplayData I L) → List (TrainerReplayData I L)
  padded n id [] = []
  padded n id (s ∷ ss) = (s ∷ ss) ++ replicate (n - length (s ∷ ss)) (padding_row id s.model_inputs)

  unfoldable pub mixed : List (TrainerReplayData I L) → Bool
  mixed [] = false
  mixed (s ∷ ss) =
      any (λ u. not (same_keys (family.keys u.model_inputs) (family.keys s.model_inputs))) (s ∷ ss)

  unfoldable pub collate :
      ℕ → String → List (TrainerReplayData I L) → Result (List (TrainerReplayData I L))
  collate n id ss = refuse (mixed ss) mixed_keys >> ok (padded n id ss)

  -- `get_policy_input` on a resolved episode, with `expected_valid_steps`.
  unfoldable pub get_policy_input : ℕ → Episode R → Result (List (TrainerReplayData I L))
  get_policy_input n e = replay_rows e.replay_data >>= λ rows.
      refuse (ltb n (length rows)) too_many_rows
      >> (refuse (is_nil rows) no_rows
          >> collate n e.session_uuid (repaired (map (step_sample e.session_uuid) rows)))

-- The rollout side: `write` is the writer's, on a state of its own.
module _ {E W H : Type 0} (write : E → W → Outcome PackerError (H × W)) where
  -- A completion that is no `EpisodeOutput` is `none`.
  unfoldable pub egress : List (Option E) → W → Result (List H × W)
  egress [] w = ok ([], w)
  egress (none ∷ cs) w = raise not_an_episode
  egress (some c ∷ cs) w = write c w >>= λ r. egress cs r.1 >>= λ q. ok (r.0 ∷ q.0, q.1)

  unfoldable pub get_rollout_output : Bool → Option W → List (Option E) → Result (List H × W)
  get_rollout_output non_text none cs = raise no_writer
  get_rollout_output non_text (some w) cs = refuse (not non_text) text_mode >> egress cs w
