-- ===== src/Packer/Samples.antt =====
-- A rollout of three steps, the first of them without a finite logprob, for a trainer that expects five.
use alpagym.Base.{
  ℕ, ◌≤◌, ◌≡◌, refl, String, Bool, true, false, ltb, some, List, [], ◌∷◌, map, length, All, arith,
}
use alpagym.Base.Outcome.{ok, ◌>>=◌, ◌>>◌, refuse}
use alpagym.Packer.{
  Family, TrainerReplayData, Episode, replay_rows, is_nil, holds, same_keys, first_good,
  with_template, repaired_by, repaired, sample_with, step_sample, padding_row, padded, mixed,
  collate, get_policy_input,
}
use alpagym.Packer.Kept.{trained, finite_logprobs, get_policy_input-Packed}
use alpagym.Packer.Inputs.{is_finite_row, is_finite_output, get_policy_input-With}
use alpagym.Packer.Lost.{no_finite-With}

-- A replay payload is its number; the logprob 0 stands for a non-finite one.
abbrev family : Family ℕ ℕ ℕ
family = record {
  build_model_inputs = λ r. (r, r);
  is_finite = λ l. ltb 0 l;
  zeros = 1;
  flat = λ l. l;
  keys = λ i. "ego" ∷ [];
}

abbrev rollout : Episode ℕ
rollout = record { replay_data = some 0 ∷ some 4 ∷ some 7 ∷ []; session_uuid = "s-1" }

abbrev lost : Episode ℕ
lost = record { replay_data = some 0 ∷ []; session_uuid = "s-2" }

abbrev row : ℕ → ℕ → Bool → String → TrainerReplayData ℕ ℕ
row i l p id = record {
  model_inputs = i;
  old_logprobs = l;
  is_padding = p;
  rollout_id = id;
  weight_version = 0;
}

abbrev rows : List (TrainerReplayData ℕ ℕ)
rows =
    row 4 1 true "s-1"
    ∷ row 4 4 false "s-1"
    ∷ row 7 7 false "s-1"
    ∷ row 4 1 true "s-1"
    ∷ row 4 1 true "s-1"
    ∷ []

packs : get_policy_input family 5 rollout ≡ ok rows
unfolding get_policy_input collate replay_rows is_nil repaired repaired_by first_good with_template
    step_sample sample_with padded padding_row mixed holds same_keys refuse ◌>>◌ ◌>>=◌
packs = refl

get_policy_input-Packed_example :
    (kept : List ℕ) × ((rollout.replay_data ≡ map some kept)
      × ((1 ≤ length kept)
          × ((length kept ≤ 5)
              × ((length rows ≡ 5) × (trained rows ≡ finite_logprobs family kept)))))
get_policy_input-Packed_example = get_policy_input-Packed family 5 rollout rows packs

get_policy_input-With_example : All (λ s. 1 ≤ s.model_inputs) rows
unfolding is_finite_row is_finite_output
get_policy_input-With_example =
    get_policy_input-With family (λ i. 1 ≤ i) (λ r f. ground (arith, f)) 5 rollout rows refl packs

no_finite-With_example :
    (steps : List (TrainerReplayData ℕ ℕ)) × (get_policy_input family 2 lost ≡ ok steps)
    × All (λ s. s.model_inputs ≡ 0) steps
unfolding is_finite_row holds same_keys
no_finite-With_example =
    no_finite-With family (λ i. i ≡ 0) (λ r f. ground (arith, f)) (λ r q. refl) 2 "s-2" (0 ∷ [])
      (omega arith) (omega arith) refl
