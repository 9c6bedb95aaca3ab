-- ===== src/Packer/Lost.antt =====
-- A rollout none of whose steps has a finite logprob.
use alpagym.Base.{
  ℕ, ◌≤◌, not, ltb, ◌≡◌, refl, sym, ap, ◌∙◌, String, true, false, some, List, [], ◌∷◌, map, length,
  All, any, arith, subst,
}
use alpagym.Base.Outcome.{ok, ◌>>=◌, refuse-false}
use alpagym.Packer.{
  Family, TrainerReplayData, Episode, repaired_by, repaired, sample_with, step_sample, padded,
  get_policy_input, replay_rows, is_nil, same_keys, mixed, collate, too_many_rows, no_rows,
  mixed_keys,
}
use alpagym.Packer.Kept.{accepted}
use alpagym.Packer.Inputs.{
  WithInputs, is_finite_row, is_finite_output, padded-With, none_good, any-outputs,
}

module _ {R I L : Type 0} (family : Family R I L) where
  samples-Bad :
      (P : I → Type 0)
      (bad : (r : R) → is_finite_row family r ≡ false → P (family.build_model_inputs r).0)
      (id : String) (rs : List R)
      → any (is_finite_row family) rs ≡ false
      → WithInputs P (map (step_sample family id) rs)
  unfolding step_sample sample_with
  samples-Bad P bad id [] h = tt
  samples-Bad P bad id (r ∷ rs) h =
      (bad r (ground (arith, h)), samples-Bad P bad id rs (ground (arith, h)))

  no_finite_rows :
      (P : I → Type 0)
      → ((r : R) → is_finite_row family r ≡ false → P (family.build_model_inputs r).0)
      → (n : ℕ) (e : Episode R) (steps : List (TrainerReplayData I L))
      → any (is_finite_output family) e.replay_data ≡ false
      → get_policy_input family n e ≡ ok steps
      → All (λ s. P s.model_inputs) steps
  unfolding repaired repaired_by
  no_finite_rows P bad n e steps none_finite h =
      let a = accepted family n e steps h in
      let id = e.session_uuid in
      let samples = map (step_sample family id) a.rows in
      let no_row =
        sym (any-outputs family a.rows)
        ∙ (ap (any (is_finite_output family)) (sym a.all_rows) ∙ none_finite) in
      subst (WithInputs P)
        (ap (λ o. padded family n id (repaired_by o samples))
            (sym (none_good family id a.rows no_row))
          ∙ a.result)
        (padded-With family P n id samples (samples-Bad P bad id a.rows no_row))

  rows_found : (rs : List R) → replay_rows (map some rs) ≡ ok rs
  unfolding replay_rows ◌>>=◌
  rows_found [] = refl
  rows_found (r ∷ rs) = rw (rows_found rs) refl

  not_nil : (rs : List R) → 1 ≤ length rs → is_nil rs ≡ false
  unfolding is_nil
  not_nil [] h = absurd (omega (arith, h))
  not_nil (r ∷ rs) h = refl

  alike_inputs :
      (id : String) (ks : List String) (rs : List R)
      → ((r : R) → same_keys (family.keys (family.build_model_inputs r).0) ks ≡ true)
      → any (λ u. not (same_keys (family.keys u.model_inputs) ks)) (map (step_sample family id) rs)
        ≡ false
  unfolding step_sample sample_with
  alike_inputs id ks [] h = refl
  alike_inputs id ks (r ∷ rs) h = rw (h r) (alike_inputs id ks rs h)

  not_mixed :
      (id : String) (rs : List R)
      → ((r q : R)
          → same_keys
              (family.keys (family.build_model_inputs r).0)
              (family.keys (family.build_model_inputs q).0)
            ≡ true)
      → mixed family (map (step_sample family id) rs) ≡ false
  unfolding mixed step_sample sample_with
  not_mixed id [] h = refl
  not_mixed id (r ∷ rs) h = alike_inputs id _ (r ∷ rs) (λ q. h q r)

  -- The rows are padded as they are.
  accepts :
      (n : ℕ) (id : String) (rows : List R)
      → ((r q : R)
          → same_keys
              (family.keys (family.build_model_inputs r).0)
              (family.keys (family.build_model_inputs q).0)
            ≡ true)
      → 1 ≤ length rows
      → length rows ≤ n
      → any (is_finite_row family) rows ≡ false
      → get_policy_input family n (record { replay_data = map some rows; session_uuid = id })
        ≡ ok (padded family n id (map (step_sample family id) rows))
  unfolding get_policy_input collate repaired repaired_by ◌>>=◌
  accepts n id rows alike some_row few none_finite =
      let few_rows : ltb n (length rows) ≡ false = ground (arith, few) in
      rw (rows_found rows) (
        refuse-false too_many_rows few_rows
        ∙ (refuse-false no_rows (not_nil rows some_row)
            ∙ rw (none_good family id rows none_finite)
                (refuse-false mixed_keys (not_mixed id rows alike))))

  -- When the model inputs of all replay payloads have the same keys, and a rollout has at least one and at most
  -- `expected_valid_steps` policy outputs, all with replay data and none with a finite logprob: the packer
  -- accepts the rollout, and every row that the trainer gets, the padding included, has the model inputs of a replay
  -- payload without a finite logprob.
  pub no_finite-With :
      (P : I → Type 0)
      → ((r : R) → is_finite_row family r ≡ false → P (family.build_model_inputs r).0)
      → ((r q : R)
          → same_keys
              (family.keys (family.build_model_inputs r).0)
              (family.keys (family.build_model_inputs q).0)
            ≡ true)
      → (n : ℕ) (id : String) (rows : List R) → 1 ≤ length rows
      → length rows ≤ n
      → any (is_finite_row family) rows ≡ false
      → (steps : List (TrainerReplayData I L)) × (get_policy_input family n
            (record { replay_data = map some rows; session_uuid = id })
          ≡ ok steps)
        × All (λ s. P s.model_inputs) steps
  no_finite-With P bad alike n id rows some_row few none_finite =
      let e : Episode R = record { replay_data = map some rows; session_uuid = id } in
      let accept = accepts n id rows alike some_row few none_finite in
      (_, accept, no_finite_rows P bad n e _ (any-outputs family rows ∙ none_finite) accept)
