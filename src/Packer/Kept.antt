-- ===== src/Packer/Kept.antt =====
-- What the trainer gets of a rollout: as many rows as it expects, and which of them it learns from.
use alpagym.Base.{
  ℕ, zero, suc, ◌+◌, ◌-◌, ◌≤◌, ◌≡◌, refl, sym, ap, ◌∙◌, inl, inr, String, false, Option, none, some,
  List, [], ◌∷◌, ◌++◌, map, length, replicate, arith, Bool-cases, length-append, length-replicate,
  length-map, if◌then◌else◌,
}
use alpagym.Base.Outcome.{ok, refuse-ok, then-value, ok-ok}
use alpagym.Packer.{
  Family, TrainerReplayData, Episode, too_many_rows, no_rows, mixed_keys, replay_rows, is_nil,
  first_good, with_template, repaired_by, repaired, sample_with, step_sample, padding_row, padded,
  collate, get_policy_input,
}

module _ {I L : Type 0} where
  -- The logprobs of the steps that are no padding, in order.
  unfoldable pub trained : List (TrainerReplayData I L) → List L
  trained [] = []
  trained (s ∷ ss) = if s.is_padding then trained ss else s.old_logprobs ∷ trained ss

  trained-append :
      (ss ts : List (TrainerReplayData I L)) → trained ts ≡ [] → trained (ss ++ ts) ≡ trained ss
  unfolding trained
  trained-append [] ts h = h
  trained-append (s ∷ ss) ts h = rw (trained-append ss ts h) refl

  trained-template :
      (t : I) (ss : List (TrainerReplayData I L)) → trained (map (with_template t) ss) ≡ trained ss
  unfolding trained with_template
  trained-template t [] = refl
  trained-template t (s ∷ ss) = elim (Bool-cases s.is_padding) [
    | inl p ↦ simp p (trained-template t ss)
    | inr p ↦ simp p (ap (λ l. s.old_logprobs ∷ l) (trained-template t ss))
  ]

  trained-repaired_by :
      (o : Option I) (ss : List (TrainerReplayData I L)) → trained (repaired_by o ss) ≡ trained ss
  unfolding repaired_by
  trained-repaired_by none ss = refl
  trained-repaired_by (some t) ss = trained-template t ss

  length-repaired_by :
      (o : Option I) (ss : List (TrainerReplayData I L)) → length (repaired_by o ss) ≡ length ss
  unfolding repaired_by
  length-repaired_by none ss = refl
  length-repaired_by (some t) ss = length-map (with_template t) ss

module _ {R I L : Type 0} (family : Family R I L) where
  -- The rows whose logprob is finite, as the trainer reads them.
  unfoldable pub finite_logprobs : List R → List L
  finite_logprobs [] = []
  finite_logprobs (r ∷ rs) =
      let (inputs, logprob) = family.build_model_inputs r in
      if family.is_finite logprob
      then family.flat logprob ∷ finite_logprobs rs
      else finite_logprobs rs

  trained-samples :
      (id : String) (rs : List R) → trained (map (step_sample family id) rs) ≡ finite_logprobs rs
  unfolding trained step_sample sample_with finite_logprobs
  trained-samples id [] = refl
  trained-samples id (r ∷ rs) =
      elim (Bool-cases (family.is_finite (family.build_model_inputs r).1)) [
        | inl f ↦
            rw f (ap (λ l. family.flat (family.build_model_inputs r).1 ∷ l) (trained-samples id rs))
        | inr f ↦ rw f (trained-samples id rs)
      ]

  trained-padding :
      (k : ℕ) (id : String) (t : I) → trained (replicate k (padding_row family id t)) ≡ []
  unfolding trained padding_row
  trained-padding zero id t = refl
  trained-padding (suc k) id t = trained-padding k id t

  trained-padded :
      (n : ℕ) (id : String) (ss : List (TrainerReplayData I L))
      → trained (padded family n id ss) ≡ trained ss
  unfolding padded
  trained-padded n id [] = refl
  trained-padded n id (s ∷ ss) =
      trained-append (s ∷ ss)
        (replicate (n - length (s ∷ ss)) (padding_row family id s.model_inputs))
        (trained-padding (n - length (s ∷ ss)) id s.model_inputs)

  length-padded :
      (n : ℕ) (id : String) (ss : List (TrainerReplayData I L))
      → 1 ≤ length ss
      → length ss ≤ n
      → length (padded family n id ss) ≡ n
  unfolding padded
  length-padded n id [] h le = absurd (omega arith)
  length-padded n id (s ∷ ss) h le =
      length-append (s ∷ ss)
        (replicate (n - length (s ∷ ss)) (padding_row family id s.model_inputs))
      ∙ (ap (λ k. length (s ∷ ss) + k)
            (length-replicate (n - length (s ∷ ss)) (padding_row family id s.model_inputs))
          ∙ omega (arith, le))

  rows-some : (os : List (Option R)) (rs : List R) → replay_rows os ≡ ok rs → os ≡ map some rs
  unfolding replay_rows
  rows-some [] rs h = ap (map some) (ok-ok [] rs h)
  rows-some (none ∷ os) rs h = absurd (cc h)
  rows-some (some r ∷ os) rs h =
      let (qs, (e, last)) = then-value (replay_rows os) _ rs h in
      ap (λ l. some r ∷ l) (rows-some os qs e) ∙ ap (map some) (ok-ok (r ∷ qs) rs last)

  length_pos : (rs : List R) → is_nil rs ≡ false → 1 ≤ length rs
  unfolding is_nil
  length_pos [] h = absurd (cc h)
  length_pos (r ∷ rs) h = omega arith

  -- What an accepted episode went through.
  pub record Accepted (n : ℕ) (e : Episode R) (steps : List (TrainerReplayData I L)) : Type 0 where
    pub rows : List R
    pub all_rows : e.replay_data ≡ map some rows
    pub some_row : 1 ≤ length rows
    pub fits : length rows ≤ n
    pub result :
        padded family n e.session_uuid (repaired (map (step_sample family e.session_uuid) rows))
        ≡ steps

  pub accepted :
      (n : ℕ) (e : Episode R) (steps : List (TrainerReplayData I L))
      → get_policy_input family n e ≡ ok steps
      → Accepted n e steps
  unfolding get_policy_input collate
  accepted n e steps h =
      let (rs, (found, h1)) = then-value (replay_rows e.replay_data) _ steps h in
      let (few, h2) = refuse-ok too_many_rows h1 in
      let (nonempty, h3) = refuse-ok no_rows h2 in
      let (same, h4) = refuse-ok mixed_keys h3 in
      record {
        rows = rs;
        all_rows = rows-some e.replay_data rs found;
        some_row = length_pos rs nonempty;
        fits = ground arith;
        result = ok-ok _ steps h4;
      }

  -- A rollout that the packer accepts gave replay data for each of its policy outputs, at least one and at most
  -- `expected_valid_steps`; the trainer gets exactly `expected_valid_steps` rows, and those that are no padding
  -- carry the finite logprobs of the rollout in their order, and nothing else.
  pub get_policy_input-Packed :
      (n : ℕ) (e : Episode R) (steps : List (TrainerReplayData I L))
      → get_policy_input family n e ≡ ok steps
      → (rows : List R) × ((e.replay_data ≡ map some rows)
          × ((1 ≤ length rows)
              × ((length rows ≤ n)
                  × ((length steps ≡ n) × (trained steps ≡ finite_logprobs rows)))))
  unfolding repaired
  get_policy_input-Packed n e steps h =
      let a = accepted n e steps h in
      let id = e.session_uuid in
      let samples = map (step_sample family id) a.rows in
      let count =
        length-repaired_by (first_good samples) samples
        ∙ length-map (step_sample family id) a.rows in
      (
        a.rows,
        (
          a.all_rows,
          (
            a.some_row,
            (
              a.fits,
              (
                ap length (sym a.result)
                    ∙ length-padded n id (repaired samples) (omega (arith, count, a.some_row))
                        (omega (arith, count, a.fits)),
                ap trained (sym a.result)
                    ∙ (trained-padded n id (repaired samples)
                        ∙ (trained-repaired_by (first_good samples) samples
                            ∙ trained-samples id a.rows)),
              ),
            ),
          ),
        ),
      )
