-- ===== src/Packer/Inputs.antt =====
-- Where the model inputs of the trainer's rows come from.
use alpagym.Base.{
  ℕ, zero, suc, ◌-◌, ◌≡◌, refl, sym, ap, ◌∙◌, inl, inr, String, Bool, true, false, ◌||◌, Option,
  none, some, List, [], ◌∷◌, ◌++◌, map, length, All, any, replicate, arith, subst, Bool-cases,
}
use alpagym.Base.Outcome.{ok}
use alpagym.Packer.{
  Family, TrainerReplayData, Episode, first_good, with_template, repaired_by, repaired, sample_with,
  step_sample, padding_row, padded, get_policy_input,
}
use alpagym.Packer.Kept.{accepted}

module _ {I L : Type 0} where
  -- Every step that is no padding has inputs with the property, and some step is none.
  abbrev GoodSteps : (I → Type 0) → List (TrainerReplayData I L) → Type 0
  GoodSteps P = All (λ s. s.is_padding ≡ false → P s.model_inputs)

  abbrev pub WithInputs : (I → Type 0) → List (TrainerReplayData I L) → Type 0
  WithInputs P = All (λ s. P s.model_inputs)

  first_good-some :
      (P : I → Type 0) (ss : List (TrainerReplayData I L)) (t : I)
      → first_good ss ≡ some t
      → GoodSteps P ss
      → P t
  unfolding first_good
  first_good-some P [] t h g = absurd (cc h)
  first_good-some P (s ∷ ss) t h g = elim (Bool-cases s.is_padding) [
    | inl p ↦ first_good-some P ss t (ground (arith, h, p)) g.1
    | inr p ↦ let same : s.model_inputs ≡ t = ground (arith, h, p) in subst P same (g.0 p)
  ]

  templates-With :
      (P : I → Type 0) (t : I) (ss : List (TrainerReplayData I L))
      → P t
      → GoodSteps P ss
      → WithInputs P (map (with_template t) ss)
  unfolding with_template
  templates-With P t [] w g = tt
  templates-With P t (s ∷ ss) w g = elim (Bool-cases s.is_padding) [
    | inl p ↦ (rw p w, templates-With P t ss w g.1)
    | inr p ↦ (rw p (g.0 p), templates-With P t ss w g.1)
  ]

  WithInputs-append :
      (P : I → Type 0) (ss ts : List (TrainerReplayData I L))
      → WithInputs P ss
      → WithInputs P ts
      → WithInputs P (ss ++ ts)
  WithInputs-append P [] ts a b = b
  WithInputs-append P (s ∷ ss) ts a b = (a.0, WithInputs-append P ss ts a.1 b)

module _ {R I L : Type 0} (family : Family R I L) where
  -- Whether the logprob of a row is finite.
  unfoldable pub is_finite_row : R → Bool
  is_finite_row r = family.is_finite (family.build_model_inputs r).1

  pub padded-With :
      (P : I → Type 0) (n : ℕ) (id : String) (ss : List (TrainerReplayData I L))
      → WithInputs P ss
      → WithInputs P (padded family n id ss)
  unfolding padded padding_row
  padded-With P n id [] w = tt
  padded-With P n id (s ∷ ss) w =
      WithInputs-append P (s ∷ ss)
        (replicate (n - length (s ∷ ss)) (padding_row family id s.model_inputs)) w
        (same_inputs (n - length (s ∷ ss)))
    where
      same_inputs : (k : ℕ) → WithInputs P (replicate k (padding_row family id s.model_inputs))
      same_inputs zero = tt
      same_inputs (suc k) = (w.0, same_inputs k)

  samples-Good :
      (P : I → Type 0)
      (finite : (r : R) → is_finite_row r ≡ true → P (family.build_model_inputs r).0) (id : String)
      (rs : List R)
      → GoodSteps P (map (step_sample family id) rs)
  unfolding step_sample sample_with is_finite_row
  samples-Good P finite id [] = tt
  samples-Good P finite id (r ∷ rs) =
      ((λ p. finite r (ground (arith, p))), samples-Good P finite id rs)

  some_good :
      (id : String) (rs : List R)
      → any is_finite_row rs ≡ true
      → (t : I) × (first_good (map (step_sample family id) rs) ≡ some t)
  unfolding first_good step_sample sample_with is_finite_row
  some_good id [] h = absurd (cc h)
  some_good id (r ∷ rs) h = elim (Bool-cases (family.is_finite (family.build_model_inputs r).1)) [
    | inl f ↦ ((family.build_model_inputs r).0, rw f refl)
    | inr f ↦ let (t, e) = some_good id rs (ground (arith, h, f)) in (t, rw f e)
  ]

  pub none_good :
      (id : String) (rs : List R)
      → any is_finite_row rs ≡ false
      → first_good (map (step_sample family id) rs) ≡ none
  unfolding first_good step_sample sample_with is_finite_row
  none_good id [] h = refl
  none_good id (r ∷ rs) h = elim (Bool-cases (family.is_finite (family.build_model_inputs r).1)) [
    | inl f ↦ absurd (ground (arith, h, f))
    | inr f ↦ rw f (none_good id rs (ground (arith, h, f)))
  ]

  -- Whether a policy output has replay data with a finite logprob.
  unfoldable pub is_finite_output : Option R → Bool
  is_finite_output none = false
  is_finite_output (some r) = is_finite_row r

  pub any-outputs : (rs : List R) → any is_finite_output (map some rs) ≡ any is_finite_row rs
  unfolding is_finite_output
  any-outputs [] = refl
  any-outputs (r ∷ rs) = ap (λ b. is_finite_row r || b) (any-outputs rs)

  repaired_by-With :
      (P : I → Type 0) (ss : List (TrainerReplayData I L)) (o : Option I) (t : I)
      → first_good ss ≡ o
      → o ≡ some t
      → GoodSteps P ss
      → WithInputs P (repaired_by o ss)
  unfolding repaired_by
  repaired_by-With P ss none t e f g = absurd (cc f)
  repaired_by-With P ss (some u) t e f g = templates-With P u ss (first_good-some P ss u e g) g

  -- When some policy output has a finite logprob, every row that the trainer gets, the padding included, has the
  -- model inputs of a policy output with a finite logprob: whatever holds of those inputs holds of every row's.
  pub get_policy_input-With :
      (P : I → Type 0)
      → ((r : R) → is_finite_row r ≡ true → P (family.build_model_inputs r).0)
      → (n : ℕ) (e : Episode R) (steps : List (TrainerReplayData I L))
      → any is_finite_output e.replay_data ≡ true
      → get_policy_input family n e ≡ ok steps
      → All (λ s. P s.model_inputs) steps
  unfolding repaired
  get_policy_input-With P finite n e steps some_finite h =
      let a = accepted family n e steps h in
      let id = e.session_uuid in
      let samples = map (step_sample family id) a.rows in
      let found =
        some_good id a.rows
          (sym (any-outputs a.rows) ∙ (ap (any is_finite_output) (sym a.all_rows) ∙ some_finite)) in
      subst (WithInputs P) a.result (
        padded-With P n id (repaired samples) (
          repaired_by-With P samples (first_good samples) found.0 refl found.1
            (samples-Good P finite id a.rows)))
