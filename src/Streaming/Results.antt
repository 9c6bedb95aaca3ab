-- ===== src/Streaming/Results.antt =====
-- streaming_worker.py: what a payload's future is worth, and how many of its jobs are on their way.
use alpagym.Base.{
  ℕ, ◌≡◌, refl, Bool, true, false, ◌⊎◌, inl, inr, Option, none, some, List, [], get_elem?, length,
}
use alpagym.Streaming.State.{SharedPayloadState, Settings}
use alpagym.Streaming.System.{System, Reach, owners}
use alpagym.Streaming.Owners.{OwnedAt}
use alpagym.Streaming.Conservation.{Reach-IsConserved}

module _ {E : Type 0} where
  -- The result that a payload has, or the debt of it.
  abbrev pub Settled : Option (List E) → (n o : ℕ) → Type 0
  Settled f n o =
      ((r : List E) × (f ≡ some r) × ((length r ≡ n) ⊎ (r ≡ [])) × (o ≡ 0)) ⊎ (f ≡ none) × (o ≡ 1)

  up_case :
      (resolved : Bool) (f : Option (List E)) (n o : ℕ)
      → OwnedAt resolved f n o
      → resolved ≡ true
      → Settled f n o
  unfolding OwnedAt
  up_case false f n o h e = absurd (cc e)
  up_case true none n o h e = inr (refl, h)
  up_case true (some r) n o h e = inl (r, refl, h.1, h.0)

  down_case :
      (resolved : Bool) (f : Option (List E)) (n o : ℕ)
      → OwnedAt resolved f n o
      → resolved ≡ false
      → (f ≡ none) × (o ≡ 0)
  unfolding OwnedAt
  down_case true f n o h e = absurd (cc e)
  down_case false none n o h e = (refl, h)
  down_case false (some r) n o h e = absurd h

module _ {P E : Type 0} (cfg : Settings P) (y : System P E) (i : ℕ)
    (s : SharedPayloadState P E) where
  -- In every state that the steps of the threads reach, locked parts and single writes outside of the lock
  -- interleaved in any order: no `set_result` has hit a future that was done. A payload whose
  -- `future_resolved` is up has a result, of exactly `rollouts_per_payload` episodes or of none, and no thread
  -- owes it anything, or it has none yet and exactly one thread is to set it or to take the flag down again. A
  -- payload whose flag is down has no result, and no thread is about to set one.
  pub resolved_once :
      Reach cfg y
      → get_elem? y.worker.states i ≡ some s
      → (y.worker.invalid_state_errors ≡ 0)
        × (s.future_resolved ≡ true
            → Settled s.future cfg.rollouts_per_payload (owners i y.threads))
        × (s.future_resolved ≡ false → (s.future ≡ none) × (owners i y.threads ≡ 0))
  resolved_once r at =
      let c = Reach-IsConserved cfg r in
      let o = c.owned i s at in
      (
        c.errors,
        λ e. rw (← c.targets i s at) (up_case s.future_resolved s.future s.n_target _ o e),
        down_case s.future_resolved s.future s.n_target _ o,
      )
