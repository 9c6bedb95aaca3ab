-- ===== src/Streaming/Submitting.antt =====
-- streaming_worker.py: what `submit_payload` changes.
use alpagym.Base.{
  ℕ, zero, suc, ◌+◌, ◌<◌, ◌≤◌, String, ◌≡◌, refl, ap, subst, sym, ◌∙◌, Bool, true, false, Option,
  none, some, [], ◌∷◌, ◌++◌, ◌⊎◌, inl, inr, arith, ◌==◌, if◌then◌else◌, get_elem?, length,
  length-append, get_elem?-snoc_cases,
}
use alpagym.Base.Outcome.{ok, raise}
use alpagym.Streaming.State.{SharedPayloadState, RolloutJob, Settings, Worker, enqueue}
use alpagym.Streaming.Handlers.{
  dispatch, register, fresh_state, submit_new, submit_found, submit_payload, runtime_error,
}
use alpagym.Streaming.System.{System, queued, owners, outstanding}
use alpagym.Streaming.Moves.{queued-put}
use alpagym.Streaming.Owners.{OwnedAt, Owned, IsConserved}

module _ {P E : Type 0} (cfg : Settings P) where
  -- `n` jobs of one payload enter the queue.
  pub record Dispatches (w w' : Worker P E) (n ref : ℕ) : Type 0 where
    pub states : w'.states ≡ w.states
    pub active : w'.active ≡ w.active
    pub errors : w'.invalid_state_errors ≡ w.invalid_state_errors
    pub queue : (i : ℕ) → queued i w'.queue ≡ (if ref == i then n else 0) + queued i w.queue

  pub dispatch_lem :
      (n ref : ℕ) (scene : String) (w : Worker P E)
      → Dispatches w (dispatch cfg n ref scene w) n ref
  unfolding dispatch
  dispatch_lem zero ref scene w = record {
    states = refl;
    active = refl;
    errors = refl;
    queue = λ i. ground arith;
  }
  dispatch_lem (suc n) ref scene w =
      let w1 : Worker P E = record w { next_uuid = w.next_uuid + 1 } in
      let job : RolloutJob = record {
        shared = ref;
        session_uuid = w.next_uuid;
        scene_id = scene;
        attempts = 0;
        is_fallback = false;
      } in
      let d = dispatch_lem n ref scene (enqueue 1 (some job) w1) in
      record {
        states = d.states;
        active = d.active;
        errors = d.errors;
        queue = λ i. ground (
          arith,
          d.queue i,
          queued-put i (record { priority = 1; seq = w.next_seq; job = some job }) w.queue,
        );
      }

  submit_new_cases :
      (p : P) (o : Option String) (w : Worker P E) {ref : ℕ} {w' : Worker P E}
      → submit_new cfg p o w ≡ ok (ref, w')
      → (scene : String) × (w' ≡ register cfg p scene w) × (ref ≡ length w.states)
  submit_new_cases p none w e = cc
  submit_new_cases p (some scene) w e = (scene, ground arith, ground arith)

  abbrev Submits : P → ℕ → Worker P E → Worker P E → Type 0
  Submits p ref w w' =
      (w' ≡ w) ⊎ ((scene : String) × (w' ≡ register cfg p scene w) × (ref ≡ length w.states))

  submit_cases_of :
      (closed : Bool) (p : P) (o : Option ℕ) (w : Worker P E) {ref : ℕ} {w' : Worker P E}
      → (if closed then raise runtime_error else submit_found cfg p o w) ≡ ok (ref, w')
      → Submits p ref w w'
  submit_cases_of true p o w e = cc
  submit_cases_of false p (some ref) w e = inl (ground arith)
  submit_cases_of false p none w e = inr (submit_new_cases p (cfg.scene_id_resolver p) w e)

  pub submit_cases :
      (p : P) (w : Worker P E) {ref : ℕ} {w' : Worker P E}
      → submit_payload cfg p w ≡ ok (ref, w')
      → Submits p ref w w'
  unfolding submit_payload
  submit_cases p w e = submit_cases_of w.closed p _ w e

  module _ (p : P) (scene : String) (y : System P E) where
    abbrev pub registered : System P E
    registered = record y { worker = register cfg p scene y.worker }

    outstanding-register :
        (i : ℕ)
        → outstanding i registered
          ≡ (if length y.worker.states == i then cfg.rollouts_per_payload else 0) + outstanding i y
    unfolding register
    outstanding-register i =
        omega
          (arith, (dispatch_lem cfg.rollouts_per_payload (length y.worker.states) scene _).queue i)

    states-register : registered.worker.states ≡ y.worker.states ++ fresh_state cfg p ∷ []
    unfolding register
    states-register =
        (dispatch_lem cfg.rollouts_per_payload (length y.worker.states) scene _).states

    errors-register : registered.worker.invalid_state_errors ≡ y.worker.invalid_state_errors
    unfolding register
    errors-register =
        (dispatch_lem cfg.rollouts_per_payload (length y.worker.states) scene _).errors

    state_cases :
        (i : ℕ) {s : SharedPayloadState P E}
        → get_elem? registered.worker.states i ≡ some s
        → (i < length y.worker.states) × (get_elem? y.worker.states i ≡ some s)
          ⊎ (length y.worker.states ≡ i) × (fresh_state cfg p ≡ s)
    state_cases i {s} e =
        get_elem?-snoc_cases y.worker.states (fresh_state cfg p) i
          (subst (λ l. get_elem? l i ≡ some s) states-register e)

    length-register : length registered.worker.states ≡ length y.worker.states + 1
    length-register =
        ap length states-register ∙ length-append y.worker.states (fresh_state cfg p ∷ [])

    pub register-IsConserved : IsConserved cfg y → IsConserved cfg registered
    unfolding OwnedAt
    register-IsConserved c = record {
      owned = λ i s e. elim (state_cases i e) [
        | inl (lt, q) ↦ c.owned i s q
        | inr (q, r) ↦
            subst (λ v. Owned (owners i y.threads) v) r
              (ground (arith, c.fresh i (omega (arith, q))))
      ];
      room = λ i s e. elim (state_cases i e) [
        | inl (lt, q) ↦ ground (arith, outstanding-register i, c.room i s q, lt)
        | inr (q, r) ↦
            subst
              (λ (v : SharedPayloadState P E).
                length v.collected + outstanding i registered ≤ cfg.rollouts_per_payload)
              r (ground (arith, outstanding-register i, c.fresh i (omega (arith, q)), q))
      ];
      targets = λ i s e. elim (state_cases i e) [
        | inl (lt, q) ↦ c.targets i s q
        | inr (q, r) ↦ sym (ap (λ (v : SharedPayloadState P E). v.n_target) r)
      ];
      fresh = λ i le. ground (
        arith,
        outstanding-register i,
        c.fresh i (omega (arith, length-register, le)),
        length-register,
      );
      sized = c.sized;
      errors = errors-register ∙ c.errors;
    }
