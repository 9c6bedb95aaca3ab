-- ===== src/Streaming/Endless.antt =====
-- streaming_worker.py: a payload whose every rollout fails, once the worker knows a good scene.
use alpagym.Base.{
  ℕ, zero, suc, ◌<◌, String, ◌≡◌, refl, subst, true, false, ◌⊎◌, inl, inr, none, some, arith,
  Bool-cases, get_elem?, set, get_elem?-set_self, lt_of_get_elem?, length-set,
}
use alpagym.Base.Int.{pos, ◌-ℤ◌, leb_ℤ}
use alpagym.Streaming.State.{
  SharedPayloadState, RolloutJob, Settings, Worker, put, enqueue, write, find,
}
use alpagym.Streaming.Handlers.{on_rollout_failed}
use alpagym.Streaming.Substitution.{IsOpen, retry_lem, substitute_lem, substituted_state, find-pop}

-- `n` failures in a row: each time the job that fails is the one that the failure before put into
-- the queue.
pub data Failures {P E : Type 0} (cfg : Settings P) (w : Worker P E) (job : RolloutJob)
    : ℕ → Worker P E → RolloutJob → Type 0 where
  begin : Failures cfg w job zero w job
  again :
      {n : ℕ} {w' : Worker P E} {job' : RolloutJob} (next : RolloutJob)
      → Failures cfg w job n w' job'
      → (on_rollout_failed cfg job' w').queue
        ≡ put (record { priority = 0; seq = w'.next_seq; job = some next }) w'.queue
      → Failures cfg w job (suc n) (on_rollout_failed cfg job' w') next

room : (n : ℕ) → 0 < n → leb_ℤ (pos 0) (pos n -ℤ pos 1) ≡ true
unfolding ◌-ℤ◌
room n h = ground arith

module _ {P E : Type 0} (cfg : Settings P) where
  -- A payload that the next failure does not end.
  record Survives (ref : ℕ) (scene : String) (w : Worker P E) (job : RolloutJob) : Type 0 where
    state : SharedPayloadState P E
    is_open : IsOpen cfg job w state scene
    same : job.shared ≡ ref
    more : (job.is_fallback ≡ false) ⊎ (leb_ℤ (pos 0) (state.retries_left -ℤ pos 1) ≡ true)

  -- What one failure leads to.
  abbrev Continues : ℕ → String → Worker P E → RolloutJob → Type 0
  Continues ref scene w job =
      (next : RolloutJob) × ((on_rollout_failed cfg job w).queue
        ≡ put (record { priority = 0; seq = w.next_seq; job = some next }) w.queue)
      × Survives ref scene (on_rollout_failed cfg job w) next

  module _ (enough : 0 < cfg.max_scene_retries) where
    survive_retry :
        (ref : ℕ) (scene : String) (w : Worker P E) (job : RolloutJob)
        (v : Survives ref scene w job)
        → leb_ℤ (pos 0) (v.state.retries_left -ℤ pos 1) ≡ true
        → Continues ref scene w job
    unfolding enqueue write
    survive_retry ref scene w job v t =
        let lt = lt_of_get_elem? w.states job.shared v.is_open.at in
        rw (retry_lem cfg job w v.state scene v.is_open t) (
          _,
          refl,
          (record {
            state = record v.state { retries_left = v.state.retries_left -ℤ pos 1 };
            is_open = record {
              at = get_elem?-set_self w.states job.shared _ lt;
              alive = v.is_open.alive;
              unresolved = v.is_open.unresolved;
              good = v.is_open.good;
            };
            same = v.same;
            more = inl refl;
          }),
        )

    survive_substitution :
        (ref : ℕ) (scene : String) (w : Worker P E) (job : RolloutJob)
        (v : Survives ref scene w job)
        → leb_ℤ (pos 0) (v.state.retries_left -ℤ pos 1) ≡ false
        → job.is_fallback ≡ false
        → Continues ref scene w job
    unfolding enqueue write
    survive_substitution ref scene w job v t original =
        let lt = lt_of_get_elem? w.states job.shared v.is_open.at in
        rw (substitute_lem cfg job w v.state scene v.is_open t original) (
          _,
          refl,
          (record {
            state = substituted_state cfg job w v.state scene;
            is_open = record {
              at = get_elem?-set_self (set w.states job.shared _) job.shared _ (
                  omega (
                    arith,
                    lt,
                    length-set w.states job.shared (record v.state {
                      retries_left = v.state.retries_left -ℤ pos 1;
                      permanently_failed = true;
                      future_resolved = true;
                    }),
                  ));
              alive = refl;
              unresolved = refl;
              good = refl;
            };
            same = v.same;
            more = inr (room cfg.max_scene_retries enough);
          }),
        )

    survive :
        (ref : ℕ) (scene : String) (w : Worker P E) (job : RolloutJob)
        → Survives ref scene w job
        → Continues ref scene w job
    survive ref scene w job v = elim (Bool-cases (leb_ℤ (pos 0) (v.state.retries_left -ℤ pos 1))) [
      | inl t ↦ survive_retry ref scene w job v t
      | inr t ↦ elim v.more [
        | inl original ↦ survive_substitution ref scene w job v t original
        | inr t' ↦ cc
      ]
    ]

    chain :
        (scene : String) (w : Worker P E) (job : RolloutJob) (n : ℕ)
        → Survives job.shared scene w job
        → (w' : Worker P E) × (job' : RolloutJob) × Failures cfg w job n w' job'
          × Survives job.shared scene w' job'
    chain scene w job zero v = (w, job, begin, v)
    chain scene w job (suc n) v =
        let (w', job', fs, v') = chain scene w job n v in
        let (next, q, v'') = survive job.shared scene w' job' v' in
        (on_rollout_failed cfg job' w', next, again next fs q, v'')

  -- With a positive retry budget and a known good scene: after a job fails that is no substitute, and then any number
  -- of further jobs, each the one that the failure before put into the queue, and each failure handled to its
  -- end with no other thread in between, the payload's future is unresolved and it is not failed.
  pub never_given_up :
      (w : Worker P E) (job : RolloutJob) (s : SharedPayloadState P E) (scene : String) (n : ℕ)
      → 0 < cfg.max_scene_retries
      → IsOpen cfg job w s scene
      → job.is_fallback ≡ false
      → (w' : Worker P E) × (job' : RolloutJob) × (s' : SharedPayloadState P E) × Failures cfg w job
          n w' job'
        × (get_elem? w'.states job.shared ≡ some s')
        × (s'.future_resolved ≡ false)
        × (s'.permanently_failed ≡ false)
  never_given_up w job s scene n enough o original =
      let (w', job', fs, v) =
        chain enough scene w job n
          (record { state = s; is_open = o; same = refl; more = inl original }) in
      (
        w',
        job',
        v.state,
        fs,
        subst (λ r. get_elem? w'.states r ≡ some v.state) v.same v.is_open.at,
        v.is_open.unresolved,
        v.is_open.alive,
      )

  -- When the retries of an open payload run out with the failure of a job that is no substitute, a good scene is
  -- known, and the failure is handled to its end with no other thread in between: the payload stays open with its
  -- full retry budget, while its prompt index is no longer in the index of active payloads.
  pub substitution_unindexed :
      (w : Worker P E) (job : RolloutJob) (s : SharedPayloadState P E) (scene : String)
      → IsOpen cfg job w s scene
      → leb_ℤ (pos 0) (s.retries_left -ℤ pos 1) ≡ false
      → job.is_fallback ≡ false
      → (find (cfg.prompt_idx s.payload) (on_rollout_failed cfg job w).active ≡ none)
        × (t : SharedPayloadState P E) × (get_elem? (on_rollout_failed cfg job w).states job.shared
            ≡ some t)
        × (t.future_resolved ≡ false)
        × (t.retries_left ≡ pos cfg.max_scene_retries)
  unfolding enqueue write
  substitution_unindexed w job s scene o t original =
      let lt = lt_of_get_elem? w.states job.shared o.at in
      rw (substitute_lem cfg job w s scene o t original) (
        find-pop (cfg.prompt_idx s.payload) w.active,
        substituted_state cfg job w s scene,
        get_elem?-set_self (set w.states job.shared _) job.shared _ (
            omega (
              arith,
              lt,
              length-set w.states job.shared (record s {
                retries_left = s.retries_left -ℤ pos 1;
                permanently_failed = true;
                future_resolved = true;
              }),
            )),
        refl,
        refl,
      )
