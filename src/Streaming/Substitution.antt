-- ===== src/Streaming/Substitution.antt =====
-- streaming_worker.py: the substitute scene of a payload that used up its retries.
use alpagym.Base.{
  ℕ, ◌+◌, String, ◌≡◌, refl, Bool, true, false, none, some, List, [], ◌∷◌, arith, get_elem?,
  get_elem?-set_self, lt_of_get_elem?,
}
use alpagym.Base.Int.{ℤ, pos, ◌-ℤ◌, leb_ℤ}
use alpagym.Streaming.State.{
  SharedPayloadState, RolloutJob, Settings, Worker, enqueue, write, find, pop,
}
use alpagym.Streaming.Handlers.{
  retry_job, fallback_job, fail_branch, fail_locked, finish_failed, fallback_scene, substitute,
  after_drop, on_rollout_failed,
}

pub find-pop : (k : ℕ) (m : List (ℕ × ℕ)) → find k (pop k m) ≡ none
find-pop k [] = refl
find-pop k ((j, v) ∷ m) = ground (arith, find-pop k m)

module _ {P E : Type 0} (cfg : Settings P) (job : RolloutJob) (w : Worker P E)
    (s : SharedPayloadState P E) (scene : String) where
  -- The payload is open, and `scene` is the last good scene.
  pub record IsOpen : Type 0 where
    pub at : get_elem? w.states job.shared ≡ some s
    pub alive : s.permanently_failed ≡ false
    pub unresolved : s.future_resolved ≡ false
    pub good : w.last_good_scene_id ≡ some scene

  left : ℤ
  left = s.retries_left -ℤ pos 1

  abbrev pub retried_worker : Worker P E
  retried_worker =
      enqueue 0 (some (retry_job job w.next_uuid))
        (record (write job.shared (record s { retries_left = s.retries_left -ℤ pos 1 }) w) {
          next_uuid = w.next_uuid + 1;
        })

  pub retry_lem :
      IsOpen
      → leb_ℤ (pos 0) (s.retries_left -ℤ pos 1) ≡ true
      → on_rollout_failed cfg job w ≡ retried_worker
  unfolding on_rollout_failed fail_locked
  retry_lem o t = rw (o.at, on_rollout_failed) (by_branch _ _ s.future_resolved o.alive t)
    where
      by_branch :
          (failed may_retry resolved : Bool)
          → failed ≡ false
          → may_retry ≡ true
          → finish_failed cfg job (fail_branch cfg failed may_retry resolved job s w)
            ≡ retried_worker
      by_branch false true resolved e f = refl
      by_branch true may_retry resolved e f = cc
      by_branch false false resolved e f = cc

  abbrev pub substituted_state : SharedPayloadState P E
  substituted_state = record s {
    retries_left = pos cfg.max_scene_retries;
    permanently_failed = false;
    future_resolved = false;
  }

  abbrev pub exhausted_worker : Worker P E
  exhausted_worker =
      record (write job.shared
        (record s {
          retries_left = s.retries_left -ℤ pos 1;
          permanently_failed = true;
          future_resolved = true;
        })
        w) { active = pop (cfg.prompt_idx s.payload) w.active }

  abbrev pub substituted_worker : Worker P E
  substituted_worker =
      enqueue 0 (some (fallback_job job w.next_uuid scene))
        (record (write job.shared substituted_state exhausted_worker) {
          next_uuid = w.next_uuid + 1;
          last_good_scene_id = some scene;
        })

  pub substitute_lem :
      IsOpen
      → leb_ℤ (pos 0) (s.retries_left -ℤ pos 1) ≡ false
      → job.is_fallback ≡ false
      → on_rollout_failed cfg job w ≡ substituted_worker
  unfolding on_rollout_failed fail_locked after_drop fallback_scene substitute write
  substitute_lem o t original =
      rw (o.at, on_rollout_failed) (by_branch _ _ _ o.alive t o.unresolved)
    where
      dropped : after_drop cfg job exhausted_worker ≡ substituted_worker
      dropped =
          rw
            (
              get_elem?-set_self w.states job.shared _ (lt_of_get_elem? w.states job.shared o.at),
              after_drop,
            )
            (rw (o.good, fallback_scene) (rw original refl))

      by_branch :
          (failed may_retry resolved : Bool)
          → failed ≡ false
          → may_retry ≡ false
          → resolved ≡ false
          → finish_failed cfg job (fail_branch cfg failed may_retry resolved job s w)
            ≡ substituted_worker
      by_branch false false false e f g = dropped
      by_branch true may_retry resolved e f g = cc
      by_branch false true resolved e f g = cc
      by_branch false false true e f g = cc
