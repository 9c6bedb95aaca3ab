-- ===== src/Streaming/Handlers.antt =====
-- streaming_worker.py: `submit_payload`, and the locked parts of the two handlers, as functions on the worker.
-- `on_rollout_failed` is its handler run to the end with no other thread in between; Threads has its steps.
use alpagym.Base.{
  ℕ, zero, suc, ◌+◌, String, Bool, true, false, not, ◌&&◌, Option, none, some, List, [], ◌∷◌, ◌++◌,
  leb, ◌==◌, if◌then◌else◌, get_elem?, length,
}
use alpagym.Base.Int.{ℤ, pos, ◌-ℤ◌, leb_ℤ, ltb_ℤ}
use alpagym.Base.Outcome.{Outcome, ok, raise, refuse, ◌>>◌}
use alpagym.Streaming.State.{
  SharedPayloadState, RolloutJob, Settings, Worker, enqueue, write, set_result, find, pop,
}

pub data Error : Type 0 where
  value_error runtime_error index_error : Error

-- The checks of `__init__`.
unfoldable pub init : ℤ → ℤ → ℤ → Outcome Error Unit
init max_concurrent_rollouts rollouts_per_payload max_scene_retries = do
  refuse (ltb_ℤ max_concurrent_rollouts (pos 1)) value_error
  refuse (ltb_ℤ rollouts_per_payload (pos 1)) value_error
  refuse (ltb_ℤ max_scene_retries (pos 0)) value_error

abbrev pub proven : RolloutJob → Option String → Option String
proven job last = if job.attempts == 0 && not job.is_fallback then some job.scene_id else last

abbrev pub retry_job : RolloutJob → ℕ → RolloutJob
retry_job job uuid = record {
  shared = job.shared;
  session_uuid = uuid;
  scene_id = job.scene_id;
  attempts = job.attempts + 1;
  is_fallback = false;
}

abbrev seed_of : List String → Option String
seed_of [] = none
seed_of (a ∷ []) = some a
seed_of (a ∷ b ∷ _) = some b

-- The substitute scene: the last good one, or a seed from the pool.
unfoldable pub fallback_scene : Option (List String) → Option String → Option String
fallback_scene pool (some scene) = some scene
fallback_scene pool none = elim pool [ none ↦ none | some ids ↦ seed_of ids ]

abbrev pub fallback_job : RolloutJob → ℕ → String → RolloutJob
fallback_job job uuid scene = record {
  shared = job.shared;
  session_uuid = uuid;
  scene_id = scene;
  attempts = 0;
  is_fallback = true;
}

module _ {P E : Type 0} (cfg : Settings P) where
  -- `for _ in range(n): queue.put((1, next(seq), _RolloutJob(...)))`
  unfoldable pub dispatch : ℕ → ℕ → String → Worker P E → Worker P E
  unfolding enqueue
  dispatch zero ref scene_id w = w
  dispatch (suc n) ref scene_id w = dispatch n ref scene_id (
      enqueue 1
        (some (record {
          shared = ref;
          session_uuid = w.next_uuid;
          scene_id = scene_id;
          attempts = 0;
          is_fallback = false;
        }))
        (record w { next_uuid = w.next_uuid + 1 }))

  abbrev pub fresh_state : P → SharedPayloadState P E
  fresh_state payload = record {
    payload = payload;
    n_target = cfg.rollouts_per_payload;
    future = none;
    retries_left = pos cfg.max_scene_retries;
    collected = [];
    permanently_failed = false;
    future_resolved = false;
  }

  -- The new state and its jobs, once the scene is resolved.
  unfoldable pub register : P → String → Worker P E → Worker P E
  unfolding dispatch
  register payload scene_id w =
      dispatch cfg.rollouts_per_payload (length w.states) scene_id (record w {
        states = w.states ++ fresh_state payload ∷ [];
        active = w.active ++ (cfg.prompt_idx payload, length w.states) ∷ [];
      })

  abbrev pub submit_new : P → Option String → Worker P E → Outcome Error (ℕ × Worker P E)
  submit_new payload none w = raise index_error
  submit_new payload (some scene_id) w = ok (length w.states, register payload scene_id w)

  -- A payload that is in the index already, or not.
  abbrev pub submit_found : P → Option ℕ → Worker P E → Outcome Error (ℕ × Worker P E)
  submit_found payload (some ref) w = ok (ref, w)
  submit_found payload none w = submit_new payload (cfg.scene_id_resolver payload) w

  -- `submit_payload`: the reference of the state, and the worker after the call.
  unfoldable pub submit_payload : P → Worker P E → Outcome Error (ℕ × Worker P E)
  submit_payload payload w =
      if w.closed
      then raise runtime_error
      else submit_found payload (find (cfg.prompt_idx payload) w.active) w

  -- The locked part of `_on_rollout_succeeded`, with whether to resolve the future.
  unfoldable pub collect : SharedPayloadState P E → E → SharedPayloadState P E × Bool
  collect s episode =
      if s.permanently_failed
      then (s, false)
      else let collected = s.collected ++ episode ∷ [] in
        if leb s.n_target (length collected) && not s.future_resolved
        then (record s { collected = collected; future_resolved = true }, true)
        else (record s { collected = collected }, false)

  -- The branches of the locked part of `_on_rollout_failed`: is the payload failed for good, is
  -- `retries_left` still non-negative after the decrement, is the future resolved.
  abbrev pub fail_branch :
      Bool → Bool → Bool → RolloutJob → SharedPayloadState P E → Worker P E → Worker P E × Bool
  fail_branch true may_retry resolved job s w = (w, false)
  fail_branch false true resolved job s w =
      let left = s.retries_left -ℤ pos 1 in
      (
        enqueue 0 (some (retry_job job w.next_uuid))
            (record (write job.shared (record s { retries_left = left }) w) {
              next_uuid = w.next_uuid + 1;
            }),
        false,
      )
  fail_branch false false true job s w =
      let left = s.retries_left -ℤ pos 1 in
      (write job.shared (record s { retries_left = left; permanently_failed = true }) w, false)
  fail_branch false false false job s w =
      let left = s.retries_left -ℤ pos 1 in
      (
        record (write job.shared
            (record s { retries_left = left; permanently_failed = true; future_resolved = true })
            w) { active = pop (cfg.prompt_idx s.payload) w.active },
        true,
      )

  -- The locked part of `_on_rollout_failed`, with whether to drop the payload.
  unfoldable pub fail_locked : RolloutJob → SharedPayloadState P E → Worker P E → Worker P E × Bool
  fail_locked job s w =
      fail_branch s.permanently_failed (leb_ℤ (pos 0) (s.retries_left -ℤ pos 1)) s.future_resolved
        job s w

  -- `if fallback_scene is not None and not is_fallback: ... else: future.set_result([])`
  unfoldable pub substitute :
      RolloutJob → SharedPayloadState P E → Option String → Worker P E → Worker P E
  substitute job s none w = set_result job.shared [] w
  substitute job s (some scene) w =
      if job.is_fallback
      then set_result job.shared [] w
      else enqueue 0 (some (fallback_job job w.next_uuid scene))
          (record (write job.shared
            (record s {
              permanently_failed = false;
              future_resolved = false;
              retries_left = pos cfg.max_scene_retries;
            })
            w) { next_uuid = w.next_uuid + 1 })

  abbrev after_drop_with : RolloutJob → Worker P E → Option (SharedPayloadState P E) → Worker P E
  after_drop_with job w none = w
  after_drop_with job w (some s) =
      let scene = fallback_scene cfg.scene_pool w.last_good_scene_id in
      substitute job s scene (record w { last_good_scene_id = scene })

  -- What `_on_rollout_failed` does after the lock, if `should_drop`.
  unfoldable pub after_drop : RolloutJob → Worker P E → Worker P E
  after_drop job w = after_drop_with job w (get_elem? w.states job.shared)

  abbrev pub finish_failed : RolloutJob → Worker P E × Bool → Worker P E
  finish_failed job (w, should_drop) = if should_drop then after_drop job w else w

  abbrev failed_with : RolloutJob → Worker P E → Option (SharedPayloadState P E) → Worker P E
  failed_with job w none = w
  failed_with job w (some s) = finish_failed job (fail_locked job s w)

  -- `_on_rollout_failed`
  unfoldable pub on_rollout_failed : RolloutJob → Worker P E → Worker P E
  on_rollout_failed job w = failed_with job w (get_elem? w.states job.shared)
