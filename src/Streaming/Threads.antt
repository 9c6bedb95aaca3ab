-- ===== src/Streaming/Threads.antt =====
-- streaming_worker.py: what a thread of the pool is about to do with a pulled job, and its next step.
-- A step is a locked part of a handler, or one access to the shared objects outside of the lock: after the
-- lock, `_on_rollout_failed` writes the fields of the payload's state one by one.
use alpagym.Base.{
  ℕ, ◌+◌, String, Bool, true, false, Option, none, some, List, [], ◌∷◌, if◌then◌else◌, take,
}
use alpagym.Base.Int.{pos}
use alpagym.Streaming.State.{
  SharedPayloadState, RolloutJob, Settings, Worker, enqueue, write, set_result, pop,
}
use alpagym.Streaming.Handlers.{proven, collect, fail_locked, fallback_scene, fallback_job}

-- With a job from the queue; in `_run_rollout`; in `_on_rollout_succeeded` before the lock, and before `set_result`; in
-- `_on_rollout_failed` after the lock: before the read of the last good scene, before the seed from the pool,
-- before each of the three writes, before the `put`, and before `set_result([])`.
pub data Thread (E : Type 0) : Type 0 where
  pulled running : RolloutJob → Thread E
  landed : RolloutJob → E → Thread E
  delivering : ℕ → List E → Thread E
  dropping seeding : RolloutJob → Thread E
  reviving reopening refilling requeueing : RolloutJob → String → Thread E
  giving_up : ℕ → Thread E

module _ {E : Type 0} where
  -- The state that the thread works on.
  unfoldable pub shared_of : Thread E → ℕ
  shared_of (pulled job) = job.shared
  shared_of (running job) = job.shared
  shared_of (landed job e) = job.shared
  shared_of (delivering ref r) = ref
  shared_of (dropping job) = job.shared
  shared_of (seeding job) = job.shared
  shared_of (reviving job scene) = job.shared
  shared_of (reopening job scene) = job.shared
  shared_of (refilling job scene) = job.shared
  shared_of (requeueing job scene) = job.shared
  shared_of (giving_up ref) = ref

  -- `fallback_scene is not None and not is_fallback`
  unfoldable pub choose : RolloutJob → Option String → Thread E
  choose job none = giving_up job.shared
  choose job (some scene) = if job.is_fallback then giving_up job.shared else reviving job scene

module _ {P E : Type 0} (cfg : Settings P) where
  -- `if rollout_job.shared_payload_state.permanently_failed: continue`
  unfoldable pub pulled_with : RolloutJob → Bool → Worker P E → List (Thread E) × Worker P E
  pulled_with job true w = ([], w)
  pulled_with job false w = (running job ∷ [], w)

  -- The locked part of `_on_rollout_succeeded`.
  unfoldable pub landed_with :
      ℕ → SharedPayloadState P E × Bool → Worker P E → List (Thread E) × Worker P E
  landed_with ref (s, false) w = ([], write ref s w)
  landed_with ref (s, true) w = (
    delivering ref (take s.n_target s.collected) ∷ [],
    record (write ref s w) { active = pop (cfg.prompt_idx s.payload) w.active },
  )

  unfoldable pub dropping_with :
      RolloutJob → Option String → Worker P E → List (Thread E) × Worker P E
  dropping_with job none w = (seeding job ∷ [], w)
  dropping_with job (some scene) w = (choose job (some scene) ∷ [], w)

  unfoldable pub seeding_with :
      RolloutJob → Option String → Worker P E → List (Thread E) × Worker P E
  seeding_with job none w = (choose job none ∷ [], w)
  seeding_with job (some scene) w =
      (choose job (some scene) ∷ [], record w { last_good_scene_id = some scene })

  -- The next step of a thread that is not in `_run_rollout`, on the state it works on: the thread at its new
  -- place, if its handler goes on, and the worker.
  unfoldable pub advance_on :
      Thread E → SharedPayloadState P E → Worker P E → List (Thread E) × Worker P E
  advance_on (pulled job) s w = pulled_with job s.permanently_failed w
  advance_on (running job) s w = (running job ∷ [], w)
  advance_on (landed job e) s w = landed_with job.shared (collect cfg s e) w
  advance_on (delivering ref r) s w = ([], set_result ref r w)
  advance_on (dropping job) s w = dropping_with job w.last_good_scene_id w
  advance_on (seeding job) s w = seeding_with job (fallback_scene cfg.scene_pool none) w
  advance_on (reviving job scene) s w =
      (reopening job scene ∷ [], write job.shared (record s { permanently_failed = false }) w)
  advance_on (reopening job scene) s w =
      (refilling job scene ∷ [], write job.shared (record s { future_resolved = false }) w)
  advance_on (refilling job scene) s w = (
    requeueing job scene ∷ [],
    write job.shared (record s { retries_left = pos cfg.max_scene_retries }) w,
  )
  advance_on (requeueing job scene) s w = (
    [],
    enqueue 0 (some (fallback_job job w.next_uuid scene))
        (record w { next_uuid = w.next_uuid + 1 }),
  )
  advance_on (giving_up ref) s w = ([], set_result ref [] w)

  -- What `_run_rollout` ends in: the write before the lock of `_on_rollout_succeeded`, or the locked part of
  -- `_on_rollout_failed`.
  unfoldable pub succeed_on : RolloutJob → E → Worker P E → List (Thread E) × Worker P E
  succeed_on job e w =
      (landed job e ∷ [], record w { last_good_scene_id = proven job w.last_good_scene_id })

  unfoldable pub failed_with : RolloutJob → Worker P E × Bool → List (Thread E) × Worker P E
  failed_with job (w, false) = ([], w)
  failed_with job (w, true) = (dropping job ∷ [], w)

  unfoldable pub fail_on :
      RolloutJob → SharedPayloadState P E → Worker P E → List (Thread E) × Worker P E
  fail_on job s w = failed_with job (fail_locked cfg job s w)
