-- ===== src/Streaming/Loop.antt =====
-- streaming_worker.py: `shutdown`, and the `get` of `_rollout_worker_loop`.
use alpagym.Base.{
  ℕ, zero, suc, Bool, true, false, not, Option, none, some, List, [], ◌∷◌, if◌then◌else◌, get_elem?,
}
use alpagym.Streaming.State.{
  SharedPayloadState, RolloutJob, QueueItem, Settings, Worker, enqueue, write, set_result,
}

-- What a worker thread gets: nothing yet, or an item, which is the sentinel or a job.
pub data Taken (P E : Type 0) : Type 0 where
  blocked : Taken P E
  got : Option RolloutJob → Worker P E → Taken P E

module _ {P E : Type 0} where
  abbrev pub is_unresolved : Option (SharedPayloadState P E) → Bool
  is_unresolved none = false
  is_unresolved (some s) = not s.future_resolved

  -- The references in the index whose future is not resolved.
  unfoldable pub unresolved : List (SharedPayloadState P E) → List (ℕ × ℕ) → List ℕ
  unresolved states [] = []
  unresolved states ((_, ref) ∷ m) =
      let rest = unresolved states m in
      if is_unresolved (get_elem? states ref) then ref ∷ rest else rest

  abbrev failed_state : SharedPayloadState P E → SharedPayloadState P E
  failed_state s = record s { future_resolved = true; permanently_failed = true }

  abbrev pub mark_with : ℕ → Option (SharedPayloadState P E) → Worker P E → Worker P E
  mark_with ref none w = w
  mark_with ref (some s) w = write ref (failed_state s) w

  unfoldable pub mark_failed : List ℕ → Worker P E → Worker P E
  mark_failed [] w = w
  mark_failed (ref ∷ refs) w = mark_failed refs (mark_with ref (get_elem? w.states ref) w)

  unfoldable pub put_sentinels : ℕ → Worker P E → Worker P E
  unfolding enqueue
  put_sentinels zero w = w
  put_sentinels (suc n) w = put_sentinels n (enqueue 2 none w)

  unfoldable pub set_empty_results : List ℕ → Worker P E → Worker P E
  set_empty_results [] w = w
  set_empty_results (ref ∷ refs) w = set_empty_results refs (set_result ref [] w)

  -- `shutdown`
  unfoldable pub shutdown : Settings P → Worker P E → Worker P E
  unfolding unresolved mark_failed put_sentinels set_empty_results
  shutdown cfg w =
      let refs = unresolved w.states w.active in
      let closed = record (mark_failed refs (record w { closed = true })) { active = [] } in
      let drained = record closed { queue = [] } in
      set_empty_results refs (put_sentinels cfg.max_concurrent_rollouts drained)

  abbrev pub take_from : List QueueItem → Worker P E → Taken P E
  take_from [] w = blocked
  take_from (item ∷ rest) w = got item.job (record w { queue = rest })

  -- `self._rollout_job_queue.get()` in `_rollout_worker_loop`.
  unfoldable pub take_job : Worker P E → Taken P E
  take_job w = take_from w.queue w
