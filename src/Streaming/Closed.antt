-- ===== src/Streaming/Closed.antt =====
-- streaming_worker.py: no step of a handler opens a worker again.
use alpagym.Base.{
  ℕ, ◌≡◌, refl, ◌∙◌, Bool, true, false, Option, none, some, List, [], get_elem?, String,
  if◌then◌else◌,
}
use alpagym.Base.Int.{pos, ◌-ℤ◌, leb_ℤ}
use alpagym.Base.Outcome.{Outcome, ok, raise}
use alpagym.Streaming.State.{
  SharedPayloadState, RolloutJob, Settings, Worker, enqueue, write, set_result, result_of, find,
}
use alpagym.Streaming.Handlers.{
  collect, fail_locked, fail_branch, fallback_scene, submit_payload, submit_found, Error,
  runtime_error,
}
use alpagym.Streaming.Threads.{
  Thread, pulled, pulled_with, running, landed, delivering, dropping, seeding, giving_up,
  landed_with, dropping_with, seeding_with, advance_on, succeed_on, failed_with, fail_on,
}
use alpagym.Streaming.System.{
  System, Step, Steps, submit, pull, leave, succeed, fail, advance, here, next,
}
use alpagym.Streaming.Taking.{take_job-got}

open_case :
    {B : Type 0} (closed : Bool) (m : Outcome Error B) {b : B} {X : Type 0}
    → (if closed then raise runtime_error else m) ≡ ok b
    → closed ≡ true
    → X
open_case true m e h = absurd (cc e)
open_case false m e h = absurd (cc h)

module _ {P E : Type 0} where
  set_result-closed :
      (ref : ℕ) (r : List E) (w : Worker P E) → (set_result ref r w).closed ≡ w.closed
  unfolding set_result
  set_result-closed ref r w = by_state (get_elem? w.states ref)
    where
      by_future :
          (s : SharedPayloadState P E) (f : Option (List E))
          → s.future ≡ f
          → (result_of ref r w (some s)).closed ≡ w.closed
      by_future s none e = rw e refl
      by_future s (some q) e = rw e refl

      by_state : (o : Option (SharedPayloadState P E)) → (result_of ref r w o).closed ≡ w.closed
      by_state none = refl
      by_state (some s) = by_future s s.future refl

module _ {P E : Type 0} (cfg : Settings P) where
  fail-closed :
      (failed may_retry resolved : Bool) (job : RolloutJob) (s : SharedPayloadState P E)
      (w : Worker P E)
      → (failed_with cfg job (fail_branch cfg failed may_retry resolved job s w)).1.closed
        ≡ w.closed
  unfolding failed_with enqueue write
  fail-closed true may_retry resolved job s w = refl
  fail-closed false true resolved job s w = refl
  fail-closed false false true job s w = refl
  fail-closed false false false job s w = refl

  pulled-closed :
      (job : RolloutJob) (failed : Bool) (w : Worker P E)
      → (pulled_with cfg job failed w).1.closed ≡ w.closed
  unfolding pulled_with
  pulled-closed job true w = refl
  pulled-closed job false w = refl

  landed-closed :
      (ref : ℕ) (s : SharedPayloadState P E) (b : Bool) (w : Worker P E)
      → (landed_with cfg ref (s, b) w).1.closed ≡ w.closed
  unfolding landed_with write
  landed-closed ref s false w = refl
  landed-closed ref s true w = refl

  dropping-closed :
      (job : RolloutJob) (o : Option String) (w : Worker P E)
      → (dropping_with cfg job o w).1.closed ≡ w.closed
  unfolding dropping_with
  dropping-closed job none w = refl
  dropping-closed job (some scene) w = refl

  seeding-closed :
      (job : RolloutJob) (o : Option String) (w : Worker P E)
      → (seeding_with cfg job o w).1.closed ≡ w.closed
  unfolding seeding_with
  seeding-closed job none w = refl
  seeding-closed job (some scene) w = refl

  advance-closed :
      (t : Thread E) (s : SharedPayloadState P E) (w : Worker P E)
      → (advance_on cfg t s w).1.closed ≡ w.closed
  unfolding advance_on enqueue write
  advance-closed (pulled job) s w = pulled-closed job s.permanently_failed w
  advance-closed (running job) s w = refl
  advance-closed (landed job e) s w =
      landed-closed job.shared (collect cfg s e).0 (collect cfg s e).1 w
  advance-closed (delivering ref r) s w = set_result-closed ref r w
  advance-closed (dropping job) s w = dropping-closed job w.last_good_scene_id w
  advance-closed (seeding job) s w = seeding-closed job (fallback_scene cfg.scene_pool none) w
  advance-closed (giving_up ref) s w = set_result-closed ref [] w
  advance-closed _ s w = refl

  Step-closed : {y z : System P E} → Step cfg y z → y.worker.closed ≡ true → z.worker.closed ≡ true
  unfolding submit_payload succeed_on fail_on fail_locked
  Step-closed {y} (submit p ref e) h =
      open_case y.worker.closed
        (submit_found cfg p (find (cfg.prompt_idx p) y.worker.active) y.worker) e h
  Step-closed {y} (pull e) h = (take_job-got y.worker e).closed ∙ h
  Step-closed {y} (leave e) h = (take_job-got y.worker e).closed ∙ h
  Step-closed {y} (succeed k episode at) h = h
  Step-closed {y} (fail k {job} {s} at here_is) h =
      fail-closed s.permanently_failed (leb_ℤ (pos 0) (s.retries_left -ℤ pos 1)) s.future_resolved
        job s y.worker
      ∙ h
  Step-closed {y} (advance k {t} {s} at here_is) h = advance-closed t s y.worker ∙ h

  pub Steps-closed :
      {y z : System P E} → Steps cfg y z → y.worker.closed ≡ true → z.worker.closed ≡ true
  Steps-closed here h = h
  Steps-closed (next r st) h = Step-closed st (Steps-closed r h)
