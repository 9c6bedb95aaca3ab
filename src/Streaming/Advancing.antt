-- ===== src/Streaming/Advancing.antt =====
-- streaming_worker.py: every step of every thread moves as it should.
use alpagym.Base.{
  ℕ, ◌+◌, String, ◌≡◌, refl, sym, ap, subst, ◌∙◌, Bool, true, false, not, ◌&&◌, ◌⊎◌, inl, inr,
  Option, none, some, List, [], ◌∷◌, ◌++◌, arith, leb, Bool-cases, get_elem?, set, take, length,
  length-append, length-take, set_same,
}
use alpagym.Base.Int.{pos, ◌-ℤ◌, leb_ℤ}
use alpagym.Streaming.State.{
  SharedPayloadState, RolloutJob, Settings, Worker, enqueue, write, set_result,
}
use alpagym.Streaming.Handlers.{collect, fail_locked, fail_branch, fallback_scene}
use alpagym.Streaming.Threads.{
  Thread, pulled, pulled_with, running, landed, delivering, dropping, seeding, reviving, reopening,
  refilling, requeueing, giving_up, shared_of, choose, landed_with, dropping_with, seeding_with,
  advance_on, succeed_on, failed_with, fail_on,
}
use alpagym.Streaming.System.{slot, owner}
use alpagym.Streaming.Owners.{Sized, Owned, Moves}
use alpagym.Streaming.Moves.{
  queued-put, set_result_lem, raised, lowered, paid, unpaid, shared_of-choose, owner-choose,
  slot-choose, Sized-choose, goes_on, ends,
}

module _ {P E : Type 0} (cfg : Settings P) (w : Worker P E) (s : SharedPayloadState P E) where
  -- The worker and the thread that a step leaves.
  abbrev pub Stepped : Thread E → List (Thread E) × Worker P E → Type 0
  Stepped t (more, w') = Moves t w s more w'

  chosen :
      (t : Thread E) (job : RolloutJob) (o : Option String) (w' : Worker P E)
      → get_elem? w.states (shared_of t) ≡ some s
      → shared_of t ≡ job.shared
      → owner t ≡ 1
      → slot t ≡ 1
      → w'.states ≡ w.states
      → w'.queue ≡ w.queue
      → w'.invalid_state_errors ≡ w.invalid_state_errors
      → Moves t w s (choose job o ∷ []) w'
  chosen t job o w' at same own sl st q e =
      goes_on t w s s w' (st ∙ set_same w.states (shared_of t) at) refl e (choose job o)
        (shared_of-choose E job o ∙ sym same) q
        (λ n h. subst (λ k. Owned (k + n) s) (own ∙ sym (owner-choose E job o)) h)
        (omega (arith, sl, slot-choose E job o)) (Sized-choose E s.n_target job o)

  result_ends :
      (t : Thread E) (ref : ℕ) (r : List E)
      → shared_of t ≡ ref
      → owner t ≡ 1
      → get_elem? w.states ref ≡ some s
      → s.future ≡ none
      → (length r ≡ s.n_target) ⊎ (r ≡ [])
      → Moves t w s [] (set_result ref r w)
  unfolding write
  result_ends t ref r same own at undone l = rw (set_result_lem ref r w at undone) (
      ends t w s (record s { future = some r }) _
        (ap (λ i. set w.states i (record s { future = some r })) (sym same)) refl refl 0
        (λ i. ground arith)
        (λ o h.
          paid s.future_resolved s.future s.n_target o r l (subst (λ k. Owned (k + o) s) own h))
        (omega arith))

  module _ (job : RolloutJob) (at : get_elem? w.states job.shared ≡ some s) where
    pub succeed-Moves : (e : E) → Stepped (running job) (succeed_on cfg job e w)
    unfolding succeed_on shared_of owner slot Sized
    succeed-Moves e =
        goes_on (running job) w s s _ (set_same w.states job.shared at) refl refl (landed job e)
          refl refl (λ o h. h) (omega arith) tt

    failed_cases :
        (failed may_retry resolved : Bool)
        → s.future_resolved ≡ resolved
        → Stepped
            (running job)
            (failed_with cfg job (fail_branch cfg failed may_retry resolved job s w))
    unfolding failed_with shared_of owner slot Sized write enqueue
    failed_cases true may_retry resolved r =
        ends (running job) w s s w (set_same w.states job.shared at) refl refl 0 (λ i. ground arith)
          (λ o h. subst (λ n. Owned n s) (omega arith) h) (omega arith)
    failed_cases false true resolved r =
        ends (running job) w s (record s { retries_left = s.retries_left -ℤ pos 1 }) _ refl refl
          refl 1 (λ i. queued-put i _ w.queue) (λ o h. subst (λ n. Owned n s) (omega arith) h)
          (omega arith)
    failed_cases false false true r =
        ends (running job) w s
          (record s { retries_left = s.retries_left -ℤ pos 1; permanently_failed = true }) _ refl
          refl refl 0 (λ i. ground arith) (λ o h. subst (λ n. Owned n s) (omega arith) h)
          (omega arith)
    failed_cases false false false r =
        goes_on (running job) w s
          (record s {
            retries_left = s.retries_left -ℤ pos 1;
            permanently_failed = true;
            future_resolved = true;
          })
          _ refl refl refl (dropping job) refl refl
          (λ o h. raised s.future_resolved s.future s.n_target o r h) (omega arith) tt

    pub fail-Moves : Stepped (running job) (fail_on cfg job s w)
    unfolding fail_on fail_locked
    fail-Moves =
        failed_cases s.permanently_failed (leb_ℤ (pos 0) (s.retries_left -ℤ pos 1))
          s.future_resolved refl

    pulled_cases : (failed : Bool) → Stepped (pulled job) (pulled_with cfg job failed w)
    unfolding pulled_with shared_of owner slot Sized
    pulled_cases true =
        ends (pulled job) w s s w (set_same w.states job.shared at) refl refl 0 (λ i. ground arith)
          (λ o h. subst (λ n. Owned n s) (omega arith) h) (omega arith)
    pulled_cases false =
        goes_on (pulled job) w s s w (set_same w.states job.shared at) refl refl (running job) refl
          refl (λ o h. h) (omega arith) tt

    landed_cases : (e : E) → Stepped (landed job e) (landed_with cfg job.shared (collect cfg s e) w)
    unfolding landed_with collect shared_of owner slot Sized write
    landed_cases e = elim (Bool-cases s.permanently_failed) [
      | inl f ↦ simp f (
          ends (landed job e) w s s _ refl refl refl 0 (λ i. ground arith)
            (λ o h. subst (λ n. Owned n s) (omega arith) h) (omega arith))
      | inr f ↦
          simp f
            (elim (Bool-cases
              (leb s.n_target (length (s.collected ++ e ∷ [])) && not s.future_resolved)) [
                | inl t ↦ simp t (
                    goes_on (landed job e) w s
                      (record s {
                        collected = s.collected ++ e ∷ [];
                        permanently_failed = false;
                        future_resolved = true;
                      })
                      _ refl refl refl
                      (delivering job.shared (take s.n_target (s.collected ++ e ∷ []))) refl refl
                      (λ o h. raised s.future_resolved s.future s.n_target o (ground arith) h)
                      (omega (arith, length-append s.collected (e ∷ [])))
                      (ground (arith, length-take s.n_target (s.collected ++ e ∷ []))))
                | inr t ↦ simp t (
                    ends (landed job e) w s
                      (record s { collected = s.collected ++ e ∷ []; permanently_failed = false }) _
                      refl refl refl 0 (λ i. ground arith)
                      (λ o h. subst (λ n. Owned n s) (omega arith) h)
                      (omega (arith, length-append s.collected (e ∷ []))))
              ])
    ]

    dropping_cases : (o : Option String) → Stepped (dropping job) (dropping_with cfg job o w)
    unfolding dropping_with shared_of owner slot Sized
    dropping_cases none =
        goes_on (dropping job) w s s w (set_same w.states job.shared at) refl refl (seeding job)
          refl refl (λ o h. h) (omega arith) tt
    dropping_cases (some scene) =
        chosen (dropping job) job (some scene) w at refl refl refl refl refl refl

    seeding_cases : (o : Option String) → Stepped (seeding job) (seeding_with cfg job o w)
    unfolding seeding_with shared_of owner slot
    seeding_cases none = chosen (seeding job) job none w at refl refl refl refl refl refl
    seeding_cases (some scene) =
        chosen (seeding job) job (some scene) _ at refl refl refl refl refl refl

  -- A step of a thread whose payload it owes a result, or not, and whose result is of the right size.
  pub advance-Moves :
      (t : Thread E) (o : ℕ)
      → get_elem? w.states (shared_of t) ≡ some s
      → Owned (owner t + o) s
      → Sized s.n_target t
      → Stepped t (advance_on cfg t s w)
  unfolding advance_on shared_of owner slot Sized write enqueue
  advance-Moves (pulled job) o at h z = pulled_cases job at s.permanently_failed
  advance-Moves (running job) o at h z =
      goes_on (running job) w s s w (set_same w.states job.shared at) refl refl (running job) refl
        refl (λ n k. k) (omega arith) tt
  advance-Moves (landed job e) o at h z = landed_cases job at e
  advance-Moves (delivering ref r) o at h z =
      result_ends (delivering ref r) ref r refl refl at
        (unpaid s.future_resolved s.future s.n_target (1 + o) (omega arith) h) (inl z)
  advance-Moves (dropping job) o at h z = dropping_cases job at w.last_good_scene_id
  advance-Moves (seeding job) o at h z = seeding_cases job at (fallback_scene cfg.scene_pool none)
  advance-Moves (reviving job scene) o at h z =
      goes_on (reviving job scene) w s (record s { permanently_failed = false }) _ refl refl refl
        (reopening job scene) refl refl (λ n k. k) (omega arith) tt
  advance-Moves (reopening job scene) o at h z =
      goes_on (reopening job scene) w s (record s { future_resolved = false }) _ refl refl refl
        (refilling job scene) refl refl (λ n k. lowered s.future_resolved s.future s.n_target n k)
        (omega arith) tt
  advance-Moves (refilling job scene) o at h z =
      goes_on (refilling job scene) w s (record s { retries_left = pos cfg.max_scene_retries }) _
        refl refl refl (requeueing job scene) refl refl (λ n k. k) (omega arith) tt
  advance-Moves (requeueing job scene) o at h z =
      ends (requeueing job scene) w s s _ (set_same w.states job.shared at) refl refl 1
        (λ i. queued-put i _ w.queue) (λ n k. subst (λ j. Owned j s) (omega arith) k) (omega arith)
  advance-Moves (giving_up ref) o at h z =
      result_ends (giving_up ref) ref [] refl refl at
        (unpaid s.future_resolved s.future s.n_target (1 + o) (omega arith) h) (inr refl)
