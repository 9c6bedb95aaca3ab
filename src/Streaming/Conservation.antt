-- ===== src/Streaming/Conservation.antt =====
-- streaming_worker.py: what every step of the worker keeps, whatever the interleaving.
use alpagym.Base.{
  Option, none, ℕ, ◌≡◌, refl, ap, subst, sym, ◌∙◌, inl, inr, some, ◌∷◌, arith, Option-cases,
  get_elem?, length, le_of_get_elem?-none,
}
use alpagym.Streaming.State.{SharedPayloadState, RolloutJob, Settings, Worker}
use alpagym.Streaming.Threads.{pulled, running, shared_of}
use alpagym.Streaming.System.{
  System, Step, submit, pull, leave, succeed, fail, advance, start, Reach, here, next, queued, slot,
  owner, slots, owners,
}
use alpagym.Streaming.Owners.{
  Owned, Sized, All-at, IsConserved, moved-IsConserved, owner_here, slots-without,
}
use alpagym.Streaming.Advancing.{succeed-Moves, fail-Moves, advance-Moves}
use alpagym.Streaming.Submitting.{submit_cases, register-IsConserved}
use alpagym.Streaming.Taking.{Takes, take_job-got}

earlier :
    {P E : Type 0} (y : System P E) (w : Worker P E) {item : Option RolloutJob}
    → Takes y.worker w item
    → (i : ℕ) (s : SharedPayloadState P E) → get_elem? w.states i ≡ some s
    → get_elem? y.worker.states i ≡ some s
earlier y w t i s e = subst (λ l. get_elem? l i ≡ some s) t.states e

module _ {P E : Type 0} (cfg : Settings P) where
  -- The sentinel leaves the queue.
  left-IsConserved :
      (y : System P E) (w : Worker P E)
      → Takes y.worker w none
      → IsConserved cfg y
      → IsConserved cfg (record y { worker = w })
  left-IsConserved y w t c = record {
    owned = λ i s e. c.owned i s (earlier y w t i s e);
    room = λ i s e. omega (arith, t.queue i, c.room i s (earlier y w t i s e));
    targets = λ i s e. c.targets i s (earlier y w t i s e);
    fresh = λ i h. omega (arith, t.queue i, c.fresh i (omega (arith, h, ap length t.states)));
    sized = c.sized;
    errors = t.errors ∙ c.errors;
  }

  -- A job leaves the queue, and a thread has it.
  pulled-IsConserved :
      (y : System P E) (job : RolloutJob) (w : Worker P E)
      → Takes y.worker w (some job)
      → IsConserved cfg y
      → IsConserved cfg (record { worker = w; threads = pulled job ∷ y.threads })
  unfolding slots owners slot owner Sized shared_of
  pulled-IsConserved y job w t c = record {
    owned = λ i s e. subst (λ n. Owned n s) (ground arith) (c.owned i s (earlier y w t i s e));
    room = λ i s e. ground (arith, t.queue i, c.room i s (earlier y w t i s e));
    targets = λ i s e. c.targets i s (earlier y w t i s e);
    fresh = λ i h. ground (arith, t.queue i, c.fresh i (omega (arith, h, ap length t.states)));
    sized = (tt, c.sized);
    errors = t.errors ∙ c.errors;
  }

  -- A running job's payload is known.
  known :
      (y : System P E) (c : IsConserved cfg y) (k : ℕ) {job : RolloutJob}
      → get_elem? y.threads k ≡ some (running job)
      → (s : SharedPayloadState P E) × (get_elem? y.worker.states job.shared ≡ some s)
  unfolding shared_of slot
  known y c k {job} at = elim (Option-cases (get_elem? y.worker.states job.shared)) [
    | inr found ↦ found
    | inl none_there ↦ absurd (
        ground (
          arith,
          c.fresh job.shared (le_of_get_elem?-none y.worker.states job.shared none_there),
          slots-without job.shared k y.threads at,
        ))
  ]

  pub Step-IsConserved : {y z : System P E} → Step cfg y z → IsConserved cfg y → IsConserved cfg z
  unfolding shared_of
  Step-IsConserved {y} (submit p ref e) c = elim (submit_cases cfg p y.worker e) [
    | inl same ↦ rw same c
    | inr (scene, q, r) ↦ rw q (register-IsConserved cfg p scene y c)
  ]
  Step-IsConserved {y} (pull e) c = pulled-IsConserved y _ _ (take_job-got y.worker e) c
  Step-IsConserved {y} (leave e) c = left-IsConserved y _ (take_job-got y.worker e) c
  Step-IsConserved {y} (succeed k {job} episode at) c =
      let (s, here_is) = known y c k at in
      moved-IsConserved cfg y c k at s here_is _ _
        (succeed-Moves cfg y.worker s job here_is episode)
  Step-IsConserved {y} (fail k {job} {s} at here_is) c =
      moved-IsConserved cfg y c k at s here_is _ _ (fail-Moves cfg y.worker s job here_is)
  Step-IsConserved {y} (advance k {t} {s} at here_is) c =
      let (rest, e) = owner_here (shared_of t) k y.threads at refl in
      moved-IsConserved cfg y c k at s here_is _ _ (
        advance-Moves cfg y.worker s t rest here_is
          (subst (λ n. Owned n s) e (c.owned (shared_of t) s here_is))
          (subst (λ n. Sized n t) (sym (c.targets (shared_of t) s here_is))
            (All-at (Sized cfg.rollouts_per_payload) k y.threads c.sized at)))

  start-IsConserved : IsConserved {E = E} cfg start
  unfolding queued slots owners
  start-IsConserved = record {
    owned = λ i s e. cc;
    room = λ i s e. cc;
    targets = λ i s e. cc;
    fresh = λ i h. omega arith;
    sized = tt;
    errors = refl;
  }

  pub Reach-IsConserved : {y : System P E} → Reach cfg y → IsConserved cfg y
  Reach-IsConserved here = start-IsConserved
  Reach-IsConserved (next r st) = Step-IsConserved st (Reach-IsConserved r)
