-- ===== src/Streaming/Shutdown.antt =====
-- streaming_worker.py: what `shutdown` resolves, and what it leaves.
use alpagym.Base.{
  ℕ, zero, suc, ◌≡◌, ◌≢◌, refl, ap, ◌∙◌, true, Option, none, some, List, [], ◌∷◌, arith, Bool-cases,
  get_elem?, get_elem?-set_ne, All, inl, inr,
}
use alpagym.Streaming.State.{
  SharedPayloadState, Settings, Worker, enqueue, write, set_result, result_of,
}
use alpagym.Streaming.Loop.{
  unresolved, is_unresolved, mark_failed, mark_with, put_sentinels, set_empty_results, shutdown,
}
use alpagym.Streaming.System.{System, queued}
use alpagym.Streaming.Moves.{queued-put}

-- No reference of the list is `ref`.
abbrev Avoids : ℕ → List ℕ → Type 0
Avoids ref refs = All (λ r. r ≢ ref) refs

module _ {P E : Type 0} where
  unresolved-Avoids :
      (ref : ℕ) (states : List (SharedPayloadState P E)) (m : List (ℕ × ℕ))
      → All (λ e. e.1 ≢ ref) m
      → Avoids ref (unresolved states m)
  unfolding unresolved
  unresolved-Avoids ref states [] h = tt
  unresolved-Avoids ref states ((k, r) ∷ m) h =
      elim (Bool-cases (is_unresolved (get_elem? states r))) [
        | inl t ↦ rw t (h.0, unresolved-Avoids ref states m h.1)
        | inr t ↦ rw t (unresolved-Avoids ref states m h.1)
      ]

  mark_with-ne :
      (ref r : ℕ) (o : Option (SharedPayloadState P E)) (w : Worker P E)
      → r ≢ ref
      → get_elem? (mark_with r o w).states ref ≡ get_elem? w.states ref
  unfolding write
  mark_with-ne ref r none w h = refl
  mark_with-ne ref r (some s) w h = get_elem?-set_ne w.states r ref _ h

  mark_failed-Avoids :
      (ref : ℕ) (refs : List ℕ) (w : Worker P E)
      → Avoids ref refs
      → get_elem? (mark_failed refs w).states ref ≡ get_elem? w.states ref
  unfolding mark_failed
  mark_failed-Avoids ref [] w h = refl
  mark_failed-Avoids ref (r ∷ refs) w h =
      mark_failed-Avoids ref refs _ h.1 ∙ mark_with-ne ref r (get_elem? w.states r) w h.0

  result_of-ne :
      (ref r : ℕ) (o : Option (SharedPayloadState P E)) (w : Worker P E)
      → r ≢ ref
      → get_elem? (result_of r [] w o).states ref ≡ get_elem? w.states ref
  unfolding write
  result_of-ne ref r none w h = refl
  result_of-ne ref r (some s) w h =
      ground (arith, get_elem?-set_ne w.states r ref (record s { future = some [] }) h)

  set_empty_results-Avoids :
      (ref : ℕ) (refs : List ℕ) (w : Worker P E)
      → Avoids ref refs
      → get_elem? (set_empty_results refs w).states ref ≡ get_elem? w.states ref
  unfolding set_empty_results set_result
  set_empty_results-Avoids ref [] w h = refl
  set_empty_results-Avoids ref (r ∷ refs) w h =
      set_empty_results-Avoids ref refs _ h.1 ∙ result_of-ne ref r (get_elem? w.states r) w h.0

  -- The sentinels, and then the results, keep the queue free of jobs.
  put_sentinels-queued :
      (i n : ℕ) (w : Worker P E) → queued i (put_sentinels n w).queue ≡ queued i w.queue
  unfolding put_sentinels
  put_sentinels-queued i zero w = refl
  put_sentinels-queued i (suc n) w =
      put_sentinels-queued i n (enqueue 2 none w)
      ∙ queued-put i (record { priority = 2; seq = w.next_seq; job = none }) w.queue
      ∙ omega arith

  put_sentinels-states : (n : ℕ) (w : Worker P E) → (put_sentinels n w).states ≡ w.states
  unfolding put_sentinels
  put_sentinels-states zero w = refl
  put_sentinels-states (suc n) w = put_sentinels-states n (enqueue 2 none w)

  -- Setting a result touches neither the queue nor the flag.
  abbrev SameQueue : Worker P E → Worker P E → Type 0
  SameQueue w w' = (w'.queue ≡ w.queue) × (w'.closed ≡ w.closed)

  result_of-SameQueue :
      (r : ℕ) (w : Worker P E) (o : Option (SharedPayloadState P E))
      → SameQueue w (result_of r [] w o)
  unfolding write
  result_of-SameQueue r w none = (refl, refl)
  result_of-SameQueue r w (some s) = ground arith

  set_empty_results-SameQueue :
      (refs : List ℕ) (w : Worker P E) → SameQueue w (set_empty_results refs w)
  unfolding set_empty_results set_result
  set_empty_results-SameQueue [] w = (refl, refl)
  set_empty_results-SameQueue (r ∷ refs) w =
      let (q, c) = result_of-SameQueue r w (get_elem? w.states r) in
      let (q', c') = set_empty_results-SameQueue refs (set_result r [] w) in (q' ∙ q, c' ∙ c)

  module _ (cfg : Settings P) (w : Worker P E) where
    no_jobs : (i : ℕ) → queued i (shutdown cfg w).queue ≡ 0
    unfolding shutdown queued
    no_jobs i =
        let refs = unresolved w.states w.active in
        let marked : Worker P E = mark_failed refs (record w { closed = true }) in
        let drained : Worker P E = record marked { active = []; queue = [] } in
        ap (queued i)
          (set_empty_results-SameQueue refs (put_sentinels cfg.max_concurrent_rollouts drained)).0
        ∙ put_sentinels-queued i cfg.max_concurrent_rollouts drained

    -- A payload that is not in the index keeps its state through `shutdown`, an unresolved future
    -- included, while every queued job of it is thrown away.
    pub shutdown_strands :
        (ref : ℕ) (s : SharedPayloadState P E)
        → get_elem? w.states ref ≡ some s
        → All (λ e. e.1 ≢ ref) w.active
        → (get_elem? (shutdown cfg w).states ref ≡ some s) × (queued ref (shutdown cfg w).queue ≡ 0)
    unfolding shutdown
    shutdown_strands ref s at h =
        let refs = unresolved w.states w.active in
        let avoids = unresolved-Avoids ref w.states w.active h in
        let marked : Worker P E = mark_failed refs (record w { closed = true }) in
        let drained : Worker P E = record marked { active = []; queue = [] } in
        let sentinels : Worker P E = put_sentinels cfg.max_concurrent_rollouts drained in
        (
          set_empty_results-Avoids ref refs sentinels avoids
              ∙ ap (λ (l : List (SharedPayloadState P E)). get_elem? l ref)
                  (put_sentinels-states cfg.max_concurrent_rollouts drained)
              ∙ mark_failed-Avoids ref refs (record w { closed = true }) avoids
              ∙ at,
          no_jobs ref,
        )
