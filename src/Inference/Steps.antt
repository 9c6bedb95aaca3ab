-- ===== src/Inference/Steps.antt =====
-- The worker's steps after a shutdown.
use alpagym.Base.{
  ℕ, zero, suc, ◌≡◌, refl, sym, ◌∙◌, true, false, ltb, List, [], ◌∷◌, ◌++◌, map, length, length-map,
  subst, replicate,
}
use mathlib.Core.List.{append_assoc, append-nil}
use alpagym.Base.Outcome.{ok}
use alpagym.Inference.{Torch, ModelInput, ModelOutput, BatchedModelOutput, Result}
use alpagym.Inference.Engine.{
  PendingRequest, Item, pending, shutdown_item, Phase, blocked, collecting, dispatching, returned,
  Engine, work, zipped, take_first, take_next, forward, resolve, work_in, happen, run_events,
}
use alpagym.Inference.Fifo.{length-forward}
use alpagym.Inference.Queue.{Answered, zipped-Answered}

module _ {T : Type 0} (torch : Torch T) (sample : ModelInput T → Result (BatchedModelOutput T))
    (max_batch_size : ℕ) where
  module _ (rest : List (Item T)) (k : ℕ) where
    unfoldable pub works : ℕ → Engine T → Engine T
    works n = run_events torch sample max_batch_size (replicate n work)

    -- The engine at a point of its drain: `p` is still ahead of the shutdown.
    unfoldable pub at : List (PendingRequest T) → Phase T → List (ℕ × ModelOutput T) → Engine T
    at p ph out = record {
      queue = map pending p ++ shutdown_item ∷ rest;
      phase = ph;
      next_future = k;
      resolved = out;
    }

    -- It has returned, with every request of the list answered.
    unfoldable pub Served : List (PendingRequest T) → List (ℕ × ModelOutput T) → Engine T → Type 0
    Served rs out s =
        (s.phase ≡ returned)
        × ((s.queue ≡ rest)
            × ((more : List (ℕ × ModelOutput T)) × ((s.resolved ≡ out ++ more)
                  × Answered (λ x y. Unit) rs more [])))

    Answered-both :
        (a b : List (PendingRequest T)) (z more : List (ℕ × ModelOutput T))
        → Answered (λ x y. Unit) a z []
        → Answered (λ x y. Unit) b more []
        → Answered (λ x y. Unit) (a ++ b) (z ++ more) []
    unfolding Answered
    Answered-both a b [] more h g = subst (λ l. Answered (λ x y. Unit) (l ++ b) more []) (sym h) g
    Answered-both [] b ((i, y) ∷ z) more h g = absurd h
    Answered-both (r ∷ a) b ((i, y) ∷ z) more h g = (h.0, (tt, Answered-both a b z more h.1.1 g))

    -- The state after the return, which no further step changes.
    unfoldable pub done : List (ℕ × ModelOutput T) → Engine T
    done out = record { queue = rest; phase = returned; next_future = k; resolved = out }

    pub done-Served :
        (n : ℕ) (rs : List (PendingRequest T)) (out z : List (ℕ × ModelOutput T))
        → Answered (λ x y. Unit) rs z []
        → Served rs out (works n (done (out ++ z)))
    unfolding run_events happen work_in works done Served
    done-Served zero rs out z a = (refl, (refl, (z, (refl, a))))
    done-Served (suc n) rs out z a = done-Served n rs out z a

    pub Served-append :
        (b p : List (PendingRequest T)) (out z : List (ℕ × ModelOutput T)) (s : Engine T)
        → Answered (λ x y. Unit) b z []
        → Served p (out ++ z) s
        → Served (b ++ p) out s
    unfolding Served
    Served-append b p out z s a (ret, (q, (more, (e, c)))) =
        (ret, (q, (z ++ more, (e ∙ append_assoc out z more, Answered-both b p z more a c))))

    -- The answers of one pass.
    pub pass-Answered :
        (r : PendingRequest T) (b : List (PendingRequest T)) (ys : List (ModelOutput T))
        → forward torch sample max_batch_size (map (λ r. r.model_input) (r ∷ b)) ≡ ok ys
        → Answered (λ x y. Unit) (r ∷ b) (zipped (r ∷ b) ys) []
    pass-Answered r b ys h = zipped-Answered (r ∷ b) ys (
        length-forward torch sample max_batch_size (map (λ r. r.model_input) (r ∷ b)) ys h
        ∙ length-map (λ r. r.model_input) (r ∷ b))

    -- The worker's step at a point of the drain.
    abbrev pub next : Engine T → Engine T
    next s = work_in torch sample max_batch_size s.phase s

    pub next_shutdown :
        (out : List (ℕ × ModelOutput T)) → next (at [] blocked out) ≡ done (out ++ [])
    unfolding work_in at take_first done
    next_shutdown out = rw (append-nil out) refl

    pub next_first :
        (r : PendingRequest T) (p : List (PendingRequest T)) (out : List (ℕ × ModelOutput T))
        → next (at (r ∷ p) blocked out) ≡ at p (collecting (r ∷ [])) out
    unfolding work_in at take_first
    next_first r p out = refl

    pub next_full :
        (b p : List (PendingRequest T)) (out : List (ℕ × ModelOutput T))
        → ltb (length b) max_batch_size ≡ false
        → next (at p (collecting b) out) ≡ at p (dispatching b false) out
    unfolding work_in at
    next_full b p out f = rw f refl

    pub next_taken :
        (r : PendingRequest T) (b p : List (PendingRequest T)) (out : List (ℕ × ModelOutput T))
        → ltb (length b) max_batch_size ≡ true
        → next (at (r ∷ p) (collecting b) out) ≡ at p (collecting (b ++ r ∷ [])) out
    unfolding work_in at take_next
    next_taken r b p out t = rw t refl

    pub next_last :
        (b : List (PendingRequest T)) (out : List (ℕ × ModelOutput T))
        → ltb (length b) max_batch_size ≡ true
        → next (at [] (collecting b) out)
          ≡ record { queue = rest; phase = dispatching b true; next_future = k; resolved = out }
    unfolding work_in at take_next
    next_last b out t = rw t refl

    pub next_passed :
        (b p : List (PendingRequest T)) (out : List (ℕ × ModelOutput T)) (ys : List (ModelOutput T))
        → forward torch sample max_batch_size (map (λ r. r.model_input) b) ≡ ok ys
        → next (at p (dispatching b false) out) ≡ at p blocked (out ++ zipped b ys)
    unfolding work_in at resolve
    next_passed b p out ys e = rw e refl

    pub next_returns :
        (b : List (PendingRequest T)) (out : List (ℕ × ModelOutput T)) (ys : List (ModelOutput T))
        → forward torch sample max_batch_size (map (λ r. r.model_input) b) ≡ ok ys
        → next
            (record { queue = rest; phase = dispatching b true; next_future = k; resolved = out })
          ≡ done (out ++ zipped b ys)
    unfolding work_in done resolve
    next_returns b out ys e = rw e refl

    pub after_step :
        (n : ℕ) (rs : List (PendingRequest T)) (out : List (ℕ × ModelOutput T)) (s t : Engine T)
        → next s ≡ t
        → Served rs out (works n t)
        → Served rs out (works (suc n) s)
    unfolding works run_events happen
    after_step n rs out s t e h = subst (λ u. Served rs out (works n u)) (sym e) h

    pub Answered-none : Answered {T = T} (λ x y. Unit) [] [] []
    unfolding Answered
    Answered-none = refl
