-- ===== src/Inference/Queue.antt =====
-- Answers against calls: the relation that the engine keeps.
use alpagym.Base.{ℕ, suc, ◌≡◌, ◌≢◌, refl, sym, ap, ◌∙◌, List, [], ◌∷◌, ◌++◌, length, arith, subst}
use mathlib.Core.List.{append_assoc}
use alpagym.Inference.{ModelInput, ModelOutput}
use alpagym.Inference.Engine.{
  PendingRequest, Item, pending, shutdown_item, Phase, collecting, dispatching, exited, Engine,
  Event, infer_call, zipped,
}

module _ {T : Type 0} where
  -- The requests in the worker's hands, and those in the queue.
  unfoldable pub in_batch : Phase T → List (PendingRequest T)
  in_batch (collecting batch) = batch
  in_batch (dispatching batch saw) = batch
  in_batch _ = []

  unfoldable pub queued : List (Item T) → List (PendingRequest T)
  queued [] = []
  queued (pending r ∷ q) = r ∷ queued q
  queued (shutdown_item ∷ q) = queued q

  -- The inputs of the `infer` calls, and the requests that they make, from the future `n` on.
  unfoldable pub submitted : List (Event T) → List (ModelInput T)
  submitted [] = []
  submitted (infer_call x ∷ es) = x ∷ submitted es
  submitted (e ∷ es) = submitted es

  unfoldable pub requests_from : ℕ → List (ModelInput T) → List (PendingRequest T)
  requests_from n [] = []
  requests_from n (x ∷ xs) = record { model_input = x; result = n } ∷ requests_from (suc n) xs

  -- The results of the first requests of a list, in its order, each under its own future and in the relation `R` to
  -- its own input; `open` is what is left of the list.
  unfoldable pub Answered :
      (ModelInput T → ModelOutput T → Type 0)
      → List (PendingRequest T)
      → List (ℕ × ModelOutput T)
      → List (PendingRequest T)
      → Type 0
  Answered R rs [] left = rs ≡ left
  Answered R [] ((k, y) ∷ out) left = ⊥
  Answered R (r ∷ rs) ((k, y) ∷ out) left =
      (r.result ≡ k) × (R r.model_input y × Answered R rs out left)

  pub queued-pending :
      (q : List (Item T)) (r : PendingRequest T) → queued (q ++ pending r ∷ []) ≡ queued q ++ r ∷ []
  unfolding queued
  queued-pending [] r = refl
  queued-pending (pending p ∷ q) r = ap (◌∷◌ p) (queued-pending q r)
  queued-pending (shutdown_item ∷ q) r = queued-pending q r

  pub queued-shutdown : (q : List (Item T)) → queued (q ++ shutdown_item ∷ []) ≡ queued q
  unfolding queued
  queued-shutdown [] = refl
  queued-shutdown (pending p ∷ q) = ap (◌∷◌ p) (queued-shutdown q)
  queued-shutdown (shutdown_item ∷ q) = queued-shutdown q

  -- More requests at the end.
  pub Answered-append :
      (R : ModelInput T → ModelOutput T → Type 0) (rs more left : List (PendingRequest T))
      (out : List (ℕ × ModelOutput T))
      → Answered R rs out left
      → Answered R (rs ++ more) out (left ++ more)
  unfolding Answered
  Answered-append R rs more left [] a = ap (λ l. l ++ more) a
  Answered-append R [] more left ((k, y) ∷ out) a = absurd a
  Answered-append R (r ∷ rs) more left ((k, y) ∷ out) a =
      (a.0, (a.1.0, Answered-append R rs more left out a.1.1))

  -- One more pass.
  pub Answered-zipped :
      (R : ModelInput T → ModelOutput T → Type 0) (rs batch left : List (PendingRequest T))
      (out : List (ℕ × ModelOutput T)) (ys : List (ModelOutput T))
      → Answered R rs out (batch ++ left)
      → Answered R batch (zipped batch ys) []
      → Answered R rs (out ++ zipped batch ys) left
  unfolding Answered
  Answered-zipped R rs batch left [] ys a b =
      subst (λ l. Answered R l (zipped batch ys) left) (sym a)
        (Answered-append R batch left [] (zipped batch ys) b)
  Answered-zipped R [] batch left ((k, y) ∷ out) ys a b = absurd a
  Answered-zipped R (r ∷ rs) batch left ((k, y) ∷ out) ys a b =
      (a.0, (a.1.0, Answered-zipped R rs batch left out ys a.1.1 b))

  pub Answered-infer :
      (R : ModelInput T → ModelOutput T → Type 0) (rs b : List (PendingRequest T))
      (q : List (Item T)) (r : PendingRequest T) (out : List (ℕ × ModelOutput T))
      → Answered R rs out (b ++ queued q)
      → Answered R (rs ++ r ∷ []) out (b ++ queued (q ++ pending r ∷ []))
  Answered-infer R rs b q r out a =
      subst (λ l. Answered R (rs ++ r ∷ []) out l)
        (append_assoc b (queued q) (r ∷ []) ∙ ap (λ l. b ++ l) (sym (queued-pending q r)))
        (Answered-append R rs (r ∷ []) (b ++ queued q) out a)

  pub Answered-queue :
      (R : ModelInput T → ModelOutput T → Type 0) (rs b : List (PendingRequest T))
      (q p : List (PendingRequest T)) (out : List (ℕ × ModelOutput T))
      → q ≡ p
      → Answered R rs out (b ++ p)
      → Answered R rs out (b ++ q)
  Answered-queue R rs b q p out e a = subst (λ l. Answered R rs out (b ++ l)) (sym e) a

  -- What the worker owes, by where it stands: a process that exited answers no more.
  unfoldable pub Owed :
      (ModelInput T → ModelOutput T → Type 0)
      → List (PendingRequest T)
      → Phase T
      → Engine T
      → Type 0
  Owed R rs exited s = (left : List (PendingRequest T)) × Answered R rs s.resolved left
  Owed R rs ph s = Answered R rs s.resolved (in_batch ph ++ queued s.queue)

  -- Any answers of the right number, where nothing is asked of them.
  pub zipped-Answered :
      (batch : List (PendingRequest T)) (ys : List (ModelOutput T))
      → length ys ≡ length batch
      → Answered (λ x y. Unit) batch (zipped batch ys) []
  unfolding Answered zipped
  zipped-Answered [] ys h = refl
  zipped-Answered (r ∷ rs) [] h = absurd (omega arith)
  zipped-Answered (r ∷ rs) (y ∷ ys) h = (refl, (tt, zipped-Answered rs ys (omega (arith, h))))

  pub Owed-prefix :
      (R : ModelInput T → ModelOutput T → Type 0) (rs : List (PendingRequest T)) (ph : Phase T)
      (s : Engine T)
      → Owed R rs ph s
      → (left : List (PendingRequest T)) × Answered R rs s.resolved left
  unfolding Owed in_batch
  Owed-prefix R rs exited s o = o
  Owed-prefix R rs ph s o = (in_batch ph ++ queued s.queue, o)

  pub Owed-whole :
      (R : ModelInput T → ModelOutput T → Type 0) (rs : List (PendingRequest T)) (ph : Phase T)
      (s : Engine T)
      → ph ≢ exited
      → Owed R rs ph s
      → Answered R rs s.resolved (in_batch ph ++ queued s.queue)
  unfolding Owed in_batch
  Owed-whole R rs exited s ne o = absurd (ne refl)
  Owed-whole R rs ph s ne o = o
