-- ===== src/Streaming/Owners.antt =====
-- streaming_worker.py: who owes a payload its result, and how many of its jobs are on their way.
use alpagym.Base.{
  ℕ, zero, suc, ◌+◌, ◌≤◌, ◌≡◌, ◌≢◌, refl, sym, ap, subst, ◌∙◌, Bool, true, false, ◌⊎◌, inl, inr,
  Option, none, some, List, [], ◌∷◌, ◌++◌, All, arith, ◌==◌, if◌then◌else◌, get_elem?, set, length,
  length-set, get_elem?-set, lt_of_get_elem?,
}
use alpagym.Streaming.State.{SharedPayloadState, Settings, Worker}
use alpagym.Streaming.Threads.{Thread, delivering, shared_of}
use alpagym.Streaming.System.{
  System, without, moved, queued, slot, owner, slots, owners, outstanding,
}

module _ {E : Type 0} where
  -- A payload whose flag is down has no result, and no thread owes it one. One whose flag is up has a
  -- result, of `n` episodes or of none, or else exactly one thread owes it one.
  unfoldable pub OwnedAt : Bool → Option (List E) → (n o : ℕ) → Type 0
  OwnedAt false none n o = o ≡ 0
  OwnedAt false (some r) n o = ⊥
  OwnedAt true none n o = o ≡ 1
  OwnedAt true (some r) n o = (o ≡ 0) × ((length r ≡ n) ⊎ (r ≡ []))

  -- A result on its way has `n` episodes.
  unfoldable pub Sized : ℕ → Thread E → Type 0
  Sized n (delivering ref r) = length r ≡ n
  Sized n t = Unit

  pub slots-without :
      (ref k : ℕ) (l : List (Thread E)) {t : Thread E}
      → get_elem? l k ≡ some t
      → slots ref l ≡ (if shared_of t == ref then slot t else 0) + slots ref (without k l)
  unfolding slots
  slots-without ref k [] h = absurd (cc h)
  slots-without ref zero (j ∷ l) {t} h = let e : j ≡ t = cc h in rw e refl
  slots-without ref (suc k) (j ∷ l) h = omega (arith, slots-without ref k l h)

  owners-without :
      (ref k : ℕ) (l : List (Thread E)) {t : Thread E}
      → get_elem? l k ≡ some t
      → owners ref l ≡ (if shared_of t == ref then owner t else 0) + owners ref (without k l)
  unfolding owners
  owners-without ref k [] h = absurd (cc h)
  owners-without ref zero (j ∷ l) {t} h = let e : j ≡ t = cc h in rw e refl
  owners-without ref (suc k) (j ∷ l) h = omega (arith, owners-without ref k l h)

  -- What a thread owes is counted.
  pub owner_here :
      (ref k : ℕ) (l : List (Thread E)) {t : Thread E}
      → get_elem? l k ≡ some t
      → shared_of t ≡ ref
      → (o : ℕ) × (owners ref l ≡ owner t + o)
  owner_here ref k l h e = (owners ref (without k l), ground (arith, owners-without ref k l h, e))

  slots-append : (ref : ℕ) (k l : List (Thread E)) → slots ref (k ++ l) ≡ slots ref k + slots ref l
  unfolding slots
  slots-append ref [] l = omega arith
  slots-append ref (t ∷ k) l = omega (arith, slots-append ref k l)

  owners-append :
      (ref : ℕ) (k l : List (Thread E)) → owners ref (k ++ l) ≡ owners ref k + owners ref l
  unfolding owners
  owners-append ref [] l = omega arith
  owners-append ref (t ∷ k) l = omega (arith, owners-append ref k l)

  All-without :
      (Q : Thread E → Type 0) (k : ℕ) (l : List (Thread E)) → All Q l → All Q (without k l)
  All-without Q k [] a = a
  All-without Q zero (t ∷ l) a = a.1
  All-without Q (suc k) (t ∷ l) a = (a.0, All-without Q k l a.1)

  All-join : (Q : Thread E → Type 0) (k l : List (Thread E)) → All Q k → All Q l → All Q (k ++ l)
  All-join Q [] l a b = b
  All-join Q (t ∷ k) l a b = (a.0, All-join Q k l a.1 b)

  pub All-at :
      (Q : Thread E → Type 0) (k : ℕ) (l : List (Thread E)) {t : Thread E}
      → All Q l
      → get_elem? l k ≡ some t
      → Q t
  All-at Q k [] a h = absurd (cc h)
  All-at Q zero (j ∷ l) {t} a h = let e : j ≡ t = cc h in subst Q e a.0
  All-at Q (suc k) (j ∷ l) a h = All-at Q k l a.1 h

module _ {P E : Type 0} where
  abbrev pub Owned : ℕ → SharedPayloadState P E → Type 0
  Owned o s = OwnedAt s.future_resolved s.future s.n_target o

  -- What a step of a thread does, with the state `s` that the thread works on.
  pub record Moves (t : Thread E) (w : Worker P E) (s : SharedPayloadState P E)
      (more : List (Thread E)) (w' : Worker P E) : Type 0 where
    pub state : SharedPayloadState P E
    pub states : w'.states ≡ set w.states (shared_of t) state
    pub target : state.n_target ≡ s.n_target
    pub others :
        (i : ℕ)
        → shared_of t ≢ i
        → (owners i more ≡ 0) × (queued i w'.queue + slots i more ≤ queued i w.queue)
    pub owned : (o : ℕ) → Owned (owner t + o) s → Owned (owners (shared_of t) more + o) state
    pub room :
        length state.collected + (queued (shared_of t) w'.queue + slots (shared_of t) more)
        ≤ length s.collected + (queued (shared_of t) w.queue + slot t)
    pub sized : Sized s.n_target t → All (Sized s.n_target) more
    pub errors : w'.invalid_state_errors ≡ w.invalid_state_errors

module _ {P E : Type 0} (cfg : Settings P) where
  pub record IsConserved (y : System P E) : Type 0 where
    pub owned :
        (i : ℕ) (s : SharedPayloadState P E)
        → get_elem? y.worker.states i ≡ some s
        → Owned (owners i y.threads) s
    pub room :
        (i : ℕ) (s : SharedPayloadState P E)
        → get_elem? y.worker.states i ≡ some s
        → length s.collected + outstanding i y ≤ cfg.rollouts_per_payload
    pub targets :
        (i : ℕ) (s : SharedPayloadState P E)
        → get_elem? y.worker.states i ≡ some s
        → s.n_target ≡ cfg.rollouts_per_payload
    pub fresh : (i : ℕ) → length y.worker.states ≤ i → owners i y.threads + outstanding i y ≡ 0
    pub sized : All (Sized cfg.rollouts_per_payload) y.threads
    pub errors : y.worker.invalid_state_errors ≡ 0

  module _ (y : System P E) (c : IsConserved y) (k : ℕ) {t : Thread E}
      (at : get_elem? y.threads k ≡ some t) (s : SharedPayloadState P E)
      (here_is : get_elem? y.worker.states (shared_of t) ≡ some s) (more : List (Thread E))
      (w : Worker P E) (m : Moves t y.worker s more w) where
    abbrev after : System P E
    after = moved k (more, w) y

    owners_self :
        (o : ℕ)
        → owners (shared_of t) y.threads ≡ o
        → Owned (owners (shared_of t) after.threads) m.state
    owners_self o e =
        subst (λ n. Owned n m.state) (sym (owners-append (shared_of t) more (without k y.threads)))
          (m.owned (owners (shared_of t) (without k y.threads)) (
            subst (λ n. Owned n s) (ground (arith, owners-without (shared_of t) k y.threads at))
              (c.owned (shared_of t) s here_is)))

    other_counts :
        (i : ℕ)
        → shared_of t ≢ i
        → (owners i after.threads ≡ owners i y.threads) × (outstanding i after ≤ outstanding i y)
    other_counts i h =
        let (o, q) = m.others i h in
        (
          ground (
            arith,
            o,
            owners-append i more (without k y.threads),
            owners-without i k y.threads at,
            h,
          ),
          ground (
            arith,
            q,
            slots-append i more (without k y.threads),
            slots-without i k y.threads at,
            h,
          ),
        )

    room_self :
        length m.state.collected + outstanding (shared_of t) after ≤ cfg.rollouts_per_payload
    room_self = ground (
      arith,
      m.room,
      slots-append (shared_of t) more (without k y.threads),
      slots-without (shared_of t) k y.threads at,
      c.room (shared_of t) s here_is,
    )

    state_after :
        (i : ℕ)
        → get_elem? w.states i
          ≡ (if shared_of t == i then some m.state else get_elem? y.worker.states i)
    state_after i = rw m.states (
        get_elem?-set y.worker.states (shared_of t) i m.state
          (lt_of_get_elem? y.worker.states (shared_of t) here_is))

    state_cases :
        (i : ℕ) {u : SharedPayloadState P E}
        → get_elem? w.states i ≡ some u
        → (shared_of t ≡ i) × (m.state ≡ u)
          ⊎ (shared_of t ≢ i) × (get_elem? y.worker.states i ≡ some u)
    state_cases i e = ground (arith, state_after i)

    pub moved-IsConserved : IsConserved after
    moved-IsConserved = record {
      owned = λ i u e. elim (state_cases i e) [
        | inl (p, q) ↦
            subst (λ n. Owned (owners n after.threads) u) p
              (subst (λ v. Owned (owners (shared_of t) after.threads) v) q (owners_self _ refl))
        | inr (p, q) ↦ rw (other_counts i p).0 (c.owned i u q)
      ];
      room = λ i u e. elim (state_cases i e) [
        | inl (p, q) ↦
            subst (λ n. length u.collected + outstanding n after ≤ cfg.rollouts_per_payload) p
              (subst
                (λ (v : SharedPayloadState P E).
                  length v.collected + outstanding (shared_of t) after ≤ cfg.rollouts_per_payload)
                q room_self)
        | inr (p, q) ↦ omega (arith, (other_counts i p).1, c.room i u q)
      ];
      targets = λ i u e. elim (state_cases i e) [
        | inl (p, q) ↦
            sym (ap (λ (v : SharedPayloadState P E). v.n_target) q)
            ∙ m.target
            ∙ c.targets (shared_of t) s here_is
        | inr (p, q) ↦ c.targets i u q
      ];
      fresh = λ i h.
          let far : length y.worker.states ≤ i =
            omega (arith, ap length m.states, length-set y.worker.states (shared_of t) m.state) in
          let apart : shared_of t ≢ i =
            λ p. omega (arith, p, far, lt_of_get_elem? y.worker.states (shared_of t) here_is) in
          let (o, q) = other_counts i apart in omega (arith, o, q, c.fresh i far);
      sized =
          let n = c.targets (shared_of t) s here_is in
          All-join (Sized cfg.rollouts_per_payload) more (without k y.threads)
            (subst (λ j. All (Sized j) more) n
              (m.sized (
                subst (λ j. Sized j t) (sym n)
                  (All-at (Sized cfg.rollouts_per_payload) k y.threads c.sized at))))
            (All-without (Sized cfg.rollouts_per_payload) k y.threads c.sized);
      errors = m.errors ∙ c.errors;
    }
