-- ===== src/Streaming/Moves.antt =====
-- streaming_worker.py: each step of a thread moves the debt of its payload's result on, and adds no job.
use alpagym.Base.{
  ℕ, ◌+◌, ◌≤◌, String, ◌≡◌, refl, ap, subst, Bool, true, false, ◌⊎◌, inl, inr, Option, none, some,
  List, [], ◌∷◌, arith, ◌==◌, if◌then◌else◌, Bool-cases, get_elem?, set, length,
}
use alpagym.Streaming.State.{
  SharedPayloadState, RolloutJob, QueueItem, Worker, put, write, set_result,
}
use alpagym.Streaming.Threads.{Thread, shared_of, choose}
use alpagym.Streaming.System.{refers_item, queued, slot, owner, slots, owners}
use alpagym.Streaming.Owners.{OwnedAt, Sized, Owned, Moves}

pub queued-put :
    (ref : ℕ) (x : QueueItem) (q : List QueueItem)
    → queued ref (put x q) ≡ refers_item ref x.job + queued ref q
unfolding queued put
queued-put ref x [] = refl
queued-put ref x (y ∷ q) = ground (arith, queued-put ref x q)

module _ {P E : Type 0} where
  -- A first result is stored; this is no second one.
  pub set_result_lem :
      (ref : ℕ) (r : List E) (w : Worker P E) {s : SharedPayloadState P E}
      → get_elem? w.states ref ≡ some s
      → s.future ≡ none
      → set_result ref r w ≡ write ref (record s { future = some r }) w
  unfolding set_result
  set_result_lem ref r w h e = rw (h, set_result) (rw (e, set_result))

module _ {E : Type 0} where
  pub raised :
      (fr : Bool) (f : Option (List E)) (n o : ℕ)
      → fr ≡ false
      → OwnedAt fr f n (0 + o)
      → OwnedAt true f n (1 + o)
  unfolding OwnedAt
  raised false none n o e h = omega (arith, h)
  raised false (some r) n o e h = absurd h
  raised true f n o e h = absurd (cc e)

  pub lowered :
      (fr : Bool) (f : Option (List E)) (n o : ℕ)
      → OwnedAt fr f n (1 + o)
      → OwnedAt false f n (0 + o)
  unfolding OwnedAt
  lowered false none n o h = absurd (omega (arith, h))
  lowered false (some r) n o h = absurd h
  lowered true none n o h = omega (arith, h)
  lowered true (some r) n o h = absurd (omega (arith, h.0))

  pub paid :
      (fr : Bool) (f : Option (List E)) (n o : ℕ) (r : List E)
      → (length r ≡ n) ⊎ (r ≡ [])
      → OwnedAt fr f n (1 + o)
      → OwnedAt fr (some r) n o
  unfolding OwnedAt
  paid false none n o r l h = absurd (omega (arith, h))
  paid false (some q) n o r l h = absurd h
  paid true none n o r l h = (omega (arith, h), l)
  paid true (some q) n o r l h = absurd (omega (arith, h.0))

  pub unpaid : (fr : Bool) (f : Option (List E)) (n o : ℕ) → 1 ≤ o → OwnedAt fr f n o → f ≡ none
  unfolding OwnedAt
  unpaid fr none n o le h = refl
  unpaid false (some q) n o le h = absurd h
  unpaid true (some q) n o le h = absurd (omega (arith, le, h.0))

  owners_one :
      (i : ℕ) (x : Thread E) → owners i (x ∷ []) ≡ (if shared_of x == i then owner x else 0)
  unfolding owners
  owners_one i x = omega arith

  slots_one : (i : ℕ) (x : Thread E) → slots i (x ∷ []) ≡ (if shared_of x == i then slot x else 0)
  unfolding slots
  slots_one i x = omega arith

module _ (E : Type 0) where
  pub shared_of-choose :
      (job : RolloutJob) (o : Option String) → shared_of (choose {E = E} job o) ≡ job.shared
  unfolding shared_of choose
  shared_of-choose job none = refl
  shared_of-choose job (some scene) = elim (Bool-cases job.is_fallback) [
    | inl f ↦ rw f refl
    | inr f ↦ rw f refl
  ]

  pub owner-choose : (job : RolloutJob) (o : Option String) → owner (choose {E = E} job o) ≡ 1
  unfolding owner choose
  owner-choose job none = refl
  owner-choose job (some scene) = elim (Bool-cases job.is_fallback) [
    | inl f ↦ rw f refl
    | inr f ↦ rw f refl
  ]

  pub slot-choose : (job : RolloutJob) (o : Option String) → slot (choose {E = E} job o) ≤ 1
  unfolding slot choose
  slot-choose job none = omega arith
  slot-choose job (some scene) = elim (Bool-cases job.is_fallback) [
    | inl f ↦ rw f (omega arith)
    | inr f ↦ rw f (omega arith)
  ]

  pub Sized-choose : (n : ℕ) (job : RolloutJob) (o : Option String) → Sized n (choose {E = E} job o)
  unfolding Sized choose
  Sized-choose n job none = tt
  Sized-choose n job (some scene) = elim (Bool-cases job.is_fallback) [
    | inl f ↦ rw f tt
    | inr f ↦ rw f tt
  ]

module _ {P E : Type 0} (t : Thread E) (w : Worker P E) (s u : SharedPayloadState P E)
    (w' : Worker P E) (states : w'.states ≡ set w.states (shared_of t) u)
    (target : u.n_target ≡ s.n_target)
    (errors : w'.invalid_state_errors ≡ w.invalid_state_errors) where
  -- The handler goes on.
  pub goes_on :
      (x : Thread E)
      → shared_of x ≡ shared_of t
      → w'.queue ≡ w.queue
      → ((o : ℕ) → Owned (owner t + o) s → Owned (owner x + o) u)
      → length u.collected + slot x ≤ length s.collected + slot t
      → Sized s.n_target x
      → Moves t w s (x ∷ []) w'
  goes_on x same q owned room sized = record {
    state = u;
    states = states;
    target = target;
    others = λ i h. (
      ground (arith, owners_one i x, same, h),
      ground (arith, ap (queued i) q, slots_one i x, same, h),
    );
    owned = λ o h.
        subst (λ n. Owned (n + o) u) (ground (arith, owners_one (shared_of t) x, same)) (owned o h);
    room = ground (arith, ap (queued (shared_of t)) q, slots_one (shared_of t) x, same, room);
    sized = λ z. (sized, tt);
    errors = errors;
  }

  -- The handler ends, and has put a job into the queue or not.
  pub ends :
      (n : ℕ)
      → ((i : ℕ) → queued i w'.queue ≡ (if shared_of t == i then n else 0) + queued i w.queue)
      → ((o : ℕ) → Owned (owner t + o) s → Owned o u)
      → length u.collected + n ≤ length s.collected + slot t
      → Moves t w s [] w'
  unfolding owners slots
  ends n q owned room = record {
    state = u;
    states = states;
    target = target;
    others = λ i h. (refl, ground (arith, q i, h));
    owned = λ o h. subst (λ n. Owned n u) (omega arith) (owned o h);
    room = ground (arith, q (shared_of t), room);
    sized = λ z. tt;
    errors = errors;
  }
