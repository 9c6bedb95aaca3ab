-- ===== src/Streaming/State.antt =====
-- streaming_worker.py: the data of the worker and its priority queue.
-- Objects shared by reference are a list of states, a reference is an index into it.
use alpagym.Base.{
  ℕ, ◌+◌, String, Bool, false, ◌&&◌, ◌||◌, Option, none, some, List, [], ◌∷◌, ltb, ◌==◌,
  if◌then◌else◌, get_elem?, set,
}
use alpagym.Base.Int.{ℤ}

-- `SharedPayloadState`: `future` is `none` until `set_result`.
pub record SharedPayloadState (P E : Type 0) : Type 0 where
  pub payload : P
  pub n_target : ℕ
  pub future : Option (List E)
  pub retries_left : ℤ
  pub collected : List E
  pub permanently_failed : Bool
  pub future_resolved : Bool

-- `_RolloutJob`: `shared` refers to a `SharedPayloadState`.
pub record RolloutJob : Type 0 where
  pub shared : ℕ
  pub session_uuid : ℕ
  pub scene_id : String
  pub attempts : ℕ
  pub is_fallback : Bool

-- One item of `_rollout_job_queue`; the job `none` is a shutdown sentinel.
pub record QueueItem : Type 0 where
  pub priority : ℕ
  pub seq : ℕ
  pub job : Option RolloutJob

-- What the constructor is given, and the parts of the outside world that a handler reads:
-- `scene_pool` is the scene list of the fallback file, `none` if opening or parsing it raises.
pub record Settings (P : Type 0) : Type 0 where
  pub prompt_idx : P → ℕ
  pub scene_id_resolver : P → Option String
  pub rollouts_per_payload : ℕ
  pub max_scene_retries : ℕ
  pub max_concurrent_rollouts : ℕ
  pub scene_pool : Option (List String)

-- `invalid_state_errors` counts the calls of `set_result` on a future that is done, which raise.
pub record Worker (P E : Type 0) : Type 0 where
  pub states : List (SharedPayloadState P E)
  pub active : List (ℕ × ℕ)
  pub queue : List QueueItem
  pub next_seq : ℕ
  pub next_uuid : ℕ
  pub closed : Bool
  pub last_good_scene_id : Option String
  pub invalid_state_errors : ℕ

abbrev pub initial : {P E : Type 0} → Worker P E
initial = record {
  states = [];
  active = [];
  queue = [];
  next_seq = 0;
  next_uuid = 0;
  closed = false;
  last_good_scene_id = none;
  invalid_state_errors = 0;
}

-- Tuples compare by priority, then by the sequence number.
abbrev pub before : QueueItem → QueueItem → Bool
before a b = ltb a.priority b.priority || (a.priority == b.priority && ltb a.seq b.seq)

-- `PriorityQueue.put` and `get` on the items in the order in which they leave.
unfoldable pub put : QueueItem → List QueueItem → List QueueItem
put x [] = x ∷ []
put x (y ∷ q) = if before x y then x ∷ y ∷ q else y ∷ put x q

module _ {P E : Type 0} where
  -- `put((priority, next(seq), job))`
  unfoldable pub enqueue : ℕ → Option RolloutJob → Worker P E → Worker P E
  enqueue priority job w = record w {
    queue = put (record { priority = priority; seq = w.next_seq; job = job }) w.queue;
    next_seq = w.next_seq + 1;
  }

  -- A write through a reference.
  unfoldable pub write : ℕ → SharedPayloadState P E → Worker P E → Worker P E
  write ref s w = record w { states = set w.states ref s }

  abbrev pub result_of : ℕ → List E → Worker P E → Option (SharedPayloadState P E) → Worker P E
  result_of ref result w none = w
  result_of ref result w (some s) = elim s.future [
    | none ↦ write ref (record s { future = some result }) w
    | some _ ↦ record w { invalid_state_errors = w.invalid_state_errors + 1 }
  ]

  -- `future.set_result(result)`
  unfoldable pub set_result : ℕ → List E → Worker P E → Worker P E
  unfolding write
  set_result ref result w = result_of ref result w (get_elem? w.states ref)

-- A dictionary by insertion order, keyed by `prompt_idx`.
abbrev pub find : ℕ → List (ℕ × ℕ) → Option ℕ
find k [] = none
find k ((j, v) ∷ m) = if j == k then some v else find k m

abbrev pub pop : ℕ → List (ℕ × ℕ) → List (ℕ × ℕ)
pop k [] = []
pop k ((j, v) ∷ m) = let rest = pop k m in if j == k then rest else (j, v) ∷ rest
