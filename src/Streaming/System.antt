-- ===== src/Streaming/System.antt =====
-- streaming_worker.py: the worker with its pool of threads, as steps that interleave in any order.
use alpagym.Base.{
  ℕ, zero, suc, ◌+◌, ◌≡◌, Option, none, some, List, [], ◌∷◌, ◌++◌, ◌==◌, if◌then◌else◌, get_elem?,
}
use alpagym.Base.Outcome.{ok}
use alpagym.Streaming.State.{SharedPayloadState, RolloutJob, QueueItem, Settings, Worker, initial}
use alpagym.Streaming.Handlers.{submit_payload}
use alpagym.Streaming.Loop.{got, take_job}
use alpagym.Streaming.Threads.{
  Thread, pulled, running, landed, delivering, refilling, requeueing, giving_up, shared_of,
  advance_on, succeed_on, fail_on,
}

pub record System (P E : Type 0) : Type 0 where
  pub worker : Worker P E
  pub threads : List (Thread E)

abbrev pub without : {A : Type 0} → ℕ → List A → List A
without i [] = []
without zero (j ∷ l) = l
without (suc i) (j ∷ l) = j ∷ without i l

-- The k-th thread goes on.
abbrev pub moved : {P E : Type 0} → ℕ → List (Thread E) × Worker P E → System P E → System P E
moved k (more, w) y = record { worker = w; threads = more ++ without k y.threads }

pub data Step {P E : Type 0} (cfg : Settings P) (y : System P E) : System P E → Type 0 where
  submit :
      (p : P) (ref : ℕ) {w : Worker P E}
      → submit_payload cfg p y.worker ≡ ok (ref, w)
      → Step cfg y (record y { worker = w })
  pull :
      {job : RolloutJob} {w : Worker P E}
      → take_job y.worker ≡ got (some job) w
      → Step cfg y (record { worker = w; threads = pulled job ∷ y.threads })
  leave : {w : Worker P E} → take_job y.worker ≡ got none w → Step cfg y (record y { worker = w })
  succeed :
      (k : ℕ) {job : RolloutJob} (episode : E)
      → get_elem? y.threads k ≡ some (running job)
      → Step cfg y (moved k (succeed_on cfg job episode y.worker) y)
  fail :
      (k : ℕ) {job : RolloutJob} {s : SharedPayloadState P E}
      → get_elem? y.threads k ≡ some (running job)
      → get_elem? y.worker.states job.shared ≡ some s
      → Step cfg y (moved k (fail_on cfg job s y.worker) y)
  advance :
      (k : ℕ) {t : Thread E} {s : SharedPayloadState P E}
      → get_elem? y.threads k ≡ some t
      → get_elem? y.worker.states (shared_of t) ≡ some s
      → Step cfg y (moved k (advance_on cfg t s y.worker) y)

abbrev pub start : {P E : Type 0} → System P E
start = record { worker = initial; threads = [] }

-- The states that lead from one to another, and those that lead from the start.
pub data Steps {P E : Type 0} (cfg : Settings P) (y : System P E) : System P E → Type 0 where
  here : Steps cfg y y
  next : {z u : System P E} → Steps cfg y z → Step cfg z u → Steps cfg y u

abbrev pub Reach : {P E : Type 0} → Settings P → System P E → Type 0
Reach cfg y = Steps cfg start y

-- How many jobs of one payload are queued.
abbrev pub refers : ℕ → RolloutJob → ℕ
refers ref job = if job.shared == ref then 1 else 0

abbrev pub refers_item : ℕ → Option RolloutJob → ℕ
refers_item ref none = 0
refers_item ref (some job) = refers ref job

unfoldable pub queued : ℕ → List QueueItem → ℕ
queued ref [] = 0
queued ref (x ∷ q) = refers_item ref x.job + queued ref q

module _ {E : Type 0} where
  -- Whether the thread may still add an episode of its payload or put a job of it into the queue.
  unfoldable pub slot : Thread E → ℕ
  slot (delivering ref r) = 0
  slot (giving_up ref) = 0
  slot t = 1

  -- Whether the thread owes its payload the result, or the reset of `future_resolved`.
  unfoldable pub owner : Thread E → ℕ
  owner (pulled job) = 0
  owner (running job) = 0
  owner (landed job e) = 0
  owner (refilling job scene) = 0
  owner (requeueing job scene) = 0
  owner t = 1

  unfoldable pub slots : ℕ → List (Thread E) → ℕ
  slots ref [] = 0
  slots ref (t ∷ l) = (if shared_of t == ref then slot t else 0) + slots ref l

  unfoldable pub owners : ℕ → List (Thread E) → ℕ
  owners ref [] = 0
  owners ref (t ∷ l) = (if shared_of t == ref then owner t else 0) + owners ref l

abbrev pub outstanding : {P E : Type 0} → ℕ → System P E → ℕ
outstanding ref y = queued ref y.worker.queue + slots ref y.threads
