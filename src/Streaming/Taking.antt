-- ===== src/Streaming/Taking.antt =====
-- streaming_worker.py: what pulling an item from the queue changes.
use alpagym.Base.{ℕ, ◌+◌, ◌≡◌, refl, Option, List, [], ◌∷◌, arith}
use alpagym.Streaming.State.{RolloutJob, QueueItem, Worker}
use alpagym.Streaming.Loop.{got, take_from, take_job}
use alpagym.Streaming.System.{refers_item, queued}

module _ {P E : Type 0} where
  -- What taking an item changes: it leaves the queue, and nothing else.
  pub record Takes (w w' : Worker P E) (item : Option RolloutJob) : Type 0 where
    pub states : w'.states ≡ w.states
    pub errors : w'.invalid_state_errors ≡ w.invalid_state_errors
    pub closed : w'.closed ≡ w.closed
    pub queue : (i : ℕ) → queued i w.queue ≡ refers_item i item + queued i w'.queue

  take_from-got :
      (q : List QueueItem) (w : Worker P E) {item : Option RolloutJob} {w' : Worker P E}
      → w.queue ≡ q
      → take_from q w ≡ got item w'
      → Takes w w' item
  unfolding queued
  take_from-got [] w d e = cc
  take_from-got (x ∷ rest) w {item} d e =
      let j : x.job ≡ item = cc e in
      record {
        states = ground arith;
        errors = ground arith;
        closed = ground arith;
        queue = λ i. rw d (rw j (ground arith));
      }

  pub take_job-got :
      (w : Worker P E) {item : Option RolloutJob} {w' : Worker P E}
      → take_job w ≡ got item w'
      → Takes w w' item
  unfolding take_job
  take_job-got w e = take_from-got w.queue w refl e
