-- ===== src/Streaming/Samples.antt =====
-- streaming_worker.py: small runs of the worker, and the theorems on them.
use alpagym.Base.{ℕ, ◌≡◌, refl, true, false, Option, none, some, List, [], ◌∷◌, arith, get_elem?}
use alpagym.Base.Int.{pos, ◌-ℤ◌, leb_ℤ}
use alpagym.Streaming.State.{
  SharedPayloadState, RolloutJob, Settings, Worker, initial, put, enqueue, write, find,
}
use alpagym.Streaming.Handlers.{register, dispatch, submit_payload, on_rollout_failed, collect}
use alpagym.Streaming.Loop.{take_job, shutdown}
use alpagym.Streaming.Threads.{
  running, landed, delivering, shared_of, landed_with, pulled_with, advance_on, succeed_on,
}
use alpagym.Streaming.System.{
  System, submit, pull, succeed, advance, Reach, here, next, owners, queued,
}
use alpagym.Streaming.Results.{Settled, resolved_once}
use alpagym.Streaming.Race.{both_running}
use alpagym.Streaming.Substitution.{IsOpen}
use alpagym.Streaming.Endless.{Failures, never_given_up, substitution_unindexed}
use alpagym.Streaming.Shutdown.{shutdown_strands}

abbrev settings : Settings ℕ
settings = record {
  prompt_idx = λ p. p;
  scene_id_resolver = λ p. some "scene";
  rollouts_per_payload = 1;
  max_scene_retries = 1;
  max_concurrent_rollouts = 2;
  scene_pool = none;
}

abbrev empty_worker : Worker ℕ ℕ
empty_worker = initial

abbrev only_state : SharedPayloadState ℕ ℕ
only_state = record {
  payload = 7;
  n_target = 1;
  future = none;
  retries_left = pos 1;
  collected = [];
  permanently_failed = false;
  future_resolved = false;
}

abbrev only_job : RolloutJob
only_job = record {
  shared = 0;
  session_uuid = 0;
  scene_id = "scene";
  attempts = 0;
  is_fallback = false;
}

abbrev submitted : System ℕ ℕ
submitted = record {
  worker = record {
    states = only_state ∷ [];
    active = (7, 0) ∷ [];
    queue = record { priority = 1; seq = 0; job = some only_job } ∷ [];
    next_seq = 1;
    next_uuid = 1;
    closed = false;
    last_good_scene_id = none;
    invalid_state_errors = 0;
  };
  threads = [];
}

submitted-Reach : Reach settings submitted
unfolding submit_payload register dispatch enqueue put
submitted-Reach = next here (submit 7 0 refl)

abbrev started : System ℕ ℕ
started = record {
  worker = record submitted.worker { queue = [] };
  threads = running only_job ∷ [];
}

started-Reach : Reach settings started
unfolding take_job advance_on pulled_with shared_of
started-Reach = next (next submitted-Reach (pull refl)) (advance 0 refl refl)

-- The rollout has ended, and then its episode is collected.
abbrev ended : System ℕ ℕ
ended = record {
  worker = record started.worker { last_good_scene_id = some "scene" };
  threads = landed only_job 5 ∷ [];
}

abbrev full_state : SharedPayloadState ℕ ℕ
full_state = record only_state { collected = 5 ∷ []; future_resolved = true }

abbrev full : System ℕ ℕ
full = record {
  worker = record ended.worker { states = full_state ∷ []; active = [] };
  threads = delivering 0 (5 ∷ []) ∷ [];
}

full-Reach : Reach settings full
unfolding succeed_on advance_on landed_with collect write shared_of
full-Reach = next (next started-Reach (succeed 0 5 refl)) (advance 0 refl refl)

abbrev no_result : Option (List ℕ)
no_result = none

resolved_once_example :
    (full.worker.invalid_state_errors ≡ 0)
    × (true ≡ true → Settled no_result 1 (owners 0 full.threads))
    × (true ≡ false → (no_result ≡ none) × (owners 0 full.threads ≡ 0))
resolved_once_example = resolved_once settings full 0 full_state full-Reach refl

-- A worker that has seen a good scene, and a payload with one retry left or none.
abbrev experienced : Worker ℕ ℕ
experienced = record started.worker { last_good_scene_id = some "good" }

experienced-IsOpen : IsOpen settings only_job experienced only_state "good"
experienced-IsOpen = record { at = refl; alive = refl; unresolved = refl; good = refl }

never_given_up_example :
    (w' : Worker ℕ ℕ) × (job' : RolloutJob) × (s' : SharedPayloadState ℕ ℕ) × Failures settings
      experienced only_job 5 w' job'
    × (get_elem? w'.states 0 ≡ some s')
    × (s'.future_resolved ≡ false)
    × (s'.permanently_failed ≡ false)
never_given_up_example =
    never_given_up settings experienced only_job only_state "good" 5 (omega arith)
      experienced-IsOpen refl

abbrev tired_state : SharedPayloadState ℕ ℕ
tired_state = record only_state { retries_left = pos 0 }

abbrev tired : Worker ℕ ℕ
tired = record experienced { states = tired_state ∷ [] }

tired-IsOpen : IsOpen settings only_job tired tired_state "good"
tired-IsOpen = record { at = refl; alive = refl; unresolved = refl; good = refl }

no_retry : leb_ℤ (pos 0) (pos 0 -ℤ pos 1) ≡ false
unfolding ◌-ℤ◌
no_retry = refl

substitution_unindexed_example :
    (find 7 (on_rollout_failed settings only_job tired).active ≡ none)
    × (t : SharedPayloadState ℕ ℕ) × (get_elem? (on_rollout_failed settings only_job tired).states 0
        ≡ some t)
    × (t.future_resolved ≡ false)
    × (t.retries_left ≡ pos 1)
substitution_unindexed_example =
    substitution_unindexed settings tired only_job tired_state "good" tired-IsOpen no_retry refl

abbrev race : System ℕ ℕ
race = both_running settings tired [] 7 1 0 3 4 0 [] "good" "scene"

-- The payload of `tired` after its substitution is in no index, and has a job in the queue.
abbrev forgotten : Worker ℕ ℕ
forgotten = record tired {
  active = [];
  queue = record { priority = 0; seq = 1; job = some only_job } ∷ [];
}

shutdown_strands_example :
    (get_elem? (shutdown settings forgotten).states 0 ≡ some tired_state)
    × (queued 0 (shutdown settings forgotten).queue ≡ 0)
shutdown_strands_example = shutdown_strands settings forgotten 0 tired_state refl tt
