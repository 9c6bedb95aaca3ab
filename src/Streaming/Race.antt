-- ===== src/Streaming/Race.antt =====
-- streaming_worker.py: two siblings that fail while the payload's last retry is used up.
use alpagym.Base.{ℕ, String, false, none, some, List, ◌∷◌}
use alpagym.Base.Int.{pos}
use alpagym.Streaming.State.{SharedPayloadState, RolloutJob, Settings, Worker}
use alpagym.Streaming.Threads.{Thread, running}
use alpagym.Streaming.System.{System}

module _ {P E : Type 0} (cfg : Settings P) (w : Worker P E) (rest : List (Thread E)) (p : P)
    (n ref a_uuid b_uuid attempts : ℕ) (c : List E) (scene bad : String) where
  -- A payload that no retry is left for.
  abbrev pub exhausted : SharedPayloadState P E
  exhausted = record {
    payload = p;
    n_target = n;
    future = none;
    retries_left = pos 0;
    collected = c;
    permanently_failed = false;
    future_resolved = false;
  }

  abbrev pub sibling : ℕ → RolloutJob
  sibling uuid = record {
    shared = ref;
    session_uuid = uuid;
    scene_id = bad;
    attempts = attempts;
    is_fallback = false;
  }

  abbrev pub both_running : System P E
  both_running = record {
    worker = record w { last_good_scene_id = some scene };
    threads = running (sibling a_uuid) ∷ running (sibling b_uuid) ∷ rest;
  }
