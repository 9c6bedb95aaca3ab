-- ===== src/Buffers/Samples.antt =====
-- policies/alpamayo/buffers.py: a ring of two slots and three frames.
use alpagym.Base.{ℕ, ◌≡◌, refl, Bool, true, none, List, [], ◌∷◌, arith}
use alpagym.Base.Outcome.{ok}
use alpagym.Buffers.Poses.{Ordered, add_poses-Ordered}
use alpagym.Buffers.{EgomotionBuffer, add_poses, CameraFrameBuffer, add, ordered_view, valid_frames}
use alpagym.Buffers.Ring.{Use, add_use, view_use, use_all, latest, history, ordered_view-shows}

abbrev uses : List (Use ℕ)
uses = add_use 5 100 ∷ add_use 6 200 ∷ view_use ∷ add_use 7 300 ∷ []

abbrev used : CameraFrameBuffer ℕ
used = record {
  capacity = 2;
  slots = (7, 300) ∷ (6, 200) ∷ [];
  write_idx = 3;
  ordered_cache = none;
}

abbrev fits : ℕ → Bool
fits frame = true

abbrev storage : List (ℕ × ℕ)
storage = (0, 0) ∷ (0, 0) ∷ []

uses_run :
    use_all fits uses
      (record { capacity = 2; slots = storage; write_idx = 0; ordered_cache = none })
    ≡ ok used
unfolding use_all add ordered_view valid_frames
uses_run = refl

ordered_view-shows_example : (ordered_view used).0 ≡ latest 2 (history fits uses [])
ordered_view-shows_example = ordered_view-shows fits 2 storage uses used (omega arith) refl uses_run

abbrev track : EgomotionBuffer ℕ
track = record { maxlen = 2; poses = (10, 0) ∷ (20, 0) ∷ [] }

-- The third pose is not later than the second: the call raises after the first two.
add_poses-Ordered_example : Ordered (add_poses ((30, 1) ∷ (40, 2) ∷ (40, 3) ∷ []) track).1
add_poses-Ordered_example =
    add_poses-Ordered ((30, 1) ∷ (40, 2) ∷ (40, 3) ∷ []) track
      ((tt, (omega arith, tt)), omega arith)
