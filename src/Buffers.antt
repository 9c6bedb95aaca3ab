-- ===== src/Buffers.antt =====
-- packages/runtime/src/alpagym_runtime/policies/alpamayo/buffers.py: the ring of camera frames and
-- the buffer of ego poses.
pub mod Rotation
pub mod Ring
pub mod Poses
mod Samples
use alpagym.Base.{
  ℕ, suc, ◌+◌, ◌-◌, ◌%◌, ◌==◌, ltb, leb, min, Bool, true, false, not, Option, none, some, List, [],
  ◌∷◌, ◌++◌, if◌then◌else◌, length, set, take, drop,
}
use alpagym.Base.Outcome.{Outcome, ok, raise}

-- `CameraFrameBuffer`: `F` is a frame. The storage of `torch.empty` holds arbitrary entries; one
-- slot holds a frame and its timestamp.
pub record CameraFrameBuffer (F : Type 0) : Type 0 where
  pub capacity : ℕ
  pub slots : List (F × ℕ)
  pub write_idx : ℕ
  pub ordered_cache : Option (List (F × ℕ))

pub data FrameError : Type 0 where
  frame_mismatch : FrameError

module _ {F : Type 0} where
  abbrev pub stored : F → ℕ → CameraFrameBuffer F → CameraFrameBuffer F
  stored frame timestamp_us b = record b {
    slots = set b.slots (b.write_idx % b.capacity) (frame, timestamp_us);
    write_idx = b.write_idx + 1;
    ordered_cache = none;
  }

  -- `add`: `fits` is the test of dtype, shape and device.
  unfoldable pub add :
      (F → Bool) → F → ℕ → CameraFrameBuffer F → Outcome FrameError (CameraFrameBuffer F)
  add fits frame timestamp_us b =
      if fits frame then ok (stored frame timestamp_us b) else raise frame_mismatch

  -- `__len__`
  unfoldable pub valid_frames : CameraFrameBuffer F → ℕ
  valid_frames b = min b.write_idx b.capacity

  -- `clear`
  unfoldable pub clear : CameraFrameBuffer F → CameraFrameBuffer F
  clear b = record b { write_idx = 0; ordered_cache = none }

  abbrev pub rotated : CameraFrameBuffer F → List (F × ℕ)
  rotated b = drop (b.write_idx % b.capacity) b.slots ++ take (b.write_idx % b.capacity) b.slots

  abbrev pub from_cache :
      CameraFrameBuffer F → Option (List (F × ℕ)) → List (F × ℕ) × CameraFrameBuffer F
  from_cache b (some view) = (view, b)
  from_cache b none = (rotated b, record b { ordered_cache = some (rotated b) })

  -- `_ordered_view`: the view, and the buffer with its cache.
  unfoldable pub ordered_view : CameraFrameBuffer F → List (F × ℕ) × CameraFrameBuffer F
  unfolding valid_frames
  ordered_view b =
      if ltb (valid_frames b) b.capacity
      then (take (valid_frames b) b.slots, b)
      else if b.write_idx % b.capacity == 0
      then (b.slots, b)
      else from_cache b b.ordered_cache

-- `EgomotionBuffer`: a deque with `maxlen`, oldest first; a pose is its timestamp and the rest.
pub record EgomotionBuffer (R : Type 0) : Type 0 where
  pub maxlen : ℕ
  pub poses : List (ℕ × R)

pub data PoseError : Type 0 where
  not_increasing : PoseError

abbrev pub stale : Option ℕ → ℕ → Bool
stale none t = false
stale (some previous) t = leb t previous

module _ {R : Type 0} where
  -- `deque.append`
  abbrev pub append_pose : ℕ × R → EgomotionBuffer R → EgomotionBuffer R
  append_pose p b = let l = b.poses ++ p ∷ [] in record b { poses = drop (length l - b.maxlen) l }

  abbrev pub last_time : List (ℕ × R) → Option ℕ
  last_time [] = none
  last_time ((t, r) ∷ []) = some t
  last_time (p ∷ q ∷ l) = last_time (q ∷ l)

  -- The loop of `add`: an exception leaves the poses appended before it.
  abbrev pub append_all :
      Option ℕ → List (ℕ × R) → EgomotionBuffer R → Outcome PoseError Unit × EgomotionBuffer R
  append_all previous [] b = (ok tt, b)
  append_all previous ((t, r) ∷ poses) b =
      let rest = append_all (some t) poses (append_pose (t, r) b) in
      if stale previous t then (raise not_increasing, b) else rest

  -- `add`
  unfoldable pub add_poses :
      List (ℕ × R) → EgomotionBuffer R → Outcome PoseError Unit × EgomotionBuffer R
  add_poses poses b = append_all (last_time b.poses) poses b
