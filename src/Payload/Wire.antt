-- ===== src/Payload/Wire.antt =====
-- The tensors of one transfer on NCCL: the loop of `NcclSender._send_registered_transfer` in transport/nccl/sender.py and
-- the one of `do_nccl_recv` in transport/nccl/receiver.py, on the same communicator.
-- NCCL delivers the sends to the receives in their order: `wire` is what was sent. `before` is Python's order of the
-- texts `tensor_<n>`; `fill` is `torch.empty` with `nccl_recv` into it. Devices, layouts and CUDA streams are
-- left out. A receive that no send answers ends at the watchdog's timeout.
pub mod Delivered
pub mod Episode
mod Samples
use alpagym.Base.{
  ℕ, Bool, true, false, Option, none, some, List, [], ◌∷◌, map, ◌==◌, ◌||◌, if◌then◌else◌,
}
use alpagym.Base.Dict.{Dict, get, put}
use alpagym.Base.Outcome.{Outcome, ok, raise, ◌>>=◌}
use alpagym.Payload.Specs.{TensorSpec}

pub data TransferError : Type 0 where
  no_tensor timed_out : TransferError

unfoldable pub keys : {V : Type 0} → Dict V → List ℕ
keys [] = []
keys ((k, v) ∷ d) = k ∷ keys d

module _ (before : ℕ → ℕ → Bool) where
  unfoldable pub insert_key : ℕ → List ℕ → List ℕ
  insert_key k [] = k ∷ []
  insert_key k (j ∷ ks) = let rest = insert_key k ks in if before k j then k ∷ j ∷ ks else j ∷ rest

  -- `sorted(keys)`
  unfoldable pub sorted : List ℕ → List ℕ
  sorted [] = []
  sorted (k ∷ ks) = insert_key k (sorted ks)

-- `d[key]`
unfoldable pub entry : {V : Type 0} → Option V → Outcome TransferError V
entry none = raise no_tensor
entry (some v) = ok v

module _ {T : Type 0} where
  unfoldable pub send_each : Dict T → List ℕ → Outcome TransferError (List T)
  send_each tensors_map [] = ok []
  send_each tensors_map (k ∷ ks) =
      entry (get k tensors_map) >>= λ t. send_each tensors_map ks >>= λ rest. ok (t ∷ rest)

  -- `_send_registered_transfer`
  unfoldable pub send_registered_transfer : (ℕ → ℕ → Bool) → Dict T → Outcome TransferError (List T)
  send_registered_transfer before tensors_map =
      send_each tensors_map (sorted before (keys tensors_map))

  module _ (fill : TensorSpec → T → T) where
    unfoldable pub recv_each :
        Dict TensorSpec → List ℕ → List T → Dict T → Outcome TransferError (Dict T)
    recv_each specs [] wire received = ok received
    recv_each specs (k ∷ ks) [] received = raise timed_out
    recv_each specs (k ∷ ks) (t ∷ wire) received =
        entry (get k specs) >>= λ spec. recv_each specs ks wire (put k (fill spec t) received)

    -- `do_nccl_recv`
    unfoldable pub do_nccl_recv :
        (ℕ → ℕ → Bool) → Dict TensorSpec → List T → Outcome TransferError (Dict T)
    do_nccl_recv before specs wire = recv_each specs (sorted before (keys specs)) wire []
