-- ===== src/Nccl.antt =====
-- packages/runtime/src/alpagym_runtime/transport/nccl: rollout tensors from the rollout workers to
-- the policy workers, over NCCL, with a TCPStore as the control plane.
pub mod Store
pub mod Rendezvous
pub mod Sender
pub mod CommInit
pub mod Receiver
mod Samples
