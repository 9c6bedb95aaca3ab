-- ===== src/Lib.antt =====
-- Verification library of AlpaGym, a reinforcement-learning framework that runs a driving policy
-- in closed loop in a simulator and trains it on the results. On the host, the preflight checks a
-- run's settings and the topology assigns hosts and GPUs; on a rollout worker, the streaming worker
-- turns each payload into rollout jobs; the NCCL transport hands the episodes' tensors to the policy
-- processes by a rendezvous over a TCPStore.
--
-- Streaming models packages/runtime/src/alpagym_runtime/episode_runner/streaming_worker.py.
--   State has the data and the priority queue, Handlers has `submit_payload`, the locked parts of
--   `_on_rollout_succeeded` and `_on_rollout_failed`, and the latter run to its end alone, Loop has `shutdown` and the `get` of
--   `_rollout_worker_loop`, System has the pool of threads as a step relation. A state shared by
--   reference is an index into a list of states. Threads has the places of a thread in the two
--   handlers: a step is one locked part, or one access to shared objects outside of the lock, and
--   the steps of all threads interleave. The simulator call is a step that succeeds or fails.
--   Shutdown is not a step of the relation: it is a function on any worker.
-- Nccl models packages/runtime/src/alpagym_runtime/transport/nccl: Rendezvous has the methods of
--   `AckRendezvous`, Rendezvous/Handshake the interleaving of `request_ack` with
--   `process_request` on the three keys of one transfer, Sender the registries of `NcclSender` and
--   the body of its loop, CommInit the sizes and ranks of comm_init.py, Receiver the routing tables
--   of receiver.py and `_resolve_nccl_handle` of endpoints.py. Tensor maps and communicators are
--   opaque there. Logs are left out.
-- Host models packages/host/src/alpagym_host: Config has the settings of config.py that are read,
--   Topology has run_topology.py, Preflight and Preflight/Slurm have config_validation.py. The file
--   system, `float`, `str.split` and the validators that create directories are the fields of
--   `Outside`.
-- Filter models packages/runtime/src/alpagym_runtime/cosmos/rollout_filter.py.
-- Buffers models CameraFrameBuffer and EgomotionBuffer of
--   packages/runtime/src/alpagym_runtime/policies/alpamayo/buffers.py.
-- Payload models packages/runtime/src/alpagym_runtime/transport/nccl/payload.py: `pack` and
--   Payload/Unpack for `unpack`, Payload/Specs for `_collect_tensor_specs` of endpoints.py,
--   Payload/Manifest for the JSON text of the manifest, Payload/Wire for the sends and the receives of one transfer. Payload/Schema has the
--   dataclasses of types.py and replay.py that an episode is made of. `_unpack` runs on fuel, and raises where Python's stack would end; three
--   times the size of the value is enough. What a dataclass checks in `__post_init__` is left out.
-- Inference models packages/runtime/src/alpagym_runtime/inference: types.py with the stacking and
--   the splitting of batches, and Inference/Engine the queue and the worker loop of
--   inference_engine.py, one access to the queue at a time. PyTorch and the model are parameters.
-- Packer models `get_rollout_output` and `get_policy_input` of
--   packages/runtime/src/alpagym_runtime/cosmos/packer.py.
-- Registry models packages/host/src/alpagym_host/endpoint_registry.py.
-- Base has the shared helpers: lists, dicts and Boolean tests over the native numbers, Python's
-- integers, and calls that return or raise. Only `_unpack` runs on fuel: every other loop is a structural
-- recursion. Left out are the policies, the reward arithmetic, the Cosmos trainer, process
-- launch, and everything else that is tensors, files or RPC.
pub mod Base
pub mod Streaming
pub mod Nccl
pub mod Host
pub mod Filter
pub mod Buffers
pub mod Payload
pub mod Inference
pub mod Packer
pub mod Registry
