-- ===== src/Streaming.antt =====
-- packages/runtime/src/alpagym_runtime/episode_runner/streaming_worker.py: the worker that turns
-- each payload into sibling rollout jobs, retries failed ones and resolves the payload's future.
pub mod State
pub mod Handlers
pub mod Loop
pub mod Threads
pub mod System
pub mod Owners
pub mod Moves
pub mod Advancing
pub mod Taking
pub mod Submitting
pub mod Conservation
pub mod Results
pub mod Closed
pub mod Race
pub mod Substitution
pub mod Endless
pub mod Shutdown
mod Samples
