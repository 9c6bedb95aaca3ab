-- ===== src/Host.antt =====
-- packages/host: what the host decides before it starts any process.
pub mod Config
pub mod Topology
pub mod Preflight
mod Samples
