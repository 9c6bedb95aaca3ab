-- ===== src/Host/Preflight/Transported.antt =====
-- config_validation.py against transport/nccl/comm_init.py: the settings that the preflight lets
-- through for NCCL, and what the workers compute from them.
use alpagym.Base.{◌≡◌, ◌∙◌, subst, Bool}
use alpagym.Base.Int.{pos, ◌+ℤ◌, ◌*ℤ◌}
use alpagym.Base.Outcome.{ok, refuse-ok, refuse-false, then-ok}
use alpagym.Host.Config.{nccl, RunConfig}
use alpagym.Host.Preflight.{
  Outside, validate_common, validate_transport_config, check_transport, validate_nccl_parallelism,
}
use alpagym.Host.Preflight.Slurm.{validate_run_config}
use alpagym.Nccl.CommInit.{compute_nccl_topology}

module _ (out : Outside) (config : RunConfig) (submit : Bool) where
  -- For a configuration with the NCCL transport that `validate_run_config` accepts,
  -- `compute_nccl_topology` on its policy replicas and DP shards raises no error, and returns the
  -- product and the product plus one.
  pub accepted-topology :
      config.transport.kind ≡ nccl
      → validate_run_config out config submit ≡ ok tt
      → let processes =
          config.cosmos.launch.policy_replicas *ℤ config.cosmos.policy_parallelism.dp_shard_size in
        compute_nccl_topology config.cosmos.launch.policy_replicas
          config.cosmos.policy_parallelism.dp_shard_size
        ≡ ok (processes, pos 1 +ℤ processes)
  unfolding validate_run_config validate_common validate_transport_config validate_nccl_parallelism
      compute_nccl_topology
  accepted-topology k h =
      let (common, _) = then-ok h in
      let (_, h1) = then-ok common in
      let (_, h2) = then-ok h1 in
      let (_, h3) = then-ok h2 in
      let (transport, _) = then-ok h3 in
      let check = subst (λ x. check_transport out config x ≡ ok tt) k transport in
      let (_, c1) = refuse-ok _ check in
      let (parallelism, _) = then-ok c1 in
      let (g1, p1) = refuse-ok _ parallelism in
      let (g2, _) = refuse-ok _ p1 in refuse-false _ g1 ∙ refuse-false _ g2
