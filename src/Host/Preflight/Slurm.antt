-- ===== src/Host/Preflight/Slurm.antt =====
-- config_validation.py: the checks of a Slurm run, and `validate_run_config` as a whole.
use alpagym.Base.{
  Bool, true, false, not, ◌&&◌, ◌||◌, Option, none, some, List, [], ◌∷◌, map, any, String,
  if◌then◌else◌,
}
use alpagym.Base.Int.{ℤ, pos, pos_part, ◌+ℤ◌, ◌*ℤ◌, ltb_ℤ, leb_ℤ, ◌==ℤ◌}
use alpagym.Base.Texts.{same_text, is_empty_text}
use alpagym.Base.Outcome.{Outcome, ok, raise, refuse, ◌>>◌}
use alpagym.Host.Config.{
  ExecutionBackend, local_process, slurm, SlurmConfig, SlurmTopologyConfig, all_in_one,
  separate_nodes, CosmosRlPolicyParallelismConfig, CosmosRlRolloutParallelismConfig, RunConfig,
}
use alpagym.Host.Topology.{
  RunHostPlan, RunTopologyPlan, iota, cosmos_host_plans, build_slurm_topology,
}
use alpagym.Host.Preflight.{Check, Outside, raise_all, error_if, is_none, is_nccl, validate_common}

abbrev check_layout : SlurmConfig → SlurmTopologyConfig → Check
check_layout config (all_in_one alpasim_gpus) =
    refuse (not (config.nodes ==ℤ pos 1)) ("all_in_one requires nodes=1" ∷ [])
    >> refuse (ltb_ℤ alpasim_gpus (pos 1)) ("all_in_one requires at least one AlpaSim GPU" ∷ [])
    >> refuse (leb_ℤ config.gpus_per_node alpasim_gpus)
        ("all_in_one requires alpasim_gpus to leave a Cosmos GPU" ∷ [])
check_layout config (separate_nodes cosmos_nodes alpasim_nodes) =
    refuse (ltb_ℤ cosmos_nodes (pos 1)) ("separate_nodes requires at least one Cosmos node" ∷ [])
    >> refuse (ltb_ℤ alpasim_nodes (pos 1))
        ("separate_nodes requires at least one AlpaSim node" ∷ [])
    >> refuse (not (config.nodes ==ℤ cosmos_nodes +ℤ alpasim_nodes))
        ("separate_nodes requires nodes to equal cosmos_nodes + alpasim_nodes" ∷ [])

-- `_validate_slurm_topology_config`
unfoldable pub validate_slurm_topology_config : SlurmConfig → Check
validate_slurm_topology_config config = check_layout config config.topology

-- `_policy_gpus_per_replica`
unfoldable pub policy_gpus_per_replica : CosmosRlPolicyParallelismConfig → ℤ
policy_gpus_per_replica p =
    p.tp_size *ℤ p.dp_replicate_size *ℤ p.pp_size *ℤ p.cp_size *ℤ p.dp_shard_size

-- `_rollout_gpus_per_replica`
unfoldable pub rollout_gpus_per_replica : CosmosRlRolloutParallelismConfig → ℤ
rollout_gpus_per_replica p = p.tp_size *ℤ p.pp_size

unfoldable pub required_gpus : RunConfig → ℤ
required_gpus config =
    config.cosmos.launch.policy_replicas *ℤ policy_gpus_per_replica config.cosmos.policy_parallelism
    +ℤ config.cosmos.launch.rollout_replicas
      *ℤ rollout_gpus_per_replica config.cosmos.rollout.parallelism

-- `sum(host.cosmos_gpu_count for host in cosmos_hosts)`
unfoldable pub available_gpus : List RunHostPlan → ℤ
available_gpus [] = pos 0
available_gpus (h ∷ hs) = h.cosmos_gpus +ℤ available_gpus hs

abbrev pub capacity_errors : RunConfig → RunHostPlan → List RunHostPlan → List String
capacity_errors config first hosts =
    error_if (ltb_ℤ first.cosmos_gpus (policy_gpus_per_replica config.cosmos.policy_parallelism))
      "policy replica requires more GPUs than each Cosmos Slurm worker exposes"
      (error_if
        (ltb_ℤ first.cosmos_gpus (rollout_gpus_per_replica config.cosmos.rollout.parallelism))
        "rollout replica requires more GPUs than each Cosmos Slurm worker exposes"
        (error_if (ltb_ℤ (available_gpus hosts) (required_gpus config))
          "Cosmos Slurm GPU capacity is below what policy and rollout replicas require" []))

-- `cosmos_hosts[0]` raises IndexError on an empty tuple.
abbrev pub check_hosts : RunConfig → List RunHostPlan → Check
check_hosts config [] = raise ("tuple index out of range" ∷ [])
check_hosts config (first ∷ hosts) = raise_all (capacity_errors config first (first ∷ hosts))

abbrev pub check_plan : RunConfig → Outcome (List String) RunTopologyPlan → Check
check_plan config (raise e) = raise e
check_plan config (ok topology) = check_hosts config (cosmos_host_plans topology)

abbrev pub planned : Outside → RunConfig → Outcome (List String) RunTopologyPlan
planned out config =
    build_slurm_topology config.execution.backend
      (map (λ i. out.node_name i) (iota 0 (pos_part config.execution.slurm.nodes)))
      config.execution.slurm.gpus_per_node config.execution.slurm.topology

-- `_validate_slurm_cosmos_gpu_capacity`
unfoldable pub validate_slurm_cosmos_gpu_capacity : Outside → RunConfig → Check
validate_slurm_cosmos_gpu_capacity out config = check_plan config (planned out config)

abbrev is_shared_2_3 : SlurmConfig → SlurmTopologyConfig → Bool
is_shared_2_3 config (all_in_one alpasim_gpus) = false
is_shared_2_3 config (separate_nodes cosmos_nodes alpasim_nodes) =
    config.nodes ==ℤ pos 5 && (cosmos_nodes ==ℤ pos 2 && alpasim_nodes ==ℤ pos 3)

-- `_validate_shared_cosmos_2_3_shape`
unfoldable pub validate_shared_cosmos_2_3_shape : RunConfig → Check
validate_shared_cosmos_2_3_shape config =
    refuse
      (is_shared_2_3 config.execution.slurm config.execution.slurm.topology
        && not (
            is_nccl config.transport.kind
            && (config.cosmos.launch.policy_replicas ==ℤ pos 4
                && (config.cosmos.launch.rollout_replicas ==ℤ pos 12
                    && (config.cosmos.rollout.batch_size ==ℤ pos 2
                        && (config.cosmos.rollout.n_generation ==ℤ pos 2
                            && (config.cosmos.train.train_batch_per_replica ==ℤ pos 12
                                && (config.cosmos.train.mini_batch ==ℤ pos 1
                                    && config.expected_valid_steps ==ℤ pos 22))))))))
      ("slurm_distributed_shared_cosmos_2_3 requires its coupled dispatch shape" ∷ [])

-- `_is_under`, on the parts of two resolved paths.
unfoldable pub is_under : List String → List String → Bool
is_under path [] = true
is_under [] (p ∷ prefix) = false
is_under (q ∷ path) (p ∷ prefix) = same_text q p && is_under path prefix

abbrev pub same_path : List String → List String → Bool
same_path a b = is_under a b && is_under b a

abbrev destination : Outside → String → List String → String
destination out src [] = src
destination out src (dst ∷ flags) = if is_empty_text dst then src else dst

abbrev mount_of : Outside → List String → Option (List String × List String)
mount_of out [] = none
mount_of out (src ∷ parts) =
    if is_empty_text src || same_text src "none"
    then none
    else some (out.resolve_path src, out.resolve_path (destination out src parts))

-- `_parse_container_mount`
unfoldable pub parse_container_mount : Outside → String → Option (List String × List String)
parse_container_mount out mount = mount_of out (out.split_colon mount)

abbrev keep_some :
    Option (List String × List String)
    → List (List String × List String)
    → List (List String × List String)
keep_some none l = l
keep_some (some m) l = m ∷ l

unfoldable pub parsed_mounts : Outside → List String → List (List String × List String)
parsed_mounts out [] = []
parsed_mounts out (m ∷ mounts) = keep_some (parse_container_mount out m) (parsed_mounts out mounts)

abbrev pub covers : List String → List String × List String → Bool
covers path (src, dst) = is_under path src

abbrev pub covers_elsewhere : List String → List String × List String → Bool
covers_elsewhere path (src, dst) = is_under path src && not (same_path dst src)

-- `_require_host_path_identity_mounted`
unfoldable pub require_host_path_identity_mounted : Outside → RunConfig → String → Check
require_host_path_identity_mounted out config path =
    let resolved_path = out.resolve_path path in
    let mounts = parsed_mounts out config.execution.slurm.container_mounts in
    refuse (not (any (covers resolved_path) mounts))
      ("path is not under any execution.slurm.container_mounts source path" ∷ [])
    >> refuse (any (covers_elsewhere resolved_path) mounts)
        ("path is under non-identity container mounts" ∷ [])

abbrev not_absolute : Outside → Option String → Bool
not_absolute out none = false
not_absolute out (some path) = not (out.is_absolute path)

unfoldable pub validate_slurm_run : Outside → RunConfig → Check
validate_slurm_run out config =
    refuse (is_none config.alpasim.repo_path && is_none config.alpasim.checkout_cache_dir) (
      "alpasim.checkout_cache_dir must be set for a Slurm run when alpasim.repo_path is not set"
      ∷ [])
    >> refuse (not_absolute out config.execution.slurm.uv_cache_dir)
        ("execution.slurm.uv_cache_dir must be an absolute path" ∷ [])
    >> refuse (not_absolute out config.alpasim.checkout_cache_dir)
        ("alpasim.checkout_cache_dir must be an absolute path" ∷ [])
    >> validate_slurm_topology_config config.execution.slurm
    >> out.validate_slurm_config
    >> validate_slurm_cosmos_gpu_capacity out config
    >> validate_shared_cosmos_2_3_shape config
    >> out.validate_alpasim_checkout_cache
    >> require_host_path_identity_mounted out config config.policy.model.path
    >> require_host_path_identity_mounted out config config.run_root

abbrev pub backend_checks : Outside → RunConfig → ExecutionBackend → Check
backend_checks out config local_process = ok tt
backend_checks out config slurm = validate_slurm_run out config

-- `validate_run_config`; `submit` says that the requested command is "submit".
unfoldable pub validate_run_config : Outside → RunConfig → Bool → Check
validate_run_config out config submit =
    validate_common out config submit >> backend_checks out config config.execution.backend
