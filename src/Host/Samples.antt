-- ===== src/Host/Samples.antt =====
-- packages/host: a run on two Slurm nodes, and the theorems on it.
use alpagym.Base.{◌≡◌, refl, true, false, none, some, List, [], ◌∷◌, ◌++◌, String, length}
use alpagym.Base.Int.{pos, ◌+ℤ◌, ◌-ℤ◌, ◌*ℤ◌, floordiv}
use alpagym.Base.Outcome.{ok, refuse, ◌>>◌}
use alpagym.Host.Config.{slurm, separate_nodes, disaggregated, disk, nccl, RunConfig}
use alpagym.Host.Topology.{
  RunTopologyPlan, cosmos_host, alpasim_host, cosmos_hosts, alpasim_hosts, cosmos_host_plans,
  build_slurm_topology, build_separate_nodes_slurm_topology,
}
use alpagym.Host.Topology.Built.{IsPlanned, build_slurm_topology-IsPlanned, separate_nodes-splits}
use alpagym.Host.Preflight.{
  validate_nccl_parallelism, validate_nccl_env, Outside, raise_all, error_if, geometry_errors,
  validate_wizard_startup_config, validate_training_policy_config,
  validate_cosmos_grpo_batch_geometry, validate_transport_config, validate_policy_model_path,
  validate_cosmos_mode, validate_nccl_test_model, validate_common,
}
use alpagym.Host.Preflight.Slurm.{
  validate_run_config, validate_slurm_run, validate_slurm_topology_config,
  validate_slurm_cosmos_gpu_capacity, validate_shared_cosmos_2_3_shape,
  require_host_path_identity_mounted, parsed_mounts, parse_container_mount, is_under, planned,
  required_gpus, available_gpus, policy_gpus_per_replica, rollout_gpus_per_replica,
}
use alpagym.Host.Preflight.Accepted.{Fits, HasGeometry, accepted-Fits, accepted-HasGeometry}
use alpagym.Host.Preflight.Transported.{accepted-topology}
use alpagym.Nccl.CommInit.{compute_nccl_topology}

abbrev names : List String
names = "a" ∷ "b" ∷ []

abbrev plan : RunTopologyPlan
plan = record { hosts = cosmos_host (pos 4) 0 "a" ∷ alpasim_host (pos 4) 1 "b" ∷ [] }

plan_built : build_slurm_topology slurm names (pos 4) (separate_nodes (pos 1) (pos 1)) ≡ ok plan
unfolding build_slurm_topology build_separate_nodes_slurm_topology refuse ◌>>◌ ◌+ℤ◌
plan_built = refl

build_slurm_topology-IsPlanned_example : IsPlanned (pos 4) names plan
build_slurm_topology-IsPlanned_example =
    build_slurm_topology-IsPlanned slurm names (pos 4) plan (separate_nodes (pos 1) (pos 1))
      plan_built

separate_nodes-splits_example :
    (cosmos_hosts plan ++ alpasim_hosts plan ≡ names)
    × (pos (length (cosmos_hosts plan)) ≡ pos 1)
    × (pos (length (alpasim_hosts plan)) ≡ pos 1)
separate_nodes-splits_example =
    separate_nodes-splits slurm names (pos 4) plan (pos 1) (pos 1) plan_built

abbrev outside : Outside
outside = record {
  exists = λ p. true;
  is_dir = λ p. true;
  has_config_json = λ p. true;
  is_supported_hf_bundle_dir = λ p. true;
  is_absolute = λ p. true;
  is_positive_finite = λ t. true;
  split_colon = λ m. m ∷ [];
  resolve_path = λ p. p ∷ [];
  node_name = λ i. "node";
  validate_slurm_config = ok tt;
  validate_alpasim_checkout_cache = ok tt;
}

abbrev config : RunConfig
config = record {
  run_root = "/data";
  execution = record {
    backend = slurm;
    slurm = record {
      nodes = pos 2;
      gpus_per_node = pos 4;
      topology = separate_nodes (pos 1) (pos 1);
      uv_cache_dir = none;
      container_mounts = "/data" ∷ [];
      autoresume = false;
    };
  };
  dataset = record { scene_ids = some ("scene" ∷ []); test_suite_id = none };
  policy = record {
    model = record { kind = "alpamayo"; path = "/data"; num_context_frames = pos 4 };
    return_trace_for_rl = true;
  };
  cosmos = record {
    mode = disaggregated;
    launch = record { policy_replicas = pos 1; rollout_replicas = pos 2 };
    train = record {
      train_batch_per_replica = pos 8;
      mini_batch = pos 2;
      enable_checkpoint = false;
    };
    policy_parallelism = record {
      tp_size = pos 1;
      cp_size = pos 1;
      ep_size = pos 1;
      dp_shard_size = pos 2;
      pp_size = pos 1;
      pp_micro_batch_size = pos 1;
      dp_replicate_size = pos 1;
    };
    rollout = record {
      n_generation = pos 2;
      batch_size = pos 1;
      parallelism = record { tp_size = pos 1; pp_size = pos 1 };
      backend = "alpagym_rollout";
    };
  };
  alpasim = record {
    wizard_args = record {
      deploy = "local";
      topology = "1gpu";
      driver_source = "alpagym";
      force_gt_duration_us = pos 400000;
      control_timestep_us = pos 100000;
      n_sim_steps = pos 26;
      driver = none;
      renderer = none;
    };
    repo_path = some "/repo";
    checkout_cache_dir = none;
  };
  expected_valid_steps = pos 22;
  transport = record { kind = disk; nccl_timeout = none };
}

config_accepted : validate_run_config outside config true ≡ ok tt
unfolding validate_run_config validate_common validate_wizard_startup_config
    validate_training_policy_config validate_cosmos_grpo_batch_geometry geometry_errors
    validate_transport_config validate_policy_model_path validate_cosmos_mode
    validate_nccl_test_model validate_slurm_run validate_slurm_topology_config
    validate_slurm_cosmos_gpu_capacity validate_shared_cosmos_2_3_shape
    require_host_path_identity_mounted parsed_mounts parse_container_mount is_under required_gpus
    available_gpus policy_gpus_per_replica rollout_gpus_per_replica raise_all error_if
    build_slurm_topology build_separate_nodes_slurm_topology cosmos_host_plans refuse ◌>>◌ ◌+ℤ◌ ◌-ℤ◌
    ◌*ℤ◌ floordiv
config_accepted = refl

accepted-Fits_example :
    (t : RunTopologyPlan) × (planned outside config ≡ ok t) × Fits config (cosmos_host_plans t)
accepted-Fits_example = accepted-Fits outside config true refl config_accepted

accepted-HasGeometry_example : HasGeometry (pos 8) (pos 2) (pos 2) (pos 2)
accepted-HasGeometry_example = accepted-HasGeometry outside config true config_accepted

abbrev nccl_config : RunConfig
nccl_config = record config { transport = record { kind = nccl; nccl_timeout = some "600" } }

nccl_config_accepted : validate_run_config outside nccl_config true ≡ ok tt
unfolding validate_run_config validate_common validate_wizard_startup_config
    validate_training_policy_config validate_cosmos_grpo_batch_geometry geometry_errors
    validate_transport_config validate_policy_model_path validate_cosmos_mode
    validate_nccl_test_model validate_slurm_run validate_slurm_topology_config
    validate_slurm_cosmos_gpu_capacity validate_shared_cosmos_2_3_shape
    require_host_path_identity_mounted parsed_mounts parse_container_mount is_under required_gpus
    available_gpus policy_gpus_per_replica rollout_gpus_per_replica raise_all error_if
    build_slurm_topology build_separate_nodes_slurm_topology cosmos_host_plans refuse ◌>>◌ ◌+ℤ◌ ◌-ℤ◌
    ◌*ℤ◌ floordiv validate_nccl_parallelism validate_nccl_env
nccl_config_accepted = refl

accepted-topology_example :
    compute_nccl_topology (pos 1) (pos 2) ≡ ok (pos 1 *ℤ pos 2, pos 1 +ℤ pos 1 *ℤ pos 2)
accepted-topology_example = accepted-topology outside nccl_config true refl nccl_config_accepted
