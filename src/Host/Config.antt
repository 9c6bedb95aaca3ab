-- ===== src/Host/Config.antt =====
-- packages/host/src/alpagym_host/config.py: the settings that the preflight checks and the topology
-- read; the other fields of these classes are left out. Paths are texts.
use alpagym.Base.{Bool, Option, List, String}
use alpagym.Base.Int.{ℤ}

pub data ExecutionBackend : Type 0 where
  local_process slurm : ExecutionBackend

pub data CosmosRlMode : Type 0 where
  colocated disaggregated : CosmosRlMode

pub data TransportKind : Type 0 where
  nccl disk : TransportKind

-- `SlurmTopologyConfig`: the layout and the class that `kind` demands.
pub data SlurmTopologyConfig : Type 0 where
  all_in_one : (alpasim_gpus : ℤ) → SlurmTopologyConfig
  separate_nodes : (cosmos_nodes alpasim_nodes : ℤ) → SlurmTopologyConfig

pub record CosmosRlPolicyParallelismConfig : Type 0 where
  pub tp_size : ℤ
  pub cp_size : ℤ
  pub ep_size : ℤ
  pub dp_shard_size : ℤ
  pub pp_size : ℤ
  pub pp_micro_batch_size : ℤ
  pub dp_replicate_size : ℤ

pub record CosmosRlRolloutParallelismConfig : Type 0 where
  pub tp_size : ℤ
  pub pp_size : ℤ

-- `SlurmConfig`
pub record SlurmConfig : Type 0 where
  pub nodes : ℤ
  pub gpus_per_node : ℤ
  pub topology : SlurmTopologyConfig
  pub uv_cache_dir : Option String
  pub container_mounts : List String
  pub autoresume : Bool

pub record ExecutionConfig : Type 0 where
  pub backend : ExecutionBackend
  pub slurm : SlurmConfig

pub record DatasetConfig : Type 0 where
  pub scene_ids : Option (List String)
  pub test_suite_id : Option String

pub record AlpaSimWizardArgs : Type 0 where
  pub deploy : String
  pub topology : String
  pub driver_source : String
  pub force_gt_duration_us : ℤ
  pub control_timestep_us : ℤ
  pub n_sim_steps : ℤ
  pub driver : Option String
  pub renderer : Option String

pub record AlpaSimConfig : Type 0 where
  pub wizard_args : AlpaSimWizardArgs
  pub repo_path : Option String
  pub checkout_cache_dir : Option String

-- `AlpamayoPolicyConfig` with its `ModelConfig` and `InferenceConfig`.
pub record ModelConfig : Type 0 where
  pub kind : String
  pub path : String
  pub num_context_frames : ℤ

pub record AlpamayoPolicyConfig : Type 0 where
  pub model : ModelConfig
  pub return_trace_for_rl : Bool

pub record CosmosRlLaunchConfig : Type 0 where
  pub policy_replicas : ℤ
  pub rollout_replicas : ℤ

-- `CosmosRlTrainConfig` with the fields of its `train_policy` and `ckpt`.
pub record CosmosRlTrainConfig : Type 0 where
  pub train_batch_per_replica : ℤ
  pub mini_batch : ℤ
  pub enable_checkpoint : Bool

pub record CosmosRlRolloutConfig : Type 0 where
  pub n_generation : ℤ
  pub batch_size : ℤ
  pub parallelism : CosmosRlRolloutParallelismConfig
  pub backend : String

pub record CosmosRlConfig : Type 0 where
  pub mode : CosmosRlMode
  pub launch : CosmosRlLaunchConfig
  pub train : CosmosRlTrainConfig
  pub policy_parallelism : CosmosRlPolicyParallelismConfig
  pub rollout : CosmosRlRolloutConfig

-- `nccl_timeout` is `nccl_env.get("NCCL_TIMEOUT")`.
pub record TransportConfig : Type 0 where
  pub kind : TransportKind
  pub nccl_timeout : Option String

pub record RunConfig : Type 0 where
  pub run_root : String
  pub execution : ExecutionConfig
  pub dataset : DatasetConfig
  pub policy : AlpamayoPolicyConfig
  pub cosmos : CosmosRlConfig
  pub alpasim : AlpaSimConfig
  pub expected_valid_steps : ℤ
  pub transport : TransportConfig
