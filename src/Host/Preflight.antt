-- ===== src/Host/Preflight.antt =====
-- packages/host/src/alpagym_host/config_validation.py: the checks of a run's settings, in the
-- order in which `validate_run_config` makes them. An error is its message without the values that
-- the source formats into it.
pub mod Slurm
pub mod Accepted
pub mod Transported
use alpagym.Base.{
  ℕ, ◌%◌, ◌==◌, Bool, true, false, not, ◌&&◌, ◌||◌, Option, none, some, List, [], ◌∷◌, ◌++◌, String,
  if◌then◌else◌,
}
use alpagym.Base.Int.{ℤ, pos, pos_part, ◌+ℤ◌, ◌-ℤ◌, ◌*ℤ◌, ltb_ℤ, leb_ℤ, ◌==ℤ◌, floordiv}
use alpagym.Base.Texts.{same_text, is_empty_text}
use alpagym.Base.Outcome.{Outcome, ok, raise, refuse, ◌>>◌}
use alpagym.Host.Config.{
  ExecutionBackend, local_process, slurm, CosmosRlMode, colocated, disaggregated, TransportKind,
  nccl, disk, CosmosRlPolicyParallelismConfig, CosmosRlRolloutParallelismConfig, DatasetConfig,
  AlpaSimConfig, ModelConfig, CosmosRlConfig, TransportConfig, RunConfig,
}

abbrev pub Check : Type 0
Check = Outcome (List String) Unit

-- What the checks ask of the file system, of Python's `float` and `str.split`, and of the two
-- validators that create directories.
pub record Outside : Type 0 where
  pub exists : String → Bool
  pub is_dir : String → Bool
  pub has_config_json : String → Bool
  pub is_supported_hf_bundle_dir : String → Bool
  pub is_absolute : String → Bool
  pub is_positive_finite : String → Bool
  pub split_colon : String → List String
  pub resolve_path : String → List String
  pub node_name : ℕ → String
  pub validate_slurm_config : Check
  pub validate_alpasim_checkout_cache : Check

-- `raise ValueError("; ".join(errors))` if there are errors.
unfoldable pub raise_all : List String → Check
raise_all [] = ok tt
raise_all (e ∷ errors) = raise (e ∷ errors)

-- `if bad: errors.append(e)`, and the checks after it.
unfoldable pub error_if : Bool → String → List String → List String
error_if true e errors = e ∷ errors
error_if false e errors = errors

abbrev pub is_none : {A : Type 0} → Option A → Bool
is_none none = true
is_none (some a) = false

abbrev set_and_empty : Option String → Bool
set_and_empty none = false
set_and_empty (some s) = is_empty_text s

abbrev set_and_nil : Option (List String) → Bool
set_and_nil none = false
set_and_nil (some []) = true
set_and_nil (some (s ∷ l)) = false

abbrev both_or_neither : Bool → Bool → Bool
both_or_neither true b = b
both_or_neither false b = not b

-- `_validate_wizard_startup_config`
unfoldable pub validate_wizard_startup_config : AlpaSimConfig → DatasetConfig → Check
validate_wizard_startup_config config dataset =
    let w = config.wizard_args in
    refuse (is_empty_text w.deploy) ("config.wizard_args.deploy must be non-empty" ∷ [])
    >> refuse (is_empty_text w.topology) ("config.wizard_args.topology must be non-empty" ∷ [])
    >> refuse (is_empty_text w.driver_source)
        ("config.wizard_args.driver_source must be non-empty" ∷ [])
    >> refuse (leb_ℤ w.force_gt_duration_us (pos 0))
        ("config.wizard_args.force_gt_duration_us must be positive" ∷ [])
    >> refuse (set_and_empty w.driver) ("config.wizard_args.driver must be non-empty when set" ∷ [])
    >> refuse (set_and_empty w.renderer)
        ("config.wizard_args.renderer must be non-empty when set" ∷ [])
    >> refuse (both_or_neither (is_none dataset.scene_ids) (is_none dataset.test_suite_id))
        ("dataset must set exactly one of scene_ids or test_suite_id" ∷ [])
    >> refuse (set_and_nil dataset.scene_ids) ("dataset.scene_ids must be non-empty when set" ∷ [])
    >> refuse (set_and_empty dataset.test_suite_id)
        ("dataset.test_suite_id must be non-empty when set" ∷ [])

abbrev pub is_slurm : ExecutionBackend → Bool
is_slurm slurm = true
is_slurm local_process = false

abbrev pub is_disaggregated : CosmosRlMode → Bool
is_disaggregated disaggregated = true
is_disaggregated colocated = false

abbrev pub is_nccl : TransportKind → Bool
is_nccl nccl = true
is_nccl disk = false

-- `_validate_cosmos_mode`
unfoldable pub validate_cosmos_mode : RunConfig → Check
validate_cosmos_mode config =
    refuse (is_slurm config.execution.backend && not (is_disaggregated config.cosmos.mode))
      ("cosmos.mode must be 'disaggregated' for slurm execution" ∷ [])

-- `_validate_policy_model_path`
unfoldable pub validate_policy_model_path : Outside → RunConfig → Check
validate_policy_model_path out config =
    let model_path = config.policy.model.path in
    refuse (not (out.exists model_path)) ("policy.model.path does not exist" ∷ [])
    >> refuse (not (out.is_dir model_path))
        ("policy.model.path must be an extracted HF bundle directory" ∷ [])
    >> refuse (not (out.has_config_json model_path))
        ("policy.model.path is a directory without config.json" ∷ [])
    >> refuse (not (out.is_supported_hf_bundle_dir model_path)) (
        "policy.model.path HF bundle directory must contain config.json and a supported checkpoint"
        ∷ [])

abbrev none_or_nil : Option (List String) → Bool
none_or_nil none = true
none_or_nil (some []) = true
none_or_nil (some (s ∷ l)) = false

-- `_validate_nccl_test_model`
unfoldable pub validate_nccl_test_model : RunConfig → Check
validate_nccl_test_model config =
    let is_nccl_kind = same_text config.policy.model.kind "nccl_test_model" in
    let is_nccl_backend = same_text config.cosmos.rollout.backend "alpagym_nccl_rollout" in
    refuse (not (both_or_neither is_nccl_kind is_nccl_backend)) (
      "policy.model.kind=nccl_test_model and cosmos.rollout.backend=alpagym_nccl_rollout must be set together"
      ∷ [])
    >> refuse (is_nccl_kind && not (is_nccl config.transport.kind))
        ("policy.model.kind=nccl_test_model requires transport=nccl" ∷ [])
    >> refuse (is_nccl_kind && none_or_nil config.dataset.scene_ids)
        ("policy.model.kind=nccl_test_model requires dataset.scene_ids" ∷ [])

abbrev pub is_one : ℤ → Bool
is_one n = n ==ℤ pos 1

-- `_validate_nccl_parallelism`
unfoldable pub validate_nccl_parallelism : RunConfig → Check
validate_nccl_parallelism config =
    let p = config.cosmos.policy_parallelism in
    let r = config.cosmos.rollout.parallelism in
    refuse (leb_ℤ config.cosmos.launch.policy_replicas (pos 0))
      ("NCCL transport requires cosmos.launch.policy_replicas >= 1" ∷ [])
    >> refuse (leb_ℤ p.dp_shard_size (pos 0))
        ("NCCL transport requires policy.parallelism.dp_shard_size >= 1" ∷ [])
    >> refuse
        (not (
          is_one p.tp_size
          && (is_one p.cp_size
              && (is_one p.ep_size
                  && (is_one p.pp_size
                      && (is_one p.pp_micro_batch_size && is_one p.dp_replicate_size))))))
        ("unsupported policy parallelism axes must be 1" ∷ [])
    >> refuse (leb_ℤ config.cosmos.launch.rollout_replicas (pos 0))
        ("NCCL transport requires cosmos.launch.rollout_replicas >= 1" ∷ [])
    >> refuse (not (is_one r.tp_size) || not (is_one r.pp_size))
        ("NCCL transport currently supports one process per rollout replica" ∷ [])

abbrev check_timeout : Outside → Option String → Check
check_timeout out none = raise ("transport=nccl requires transport.nccl_env['NCCL_TIMEOUT']" ∷ [])
check_timeout out (some timeout) =
    refuse (not (out.is_positive_finite timeout))
      ("transport.nccl_env['NCCL_TIMEOUT'] must be a positive, finite number" ∷ [])

-- `_validate_nccl_env`
unfoldable pub validate_nccl_env : Outside → RunConfig → Check
validate_nccl_env out config = check_timeout out config.transport.nccl_timeout

abbrev pub check_transport : Outside → RunConfig → TransportKind → Check
check_transport out config disk = ok tt
check_transport out config nccl =
    refuse (not (is_disaggregated config.cosmos.mode))
      ("transport=nccl requires cosmos.mode=disaggregated" ∷ [])
    >> validate_nccl_parallelism config
    >> validate_nccl_env out config

-- `_validate_transport_config`
unfoldable pub validate_transport_config : Outside → RunConfig → Check
validate_transport_config out config = check_transport out config config.transport.kind

abbrev pub horizon_mismatch : ℤ → ℤ → Option ℤ → Bool
horizon_mismatch n_sim_steps expected_valid_steps none = true
horizon_mismatch n_sim_steps expected_valid_steps (some warmup_steps) =
    not (n_sim_steps -ℤ warmup_steps ==ℤ expected_valid_steps)

-- `_validate_training_policy_config`; a zero `control_timestep_us` raises ZeroDivisionError, which
-- stands here with the mismatch of the horizon that follows.
unfoldable pub validate_training_policy_config : RunConfig → Check
validate_training_policy_config config =
    let w = config.alpasim.wizard_args in
    refuse (leb_ℤ config.expected_valid_steps (pos 0))
      ("expected_valid_steps must be positive" ∷ [])
    >> refuse
        (horizon_mismatch w.n_sim_steps config.expected_valid_steps
          (floordiv w.force_gt_duration_us w.control_timestep_us))
        ("AlpaSim rollout horizon does not match the trainer packer budget" ∷ [])
    >> refuse (leb_ℤ config.policy.model.num_context_frames (pos 0))
        ("policy.model.num_context_frames must be positive" ∷ [])
    >> refuse (not config.policy.return_trace_for_rl)
        ("policy.inference.return_trace_for_rl must be true" ∷ [])

abbrev pub is_pos : ℤ → Bool
is_pos n = ltb_ℤ (pos 0) n

-- `a % b != 0`, asked only where both are positive.
abbrev pub leaves_rest : ℤ → ℤ → Bool
leaves_rest a b = not (pos_part a % pos_part b == 0)

-- The messages that `_validate_cosmos_grpo_batch_geometry` collects.
unfoldable pub geometry_errors : ℤ → ℤ → ℤ → ℤ → ℤ → ℤ → List String
geometry_errors policy_replicas rollout_replicas train_batch mini_batch dp_shard_size n_generation =
    error_if (leb_ℤ policy_replicas (pos 0)) "policy_replicas must be > 0" (
      error_if (leb_ℤ rollout_replicas (pos 0)) "rollout_replicas must be > 0" (
        error_if (leb_ℤ train_batch (pos 0)) "train_batch_per_replica must be > 0" (
          error_if (leb_ℤ mini_batch (pos 0)) "mini_batch must be > 0" (
            error_if (leb_ℤ dp_shard_size (pos 0)) "dp_shard_size must be > 0" (
              error_if (leb_ℤ n_generation (pos 0)) "n_generation must be > 0" (
                error_if
                  (is_pos train_batch && (is_pos mini_batch && leaves_rest train_batch mini_batch))
                  "train_batch_per_replica must be divisible by mini_batch"
                  (error_if
                    (is_pos train_batch
                      && (is_pos dp_shard_size
                          && (is_pos mini_batch
                              && leaves_rest train_batch (dp_shard_size *ℤ mini_batch))))
                    "train_batch_per_replica must be divisible by dp_shard_size * mini_batch"
                    [])))))))

-- `_validate_cosmos_grpo_batch_geometry`
unfoldable pub validate_cosmos_grpo_batch_geometry : CosmosRlConfig → Check
unfolding geometry_errors
validate_cosmos_grpo_batch_geometry cosmos = raise_all (
    geometry_errors cosmos.launch.policy_replicas cosmos.launch.rollout_replicas
      cosmos.train.train_batch_per_replica cosmos.train.mini_batch
      cosmos.policy_parallelism.dp_shard_size cosmos.rollout.n_generation)

-- The checks before the Slurm part of `validate_run_config`.
unfoldable pub validate_common : Outside → RunConfig → Bool → Check
validate_common out config submit =
    validate_wizard_startup_config config.alpasim config.dataset
    >> validate_training_policy_config config
    >> validate_cosmos_grpo_batch_geometry config.cosmos
    >> validate_transport_config out config
    >> validate_policy_model_path out config
    >> validate_cosmos_mode config
    >> validate_nccl_test_model config
    >> refuse (submit && not (is_slurm config.execution.backend))
        ("command=submit requires execution.backend to be a Slurm backend" ∷ [])
    >> refuse (config.execution.slurm.autoresume && not (is_slurm config.execution.backend))
        ("execution.slurm.autoresume requires execution.backend to be a Slurm backend" ∷ [])
    >> refuse (config.execution.slurm.autoresume && not config.cosmos.train.enable_checkpoint)
        ("execution.slurm.autoresume requires cosmos.train.ckpt.enable_checkpoint=true" ∷ [])
