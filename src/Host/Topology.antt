-- ===== src/Host/Topology.antt =====
-- packages/host/src/alpagym_host/run_topology.py: which host runs what, on which GPUs.
pub mod Gpus
pub mod Built
use alpagym.Base.{
  ℕ, zero, suc, ◌+◌, ◌-◌, ◌==◌, Bool, true, false, not, List, [], ◌∷◌, ◌++◌, map, String,
  if◌then◌else◌, length, take, drop,
}
use alpagym.Base.Int.{ℤ, pos, negsuc, pos_part, ◌+ℤ◌, ◌-ℤ◌, ltb_ℤ, leb_ℤ, ◌==ℤ◌}
use alpagym.Base.Outcome.{Outcome, ok, raise, refuse, ◌>>◌}
use alpagym.Host.Config.{
  ExecutionBackend, local_process, slurm, SlurmTopologyConfig, all_in_one, separate_nodes,
}

-- `RunHostPlan`
pub record RunHostPlan : Type 0 where
  pub hostname : String
  pub host_index : ℤ
  pub runs_cosmos : Bool
  pub runs_alpasim : Bool
  pub cosmos_gpus : ℤ
  pub alpasim_gpus : ℤ

-- a, a + 1, ..., a + n - 1
abbrev pub iota : ℕ → ℕ → List ℕ
iota a zero = []
iota a (suc n) = a ∷ iota (suc a) n

-- `range(start, stop)`
abbrev pub range : ℤ → ℤ → List ℤ
range start stop = map (λ i. start +ℤ pos i) (iota 0 (pos_part (stop -ℤ start)))

unfoldable pub cosmos_gpu_ids : RunHostPlan → List ℤ
cosmos_gpu_ids h = range (pos 0) h.cosmos_gpus

unfoldable pub alpasim_gpu_ids : RunHostPlan → List ℤ
alpasim_gpu_ids h =
    let start = if h.runs_cosmos then h.cosmos_gpus else pos 0 in
    range start (start +ℤ h.alpasim_gpus)

-- `RunTopologyPlan`
pub record RunTopologyPlan : Type 0 where
  pub hosts : List RunHostPlan

abbrev pub filter : (RunHostPlan → Bool) → List RunHostPlan → List RunHostPlan
filter p [] = []
filter p (h ∷ hs) = let rest = filter p hs in if p h then h ∷ rest else rest

unfoldable pub cosmos_host_plans : RunTopologyPlan → List RunHostPlan
cosmos_host_plans t = filter (λ h. h.runs_cosmos) t.hosts

unfoldable pub alpasim_host_plans : RunTopologyPlan → List RunHostPlan
alpasim_host_plans t = filter (λ h. h.runs_alpasim) t.hosts

unfoldable pub cosmos_hosts : RunTopologyPlan → List String
unfolding cosmos_host_plans
cosmos_hosts t = map (λ h. h.hostname) (cosmos_host_plans t)

unfoldable pub alpasim_hosts : RunTopologyPlan → List String
unfolding alpasim_host_plans
alpasim_hosts t = map (λ h. h.hostname) (alpasim_host_plans t)

unfoldable pub build_local_topology : RunTopologyPlan
build_local_topology = record {
  hosts =
      (record {
        hostname = "localhost";
        host_index = pos 0;
        runs_cosmos = true;
        runs_alpasim = true;
        cosmos_gpus = pos 0;
        alpasim_gpus = pos 0;
      })
      ∷ [];
}

abbrev pub shared_host : ℤ → ℤ → String → RunHostPlan
shared_host gpus_per_node alpasim_gpus hostname = record {
  hostname = hostname;
  host_index = pos 0;
  runs_cosmos = true;
  runs_alpasim = true;
  cosmos_gpus = gpus_per_node -ℤ alpasim_gpus;
  alpasim_gpus = alpasim_gpus;
}

-- `hostnames[0]`, behind the test that there is exactly one.
abbrev pub only_host : ℤ → ℤ → List String → Outcome (List String) RunTopologyPlan
only_host gpus_per_node alpasim_gpus (hostname ∷ []) =
    refuse (ltb_ℤ alpasim_gpus (pos 1)) ("all_in_one requires at least one AlpaSim GPU" ∷ [])
    >> refuse (leb_ℤ gpus_per_node alpasim_gpus)
        ("all_in_one requires alpasim_gpus to leave at least one Cosmos GPU" ∷ [])
    >> ok (record { hosts = shared_host gpus_per_node alpasim_gpus hostname ∷ [] })
only_host gpus_per_node alpasim_gpus _ = raise ("all_in_one requires exactly one hostname" ∷ [])

-- `_build_all_in_one_slurm_topology`
unfoldable pub build_all_in_one_slurm_topology :
    List String → ℤ → ℤ → Outcome (List String) RunTopologyPlan
build_all_in_one_slurm_topology hostnames gpus_per_node alpasim_gpus =
    only_host gpus_per_node alpasim_gpus hostnames

abbrev pub cosmos_host : ℤ → ℕ → String → RunHostPlan
cosmos_host gpus_per_node host_index hostname = record {
  hostname = hostname;
  host_index = pos host_index;
  runs_cosmos = true;
  runs_alpasim = false;
  cosmos_gpus = gpus_per_node;
  alpasim_gpus = pos 0;
}

abbrev pub alpasim_host : ℤ → ℕ → String → RunHostPlan
alpasim_host gpus_per_node host_index hostname = record {
  hostname = hostname;
  host_index = pos host_index;
  runs_cosmos = false;
  runs_alpasim = true;
  cosmos_gpus = pos 0;
  alpasim_gpus = gpus_per_node;
}

-- A loop over `enumerate(names, start)` that appends one plan for each.
abbrev pub enumerate : (ℕ → String → RunHostPlan) → ℕ → List String → List RunHostPlan
enumerate plan start [] = []
enumerate plan start (name ∷ names) = plan start name ∷ enumerate plan (suc start) names

-- `_build_separate_nodes_slurm_topology`
unfoldable pub build_separate_nodes_slurm_topology :
    List String → ℤ → ℤ → ℤ → Outcome (List String) RunTopologyPlan
build_separate_nodes_slurm_topology hostnames gpus_per_node cosmos_nodes alpasim_nodes =
    refuse (ltb_ℤ cosmos_nodes (pos 1)) ("separate_nodes requires at least one Cosmos node" ∷ [])
    >> refuse (ltb_ℤ alpasim_nodes (pos 1))
        ("separate_nodes requires at least one AlpaSim node" ∷ [])
    >> refuse (not (pos (length hostnames) ==ℤ cosmos_nodes +ℤ alpasim_nodes))
        ("separate_nodes host count must match cosmos_nodes + alpasim_nodes" ∷ [])
    >> ok (record {
      hosts =
          enumerate (cosmos_host gpus_per_node) 0 (take (pos_part cosmos_nodes) hostnames)
          ++ enumerate (alpasim_host gpus_per_node) (pos_part cosmos_nodes)
              (drop (pos_part cosmos_nodes) hostnames);
    })

abbrev pub is_slurm_run : ExecutionBackend → Bool
is_slurm_run slurm = true
is_slurm_run local_process = false

abbrev pub build_layout :
    List String → ℤ → SlurmTopologyConfig → Outcome (List String) RunTopologyPlan
build_layout hostnames gpus_per_node (all_in_one alpasim_gpus) =
    build_all_in_one_slurm_topology hostnames gpus_per_node alpasim_gpus
build_layout hostnames gpus_per_node (separate_nodes cosmos_nodes alpasim_nodes) =
    build_separate_nodes_slurm_topology hostnames gpus_per_node cosmos_nodes alpasim_nodes

unfoldable pub build_slurm_topology :
    ExecutionBackend → List String → ℤ → SlurmTopologyConfig → Outcome (List String) RunTopologyPlan
build_slurm_topology backend hostnames gpus_per_node topology =
    refuse (ltb_ℤ gpus_per_node (pos 1)) ("gpus_per_node must be at least 1" ∷ [])
    >> refuse (not (is_slurm_run backend)) ("backend must be a Slurm backend" ∷ [])
    >> build_layout hostnames gpus_per_node topology
