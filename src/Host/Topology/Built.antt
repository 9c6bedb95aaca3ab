-- ===== src/Host/Topology/Built.antt =====
-- run_topology.py: the plans that the builders return.
use alpagym.Base.{
  ℕ, ◌+◌, ◌<◌, ◌≡◌, refl, ap, sym, ◌∙◌, subst, true, false, not, List, [], ◌∷◌, ◌++◌, map, String,
  length, take, drop, take-append-drop, length-take, length-drop, arith, All,
}
use alpagym.Base.Int.{ℤ, pos, negsuc, ◌+ℤ◌, ltb_ℤ, leb_ℤ, ◌==ℤ◌}
use alpagym.Base.Outcome.{ok, refuse-ok}
use alpagym.Host.Config.{ExecutionBackend, SlurmTopologyConfig, all_in_one, separate_nodes}
use alpagym.Host.Topology.{
  RunHostPlan, RunTopologyPlan, cosmos_hosts, alpasim_hosts, cosmos_host_plans, alpasim_host_plans,
  shared_host, only_host, cosmos_host, alpasim_host, enumerate, build_layout,
  build_all_in_one_slurm_topology, build_separate_nodes_slurm_topology, build_slurm_topology,
}
use alpagym.Host.Topology.Gpus.{
  Covers, cosmos_host-Covers, alpasim_host-Covers, shared_host-Covers, enumerate-hostnames,
  enumerate-All, All-append, map-append, filter-append, filter-All, filter_none,
}

-- An integer that passed the test `x < 1` is a positive number.
pub not_below_one : (x : ℤ) → ltb_ℤ x (pos 1) ≡ false → (n : ℕ) × (x ≡ pos n) × (0 < n)
not_below_one (pos n) h = (n, refl, ground arith)
not_below_one (negsuc n) h = ground arith

sum_of_pos : (n a b : ℕ) → not (pos n ==ℤ pos a +ℤ pos b) ≡ false → n ≡ a + b
unfolding ◌+ℤ◌
sum_of_pos n a b h = ground arith

module _ (g c : ℕ) (names : List String) where
  abbrev first_hosts : List RunHostPlan
  first_hosts = enumerate (cosmos_host (pos g)) 0 (take c names)

  abbrev other_hosts : List RunHostPlan
  other_hosts = enumerate (alpasim_host (pos g)) c (drop c names)

  abbrev split_plan : RunTopologyPlan
  split_plan = record { hosts = first_hosts ++ other_hosts }

  split-hostnames : map (λ h. h.hostname) split_plan.hosts ≡ names
  split-hostnames =
      map-append (λ h. h.hostname) first_hosts other_hosts
      ∙ ap (λ l. l ++ map (λ (h : RunHostPlan). h.hostname) other_hosts)
          (enumerate-hostnames (cosmos_host (pos g)) (λ i n. refl) 0 (take c names))
      ∙ ap (λ l. take c names ++ l)
          (enumerate-hostnames (alpasim_host (pos g)) (λ i n. refl) c (drop c names))
      ∙ take-append-drop c names

  split-Covers : All (Covers (pos g)) split_plan.hosts
  split-Covers =
      All-append (Covers (pos g)) first_hosts other_hosts
        (enumerate-All (Covers (pos g)) (cosmos_host (pos g)) (cosmos_host-Covers g) 0
          (take c names))
        (enumerate-All (Covers (pos g)) (alpasim_host (pos g)) (alpasim_host-Covers g) c
          (drop c names))

  append_nil : (xs : List RunHostPlan) → xs ++ [] ≡ xs
  append_nil [] = refl
  append_nil (x ∷ xs) = ap (◌∷◌ x) (append_nil xs)

  split-cosmos_host_plans : cosmos_host_plans split_plan ≡ first_hosts
  unfolding cosmos_host_plans
  split-cosmos_host_plans =
      filter-append (λ h. h.runs_cosmos) first_hosts other_hosts
      ∙ rw
          (
            filter-All (λ h. h.runs_cosmos) first_hosts
                (enumerate-All (λ h. h.runs_cosmos ≡ true) (cosmos_host (pos g)) (λ i n. refl) 0
                  (take c names)),
            filter_none (λ h. h.runs_cosmos) other_hosts
                (enumerate-All (λ h. h.runs_cosmos ≡ false) (alpasim_host (pos g)) (λ i n. refl) c
                  (drop c names)),
          )
          (append_nil first_hosts)

  split-alpasim_host_plans : alpasim_host_plans split_plan ≡ other_hosts
  unfolding alpasim_host_plans
  split-alpasim_host_plans =
      filter-append (λ h. h.runs_alpasim) first_hosts other_hosts
      ∙ rw
          (
            filter_none (λ h. h.runs_alpasim) first_hosts
                (enumerate-All (λ h. h.runs_alpasim ≡ false) (cosmos_host (pos g)) (λ i n. refl) 0
                  (take c names)),
            filter-All (λ h. h.runs_alpasim) other_hosts
                (enumerate-All (λ h. h.runs_alpasim ≡ true) (alpasim_host (pos g)) (λ i n. refl) c
                  (drop c names)),
          )
          refl

  split-cosmos_hosts : cosmos_hosts split_plan ≡ take c names
  unfolding cosmos_hosts
  split-cosmos_hosts =
      ap (map (λ h. h.hostname)) split-cosmos_host_plans
      ∙ enumerate-hostnames (cosmos_host (pos g)) (λ i n. refl) 0 (take c names)

  split-alpasim_hosts : alpasim_hosts split_plan ≡ drop c names
  unfolding alpasim_hosts
  split-alpasim_hosts =
      ap (map (λ h. h.hostname)) split-alpasim_host_plans
      ∙ enumerate-hostnames (alpasim_host (pos g)) (λ i n. refl) c (drop c names)

-- What a plan for these hosts promises.
pub record IsPlanned (gpus_per_node : ℤ) (hostnames : List String) (t : RunTopologyPlan)
    : Type 0 where
  pub named : map (λ h. h.hostname) t.hosts ≡ hostnames
  pub covered : All (Covers gpus_per_node) t.hosts
  pub some_cosmos : 0 < length (cosmos_hosts t)
  pub some_alpasim : 0 < length (alpasim_hosts t)

split-IsPlanned :
    (g c a : ℕ) (names : List String)
    → 0 < c
    → 0 < a
    → length names ≡ c + a
    → IsPlanned (pos g) names (split_plan g c names)
split-IsPlanned g c a names hc ha e = record {
  named = split-hostnames g c names;
  covered = split-Covers g c names;
  some_cosmos = rw (split-cosmos_hosts g c names) (omega (arith, length-take c names, e, hc));
  some_alpasim = rw (split-alpasim_hosts g c names) (omega (arith, length-drop c names, e, ha));
}

below : (g a : ℕ) → leb_ℤ (pos g) (pos a) ≡ false → a < g
below g a h = ground arith

abbrev shared_plan : ℕ → ℕ → String → RunTopologyPlan
shared_plan g a name = record { hosts = shared_host (pos g) (pos a) name ∷ [] }

shared-IsPlanned :
    (g a : ℕ) (name : String) → a < g → IsPlanned (pos g) (name ∷ []) (shared_plan g a name)
unfolding cosmos_hosts alpasim_hosts cosmos_host_plans alpasim_host_plans
shared-IsPlanned g a name h = record {
  named = refl;
  covered = (shared_host-Covers g a name h, tt);
  some_cosmos = omega arith;
  some_alpasim = omega arith;
}

module _ (g : ℕ) (names : List String) (t : RunTopologyPlan) where
  split_built :
      (cosmos_nodes alpasim_nodes : ℤ)
      → build_separate_nodes_slurm_topology names (pos g) cosmos_nodes alpasim_nodes ≡ ok t
      → (c : ℕ) × (a : ℕ) × (cosmos_nodes ≡ pos c)
        × (alpasim_nodes ≡ pos a)
        × (0 < c)
        × (0 < a)
        × (length names ≡ c + a)
        × (split_plan g c names ≡ t)
  unfolding build_separate_nodes_slurm_topology
  split_built cn an h =
      let (g1, h1) = refuse-ok _ h in
      let (g2, h2) = refuse-ok _ h1 in
      let (g3, h3) = refuse-ok _ h2 in
      let (c, ec, pc) = not_below_one cn g1 in
      let (a, ea, pa) = not_below_one an g2 in
      (c, a, ec, ea, pc, pa, sum_of_pos (length names) c a (rw⁻¹ (ec, ea) g3), cc (ec, h3))

  one_built :
      (alpasim_gpus : ℤ) (l : List String)
      → only_host (pos g) alpasim_gpus l ≡ ok t
      → IsPlanned (pos g) l t
  one_built ag [] h = absurd (cc h)
  one_built ag (x ∷ y ∷ l) h = absurd (cc h)
  one_built ag (name ∷ []) h =
      let (g1, h1) = refuse-ok _ h in
      let (g2, h2) = refuse-ok _ h1 in
      let (a, e, pa) = not_below_one ag g1 in
      let lt : a < g = below g a (subst (λ z. leb_ℤ (pos g) z ≡ false) e g2) in
      subst (IsPlanned (pos g) (name ∷ [])) (cc (e, h2)) (shared-IsPlanned g a name lt)

  build_layout-IsPlanned :
      (topology : SlurmTopologyConfig)
      → build_layout names (pos g) topology ≡ ok t
      → IsPlanned (pos g) names t
  unfolding build_all_in_one_slurm_topology
  build_layout-IsPlanned (all_in_one a) h = one_built a names h
  build_layout-IsPlanned (separate_nodes cn an) h =
      let (c, a, ec, ea, pc, pa, e, plan) = split_built cn an h in
      subst (IsPlanned (pos g) names) plan (split-IsPlanned g c a names pc pa e)

module _ (backend : ExecutionBackend) (names : List String) (gpus_per_node : ℤ)
    (t : RunTopologyPlan) where
  -- A plan that `build_slurm_topology` returns names the given hosts in their order, gives every
  -- GPU id of each node, from 0 to gpus_per_node - 1, to exactly one of Cosmos and AlpaSim, with
  -- Cosmos first, and has at least one host that runs Cosmos and one that runs AlpaSim.
  pub build_slurm_topology-IsPlanned :
      (topology : SlurmTopologyConfig)
      → build_slurm_topology backend names gpus_per_node topology ≡ ok t
      → IsPlanned gpus_per_node names t
  unfolding build_slurm_topology
  build_slurm_topology-IsPlanned topology h =
      let (g1, h1) = refuse-ok _ h in
      let (g2, h2) = refuse-ok _ h1 in
      let (g, e, pg) = not_below_one gpus_per_node g1 in
      rw e (build_layout-IsPlanned g names t topology (rw⁻¹ e h2))

  -- With the layout `separate_nodes`, a plan that is returned puts Cosmos on the first
  -- `cosmos_nodes` hosts and AlpaSim on all the others, which are `alpasim_nodes`.
  pub separate_nodes-splits :
      (cosmos_nodes alpasim_nodes : ℤ)
      → build_slurm_topology backend names gpus_per_node (separate_nodes cosmos_nodes alpasim_nodes)
        ≡ ok t
      → (cosmos_hosts t ++ alpasim_hosts t ≡ names)
        × (pos (length (cosmos_hosts t)) ≡ cosmos_nodes)
        × (pos (length (alpasim_hosts t)) ≡ alpasim_nodes)
  unfolding build_slurm_topology
  separate_nodes-splits cn an h =
      let (g1, h1) = refuse-ok _ h in
      let (g2, h2) = refuse-ok _ h1 in
      let (g, eg, pg) = not_below_one gpus_per_node g1 in
      let (c, a, ec, ea, pc, pa, e, plan) = split_built g names t cn an (rw⁻¹ eg h2) in
      rw (sym plan, split-cosmos_hosts g c names, split-alpasim_hosts g c names, ec, ea)
        (
          take-append-drop c names,
          ap pos (omega (arith, length-take c names)),
          ap pos (omega (arith, length-drop c names)),
        )
