-- ===== src/Host/Preflight/Accepted.antt =====
-- config_validation.py: what holds of a run that `validate_run_config` accepts.
use alpagym.Base.{
  ℕ, ◌+◌, ◌*◌, ◌%◌, ◌<◌, ◌≡◌, refl, ap, subst, Bool, true, false, ◌&&◌, List, [], ◌∷◌, map, String,
  arith,
}
use alpagym.Base.Int.{ℤ, pos, negsuc, pos_part, ◌*ℤ◌, ◌+ℤ◌, ltb_ℤ, leb_ℤ, ◌≤ℤ◌, sub_ℕ}
use alpagym.Base.Outcome.{Outcome, ok, raise, refuse-ok, then-ok}
use alpagym.Host.Config.{slurm, RunConfig}
use alpagym.Host.Topology.{RunHostPlan, RunTopologyPlan, cosmos_host_plans}
use alpagym.Host.Preflight.{
  Outside, raise_all, error_if, geometry_errors, validate_cosmos_grpo_batch_geometry,
  validate_common, is_pos, leaves_rest,
}
use alpagym.Host.Preflight.Slurm.{
  validate_run_config, backend_checks, validate_slurm_run, validate_slurm_cosmos_gpu_capacity,
  check_plan, check_hosts, planned, required_gpus, available_gpus, policy_gpus_per_replica,
  rollout_gpus_per_replica,
}

no_errors : (errors : List String) → raise_all errors ≡ ok tt → errors ≡ []
unfolding raise_all
no_errors [] h = refl
no_errors (e ∷ errors) h = absurd (cc h)

opened_quiet :
    (b : Bool) (e : String) (rest : List String)
    → error_if b e rest ≡ []
    → (b ≡ false) × (rest ≡ [])
unfolding error_if
opened_quiet true e rest h = absurd (cc h)
opened_quiet false e rest h = (refl, h)

-- A collected check that left no message.
quiet :
    (e : String) {b : Bool} {rest : List String}
    → error_if b e rest ≡ []
    → (b ≡ false) × (rest ≡ [])
quiet e {b} {rest} h = opened_quiet b e rest h

le_of_not_lt : (a b : ℤ) → ltb_ℤ a b ≡ false → b ≤ℤ a
le_of_not_lt a b h = ground arith

unfoldable pub total : List ℤ → ℤ
total [] = pos 0
total (n ∷ ns) = n +ℤ total ns

-- The Cosmos jobs fit on the hosts that the plan gives to Cosmos: a policy replica has a GPU for each coordinate of
-- its five parallel axes, a rollout replica one for each of its two.
abbrev pub Fits : RunConfig → List RunHostPlan → Type 0
Fits config [] = ⊥
Fits config (first ∷ hosts) =
    let p = config.cosmos.policy_parallelism in
    let r = config.cosmos.rollout.parallelism in
    let policy = p.tp_size *ℤ p.dp_replicate_size *ℤ p.pp_size *ℤ p.cp_size *ℤ p.dp_shard_size in
    let rollout = r.tp_size *ℤ r.pp_size in
    let launch = config.cosmos.launch in
    (policy ≤ℤ first.cosmos_gpus)
    × (rollout ≤ℤ first.cosmos_gpus)
    × (launch.policy_replicas *ℤ policy +ℤ launch.rollout_replicas *ℤ rollout
        ≤ℤ total (map (λ h. h.cosmos_gpus) (first ∷ hosts)))

available-total :
    (hosts : List RunHostPlan) → available_gpus hosts ≡ total (map (λ h. h.cosmos_gpus) hosts)
unfolding available_gpus total
available-total [] = refl
available-total (h ∷ hs) = ap (λ n. h.cosmos_gpus +ℤ n) (available-total hs)

check_hosts-Fits :
    (config : RunConfig) (hosts : List RunHostPlan)
    → check_hosts config hosts ≡ ok tt
    → Fits config hosts
unfolding policy_gpus_per_replica rollout_gpus_per_replica required_gpus
check_hosts-Fits config [] h = absurd (cc h)
check_hosts-Fits config (first ∷ hosts) h =
    let (p, h1) = quiet _ (no_errors _ h) in
    let (r, h2) = quiet _ h1 in
    let (a, h3) = quiet _ h2 in
    (
      le_of_not_lt first.cosmos_gpus (policy_gpus_per_replica config.cosmos.policy_parallelism) p,
      le_of_not_lt first.cosmos_gpus (rollout_gpus_per_replica config.cosmos.rollout.parallelism) r,
      subst (λ n. required_gpus config ≤ℤ n) (available-total (first ∷ hosts))
          (le_of_not_lt (available_gpus (first ∷ hosts)) (required_gpus config) a),
    )

check_plan-Fits :
    (config : RunConfig) (o : Outcome (List String) RunTopologyPlan)
    → check_plan config o ≡ ok tt
    → (t : RunTopologyPlan) × (o ≡ ok t) × Fits config (cosmos_host_plans t)
check_plan-Fits config (raise e) h = absurd (cc h)
check_plan-Fits config (ok t) h = (t, refl, check_hosts-Fits config (cosmos_host_plans t) h)

-- The batch geometry that GRPO needs: every count is positive, and the batch of a replica splits
-- evenly into minibatches, and into minibatches on every shard.
abbrev pub HasGeometry : (train_batch mini_batch dp_shard_size n_generation : ℤ) → Type 0
HasGeometry train_batch mini_batch dp_shard_size n_generation =
    (t : ℕ) × (m : ℕ) × (d : ℕ) × (n : ℕ) × (train_batch ≡ pos t)
    × (mini_batch ≡ pos m)
    × (dp_shard_size ≡ pos d)
    × (n_generation ≡ pos n)
    × (0 < t)
    × (0 < m)
    × (0 < d)
    × (0 < n)
    × (t % m ≡ 0)
    × (t % (d * m) ≡ 0)

sub_nothing : (x y c : ℕ) → x ≡ c → y ≡ 0 → sub_ℕ x y ≡ pos c
sub_nothing x y c h e = ground arith

mul_pos : (a b : ℕ) → pos a *ℤ pos b ≡ pos (a * b)
unfolding ◌*ℤ◌
mul_pos a b = sub_nothing (a * b + 0 * 0) (a * 0 + 0 * b) (a * b) (omega arith) (omega arith)

divided :
    (a b : ℕ)
    → 0 < a
    → 0 < b
    → is_pos (pos a) && (is_pos (pos b) && leaves_rest (pos a) (pos b)) ≡ false
    → a % b ≡ 0
divided a b pa pb h = ground arith

divided_twice :
    (a b c : ℕ)
    → 0 < a
    → 0 < b
    → 0 < c
    → is_pos (pos a) && (is_pos (pos c) && (is_pos (pos b) && leaves_rest (pos a) (pos c *ℤ pos b)))
      ≡ false
    → a % (c * b) ≡ 0
divided_twice a b c pa pb pc h = let e = mul_pos c b in by_product (pos c *ℤ pos b) e h
  where
    rest_of :
        (k : ℕ)
        → is_pos (pos a) && (is_pos (pos c) && (is_pos (pos b) && leaves_rest (pos a) (pos k)))
          ≡ false
        → a % k ≡ 0
    rest_of k h = ground arith

    by_product :
        (z : ℤ)
        → z ≡ pos (c * b)
        → is_pos (pos a) && (is_pos (pos c) && (is_pos (pos b) && leaves_rest (pos a) z)) ≡ false
        → a % (c * b) ≡ 0
    by_product (pos k) e h = subst (λ x. a % x ≡ 0) (ap pos_part e) (rest_of k h)
    by_product (negsuc k) e h = absurd (cc e)

geometry_of :
    (t m d n : ℤ)
    → leb_ℤ t (pos 0) ≡ false
    → leb_ℤ m (pos 0) ≡ false
    → leb_ℤ d (pos 0) ≡ false
    → leb_ℤ n (pos 0) ≡ false
    → is_pos t && (is_pos m && leaves_rest t m) ≡ false
    → is_pos t && (is_pos d && (is_pos m && leaves_rest t (d *ℤ m))) ≡ false
    → HasGeometry t m d n
geometry_of (pos t) (pos m) (pos d) (pos n) gt gm gd gn g h =
    let pt : 0 < t = ground arith in
    let pm : 0 < m = ground arith in
    let pd : 0 < d = ground arith in
    (
      t,
      m,
      d,
      n,
      refl,
      refl,
      refl,
      refl,
      pt,
      pm,
      pd,
      ground arith,
      divided t m pt pm g,
      divided_twice t m d pt pm pd h,
    )
geometry_of (negsuc t) m d n gt gm gd gn g h = absurd (ground arith)
geometry_of t (negsuc m) d n gt gm gd gn g h = absurd (ground arith)
geometry_of t m (negsuc d) n gt gm gd gn g h = absurd (ground arith)
geometry_of t m d (negsuc n) gt gm gd gn g h = absurd (ground arith)

geometry-HasGeometry : (p r t m d n : ℤ) → geometry_errors p r t m d n ≡ [] → HasGeometry t m d n
unfolding geometry_errors
geometry-HasGeometry p r t m d n h =
    let (g1, h1) = quiet _ h in
    let (g2, h2) = quiet _ h1 in
    let (g3, h3) = quiet _ h2 in
    let (g4, h4) = quiet _ h3 in
    let (g5, h5) = quiet _ h4 in
    let (g6, h6) = quiet _ h5 in
    let (g7, h7) = quiet _ h6 in geometry_of t m d n g3 g4 g5 g6 g7 (quiet _ h7).0

module _ (out : Outside) (config : RunConfig) (submit : Bool) where
  -- A configuration that `validate_run_config` accepts has the GRPO batch geometry: the train
  -- batch of a replica, the mini batch, the DP shards and the generations are positive, and the
  -- mini batch, also times the shards, divides the train batch.
  pub accepted-HasGeometry :
      validate_run_config out config submit ≡ ok tt
      → HasGeometry config.cosmos.train.train_batch_per_replica config.cosmos.train.mini_batch
          config.cosmos.policy_parallelism.dp_shard_size config.cosmos.rollout.n_generation
  unfolding validate_run_config validate_common validate_cosmos_grpo_batch_geometry
  accepted-HasGeometry h =
      let (common, _) = then-ok h in
      let (_, h1) = then-ok common in
      let (_, h2) = then-ok h1 in
      let (g, _) = then-ok h2 in
      geometry-HasGeometry config.cosmos.launch.policy_replicas
        config.cosmos.launch.rollout_replicas _ _ _ _ (no_errors _ g)

  -- A Slurm run that `validate_run_config` accepts has a host plan with a Cosmos host. The first of them has as many
  -- Cosmos GPUs as the five parallel sizes of the policy multiply to, and as many as the two of the rollout do; and
  -- all Cosmos hosts together have as many as these products, times the replicas of each, add up to.
  pub accepted-Fits :
      config.execution.backend ≡ slurm
      → validate_run_config out config submit ≡ ok tt
      → (t : RunTopologyPlan) × (planned out config ≡ ok t) × Fits config (cosmos_host_plans t)
  unfolding validate_run_config validate_slurm_run validate_slurm_cosmos_gpu_capacity
  accepted-Fits b h =
      let (_, checks) = then-ok h in
      let run : validate_slurm_run out config ≡ ok tt =
        subst (λ x. backend_checks out config x ≡ ok tt) b checks in
      let (_, h1) = refuse-ok _ run in
      let (_, h2) = refuse-ok _ h1 in
      let (_, h3) = refuse-ok _ h2 in
      let (_, h4) = then-ok h3 in
      let (_, h5) = then-ok h4 in
      let (fits, _) = then-ok h5 in check_plan-Fits config (planned out config) fits
