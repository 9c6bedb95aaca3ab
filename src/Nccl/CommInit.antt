-- ===== src/Nccl/CommInit.antt =====
-- transport/nccl/comm_init.py: the sizes of a communicator and the ranks in it. A counter in the
-- store is a number, and `store.add` is atomic.
pub mod Ranks
use alpagym.Base.{ℕ, suc, ◌+◌, ◌-◌, leb, Bool, true, false, ◌||◌, List, [], ◌∷◌, if◌then◌else◌}
use alpagym.Base.Int.{ℤ, pos, ◌+ℤ◌, ◌*ℤ◌, leb_ℤ}
use alpagym.Base.Outcome.{Outcome, ok, raise, refuse, ◌>>◌}

pub data CommInitError : Type 0 where
  not_positive rank_exceeds unknown_role : CommInitError

-- `compute_nccl_topology`
unfoldable pub compute_nccl_topology : ℤ → ℤ → Outcome CommInitError (ℤ × ℤ)
compute_nccl_topology num_policy_replicas dp_shard_size =
    refuse (leb_ℤ num_policy_replicas (pos 0)) not_positive
    >> refuse (leb_ℤ dp_shard_size (pos 0)) not_positive
    >> ok (num_policy_replicas *ℤ dp_shard_size, pos 1 +ℤ num_policy_replicas *ℤ dp_shard_size)

pub data Role : Type 0 where
  policy rollout : Role

-- The first rank of a role: what is added to its counter.
abbrev pub base : Role → ℕ → ℕ
base policy num_policy_processes = 0
base rollout num_policy_processes = num_policy_processes

-- The two tests that refuse a rank.
abbrev pub exceeds : Role → ℕ → ℕ → ℕ → Bool
exceeds policy num_policy_processes world_size rank =
    leb num_policy_processes rank || leb world_size rank
exceeds rollout num_policy_processes world_size rank = leb world_size rank

-- The rank that `store.add(key, 1)` leads to, from the counter before it.
abbrev pub rank_at : Role → ℕ → ℕ → ℕ
rank_at role num_policy_processes counter = base role num_policy_processes + (counter + 1) - 1

-- `assign_rank_once`, undisturbed: its result, and the counter afterwards.
unfoldable pub assign_rank_once : Role → ℕ → ℕ → ℕ → Outcome CommInitError ℕ × ℕ
assign_rank_once role num_policy_processes world_size counter =
    if exceeds role num_policy_processes world_size (rank_at role num_policy_processes counter)
    then (raise rank_exceeds, (counter + 1) - 1)
    else (ok (rank_at role num_policy_processes counter), counter + 1)

-- One role's counter, with how many processes have been refused but have not taken their
-- increment back, and the ranks given out.
pub record RankCounter : Type 0 where
  pub counter : ℕ
  pub refusing : ℕ
  pub issued : List ℕ

abbrev pub snoc : List ℕ → ℕ → List ℕ
snoc [] r = r ∷ []
snoc (x ∷ l) r = x ∷ snoc l r
