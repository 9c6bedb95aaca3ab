-- ===== src/Filter.antt =====
-- packages/runtime/src/alpagym_runtime/cosmos/rollout_filter.py: which rollouts a trainer rank
-- keeps, and which artifact files it unlinks.
pub mod Kept
mod Samples
use alpagym.Base.{
  ℕ, Bool, true, false, not, ◌&&◌, ◌||◌, List, [], ◌∷◌, ◌++◌, map, String, if◌then◌else◌, any, take,
  drop, leb, ltb,
}
use alpagym.Base.Texts.{same_text, is_empty_text}
use alpagym.Base.Outcome.{Outcome, ok, raise}

-- The two fields of a Cosmos-RL rollout that the filter reads.
pub record Rollout : Type 0 where
  pub completion : String
  pub weight_version : ℕ

pub data FilterError : Type 0 where
  duplicate_completion_paths : FilterError

-- `[str(r.completion) for r in rollouts if r.completion]`
unfoldable pub paths : List Rollout → List String
paths [] = []
paths (r ∷ rs) =
    let rest = paths rs in if is_empty_text r.completion then rest else r.completion ∷ rest

abbrev pub has_duplicate : List String → Bool
has_duplicate [] = false
has_duplicate (p ∷ ps) = any (same_text p) ps || has_duplicate ps

-- `sorted(..., reverse=True)` by version, which keeps the order of equal versions.
abbrev pub insert_fresh : Rollout → List Rollout → List Rollout
insert_fresh r [] = r ∷ []
insert_fresh r (s ∷ rs) =
    let rest = insert_fresh r rs in
    if leb s.weight_version r.weight_version then r ∷ s ∷ rs else s ∷ rest

unfoldable pub sort_fresh : List Rollout → List Rollout
sort_fresh [] = []
sort_fresh (r ∷ rs) = insert_fresh r (sort_fresh rs)

abbrev pub filter_unless :
    Bool → List Rollout → ℕ → Outcome FilterError (List Rollout × List String)
filter_unless true ordered n = raise duplicate_completion_paths
filter_unless false ordered n = ok (take n ordered, paths (drop n ordered))

-- `filter_trainable_rollouts`: the kept rollouts and the paths that it unlinks, in order. The
-- warning on stale rollouts is left out, and a file that is gone already is passed over.
unfoldable pub filter_trainable_rollouts :
    List Rollout → ℕ → Outcome FilterError (List Rollout × List String)
unfolding paths sort_fresh
filter_trainable_rollouts rollouts train_batch_per_replica =
    filter_unless (has_duplicate (paths rollouts)) (sort_fresh rollouts) train_batch_per_replica
