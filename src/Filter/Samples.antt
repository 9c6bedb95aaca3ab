-- ===== src/Filter/Samples.antt =====
-- cosmos/rollout_filter.py: three rollouts, of which two are kept.
use alpagym.Base.{◌≡◌, refl, List, [], ◌∷◌}
use alpagym.Base.Outcome.{ok}
use alpagym.Filter.{Rollout, paths, sort_fresh, filter_trainable_rollouts}
use alpagym.Filter.Kept.{Filters, filter_trainable_rollouts-Filters}

abbrev old : Rollout
old = record { completion = "old.json"; weight_version = 3 }

abbrev new : Rollout
new = record { completion = "new.json"; weight_version = 9 }

abbrev blank : Rollout
blank = record { completion = ""; weight_version = 5 }

abbrev rollouts : List Rollout
rollouts = old ∷ new ∷ blank ∷ []

filtered : filter_trainable_rollouts rollouts 2 ≡ ok (new ∷ blank ∷ [], "old.json" ∷ [])
unfolding filter_trainable_rollouts paths sort_fresh
filtered = refl

filter_trainable_rollouts-Filters_example : Filters rollouts 2 (new ∷ blank ∷ []) ("old.json" ∷ [])
filter_trainable_rollouts-Filters_example =
    filter_trainable_rollouts-Filters rollouts 2 (new ∷ blank ∷ []) ("old.json" ∷ []) filtered
