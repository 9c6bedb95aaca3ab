-- ===== src/Registry/Samples.antt =====
-- Two runtimes and three drivers.
use alpagym.Base.{◌≡◌, refl, String, none, List, [], ◌∷◌, arith}
use alpagym.Base.Outcome.{ok}
use alpagym.Registry.{
  TopologyEndpoint, Registry, assigned_to, count_of, text_before, key_before, least, assign,
  acquire_by, acquire_alpasim_runtime, acquire_all,
}
use alpagym.Registry.Balance.{Balanced, acquire_all-Balanced}
use alpagym.Registry.Sticky.{acquire-again}

abbrev runtime : String → TopologyEndpoint
runtime i = record { id = i; host = "node-1"; port = 50051; capacity = 2 }

abbrev unassigned : Registry
unassigned = record {
  alpasim_runtimes = runtime "runtime-0" ∷ runtime "runtime-1" ∷ [];
  drivers = [];
  nccl_master = none;
  assignments = [];
}

abbrev drivers : List String
drivers = "driver-0" ∷ "driver-1" ∷ "driver-2" ∷ []

acquire_all-Balanced_example :
    Balanced
      (acquire_all drivers unassigned).assignments
      (acquire_all drivers unassigned).alpasim_runtimes
unfolding Balanced count_of
acquire_all-Balanced_example =
    acquire_all-Balanced drivers unassigned
      (((omega arith, (omega arith, tt))), ((omega arith, (omega arith, tt)), tt))

acquire-again_example :
    (f : TopologyEndpoint) × ((acquire_alpasim_runtime "driver-0"
          (assign "driver-0" "runtime-0" unassigned)
        ≡ ok (f, assign "driver-0" "runtime-0" unassigned))
      × (f.id ≡ "runtime-0"))
unfolding acquire_alpasim_runtime acquire_by assigned_to least key_before count_of text_before
acquire-again_example =
    acquire-again "driver-0" unassigned (assign "driver-0" "runtime-0" unassigned)
      (runtime "runtime-0") refl
