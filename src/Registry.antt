-- ===== src/Registry.antt =====
-- host/endpoint_registry.py: the run directory in which the processes of a run find each other, and the
-- balancing of drivers over AlpaSim runtimes.
-- A directory is the list of its files in the order of `sorted`, each with its parsed content; `before` is the
-- order of paths. `acquire_alpasim_runtime` holds the file lock throughout, and is one step. The wait of
-- `read_nccl_master` and the YAML text are left out, and so is `rollout_worker_capacity`, which divides floats.
pub mod Balance
pub mod Sticky
mod Samples
use Prim.Native.String.{compare}
use Prim.Native.Nat.{Ordering}
use alpagym.Base.{
  ℕ, zero, suc, String, Bool, true, false, ◌&&◌, ◌||◌, ◌==◌, ltb, Option, none, some, List, [], ◌∷◌,
  if◌then◌else◌,
}
use alpagym.Base.Texts.{same_text}
use alpagym.Base.Outcome.{Outcome, ok, raise, ◌>>=◌, ◌>>◌, refuse}

pub record TopologyEndpoint : Type 0 where
  pub id : String
  pub host : String
  pub port : ℕ
  pub capacity : ℕ

-- One file of `alpasim_assignments`.
pub record Assignment : Type 0 where
  pub driver_id : String
  pub alpasim_runtime_id : String

pub record Registry : Type 0 where
  pub alpasim_runtimes : List TopologyEndpoint
  pub drivers : List TopologyEndpoint
  pub nccl_master : Option (String × ℕ)
  pub assignments : List Assignment

pub data RegistryError : Type 0 where
  file_exists no_endpoints unknown_runtime : RegistryError

abbrev pub Result : Type 0 → Type 0
Result B = Outcome RegistryError B

unfoldable pub has_id : String → List TopologyEndpoint → Bool
has_id i [] = false
has_id i (e ∷ es) = same_text e.id i || has_id i es

unfoldable pub insert_endpoint :
    (String → String → Bool) → TopologyEndpoint → List TopologyEndpoint → List TopologyEndpoint
insert_endpoint before e [] = e ∷ []
insert_endpoint before e (f ∷ fs) =
    let rest = insert_endpoint before e fs in if before e.id f.id then e ∷ f ∷ fs else f ∷ rest

-- `open("x")` refuses a file that is there.
unfoldable pub publish :
    (String → String → Bool)
    → TopologyEndpoint
    → List TopologyEndpoint
    → Result (List TopologyEndpoint)
publish before e es = refuse (has_id e.id es) file_exists >> ok (insert_endpoint before e es)

unfoldable pub publish_alpasim_runtime :
    (String → String → Bool) → TopologyEndpoint → Registry → Result Registry
publish_alpasim_runtime before e s =
    publish before e s.alpasim_runtimes >>= λ es. ok (record s { alpasim_runtimes = es })

unfoldable pub publish_driver :
    (String → String → Bool) → TopologyEndpoint → Registry → Result Registry
publish_driver before e s = publish before e s.drivers >>= λ es. ok (record s { drivers = es })

unfoldable pub publish_nccl_master : String → ℕ → Registry → Registry
publish_nccl_master host port s = record s { nccl_master = some (host, port) }

unfoldable pub clear_nccl_master : Registry → Registry
clear_nccl_master s = record s { nccl_master = none }

unfoldable pub reset_alpasim_topology : Registry → Registry
reset_alpasim_topology s = record s { alpasim_runtimes = []; assignments = [] }

unfoldable pub later_or :
    Option TopologyEndpoint → Option TopologyEndpoint → Option TopologyEndpoint
later_or (some f) o = some f
later_or none o = o

-- `endpoints_by_id.get(i)`: of two entries, the later one.
unfoldable pub by_id : String → List TopologyEndpoint → Option TopologyEndpoint
by_id i [] = none
by_id i (e ∷ es) = later_or (by_id i es) (if same_text e.id i then some e else none)

-- The runtime of a driver's assignment file, where there is one.
unfoldable pub assigned_to : String → List Assignment → Option String
assigned_to d [] = none
assigned_to d (a ∷ rest) =
    if same_text a.driver_id d then some a.alpasim_runtime_id else assigned_to d rest

-- `assignment_counts[i]`
unfoldable pub count_of : String → List Assignment → ℕ
count_of i [] = 0
count_of i (a ∷ rest) =
    let n = count_of i rest in if same_text a.alpasim_runtime_id i then suc n else n

unfoldable pub text_before : String → String → Bool
text_before a b = elim (compare a b) [ Ordering.lt ↦ true | _ ↦ false ]

-- The order of the keys `(assignment_counts[candidate.id], candidate.id)`.
unfoldable pub key_before : List Assignment → TopologyEndpoint → TopologyEndpoint → Bool
key_before log e f =
    ltb (count_of e.id log) (count_of f.id log)
    || (count_of e.id log == count_of f.id log && text_before e.id f.id)

-- `min(endpoints, key=...)`: of equal keys, the first.
unfoldable pub least : List Assignment → TopologyEndpoint → List TopologyEndpoint → TopologyEndpoint
least log e [] = e
least log e (f ∷ fs) = least log (if key_before log f e then f else e) fs

-- `f"{driver_id}.yaml"` goes to its place among the files, which no count depends on.
unfoldable pub assign : String → String → Registry → Registry
assign d i s = record s {
  assignments = record { driver_id = d; alpasim_runtime_id = i } ∷ s.assignments;
}

unfoldable pub known : Option TopologyEndpoint → Registry → Result (TopologyEndpoint × Registry)
known none s = raise unknown_runtime
known (some e) s = ok (e, s)

unfoldable pub acquire_by :
    String → Option String → List TopologyEndpoint → Registry → Result (TopologyEndpoint × Registry)
acquire_by d found [] s = raise no_endpoints
acquire_by d (some i) (e ∷ es) s = known (by_id i (e ∷ es)) s
acquire_by d none (e ∷ es) s =
    let chosen = least s.assignments e es in ok (chosen, assign d chosen.id s)

-- `acquire_alpasim_runtime`
unfoldable pub acquire_alpasim_runtime : String → Registry → Result (TopologyEndpoint × Registry)
acquire_alpasim_runtime d s = acquire_by d (assigned_to d s.assignments) s.alpasim_runtimes s

-- Drivers that start one after the other; one that fails changes nothing.
unfoldable pub acquired : Result (TopologyEndpoint × Registry) → Registry → Registry
acquired (ok r) s = r.1
acquired (raise e) s = s

unfoldable pub acquire_all : List String → Registry → Registry
acquire_all [] s = s
acquire_all (d ∷ ds) s = acquire_all ds (acquired (acquire_alpasim_runtime d s) s)
