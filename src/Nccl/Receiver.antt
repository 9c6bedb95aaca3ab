-- ===== src/Nccl/Receiver.antt =====
-- transport/nccl/receiver.py: the communicators of a trainer worker, one for each rollout replica, and
-- `_resolve_nccl_handle` of transport/nccl/endpoints.py, which reads one transfer through them.
-- What `init_communicator`, `request_ack` and the watched `nccl_recv` answer is an argument of the call
-- that makes it: each returns or raises. `aborted` logs the calls of `nccl_abort`. A store prefix is
-- determined by the replica, and is its number here.
pub mod Routing
pub mod Poisoned
pub mod Once
mod Samples
use alpagym.Base.{
  ℕ, zero, suc, ◌==◌, ltb, Bool, true, false, Option, none, some, List, [], ◌∷◌, ◌++◌, map,
  if◌then◌else◌,
}
use alpagym.Base.Dict.{Dict, get, has, put, pop}
use alpagym.Base.Outcome.{Outcome, ok, raise}

pub record Receiver : Type 0 where
  pub rollout_comms : Dict ℕ
  pub policy_ranks : Dict ℕ
  pub rollout_prefixes : Dict ℕ
  pub aborted : List ℕ

-- `failed` is what a call of the store or of NCCL raises.
pub data ReceiverError : Type 0 where
  malformed_id not_set_up no_communicator failed no_metadata bad_manifest bad_specs : ReceiverError

abbrev pub Answer : Type 0 → Type 0
Answer B = Outcome ReceiverError B

abbrev pub closed : Receiver
closed = record { rollout_comms = []; policy_ranks = []; rollout_prefixes = []; aborted = [] }

unfoldable pub insert_new : ℕ → List ℕ → List ℕ
insert_new c [] = c ∷ []
insert_new c (d ∷ ds) =
    let rest = insert_new c ds in
    if ltb c d then c ∷ d ∷ ds else (if c == d then d ∷ ds else d ∷ rest)

-- `sorted(set(self._rollout_comms.values()))`
unfoldable pub sorted_set : List ℕ → List ℕ
sorted_set [] = []
sorted_set (c ∷ cs) = insert_new c (sorted_set cs)

unfoldable pub abort_all_communicators : Receiver → Receiver
abort_all_communicators s = record s {
  aborted = s.aborted ++ sorted_set (map (λ entry. entry.1) s.rollout_comms);
}

unfoldable pub forget_all : Receiver → Receiver
forget_all s = record s { rollout_comms = []; policy_ranks = []; rollout_prefixes = [] }

unfoldable pub connect : ℕ → ℕ → ℕ → Receiver → Receiver
connect rollout_idx rank comm s = record s {
  rollout_comms = put rollout_idx comm s.rollout_comms;
  policy_ranks = put rollout_idx rank s.policy_ranks;
  rollout_prefixes = put rollout_idx rollout_idx s.rollout_prefixes;
}

-- The replicas from `rollout_idx` on, each with the rank and the communicator that it is given.
unfoldable pub setup_from : ℕ → List (Answer (ℕ × ℕ)) → Receiver → Answer Unit × Receiver
setup_from rollout_idx [] s = (ok tt, s)
setup_from rollout_idx (raise e ∷ answers) s = (raise e, forget_all (abort_all_communicators s))
setup_from rollout_idx (ok (rank, comm) ∷ answers) s =
    setup_from (suc rollout_idx) answers (connect rollout_idx rank comm s)

unfoldable pub setup : List (Answer (ℕ × ℕ)) → Receiver → Answer Unit × Receiver
setup answers s = setup_from 0 answers s

unfoldable pub drop : ℕ → Receiver → Receiver
drop rollout_idx s = record s {
  rollout_comms = pop rollout_idx s.rollout_comms;
  policy_ranks = pop rollout_idx s.policy_ranks;
  rollout_prefixes = pop rollout_idx s.rollout_prefixes;
}

unfoldable pub logged : Option ℕ → Receiver → Receiver
logged none s = s
logged (some comm) s = record s { aborted = s.aborted ++ comm ∷ [] }

unfoldable pub abort_and_drop_comm : ℕ → Receiver → Receiver
abort_and_drop_comm rollout_idx s = logged (get rollout_idx s.rollout_comms) (drop rollout_idx s)

unfoldable pub no_comms : Dict ℕ → Bool
no_comms [] = true
no_comms (entry ∷ d) = false

module _ {X : Type 0} where
  unfoldable pub receive : ℕ → Answer Unit → Answer X → Receiver → Answer X × Receiver
  receive rollout_idx (raise e) received s = (raise e, s)
  receive rollout_idx (ok u) (raise e) s = (raise e, abort_and_drop_comm rollout_idx s)
  receive rollout_idx (ok u) (ok x) s = (ok x, s)

  -- The three tables, read at the replica.
  unfoldable pub route :
      Option ℕ → Option ℕ → Option ℕ → ℕ → Answer Unit → Answer X → Receiver → Answer X × Receiver
  route (some comm) (some rank) (some prefix) rollout_idx ack received s =
      receive rollout_idx ack received s
  route _ _ _ rollout_idx ack received s = (raise no_communicator, s)

  -- `recv`, with what `parse_transfer_rollout_idx` makes of the transfer id.
  unfoldable pub recv : Answer ℕ → Answer Unit → Answer X → Receiver → Answer X × Receiver
  recv (raise e) ack received s = (raise e, s)
  recv (ok i) ack received s =
      if no_comms s.rollout_comms
      then (raise not_set_up, s)
      else route (get i s.rollout_comms) (get i s.policy_ranks) (get i s.rollout_prefixes) i ack
          received s

unfoldable pub close : Receiver → Receiver
close s = abort_all_communicators s

pub data Call (X : Type 0) : Type 0 where
  setup_call : List (Answer (ℕ × ℕ)) → Call X
  recv_call : Answer ℕ → Answer Unit → Answer X → Call X
  close_call : Call X

module _ {X : Type 0} where
  unfoldable pub call : Call X → Receiver → Receiver
  call (setup_call answers) s = (setup answers s).1
  call (recv_call idx ack received) s = (recv idx ack received s).1
  call close_call s = close s

  unfoldable pub calls : List (Call X) → Receiver → Receiver
  calls [] s = s
  calls (c ∷ cs) s = calls cs (call c s)

-- `_resolve_nccl_handle`: `R` is what the store holds, `decode` makes a text of it, `loads` takes the manifest out of
-- the text, `unpack` rebuilds the episode. The metadata keys of the store are `metadata`, and each
-- `delete_key` of the source is a `pop` of its own.
module _ {R M N S X E : Type 0} (decode : R → Answer M) (loads : M → Answer N)
    (collect_tensor_specs : N → Answer S) (unpack : X → N → Answer E) where
  unfoldable pub with_tensors :
      ℕ → N → Answer X × Receiver → Dict R → Answer E × (Dict R × Receiver)
  with_tensors id manifest (raise e, s) metadata = (raise e, (pop id metadata, s))
  with_tensors id manifest (ok tensors, s) metadata =
      (unpack tensors manifest, (pop id metadata, s))

  unfoldable pub with_specs :
      ℕ
      → N
      → Answer S
      → (S → Answer X × Receiver)
      → Dict R
      → Receiver
      → Answer E × (Dict R × Receiver)
  with_specs id manifest (raise e) receives metadata s = (raise e, (pop id metadata, s))
  with_specs id manifest (ok specs) receives metadata s =
      with_tensors id manifest (receives specs) metadata

  unfoldable pub with_manifest :
      ℕ → Answer N → (S → Answer X × Receiver) → Dict R → Receiver → Answer E × (Dict R × Receiver)
  with_manifest id (raise e) receives metadata s = (raise e, (pop id metadata, s))
  with_manifest id (ok manifest) receives metadata s =
      with_specs id manifest (collect_tensor_specs manifest) receives metadata s

  -- An error of `decode` comes before the first `try`, and deletes nothing.
  unfoldable pub with_text :
      ℕ → Answer M → (S → Answer X × Receiver) → Dict R → Receiver → Answer E × (Dict R × Receiver)
  with_text id (raise e) receives metadata s = (raise e, (metadata, s))
  with_text id (ok text) receives metadata s = with_manifest id (loads text) receives metadata s

  unfoldable pub resolve_found :
      ℕ → Option R → (S → Answer X × Receiver) → Dict R → Receiver → Answer E × (Dict R × Receiver)
  resolve_found id none receives metadata s = (raise no_metadata, (metadata, s))
  resolve_found id (some raw) receives metadata s = with_text id (decode raw) receives metadata s

  unfoldable pub resolve_nccl_handle :
      ℕ → (S → Answer X × Receiver) → Dict R → Receiver → Answer E × (Dict R × Receiver)
  resolve_nccl_handle id receives metadata s =
      resolve_found id (get id metadata) receives metadata s
