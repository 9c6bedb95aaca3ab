-- ===== src/Nccl/Receiver/Samples.antt =====
-- A receiver of two replicas, the first of which fails.
use alpagym.Base.{ℕ, ◌≡◌, ◌≢◌, refl, List, [], ◌∷◌}
use alpagym.Base.Dict.{Dict, get}
use alpagym.Base.Outcome.{ok, raise}
use alpagym.Nccl.Receiver.{
  Receiver, ReceiverError, Answer, closed, failed, no_metadata, recv, Call, setup_call, recv_call,
  close_call, call, calls, resolve_nccl_handle, resolve_found, with_text, with_manifest, with_specs,
  with_tensors,
}
use alpagym.Nccl.Receiver.Routing.{Aligned, calls-Aligned}
use alpagym.Nccl.Receiver.Poisoned.{is_setup, failed_recv-refused}
use alpagym.Nccl.Receiver.Once.{resolve_nccl_handle_once}

abbrev set_up : List (Call ℕ)
set_up = setup_call (ok (0, 10) ∷ ok (0, 11) ∷ []) ∷ []

abbrev after_failure : List (Call ℕ)
after_failure = recv_call (ok 1) (ok tt) (ok 5) ∷ close_call ∷ []

calls-Aligned_example : Aligned 1 (calls set_up closed)
calls-Aligned_example = calls-Aligned 1 set_up

failed_recv-refused_example :
    let s =
      calls after_failure
        (call {X = ℕ} (recv_call (ok 0) (ok tt) (raise failed)) (calls set_up closed)) in
    (e : ReceiverError) × (recv {X = ℕ} (ok 0) (ok tt) (ok 7) s ≡ (raise e, s))
unfolding is_setup
failed_recv-refused_example = failed_recv-refused 0 failed set_up after_failure (ok tt) (ok 7) refl

abbrev receives : ℕ → Answer ℕ × Receiver
receives specs = (ok specs, closed)

-- The manifest and the specs are numbers here.
abbrev number : ℕ → Answer ℕ
number n = ok n

abbrev left_over : Dict ℕ
left_over = (4, 9) ∷ []

resolve_nccl_handle_once_example :
    (resolve_nccl_handle number number number (λ x n. ok x) 3 receives left_over closed
      ≡ (raise no_metadata, (left_over, closed)))
    × ((j : ℕ) → 3 ≢ j → get j left_over ≡ get j ((3, 8) ∷ (4, 9) ∷ []))
unfolding resolve_nccl_handle resolve_found with_text with_manifest with_specs with_tensors
resolve_nccl_handle_once_example =
    resolve_nccl_handle_once number number number (λ x n. ok x) 3 8 8 receives receives
      ((3, 8) ∷ (4, 9) ∷ []) closed closed refl refl
