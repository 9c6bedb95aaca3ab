-- ===== src/Nccl/Receiver/Once.antt =====
-- A transfer is read once.
use alpagym.Base.{ℕ, ◌≡◌, ◌≢◌, refl, inl, inr, false, none, some, Option-cases, arith, [], ◌∷◌}
use alpagym.Base.Dict.{Dict, get, has, pop, has-pop_self, has-some}
use alpagym.Base.Outcome.{ok, raise}
use alpagym.Nccl.Receiver.{
  Receiver, Answer, no_metadata, with_tensors, with_specs, with_manifest, with_text, resolve_found,
  resolve_nccl_handle,
}

module _ {V : Type 0} where
  pub get_absent : (k : ℕ) (d : Dict V) → has k d ≡ false → get k d ≡ none
  get_absent k d h = elim (Option-cases (get k d)) [
    | inl n ↦ n
    | inr (v, e) ↦ let t = has-some k d v e in absurd (cc (t, h))
  ]

module _ {R M N S X E : Type 0} (decode : R → Answer M) (loads : M → Answer N)
    (collect_tensor_specs : N → Answer S) (unpack : X → N → Answer E) where
  deleted_tensors :
      (id : ℕ) (n : N) (r : Answer X × Receiver) (metadata : Dict R)
      → (with_tensors decode loads collect_tensor_specs unpack id n r metadata).1.0
        ≡ pop id metadata
  unfolding with_tensors
  deleted_tensors id n (raise e, s) metadata = refl
  deleted_tensors id n (ok x, s) metadata = refl

  deleted_specs :
      (id : ℕ) (n : N) (a : Answer S) (receives : S → Answer X × Receiver) (metadata : Dict R)
      (s : Receiver)
      → (with_specs decode loads collect_tensor_specs unpack id n a receives metadata s).1.0
        ≡ pop id metadata
  unfolding with_specs
  deleted_specs id n (raise e) receives metadata s = refl
  deleted_specs id n (ok specs) receives metadata s = deleted_tensors id n (receives specs) metadata

  deleted_manifest :
      (id : ℕ) (a : Answer N) (receives : S → Answer X × Receiver) (metadata : Dict R)
      (s : Receiver)
      → (with_manifest decode loads collect_tensor_specs unpack id a receives metadata s).1.0
        ≡ pop id metadata
  unfolding with_manifest
  deleted_manifest id (raise e) receives metadata s = refl
  deleted_manifest id (ok n) receives metadata s =
      deleted_specs id n (collect_tensor_specs n) receives metadata s

  -- What is left in the store.
  deleted :
      (id : ℕ) (raw : R) (text : M) (receives : S → Answer X × Receiver) (metadata : Dict R)
      (s : Receiver)
      → get id metadata ≡ some raw
      → decode raw ≡ ok text
      → (resolve_nccl_handle decode loads collect_tensor_specs unpack id receives metadata s).1.0
        ≡ pop id metadata
  unfolding resolve_nccl_handle resolve_found with_text
  deleted id raw text receives metadata s e d =
      rw (e, d) (deleted_manifest id (loads text) receives metadata s)

  get-pop_ne : (id j : ℕ) (d : Dict R) → id ≢ j → get j (pop id d) ≡ get j d
  get-pop_ne id j [] h = refl
  get-pop_ne id j (entry ∷ d) h = ground (arith, get-pop_ne id j d h)

  refused :
      (id : ℕ) (again : S → Answer X × Receiver) (metadata : Dict R) (t : Receiver)
      → resolve_nccl_handle decode loads collect_tensor_specs unpack id again (pop id metadata) t
        ≡ (raise no_metadata, (pop id metadata, t))
  unfolding resolve_nccl_handle resolve_found
  refused id again metadata t = rw (get_absent id (pop id metadata) (has-pop_self id metadata)) refl

  -- When the store holds a transfer's metadata and it decodes: however the read of the transfer ends, with an
  -- episode or with an exception of `json.loads`, of the specs, of `recv` or of `unpack`, its metadata
  -- is gone and that of every other transfer is still there, and another read of the transfer, with any receiver,
  -- raises before it reaches that receiver.
  pub resolve_nccl_handle_once :
      (id : ℕ) (raw : R) (text : M) (receives again : S → Answer X × Receiver) (metadata : Dict R)
      (s t : Receiver)
      → get id metadata ≡ some raw
      → decode raw ≡ ok text
      → let left =
          (resolve_nccl_handle decode loads collect_tensor_specs unpack id receives metadata
            s).1.0 in
        (resolve_nccl_handle decode loads collect_tensor_specs unpack id again left t
          ≡ (raise no_metadata, (left, t)))
        × ((j : ℕ) → id ≢ j → get j left ≡ get j metadata)
  resolve_nccl_handle_once id raw text receives again metadata s t e d =
      let gone = deleted id raw text receives metadata s e d in
      rw gone (refused id again metadata t, λ j h. get-pop_ne id j metadata h)
