-- ===== src/Payload/Specs/Samples.antt =====
-- The specs of an episode with a trajectory, a bool mask and a number of an array.
use alpagym.Base.{ℕ, ◌≡◌, refl, Bool, true, false, [], ◌∷◌}
use alpagym.Base.Outcome.{ok, raise, ◌>>=◌, ◌>>◌, refuse}
use alpagym.Payload.{
  Value, num, str, tensor, generic, list, dict, dataclass, no_items, item, no_fields, field,
  Libraries, type_error, pack, packed, leaf_of, any_reserved, is_reserved, put_field, wire,
}
use alpagym.Payload.Specs.{Metadata, walk, collect_tensor_specs}
use alpagym.Payload.Specs.Reference.{nums}
use alpagym.Payload.Specs.Agree.{Unreserved, collect_tensor_specs-pack}

-- A tensor by its two dims and whether its dtype is bool.
abbrev Shape : Type 0
Shape = ℕ × (ℕ × Bool)

abbrev libraries : Libraries Shape ℕ
libraries = record {
  numel = λ t. 1;
  is_bool = λ t. t.1.1;
  to_uint8 = λ t. (t.0, (t.1.0, false));
  to_bool = λ t. (t.0, (t.1.0, true));
  shape = λ t. item (num t.0) (item (num t.1.0) no_items);
  dtype = λ t. "torch.float32";
  tensor_truth = λ t. true;
  tolist = λ a. list (item (num a) no_items);
  item_of = λ a. num a;
  truth = λ a. true;
  characters = λ s. no_items;
}

abbrev torch_names : Metadata Shape ℕ
torch_names = record { int_of = λ v. raise type_error; is_torch_dtype = λ s. true }

abbrev output : Value Shape ℕ
output = dataclass "alpagym_runtime.types.PolicyOutput" (
    field "chosen_xyz" (tensor (2, (3, false)))
      (field "mask" (tensor (4, (1, true))) (field "steps" (generic 9) no_fields)))

collect_tensor_specs-pack_example :
    collect_tensor_specs torch_names (
      dict (
        field "chosen_xyz" (dict (leaf_of libraries 0 (2, (3, false)))) (
          field "mask" (dict (leaf_of libraries 1 (4, (1, true)))) (
            field "steps"
              (num 9)
              (field "__dataclass_type__" (str "alpagym_runtime.types.PolicyOutput") no_fields)))))
    ≡ ok (
        (0, record { shape = 2 ∷ 3 ∷ []; dtype = "torch.float32" })
        ∷ (1, record { shape = 4 ∷ 1 ∷ []; dtype = "torch.float32" })
        ∷ [])
unfolding walk nums Unreserved any_reserved is_reserved pack packed ◌>>=◌ ◌>>◌ refuse put_field wire
collect_tensor_specs-pack_example =
    collect_tensor_specs-pack libraries torch_names (λ t. t.0 ∷ t.1.0 ∷ []) (λ t. refl) (λ t. refl)
      (λ t. refl) (λ t. refl) (λ a specs. refl) (λ a specs. refl) output
      (dict (
        field "chosen_xyz" (dict (leaf_of libraries 0 (2, (3, false)))) (
          field "mask" (dict (leaf_of libraries 1 (4, (1, true)))) (
            field "steps" (num 9)
              (field "__dataclass_type__" (str "alpagym_runtime.types.PolicyOutput") no_fields)))))
      ((0, (2, (3, false))) ∷ (1, (4, (1, false))) ∷ []) (refl, (tt, (tt, (tt, tt)))) refl
