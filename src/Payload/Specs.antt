-- ===== src/Payload/Specs.antt =====
-- `_collect_tensor_specs` of transport/nccl/endpoints.py: the shapes and dtypes that a receiver allocates, read off
-- a manifest. A reference by another text than `tensor_<n>`, which `pack` never writes, is not modelled and raises.
pub mod Reference
pub mod Agree
mod Samples
use Prim.Native.String.{slice}
use alpagym.Base.{
  ℕ, String, Bool, true, false, not, ◌&&◌, ◌||◌, Option, none, some, List, [], ◌∷◌, if◌then◌else◌,
}
use alpagym.Base.Texts.{same_text}
use alpagym.Base.Dict.{Dict, put}
use alpagym.Base.Outcome.{Outcome, ok, raise, ◌>>=◌, ◌>>◌, refuse}
use alpagym.Payload.{
  Value, Items, Fields, num, str, tensor_name, list, dict, no_items, item, no_fields, field, Result,
  key_error, type_error, lookup, named, tensor_key_marker,
}

-- `int(dim)` of a dim that is no int, with a possible minus sign apart, and `isinstance(getattr(torch, name, None), torch.dtype)`.
pub record Metadata (T A : Type 0) : Type 0 where
  pub int_of : Value T A → Result (Bool × ℕ)
  pub is_torch_dtype : String → Bool

pub record TensorSpec : Type 0 where
  pub shape : List ℕ
  pub dtype : String

module _ {T A : Type 0} (metadata : Metadata T A) where
  -- A dim, with whether it is negative.
  unfoldable pub dim_of : Value T A → Result (Bool × ℕ)
  dim_of (num n) = ok (false, n)
  dim_of v = metadata.int_of v

  unfoldable pub dims_of : Items T A → Result (List (Bool × ℕ))
  dims_of no_items = ok []
  dims_of (item v xs) = dim_of v >>= λ d. dims_of xs >>= λ ds. ok (d ∷ ds)

  unfoldable pub any_negative : List (Bool × ℕ) → Bool
  any_negative [] = false
  any_negative ((negative, n) ∷ ds) = negative || any_negative ds

  unfoldable pub sizes : List (Bool × ℕ) → List ℕ
  sizes [] = []
  sizes ((negative, n) ∷ ds) = n ∷ sizes ds

  -- `_parse_tensor_shape`
  unfoldable pub parse_tensor_shape : Option (Value T A) → Result (List ℕ)
  parse_tensor_shape none = raise key_error
  parse_tensor_shape (some (list xs)) =
      dims_of xs >>= λ ds. refuse (any_negative ds) type_error >> ok (sizes ds)
  parse_tensor_shape (some v) = raise type_error

  -- `_parse_tensor_dtype`: "torch." has 6 characters.
  unfoldable pub parse_tensor_dtype : Option (Value T A) → Result String
  parse_tensor_dtype none = raise key_error
  parse_tensor_dtype (some (str s)) =
      refuse (not (same_text (slice s 0 6) "torch.")) type_error
      >> (refuse (not (metadata.is_torch_dtype s)) type_error >> ok s)
  parse_tensor_dtype (some v) = raise type_error

  unfoldable pub add_spec :
      Option (Value T A) → Fields T A → Dict TensorSpec → Result (Dict TensorSpec)
  add_spec (some (tensor_name n)) leaf specs = parse_tensor_shape (lookup "shape" leaf) >>= λ shape.
      parse_tensor_dtype (lookup "dtype" leaf) >>= λ dtype.
      ok (put n (record { shape = shape; dtype = dtype }) specs)
  add_spec _ leaf specs = raise key_error

  unfoldable mutual
    -- `_walk`
    pub walk : Value T A → Dict TensorSpec → Result (Dict TensorSpec)
    walk (dict fs) specs =
        let inner = walk_fields fs specs in
        if named tensor_key_marker fs
        then add_spec (lookup tensor_key_marker fs) fs specs
        else inner
    walk (list xs) specs = walk_items xs specs
    walk v specs = ok specs

    pub walk_items : Items T A → Dict TensorSpec → Result (Dict TensorSpec)
    walk_items no_items specs = ok specs
    walk_items (item v xs) specs = walk v specs >>= λ found. walk_items xs found

    pub walk_fields : Fields T A → Dict TensorSpec → Result (Dict TensorSpec)
    walk_fields no_fields specs = ok specs
    walk_fields (field k v fs) specs = walk v specs >>= λ found. walk_fields fs found

  unfoldable pub collect_tensor_specs : Value T A → Result (Dict TensorSpec)
  collect_tensor_specs v = walk v []
