-- ===== src/Payload.antt =====
-- transport/nccl/payload.py: `pack` splits an episode into the tensors that NCCL ships and a
-- manifest for the TCPStore, and `unpack` rebuilds the episode from the two.
-- Episodes, manifests and results are all Python objects: one type `Value`. The text `tensor_<n>` of an
-- f-string is the value `tensor_name n`, and `tensors` is a dict with that n for a key.
-- PyTorch and NumPy are the record `Libraries`; what `importlib`, `dataclasses.fields` and
-- `get_type_hints` answer for a type path is a function into `Class`. The recursion of `_unpack`
-- and `_resolve_tensor_refs` is on fuel, as Python's is on its stack.
mod Samples
pub mod Unpack
pub mod Size
pub mod Fits
pub mod Growth
pub mod Names
pub mod Sent
pub mod Leaves
pub mod Sequences
pub mod Mappings
pub mod Dataclasses
pub mod RoundTrip
pub mod Shipped
pub mod Schema
pub mod Specs
pub mod Manifest
pub mod Wire
use alpagym.Base.{
  ℕ, zero, suc, String, Bool, true, false, not, ◌&&◌, ◌||◌, ◌==◌, Option, none, some, List, [], ◌∷◌,
  if◌then◌else◌, length,
}
use alpagym.Base.Texts.{same_text, is_empty_text}
use alpagym.Base.Dict.{Dict, get, put}
use alpagym.Base.Outcome.{Outcome, ok, raise, ◌>>=◌, ◌>>◌, refuse}

mutual
  -- `other` is a value that `pack` ships as it is: a float, a bytes object.
  pub data Value (T A : Type 0) : Type 0 where
    null : Value T A
    bool : Bool → Value T A
    num : ℕ → Value T A
    str : String → Value T A
    tensor_name : ℕ → Value T A
    other : A → Value T A
    ndarray : A → Value T A
    generic : A → Value T A
    tensor : T → Value T A
    list : Items T A → Value T A
    tuple : Items T A → Value T A
    dict : Fields T A → Value T A
    dataclass : String → Fields T A → Value T A

  pub data Items (T A : Type 0) : Type 0 where
    no_items : Items T A
    item : Value T A → Items T A → Items T A

  pub data Fields (T A : Type 0) : Type 0 where
    no_fields : Fields T A
    field : String → Value T A → Fields T A → Fields T A

-- Third-party calls: `Tensor.numel`, the test of `dtype == torch.bool`, the two conversions,
-- `list(shape)`, `str(dtype)`, a tensor's truth value; `ndarray.tolist`, `generic.item`, the truth
-- value of an opaque object, and the characters of a str.
pub record Libraries (T A : Type 0) : Type 0 where
  pub numel : T → ℕ
  pub is_bool : T → Bool
  pub to_uint8 : T → T
  pub to_bool : T → T
  pub shape : T → Items T A
  pub dtype : T → String
  pub tensor_truth : T → Bool
  pub tolist : A → Value T A
  pub item_of : A → Value T A
  pub truth : A → Bool
  pub characters : String → Items T A

-- The type hints that `_unpack` tells apart; `plain` is any other.
mutual
  pub data Hint : Type 0 where
    optional : Hint → Hint
    wide_union : Hint
    tuple_of : Hint → Hint
    tuple_each : Hints → Hint
    mapping : Hint → Hint
    dataclass_hint : String → Hint
    any plain : Hint

  pub data Hints : Type 0 where
    no_hints : Hints
    hint : Hint → Hints → Hints

-- The fields of a dataclass, in the order of `dataclasses.fields`, with their type hints.
pub data Class : Type 0 where
  absent not_dataclass : Class
  fields_of : List (String × Hint) → Class

pub data PayloadError : Type 0 where
  zero_elements reserved_keys unsupported_union key_error type_error outside_prefix import_error :
      PayloadError
  not_a_dataclass recursion_error : PayloadError

abbrev pub Result : Type 0 → Type 0
Result B = Outcome PayloadError B

abbrev pub tensor_key_marker : String
tensor_key_marker = "__tensor_key__"

abbrev pub dataclass_type_marker : String
dataclass_type_marker = "__dataclass_type__"

abbrev pub bool_tensor_marker : String
bool_tensor_marker = "__bool_tensor__"

-- `name in _RESERVED_DICT_MARKERS`
unfoldable pub is_reserved : String → Bool
is_reserved n =
    same_text n tensor_key_marker
    || (same_text n dataclass_type_marker || same_text n bool_tensor_marker)

module _ {T A : Type 0} where
  -- `d[n]`, for a dict with text keys
  unfoldable pub lookup : String → Fields T A → Option (Value T A)
  lookup n no_fields = none
  lookup n (field k v fs) = if same_text k n then some v else lookup n fs

  -- `n in d`
  unfoldable pub named : String → Fields T A → Bool
  named n no_fields = false
  named n (field k v fs) = same_text k n || named n fs

  -- `d[n] = v`
  unfoldable pub put_field : String → Value T A → Fields T A → Fields T A
  put_field n v no_fields = field n v no_fields
  put_field n v (field k u fs) =
      let rest = put_field n v fs in if same_text k n then field k v fs else field k u rest

  unfoldable pub any_reserved : Fields T A → Bool
  any_reserved no_fields = false
  any_reserved (field k v fs) = is_reserved k || any_reserved fs

module _ {T A : Type 0} (lib : Libraries T A) where
  unfoldable pub wire : T → T
  wire t = if lib.is_bool t then lib.to_uint8 t else t

  -- The reference that stands for a tensor in the manifest.
  unfoldable pub leaf_of : ℕ → T → Fields T A
  leaf_of n t = field tensor_key_marker (tensor_name n) (
      field "shape" (list (lib.shape t)) (
        field "dtype" (str (lib.dtype (wire t)))
          (if lib.is_bool t then field bool_tensor_marker (bool true) no_fields else no_fields)))

  -- The state is `tensors`, which the calls fill.
  unfoldable mutual
    pub packed : Value T A → Dict T → Result (Value T A × Dict T)
    packed (tensor t) ts =
        refuse (lib.numel t == 0) zero_elements
        >> ok (dict (leaf_of (length ts) t), put (length ts) (wire t) ts)
    packed (dataclass c fs) ts =
        packed_fields fs ts >>= λ r. ok (dict (put_field dataclass_type_marker (str c) r.0), r.1)
    packed (list xs) ts = packed_items xs ts >>= λ r. ok (list r.0, r.1)
    packed (tuple xs) ts = packed_items xs ts >>= λ r. ok (list r.0, r.1)
    packed (dict fs) ts =
        refuse (any_reserved fs) reserved_keys >> (packed_fields fs ts >>= λ r. ok (dict r.0, r.1))
    packed (ndarray a) ts = ok (lib.tolist a, ts)
    packed (generic a) ts = ok (lib.item_of a, ts)
    packed v ts = ok (v, ts)

    pub packed_items : Items T A → Dict T → Result (Items T A × Dict T)
    packed_items no_items ts = ok (no_items, ts)
    packed_items (item v xs) ts =
        packed v ts >>= λ r. packed_items xs r.1 >>= λ q. ok (item r.0 q.0, q.1)

    pub packed_fields : Fields T A → Dict T → Result (Fields T A × Dict T)
    packed_fields no_fields ts = ok (no_fields, ts)
    packed_fields (field k v fs) ts =
        packed v ts >>= λ r. packed_fields fs r.1 >>= λ q. ok (field k r.0 q.0, q.1)

  -- `pack`: the manifest and the tensors.
  unfoldable pub pack : Value T A → Result (Value T A × Dict T)
  pack v = packed v []
