-- ===== src/Payload/Unpack.antt =====
-- `unpack` of transport/nccl/payload.py: the manifest is read by the type hints, or by its markers where the hint is Any.
use Prim.Native.String.{slice}
use alpagym.Base.{
  ℕ, zero, suc, String, Bool, true, false, not, ◌==◌, Option, none, some, List, [], ◌∷◌,
  if◌then◌else◌,
}
use alpagym.Base.Texts.{same_text, is_empty_text}
use alpagym.Base.Dict.{Dict, get}
use alpagym.Base.Outcome.{ok, raise, ◌>>=◌, ◌>>◌, refuse}
use alpagym.Payload.{
  bool_tensor_marker, Class, dataclass_type_marker, Fields, Hint, Hints, Items, Libraries, Result,
  tensor_key_marker, Value, absent, any, bool, dataclass, dataclass_hint, dict, field, fields_of,
  generic, hint, import_error, item, key_error, list, lookup, mapping, named, ndarray, no_fields,
  no_hints, no_items, not_a_dataclass, not_dataclass, null, num, optional, other, outside_prefix,
  plain, recursion_error, str, tensor, tensor_name, tuple, tuple_each, tuple_of, type_error,
  unsupported_union, wide_union,
}

-- `_ALLOWED_DATACLASS_TYPE_PREFIX` has 16 characters.
unfoldable pub is_allowed : String → Bool
is_allowed c = same_text (slice c 0 16) "alpagym_runtime."

module _ {T A : Type 0} where
  -- The items of an iterable, where `value` is one.
  unfoldable pub key_items : Fields T A → Items T A
  key_items no_fields = no_items
  key_items (field k v fs) = item (str k) (key_items fs)

  unfoldable pub named_tensor : Option (Value T A) → Dict T → Option T
  named_tensor (some (tensor_name n)) ts = get n ts
  named_tensor _ ts = none

  unfoldable pub map_items : (Value T A → Result (Value T A)) → Items T A → Result (Items T A)
  map_items g no_items = ok no_items
  map_items g (item v xs) = g v >>= λ w. map_items g xs >>= λ ys. ok (item w ys)

  unfoldable pub map_fields : (Value T A → Result (Value T A)) → Fields T A → Result (Fields T A)
  map_fields g no_fields = ok no_fields
  map_fields g (field k v fs) = g v >>= λ w. map_fields g fs >>= λ rest. ok (field k w rest)

  -- `zip(value, args)`: the shorter one ends it.
  unfoldable pub map_each :
      (Hint → Value T A → Result (Value T A)) → Hints → Items T A → Result (Items T A)
  map_each g no_hints xs = ok no_items
  map_each g (hint h hs) no_items = ok no_items
  map_each g (hint h hs) (item v xs) = g h v >>= λ w. map_each g hs xs >>= λ ys. ok (item w ys)

  unfoldable pub keyed : Option (Value T A) → Result (Value T A)
  keyed none = raise key_error
  keyed (some v) = ok v

  -- `value[f.name]` for each field of the class.
  unfoldable pub map_class :
      (Hint → Value T A → Result (Value T A))
      → List (String × Hint)
      → Fields T A
      → Result (Fields T A)
  map_class g [] whole = ok no_fields
  map_class g ((n, h) ∷ sch) whole = keyed (lookup n whole) >>= λ v.
      g h v >>= λ w. map_class g sch whole >>= λ rest. ok (field n w rest)

  -- The keyword arguments of a dataclass, read by name from `value`.
  unfoldable pub keywords :
      (Hint → Value T A → Result (Value T A))
      → List (String × Hint)
      → Value T A
      → Result (Fields T A)
  keywords u [] v = ok no_fields
  keywords u sch (dict fs) = map_class u sch fs
  keywords u sch _ = raise type_error

  -- `value.items()`
  unfoldable pub entries : Value T A → Result (Fields T A)
  entries (dict fs) = ok fs
  entries _ = raise type_error

  unfoldable pub rebuilt :
      (Hint → Value T A → Result (Value T A)) → String → Fields T A → Class → Result (Value T A)
  rebuilt u c fs absent = raise import_error
  rebuilt u c fs not_dataclass = raise not_a_dataclass
  rebuilt u c fs (fields_of sch) = map_class u sch fs >>= λ kwargs. ok (dataclass c kwargs)

  -- A dataclass for a hint: its type is the hint's, whatever the manifest's marker says.
  unfoldable pub typed :
      (Hint → Value T A → Result (Value T A)) → String → Value T A → Class → Result (Value T A)
  typed u c v (fields_of sch) = keywords u sch v >>= λ kwargs. ok (dataclass c kwargs)
  typed u c v _ = ok v

  unfoldable pub member :
      (Hint → Value T A → Result (Value T A))
      → (Value T A → Result (Value T A))
      → Hint
      → Value T A
      → Result (Value T A)
  member u r any v = r v
  member u r h v = u h v

  unfoldable pub by_optional : (Value T A → Result (Value T A)) → Value T A → Result (Value T A)
  by_optional g null = ok null
  by_optional g v = g v

module _ {T A : Type 0} (classes : String → Class) where
  -- `_reconstruct_dataclass`, with `_unpack` for `u`.
  unfoldable pub reconstruct_dataclass :
      (Hint → Value T A → Result (Value T A)) → Fields T A → Option (Value T A) → Result (Value T A)
  reconstruct_dataclass u fs (some (str c)) =
      refuse (not (is_allowed c)) outside_prefix >> rebuilt u c fs (classes c)
  reconstruct_dataclass u fs _ = raise type_error

module _ {T A : Type 0} (lib : Libraries T A) where
  unfoldable pub truthy : Value T A → Bool
  truthy null = false
  truthy (bool b) = b
  truthy (num n) = not (n == 0)
  truthy (str s) = not (is_empty_text s)
  truthy (tensor_name n) = true
  truthy (other a) = lib.truth a
  truthy (ndarray a) = lib.truth a
  truthy (generic a) = lib.truth a
  truthy (tensor t) = lib.tensor_truth t
  truthy (list no_items) = false
  truthy (list (item v xs)) = true
  truthy (tuple no_items) = false
  truthy (tuple (item v xs)) = true
  truthy (dict no_fields) = false
  truthy (dict (field k v fs)) = true
  truthy (dataclass c fs) = true

  unfoldable pub restored : Bool → T → Value T A
  restored true t = tensor (lib.to_bool t)
  restored false t = tensor t

  unfoldable pub flagged : Option (Value T A) → Bool
  flagged none = false
  flagged (some v) = truthy v

  -- `_resolve_tensor_leaf`
  unfoldable pub resolve_leaf : Fields T A → Dict T → Result (Value T A)
  resolve_leaf leaf ts = elim (named_tensor (lookup tensor_key_marker leaf) ts) [
    | none ↦ raise key_error
    | some t ↦ ok (restored (flagged (lookup bool_tensor_marker leaf)) t)
  ]

  -- `for item in value`
  unfoldable pub iterated : Value T A → Result (Items T A)
  iterated (list xs) = ok xs
  iterated (tuple xs) = ok xs
  iterated (dict fs) = ok (key_items fs)
  iterated (str s) = ok (lib.characters s)
  iterated _ = raise type_error

  module _ (classes : String → Class) where
    -- The body of `_resolve_tensor_refs`, with `_unpack` and itself for `u` and `r`.
    unfoldable pub resolve_body :
        (Hint → Value T A → Result (Value T A))
        → (Value T A → Result (Value T A))
        → Dict T
        → Value T A
        → Result (Value T A)
    resolve_body u r ts (dict fs) =
        if named tensor_key_marker fs
        then resolve_leaf fs ts
        else if named dataclass_type_marker fs
        then reconstruct_dataclass classes u fs (lookup dataclass_type_marker fs)
        else (map_fields r fs >>= λ out. ok (dict out))
    resolve_body u r ts (list xs) = map_items r xs >>= λ out. ok (list out)
    resolve_body u r ts v = ok v

    -- The body of `_unpack` past its test for a tensor's reference.
    unfoldable pub by_hint :
        (Hint → Value T A → Result (Value T A))
        → (Value T A → Result (Value T A))
        → Hint
        → Value T A
        → Result (Value T A)
    by_hint u r (optional h) v = by_optional (u h) v
    by_hint u r wide_union v = by_optional (λ w. raise unsupported_union) v
    by_hint u r (tuple_of h) v = iterated v >>= λ xs. map_items (u h) xs >>= λ out. ok (tuple out)
    by_hint u r (tuple_each hs) v = iterated v >>= λ xs. map_each u hs xs >>= λ out. ok (tuple out)
    by_hint u r (mapping h) v =
        entries v >>= λ fs. map_fields (member u r h) fs >>= λ out. ok (dict out)
    by_hint u r (dataclass_hint c) v = typed u c v (classes c)
    by_hint u r any v = r v
    by_hint u r plain v = ok v

    unfoldable pub unpack_body :
        (Hint → Value T A → Result (Value T A))
        → (Value T A → Result (Value T A))
        → Dict T
        → Hint
        → Value T A
        → Result (Value T A)
    unpack_body u r ts h (dict fs) =
        if named tensor_key_marker fs then resolve_leaf fs ts else by_hint u r h (dict fs)
    unpack_body u r ts h v = by_hint u r h v

    unfoldable mutual
      -- `_unpack`
      pub unpacked : ℕ → Dict T → Hint → Value T A → Result (Value T A)
      unpacked zero ts h v = raise recursion_error
      unpacked (suc f) ts h v = unpack_body (unpacked f ts) (resolved f ts) ts h v

      -- `_resolve_tensor_refs`
      pub resolved : ℕ → Dict T → Value T A → Result (Value T A)
      resolved zero ts v = raise recursion_error
      resolved (suc f) ts v = resolve_body (unpacked f ts) (resolved f ts) ts v

    -- `unpack`, with the stack's depth
    unfoldable pub unpack : ℕ → Value T A × Dict T → Result (Value T A)
    unpack f payload =
        unpacked f payload.1 (dataclass_hint "alpagym_runtime.types.EpisodeOutput") payload.0
