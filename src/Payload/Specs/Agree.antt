-- ===== src/Payload/Specs/Agree.antt =====
-- The receiver's specs and the sender's tensors are of the same transfer.
use Prim.Native.String.{slice}
use alpagym.Base.{
  ℕ, ◌≡◌, refl, ◌∙◌, inl, inr, String, true, false, List, [], length, arith, subst, Bool-cases,
}
use alpagym.Base.Texts.{same_text}
use alpagym.Base.Dict.{Dict, put}
use alpagym.Base.Outcome.{Outcome, ok, raise, ◌>>=◌, refuse-ok, then-value, ok-ok}
use alpagym.Payload.{
  Value, Items, Fields, str, ndarray, generic, tensor, list, tuple, dict, dataclass, no_items, item,
  no_fields, field, Libraries, Result, zero_elements, reserved_keys, named, put_field, any_reserved,
  is_reserved, tensor_key_marker, dataclass_type_marker, packed, packed_items, packed_fields, pack,
  wire, leaf_of,
}
use alpagym.Payload.Names.{Alike, named-put_field_ne}
use alpagym.Payload.Mappings.{unmarked}
use alpagym.Payload.Specs.{
  Metadata, TensorSpec, walk, walk_items, walk_fields, collect_tensor_specs,
}
use alpagym.Payload.Specs.Reference.{nums, specs_of, tensor_walks}

module _ {T A : Type 0} where
  -- No dataclass inside has a field by a name of the manifest's own.
  unfoldable mutual
    pub Unreserved : Value T A → Type 0
    Unreserved (list xs) = UnreservedItems xs
    Unreserved (tuple xs) = UnreservedItems xs
    Unreserved (dict fs) = UnreservedFields fs
    Unreserved (dataclass c fs) = (any_reserved fs ≡ false) × UnreservedFields fs
    Unreserved v = Unit

    pub UnreservedItems : Items T A → Type 0
    UnreservedItems no_items = Unit
    UnreservedItems (item v xs) = Unreserved v × UnreservedItems xs

    pub UnreservedFields : Fields T A → Type 0
    UnreservedFields no_fields = Unit
    UnreservedFields (field k v fs) = Unreserved v × UnreservedFields fs

then-same :
    {E B C : Type 0} (n : Outcome E B) (f g : B → Outcome E C)
    → ((b : B) → f b ≡ g b)
    → (n >>= f) ≡ (n >>= g)
unfolding ◌>>=◌
then-same (ok b) f g h = h b
then-same (raise e) f g h = refl

module _ {T A : Type 0} (lib : Libraries T A) where
  packed_fields-Alike :
      (fs : Fields T A) (ts : Dict T) (ms : Fields T A) (us : Dict T)
      → packed_fields lib fs ts ≡ ok (ms, us)
      → Alike fs ms
  unfolding packed Alike
  packed_fields-Alike no_fields ts ms us h =
      let same : no_fields ≡ ms = cc h in subst (Alike no_fields) same tt
  packed_fields-Alike (field k v fs) ts ms us h =
      let (q, (e, h1)) = then-value (packed lib v ts) _ (ms, us) h in
      let (p, (f, h2)) = then-value (packed_fields lib fs q.1) _ (ms, us) h1 in
      let same : field k q.0 p.0 ≡ ms = cc h2 in
      subst (Alike (field k v fs)) same (refl, packed_fields-Alike fs q.1 p.0 p.1 f)

module _ {T A : Type 0} (metadata : Metadata T A) where
  -- A dict without a reference's mark is walked entry by entry.
  dict_walks :
      (fs : Fields T A) (specs : Dict TensorSpec)
      → named tensor_key_marker fs ≡ false
      → walk metadata (dict fs) specs ≡ walk_fields metadata fs specs
  unfolding walk
  dict_walks fs specs n = rw n refl

  -- The type path, put last, is a text.
  path_walks :
      (c : String) (fs : Fields T A) (specs : Dict TensorSpec)
      → named dataclass_type_marker fs ≡ false
      → walk_fields metadata (put_field dataclass_type_marker (str c) fs) specs
        ≡ walk_fields metadata fs specs
  unfolding walk put_field named ◌>>=◌
  path_walks c no_fields specs n = refl
  path_walks c (field k v fs) specs n = elim (Bool-cases (same_text k dataclass_type_marker)) [
    | inl e ↦ absurd (ground (arith, e, n))
    | inr e ↦ rw e (
        then-same (walk metadata v specs) _ _ λ found. path_walks c fs found (ground (arith, e, n)))
  ]

  dataclass_walks :
      (c : String) (fs ms : Fields T A) (specs : Dict TensorSpec)
      → any_reserved fs ≡ false
      → Alike fs ms
      → walk metadata (dict (put_field dataclass_type_marker (str c) ms)) specs
        ≡ walk_fields metadata ms specs
  unfolding is_reserved
  dataclass_walks c fs ms specs r a =
      dict_walks (put_field dataclass_type_marker (str c) ms) specs (
        named-put_field_ne dataclass_type_marker tensor_key_marker (str c) ms refl
        ∙ unmarked tensor_key_marker fs ms refl r a)
      ∙ path_walks c ms specs (unmarked dataclass_type_marker fs ms refl r a)

module _ {T A : Type 0} (lib : Libraries T A) (metadata : Metadata T A) (dims : T → List ℕ)
    (shape_dims : (t : T) → lib.shape t ≡ nums (dims t))
    (uint8_dims : (t : T) → dims (lib.to_uint8 t) ≡ dims t)
    (torch_prefix : (t : T) → same_text (slice (lib.dtype t) 0 6) "torch." ≡ true)
    (torch_dtype : (t : T) → metadata.is_torch_dtype (lib.dtype t) ≡ true)
    (array_plain : (a : A) (specs : Dict TensorSpec)
      → walk metadata (lib.tolist a) specs ≡ ok specs)
    (scalar_plain : (a : A) (specs : Dict TensorSpec)
      → walk metadata (lib.item_of a) specs ≡ ok specs) where
  carried :
      (specs : Dict TensorSpec) (v m : Value T A) (ts us : Dict T)
      → walk metadata v specs ≡ ok (specs_of lib dims ts)
      → ◌≡◌ {A = Result (Value T A × Dict T)} (ok (v, ts)) (ok (m, us))
      → walk metadata m specs ≡ ok (specs_of lib dims us)
  carried specs v m ts us w h =
      subst (λ r. walk metadata r.0 specs ≡ ok (specs_of lib dims r.1)) (ok-ok (v, ts) (m, us) h) w

  mutual
    unfolding packed walk ◌>>=◌ Unreserved is_reserved

    packed-walk :
        (v : Value T A) (ts : Dict T) (m : Value T A) (us : Dict T)
        → Unreserved v
        → packed lib v ts ≡ ok (m, us)
        → walk metadata m (specs_of lib dims ts) ≡ ok (specs_of lib dims us)
    packed-walk (tensor t) ts m us w h =
        let (ne, e) = refuse-ok zero_elements h in
        carried (specs_of lib dims ts) (dict (leaf_of lib (length ts) t)) m
          (put (length ts) (wire lib t) ts) us
          (tensor_walks lib metadata dims shape_dims uint8_dims torch_prefix torch_dtype t ts) e
    packed-walk (dataclass c fs) ts m us w h =
        let (q, (e, k)) = then-value (packed_fields lib fs ts) _ (m, us) h in
        carried (specs_of lib dims ts) (dict (put_field dataclass_type_marker (str c) q.0)) m q.1 us
          (dataclass_walks metadata c fs q.0 (specs_of lib dims ts) w.0
              (packed_fields-Alike lib fs ts q.0 q.1 e)
            ∙ packed_fields-walk fs ts q.0 q.1 w.1 e)
          k
    packed-walk (list xs) ts m us w h =
        let (q, (e, k)) = then-value (packed_items lib xs ts) _ (m, us) h in
        carried (specs_of lib dims ts) (list q.0) m q.1 us (packed_items-walk xs ts q.0 q.1 w e) k
    packed-walk (tuple xs) ts m us w h =
        let (q, (e, k)) = then-value (packed_items lib xs ts) _ (m, us) h in
        carried (specs_of lib dims ts) (list q.0) m q.1 us (packed_items-walk xs ts q.0 q.1 w e) k
    packed-walk (dict fs) ts m us w h =
        let (r, g) = refuse-ok reserved_keys h in
        let (q, (e, k)) = then-value (packed_fields lib fs ts) _ (m, us) g in
        carried (specs_of lib dims ts) (dict q.0) m q.1 us
          (dict_walks metadata q.0 (specs_of lib dims ts)
              (unmarked tensor_key_marker fs q.0 refl r (packed_fields-Alike lib fs ts q.0 q.1 e))
            ∙ packed_fields-walk fs ts q.0 q.1 w e)
          k
    packed-walk (ndarray a) ts m us w h =
        carried (specs_of lib dims ts) (lib.tolist a) m ts us (array_plain a (specs_of lib dims ts))
          h
    packed-walk (generic a) ts m us w h =
        carried (specs_of lib dims ts) (lib.item_of a) m ts us
          (scalar_plain a (specs_of lib dims ts)) h
    packed-walk v ts m us w h = carried (specs_of lib dims ts) v m ts us refl h

    packed_items-walk :
        (xs : Items T A) (ts : Dict T) (ms : Items T A) (us : Dict T)
        → UnreservedItems xs
        → packed_items lib xs ts ≡ ok (ms, us)
        → walk_items metadata ms (specs_of lib dims ts) ≡ ok (specs_of lib dims us)
    packed_items-walk no_items ts ms us w h =
        subst (λ r. walk_items metadata r.0 (specs_of lib dims ts) ≡ ok (specs_of lib dims r.1))
          (ok-ok (no_items, ts) (ms, us) h) refl
    packed_items-walk (item v xs) ts ms us w h =
        let (q, (e, h1)) = then-value (packed lib v ts) _ (ms, us) h in
        let (p, (f, h2)) = then-value (packed_items lib xs q.1) _ (ms, us) h1 in
        subst (λ r. walk_items metadata r.0 (specs_of lib dims ts) ≡ ok (specs_of lib dims r.1))
          (ok-ok (item q.0 p.0, p.1) (ms, us) h2)
          (rw (packed-walk v ts q.0 q.1 w.0 e) (packed_items-walk xs q.1 p.0 p.1 w.1 f))

    packed_fields-walk :
        (fs : Fields T A) (ts : Dict T) (ms : Fields T A) (us : Dict T)
        → UnreservedFields fs
        → packed_fields lib fs ts ≡ ok (ms, us)
        → walk_fields metadata ms (specs_of lib dims ts) ≡ ok (specs_of lib dims us)
    packed_fields-walk no_fields ts ms us w h =
        subst (λ r. walk_fields metadata r.0 (specs_of lib dims ts) ≡ ok (specs_of lib dims r.1))
          (ok-ok (no_fields, ts) (ms, us) h) refl
    packed_fields-walk (field k v fs) ts ms us w h =
        let (q, (e, h1)) = then-value (packed lib v ts) _ (ms, us) h in
        let (p, (f, h2)) = then-value (packed_fields lib fs q.1) _ (ms, us) h1 in
        subst (λ r. walk_fields metadata r.0 (specs_of lib dims ts) ≡ ok (specs_of lib dims r.1))
          (ok-ok (field k q.0 p.0, p.1) (ms, us) h2)
          (rw (packed-walk v ts q.0 q.1 w.0 e) (packed_fields-walk fs q.1 p.0 p.1 w.1 f))

  -- When no dataclass of an episode has a field by a name of the manifest's own, and `pack` accepts the episode: the
  -- specs that the receiver collects from the manifest are, in order, the name, shape and dtype of each tensor that
  -- the sender ships, for tensors with a torch dtype and a shape that `to_uint8` keeps, and arrays and scalars of NumPy that hold no dicts.
  pub collect_tensor_specs-pack :
      (v m : Value T A) (ts : Dict T)
      → Unreserved v
      → pack lib v ≡ ok (m, ts)
      → collect_tensor_specs metadata m ≡ ok (specs_of lib dims ts)
  unfolding pack collect_tensor_specs
  collect_tensor_specs-pack v m ts w h = packed-walk v [] m ts w h
