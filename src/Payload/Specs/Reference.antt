-- ===== src/Payload/Specs/Reference.antt =====
-- The entry that `_walk` makes of a tensor's reference.
use Prim.Native.String.{slice}
use alpagym.Base.{
  ℕ, ◌≡◌, refl, sym, ap, ◌∙◌, inl, inr, ◌==◌, String, Bool, true, false, some, List, [], ◌∷◌, map,
  length, Bool-cases,
}
use alpagym.Base.Texts.{same_text}
use alpagym.Base.Dict.{Dict, put}
use alpagym.Base.Outcome.{ok, ◌>>=◌, ◌>>◌, refuse}
use alpagym.Payload.{
  Value, Items, Fields, num, str, tensor_name, list, dict, no_items, item, Libraries, lookup, named,
  wire, leaf_of,
}
use alpagym.Payload.Specs.{
  Metadata, TensorSpec, dim_of, dims_of, any_negative, sizes, parse_tensor_shape,
  parse_tensor_dtype, add_spec, walk,
}

module _ {T A : Type 0} where
  unfoldable pub nums : List ℕ → Items T A
  nums [] = no_items
  nums (n ∷ ns) = item (num n) (nums ns)

module _ {T A : Type 0} (lib : Libraries T A) (dims : T → List ℕ) where
  -- The shape and dtype of a tensor on the wire.
  abbrev pub spec_of : T → TensorSpec
  spec_of t = record { shape = dims t; dtype = lib.dtype t }

  abbrev pub specs_of : Dict T → Dict TensorSpec
  specs_of ts = map (λ entry. (entry.0, spec_of entry.1)) ts

  pub specs_of-put :
      (n : ℕ) (t : T) (ts : Dict T) → specs_of (put n t ts) ≡ put n (spec_of t) (specs_of ts)
  specs_of-put n t [] = refl
  specs_of-put n t ((j, u) ∷ ts) = elim (Bool-cases (j == n)) [
    | inl e ↦ rw e refl
    | inr e ↦ rw e (ap (λ l. (j, spec_of u) ∷ l) (specs_of-put n t ts))
  ]

module _ {T A : Type 0} (lib : Libraries T A) (metadata : Metadata T A) (dims : T → List ℕ)
    (shape_dims : (t : T) → lib.shape t ≡ nums (dims t))
    (uint8_dims : (t : T) → dims (lib.to_uint8 t) ≡ dims t)
    (torch_prefix : (t : T) → same_text (slice (lib.dtype t) 0 6) "torch." ≡ true)
    (torch_dtype : (t : T) → metadata.is_torch_dtype (lib.dtype t) ≡ true) where
  wire_dims : (t : T) → dims (wire lib t) ≡ dims t
  unfolding wire
  wire_dims t = elim (Bool-cases (lib.is_bool t)) [
    | inl b ↦ rw b (uint8_dims t)
    | inr b ↦ rw b refl
  ]

  nums_parse :
      (ns : List ℕ)
      → (ds : List (Bool × ℕ)) × ((dims_of metadata (nums ns) ≡ ok ds)
          × ((any_negative metadata ds ≡ false) × (sizes metadata ds ≡ ns)))
  unfolding dims_of dim_of any_negative sizes nums ◌>>=◌
  nums_parse [] = ([], (refl, (refl, refl)))
  nums_parse (n ∷ ns) =
      let (ds, (e, (p, s))) = nums_parse ns in
      ((false, n) ∷ ds, (rw e refl, (p, ap (λ l. n ∷ l) s)))

  shape_read : (t : T) → parse_tensor_shape metadata (some (list (lib.shape t))) ≡ ok (dims t)
  unfolding parse_tensor_shape ◌>>=◌ ◌>>◌ refuse
  shape_read t =
      let (ds, (e, (p, s))) = nums_parse (dims t) in rw (shape_dims t) (rw e (rw p (rw s refl)))

  dtype_read : (t : T) → parse_tensor_dtype metadata (some (str (lib.dtype t))) ≡ ok (lib.dtype t)
  unfolding parse_tensor_dtype ◌>>◌ refuse
  dtype_read t = rw (torch_prefix t) (rw (torch_dtype t) refl)

  spec_added :
      (leaf : Fields T A) (n : ℕ) (specs : Dict TensorSpec) (shape dtype : Value T A) (ns : List ℕ)
      (name : String)
      → lookup "shape" leaf ≡ some shape
      → lookup "dtype" leaf ≡ some dtype
      → parse_tensor_shape metadata (some shape) ≡ ok ns
      → parse_tensor_dtype metadata (some dtype) ≡ ok name
      → add_spec metadata (some (tensor_name n)) leaf specs
        ≡ ok (put n (record { shape = ns; dtype = name }) specs)
  unfolding add_spec ◌>>=◌
  spec_added leaf n specs shape dtype ns name a b c d = rw a (rw b (rw c (rw d refl)))

  leaf_walks :
      (t : T) (n : ℕ) (specs : Dict TensorSpec)
      → walk metadata (dict (leaf_of lib n t)) specs
        ≡ ok (put n (spec_of lib dims (wire lib t)) specs)
  unfolding walk leaf_of lookup named
  leaf_walks t n specs =
      spec_added (leaf_of lib n t) n specs (list (lib.shape t)) (str (lib.dtype (wire lib t)))
        (dims t) (lib.dtype (wire lib t)) refl refl (shape_read t) (dtype_read (wire lib t))
      ∙ ap (λ ns. ok (put n (record { shape = ns; dtype = lib.dtype (wire lib t) }) specs))
          (sym (wire_dims t))

  pub tensor_walks :
      (t : T) (ts : Dict T)
      → walk metadata (dict (leaf_of lib (length ts) t)) (specs_of lib dims ts)
        ≡ ok (specs_of lib dims (put (length ts) (wire lib t) ts))
  tensor_walks t ts =
      leaf_walks t (length ts) (specs_of lib dims ts)
      ∙ ap (λ d. ok d) (sym (specs_of-put lib dims (length ts) (wire lib t) ts))
