-- ===== src/Payload/Fits.antt =====
-- The values that a type hint describes and that the wire keeps: what `unpack` can give back.
use alpagym.Base.{String, Bool, true, false, ◌≡◌, ◌≢◌, List, [], ◌∷◌}
use alpagym.Payload.{
  Value, Items, Fields, null, bool, num, str, other, tensor, list, tuple, dict, dataclass, no_items,
  item, no_fields, field, Hint, Hints, optional, tuple_of, tuple_each, mapping, dataclass_hint, any,
  plain, no_hints, hint, Class, fields_of, Libraries, any_reserved, named,
}
use alpagym.Payload.Unpack.{is_allowed}

unfoldable pub is_optional : Hint → Bool
is_optional (optional h) = true
is_optional h = false

module _ {T A : Type 0} where
  -- Values that the wire carries as they are.
  unfoldable pub is_leaf : Value T A → Bool
  is_leaf null = true
  is_leaf (bool b) = true
  is_leaf (num n) = true
  is_leaf (str s) = true
  is_leaf (other a) = true
  is_leaf v = false

  unfoldable pub is_null : Value T A → Bool
  is_null null = true
  is_null v = false

  -- No key twice.
  unfoldable pub Distinct : Fields T A → Type 0
  Distinct no_fields = Unit
  Distinct (field k v fs) = (named k fs ≡ false) × Distinct fs

module _ {T A : Type 0} (lib : Libraries T A) (classes : String → Class) where
  mutual
    pub data Fits : Hint → Value T A → Type 0 where
      fits_tensor : (h : Hint) (t : T) → lib.numel t ≢ 0 → Fits h (tensor t)
      fits_null : (h : Hint) → Fits (optional h) null
      fits_some :
          (h : Hint) (v : Value T A)
          → is_optional h ≡ false
          → is_null v ≡ false
          → Fits h v
          → Fits (optional h) v
      fits_plain : (v : Value T A) → is_leaf v ≡ true → Fits plain v
      fits_leaf : (v : Value T A) → is_leaf v ≡ true → Fits any v
      fits_list : (xs : Items T A) → FitsItems any xs → Fits any (list xs)
      fits_dict :
          (fs : Fields T A) → any_reserved fs ≡ false → FitsFields any fs → Fits any (dict fs)
      fits_mapping :
          (h : Hint) (fs : Fields T A)
          → any_reserved fs ≡ false
          → FitsFields h fs
          → Fits (mapping h) (dict fs)
      fits_tuple : (h : Hint) (xs : Items T A) → FitsItems h xs → Fits (tuple_of h) (tuple xs)
      fits_each : (hs : Hints) (xs : Items T A) → FitsEach hs xs → Fits (tuple_each hs) (tuple xs)
      fits_dataclass :
          (c : String) (sch : List (String × Hint)) (fs : Fields T A)
          → classes c ≡ fields_of sch
          → any_reserved fs ≡ false
          → Distinct fs
          → FitsClass sch fs
          → Fits (dataclass_hint c) (dataclass c fs)
      fits_untyped :
          (c : String) (sch : List (String × Hint)) (fs : Fields T A)
          → classes c ≡ fields_of sch
          → is_allowed c ≡ true
          → any_reserved fs ≡ false
          → Distinct fs
          → FitsClass sch fs
          → Fits any (dataclass c fs)

    pub data FitsItems : Hint → Items T A → Type 0 where
      fits_no_items : (h : Hint) → FitsItems h no_items
      fits_item :
          (h : Hint) (v : Value T A) (xs : Items T A)
          → Fits h v
          → FitsItems h xs
          → FitsItems h (item v xs)

    pub data FitsEach : Hints → Items T A → Type 0 where
      fits_no_hints : FitsEach no_hints no_items
      fits_hint :
          (h : Hint) (hs : Hints) (v : Value T A) (xs : Items T A)
          → Fits h v
          → FitsEach hs xs
          → FitsEach (hint h hs) (item v xs)

    pub data FitsFields : Hint → Fields T A → Type 0 where
      fits_no_fields : (h : Hint) → FitsFields h no_fields
      fits_field :
          (h : Hint) (k : String) (v : Value T A) (fs : Fields T A)
          → Fits h v
          → FitsFields h fs
          → FitsFields h (field k v fs)

    pub data FitsClass : List (String × Hint) → Fields T A → Type 0 where
      fits_no_class : FitsClass [] no_fields
      fits_class :
          (k : String) (h : Hint) (sch : List (String × Hint)) (v : Value T A) (fs : Fields T A)
          → Fits h v
          → FitsClass sch fs
          → FitsClass ((k, h) ∷ sch) (field k v fs)
