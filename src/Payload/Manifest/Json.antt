-- ===== src/Payload/Manifest/Json.antt =====
-- What JSON carries, and that a manifest is of that kind.
use alpagym.Base.{
  ℕ, ◌≡◌, sym, subst, String, Bool, true, List, [], ◌∷◌, length, inl, inr, Bool-cases,
  if◌then◌else◌,
}
use alpagym.Base.Texts.{same_text}
use alpagym.Base.Dict.{Dict}
use alpagym.Base.Outcome.{ok, ◌>>=◌, refuse-ok, then-value, ok-ok}
use alpagym.Payload.{
  Value, Items, Fields, null, bool, num, str, tensor_name, other, ndarray, generic, tensor, list,
  tuple, dict, dataclass, no_items, item, no_fields, field, Libraries, zero_elements, reserved_keys,
  put_field, dataclass_type_marker, packed, packed_items, packed_fields, leaf_of,
}
use alpagym.Payload.Specs.Reference.{nums}

-- `float` tells the floats among the opaque values.
module _ {T A : Type 0} (float : A → Bool) where
  unfoldable mutual
    pub IsJson : Value T A → Type 0
    IsJson null = Unit
    IsJson (bool b) = Unit
    IsJson (num n) = Unit
    IsJson (str s) = Unit
    IsJson (tensor_name n) = Unit
    IsJson (other a) = float a ≡ true
    IsJson (list xs) = AreJson xs
    IsJson (dict fs) = HoldJson fs
    IsJson v = ⊥

    pub AreJson : Items T A → Type 0
    AreJson no_items = Unit
    AreJson (item v xs) = IsJson v × AreJson xs

    pub HoldJson : Fields T A → Type 0
    HoldJson no_fields = Unit
    HoldJson (field k v fs) = IsJson v × HoldJson fs

module _ {T A : Type 0} (lib : Libraries T A) (float : A → Bool) where
  -- The opaque values inside are floats, and the NumPy values are of what JSON carries.
  unfoldable mutual
    pub Writable : Value T A → Type 0
    Writable (other a) = float a ≡ true
    Writable (ndarray a) = IsJson {T = T} float (lib.tolist a)
    Writable (generic a) = IsJson {T = T} float (lib.item_of a)
    Writable (list xs) = WritableItems xs
    Writable (tuple xs) = WritableItems xs
    Writable (dict fs) = WritableFields fs
    Writable (dataclass c fs) = WritableFields fs
    Writable v = Unit

    pub WritableItems : Items T A → Type 0
    WritableItems no_items = Unit
    WritableItems (item v xs) = Writable v × WritableItems xs

    pub WritableFields : Fields T A → Type 0
    WritableFields no_fields = Unit
    WritableFields (field k v fs) = Writable v × WritableFields fs

module _ {T A : Type 0} (lib : Libraries T A) (float : A → Bool) (dims : T → List ℕ)
    (shape_dims : (t : T) → lib.shape t ≡ nums (dims t)) where
  nums-AreJson : (ns : List ℕ) → AreJson {T = T} float (nums ns)
  unfolding AreJson nums
  nums-AreJson [] = tt
  nums-AreJson (n ∷ ns) = (tt, nums-AreJson ns)

  leaf-HoldJson : (n : ℕ) (t : T) → HoldJson float (leaf_of lib n t)
  unfolding HoldJson leaf_of
  leaf-HoldJson n t =
      (tt, (subst (AreJson float) (sym (shape_dims t)) (nums-AreJson (dims t)), (tt, mark)))
    where
      mark :
          HoldJson {T = T} float
            (if lib.is_bool t then field "__bool_tensor__" (bool true) no_fields else no_fields)
      mark = elim (Bool-cases (lib.is_bool t)) [ inl b ↦ rw b (tt, tt) | inr b ↦ rw b tt ]

  put_field-HoldJson :
      (k c : String) (fs : Fields T A) → HoldJson float fs → HoldJson float (put_field k (str c) fs)
  unfolding HoldJson put_field
  put_field-HoldJson k c no_fields h = (tt, tt)
  put_field-HoldJson k c (field j v fs) h = elim (Bool-cases (same_text j k)) [
    | inl e ↦ rw e (tt, h.1)
    | inr e ↦ rw e (h.0, put_field-HoldJson k c fs h.1)
  ]

  mutual
    unfolding packed IsJson Writable ◌>>=◌

    packed-IsJson :
        (v : Value T A) (ts : Dict T) (m : Value T A) (us : Dict T)
        → Writable lib float v
        → packed lib v ts ≡ ok (m, us)
        → IsJson float m
    packed-IsJson (tensor t) ts m us w h =
        let (ne, e) = refuse-ok zero_elements h in
        subst (λ (r : Value T A × Dict T). IsJson float r.0) (ok-ok _ (m, us) e)
          (leaf-HoldJson (length ts) t)
    packed-IsJson (dataclass c fs) ts m us w h =
        let (q, (e, k)) = then-value (packed_fields lib fs ts) _ (m, us) h in
        subst (λ (r : Value T A × Dict T). IsJson float r.0) (ok-ok _ (m, us) k)
          (put_field-HoldJson dataclass_type_marker c q.0
            (packed_fields-HoldJson fs ts q.0 q.1 w e))
    packed-IsJson (list xs) ts m us w h =
        let (q, (e, k)) = then-value (packed_items lib xs ts) _ (m, us) h in
        subst (λ (r : Value T A × Dict T). IsJson float r.0) (ok-ok _ (m, us) k)
          (packed_items-AreJson xs ts q.0 q.1 w e)
    packed-IsJson (tuple xs) ts m us w h =
        let (q, (e, k)) = then-value (packed_items lib xs ts) _ (m, us) h in
        subst (λ (r : Value T A × Dict T). IsJson float r.0) (ok-ok _ (m, us) k)
          (packed_items-AreJson xs ts q.0 q.1 w e)
    packed-IsJson (dict fs) ts m us w h =
        let (r, g) = refuse-ok reserved_keys h in
        let (q, (e, k)) = then-value (packed_fields lib fs ts) _ (m, us) g in
        subst (λ (r : Value T A × Dict T). IsJson float r.0) (ok-ok _ (m, us) k)
          (packed_fields-HoldJson fs ts q.0 q.1 w e)
    packed-IsJson v ts m us w h =
        subst (λ (r : Value T A × Dict T). IsJson float r.0) (ok-ok _ (m, us) h) w

    packed_items-AreJson :
        (xs : Items T A) (ts : Dict T) (ms : Items T A) (us : Dict T)
        → WritableItems lib float xs
        → packed_items lib xs ts ≡ ok (ms, us)
        → AreJson float ms
    packed_items-AreJson no_items ts ms us w h =
        subst (λ (r : Items T A × Dict T). AreJson float r.0) (ok-ok _ (ms, us) h) tt
    packed_items-AreJson (item v xs) ts ms us w h =
        let (q, (e, h1)) = then-value (packed lib v ts) _ (ms, us) h in
        let (p, (f, h2)) = then-value (packed_items lib xs q.1) _ (ms, us) h1 in
        subst (λ (r : Items T A × Dict T). AreJson float r.0) (ok-ok _ (ms, us) h2)
          (packed-IsJson v ts q.0 q.1 w.0 e, packed_items-AreJson xs q.1 p.0 p.1 w.1 f)

    packed_fields-HoldJson :
        (fs : Fields T A) (ts : Dict T) (ms : Fields T A) (us : Dict T)
        → WritableFields lib float fs
        → packed_fields lib fs ts ≡ ok (ms, us)
        → HoldJson float ms
    packed_fields-HoldJson no_fields ts ms us w h =
        subst (λ (r : Fields T A × Dict T). HoldJson float r.0) (ok-ok _ (ms, us) h) tt
    packed_fields-HoldJson (field k v fs) ts ms us w h =
        let (q, (e, h1)) = then-value (packed lib v ts) _ (ms, us) h in
        let (p, (f, h2)) = then-value (packed_fields lib fs q.1) _ (ms, us) h1 in
        subst (λ (r : Fields T A × Dict T). HoldJson float r.0) (ok-ok _ (ms, us) h2)
          (packed-IsJson v ts q.0 q.1 w.0 e, packed_fields-HoldJson fs q.1 p.0 p.1 w.1 f)

  pub pack-IsJson :
      (v m : Value T A) (ts : Dict T)
      → Writable lib float v
      → packed lib v [] ≡ ok (m, ts)
      → IsJson float m
  pack-IsJson v m ts w h = packed-IsJson v [] m ts w h
