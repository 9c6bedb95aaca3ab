-- ===== src/Payload/Leaves.antt =====
-- Tensors, nulls and the values without parts come back.
use alpagym.Base.{
  ℕ, zero, suc, ◌+◌, ◌*◌, ◌≤◌, ◌≡◌, ◌≢◌, refl, inl, inr, String, true, false, some, length, arith,
  Bool-cases,
}
use alpagym.Base.Dict.{Dict, get, put}
use alpagym.Base.Outcome.{ok, refuse-false}
use alpagym.Payload.{
  Value, null, tensor_name, ndarray, generic, tensor, list, tuple, dict, dataclass, Hint, optional,
  any, plain, Class, Libraries, named, lookup, tensor_key_marker, packed, leaf_of, zero_elements,
  wire,
}
use alpagym.Payload.Unpack.{
  unpacked, resolved, unpack_body, resolve_body, by_hint, by_optional, resolve_leaf, named_tensor,
  restored, flagged, truthy,
}
use alpagym.Payload.Size.{size}
use alpagym.Payload.Fits.{is_optional, is_null, is_leaf}
use alpagym.Payload.Growth.{Dense, Extends, put-Dense, put-Extends, get-put_self, Extends-refl}
use alpagym.Payload.Sent.{Sent, extra}

module _ {T A : Type 0} (lib : Libraries T A) (classes : String → Class) where
  leaf_back :
      (restores : (t : T) → lib.is_bool t ≡ true → lib.to_bool (lib.to_uint8 t) ≡ t) (t : T)
      (e : Dict T) (n : ℕ)
      → get n e ≡ some (wire lib t)
      → resolve_leaf lib (leaf_of lib n t) e ≡ ok (tensor t)
  unfolding resolve_leaf leaf_of lookup named_tensor flagged wire truthy restored
  leaf_back restores t e n g = elim (Bool-cases (lib.is_bool t)) [
    | inl b ↦ let r = restores t b in ground (arith, b, g, r)
    | inr b ↦ ground (arith, b, g)
  ]

  tensor_back :
      (restores : (t : T) → lib.is_bool t ≡ true → lib.to_bool (lib.to_uint8 t) ≡ t) (h : Hint)
      (t : T) (e : Dict T) (n f : ℕ)
      → get n e ≡ some (wire lib t)
      → 3 + extra h ≤ f
      → unpacked lib classes f e h (dict (leaf_of lib n t)) ≡ ok (tensor t)
  unfolding unpacked unpack_body leaf_of named
  tensor_back restores h t e n zero g le = absurd (omega arith)
  tensor_back restores h t e n (suc f) g le = leaf_back restores t e n g

  pub sent_tensor :
      (restores : (t : T) → lib.is_bool t ≡ true → lib.to_bool (lib.to_uint8 t) ≡ t) (h : Hint)
      (t : T) (ts : Dict T)
      → lib.numel t ≢ 0
      → Dense ts
      → Sent lib classes h (tensor t) ts
  unfolding packed size is_null
  sent_tensor restores h t ts ne d = record {
    manifest = dict (leaf_of lib (length ts) t);
    tensors = put (length ts) (wire lib t) ts;
    packs = refuse-false zero_elements (ground arith);
    dense = put-Dense ts (wire lib t) d;
    grown = put-Extends ts (wire lib t) d;
    solid = λ n. n;
    back = λ e f x le.
        tensor_back restores h t e (length ts) f
          (x (length ts) (wire lib t) (get-put_self (length ts) (wire lib t) ts)) le;
  }

  pub optional_step :
      (h : Hint) (m : Value T A) (v : Value T A) (e : Dict T) (f : ℕ)
      → is_null m ≡ false
      → unpacked lib classes f e h m ≡ ok v
      → unpacked lib classes (suc f) e (optional h) m ≡ ok v
  unfolding unpacked unpack_body by_hint by_optional is_null
  optional_step h (dict fs) v e zero n u = cc
  optional_step h (dict fs) v e (suc f) n u = elim (Bool-cases (named tensor_key_marker fs)) [
    | inl t ↦ ground (arith, t, u)
    | inr t ↦ ground (arith, t, u)
  ]
  optional_step h null v e f n u = absurd (cc n)
  optional_step h _ v e f n u = u

  pub resolved-any :
      (m : Value T A) (e : Dict T) (f : ℕ)
      → resolved lib classes (suc f) e m ≡ unpacked lib classes (suc (suc f)) e any m
  unfolding resolved unpacked unpack_body by_hint resolve_body
  resolved-any (dict fs) e f = elim (Bool-cases (named tensor_key_marker fs)) [
    | inl t ↦ rw t refl
    | inr t ↦ rw t refl
  ]
  resolved-any _ e f = refl

  packed_leaf : (v : Value T A) (ts : Dict T) → is_leaf v ≡ true → packed lib v ts ≡ ok (v, ts)
  unfolding is_leaf packed
  packed_leaf (tensor_name n) ts l = absurd (cc l)
  packed_leaf (ndarray a) ts l = absurd (cc l)
  packed_leaf (generic a) ts l = absurd (cc l)
  packed_leaf (tensor t) ts l = absurd (cc l)
  packed_leaf (list xs) ts l = absurd (cc l)
  packed_leaf (tuple xs) ts l = absurd (cc l)
  packed_leaf (dict fs) ts l = absurd (cc l)
  packed_leaf (dataclass c fs) ts l = absurd (cc l)
  packed_leaf _ ts l = refl

  pub unpacked_plain :
      (v : Value T A) (e : Dict T) (f : ℕ)
      → is_leaf v ≡ true
      → 1 ≤ f
      → unpacked lib classes f e plain v ≡ ok v
  unfolding is_leaf unpacked unpack_body by_hint
  unpacked_plain v e zero l le = absurd (omega arith)
  unpacked_plain (dict fs) e (suc f) l le = absurd (cc l)
  unpacked_plain v e (suc f) l le = refl

  pub unpacked-any :
      (v : Value T A) (e : Dict T) (f : ℕ)
      → is_leaf v ≡ true
      → 2 ≤ f
      → unpacked lib classes f e any v ≡ ok v
  unfolding is_leaf unpacked unpack_body by_hint resolve_body
  unpacked-any v e zero l le = absurd (omega arith)
  unpacked-any v e (suc zero) l le = absurd (omega arith)
  unpacked-any (dict fs) e (suc (suc f)) l le = absurd (cc l)
  unpacked-any (list xs) e (suc (suc f)) l le = absurd (cc l)
  unpacked-any v e (suc (suc f)) l le = refl

  size_pos : (v : Value T A) → 1 ≤ size v
  unfolding size
  size_pos (list xs) = omega arith
  size_pos (tuple xs) = omega arith
  size_pos (dict fs) = omega arith
  size_pos (dataclass c fs) = omega arith
  size_pos _ = omega arith

  -- A value that the wire carries as it is, under a hint that leaves it alone.
  pub sent_leaf :
      (h : Hint) (v : Value T A) (ts : Dict T)
      → is_leaf v ≡ true
      → Dense ts
      → ((e : Dict T) (f : ℕ) → 2 ≤ f → unpacked lib classes f e h v ≡ ok v)
      → Sent lib classes h v ts
  sent_leaf h v ts l d u = record {
    manifest = v;
    tensors = ts;
    packs = packed_leaf v ts l;
    dense = d;
    grown = Extends-refl ts;
    solid = λ n. n;
    back = λ e f x le. u e f (omega (arith, le, size_pos v));
  }

  pub extra_none : (h : Hint) → is_optional h ≡ false → extra h ≡ 0
  unfolding extra is_optional
  extra_none (optional h) o = absurd (cc o)
  extra_none _ o = refl

  pub sent_some :
      (h : Hint) (v : Value T A) (ts : Dict T)
      → is_optional h ≡ false
      → is_null v ≡ false
      → Sent lib classes h v ts
      → Sent lib classes (optional h) v ts
  unfolding extra
  sent_some h v ts o n s = record {
    manifest = s.manifest;
    tensors = s.tensors;
    packs = s.packs;
    dense = s.dense;
    grown = s.grown;
    solid = s.solid;
    back = λ e. needs e;
  }
    where
      needs :
          (e : Dict T) (f : ℕ)
          → Extends s.tensors e
          → 3 * size v + 1 ≤ f
          → unpacked lib classes f e (optional h) s.manifest ≡ ok v
      needs e zero x le = absurd (omega arith)
      needs e (suc f) x le =
          optional_step h s.manifest v e f (s.solid n)
            (s.back e f x (omega (arith, le, extra_none h o)))

  unpacked_null :
      (h : Hint) (e : Dict T) (f : ℕ) → 2 ≤ f → unpacked lib classes f e (optional h) null ≡ ok null
  unfolding unpacked unpack_body by_hint by_optional
  unpacked_null h e zero le = absurd (omega arith)
  unpacked_null h e (suc f) le = refl

  pub sent_null : (h : Hint) (ts : Dict T) → Dense ts → Sent lib classes (optional h) null ts
  unfolding is_leaf
  sent_null h ts d = sent_leaf (optional h) null ts refl d (λ e f le. unpacked_null h e f le)
