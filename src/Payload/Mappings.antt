-- ===== src/Payload/Mappings.antt =====
-- Dicts and dataclasses come back.
use alpagym.Base.{
  ℕ, zero, suc, ◌+◌, ◌*◌, ◌≤◌, ◌≡◌, refl, ◌∙◌, String, true, false, List, [], ◌∷◌, arith,
}
use alpagym.Base.Dict.{Dict}
use alpagym.Base.Outcome.{ok, ◌>>=◌, refuse-false}
use alpagym.Payload.{
  Value, Fields, dict, no_fields, field, Hint, mapping, any, Class, Libraries, any_reserved, named,
  is_reserved, tensor_key_marker, dataclass_type_marker, packed, packed_fields, reserved_keys,
}
use alpagym.Payload.Unpack.{
  unpacked, resolved, unpack_body, resolve_body, map_fields, map_class, keyed, by_hint, member,
  entries,
}
use alpagym.Payload.Size.{size, size_fields}
use alpagym.Payload.Fits.{is_null}
use alpagym.Payload.Growth.{Dense, Extends, Extends-refl, Extends-trans}
use alpagym.Payload.Names.{Agrees, Alike, Alike-named, any_reserved-named}
use alpagym.Payload.Sent.{Sent, SentFields, SentClass, extra, extra-le}
use alpagym.Payload.Leaves.{resolved-any}

module _ {T A : Type 0} where
  -- A name of the manifest's own is no field's.
  pub unmarked :
      (n : String) (fs ms : Fields T A)
      → is_reserved n ≡ true
      → any_reserved fs ≡ false
      → Alike fs ms
      → named n ms ≡ false
  unmarked n fs ms r h a = Alike-named n fs ms a ∙ any_reserved-named n fs r h

module _ {T A : Type 0} (lib : Libraries T A) (classes : String → Class) where
  pub sent_no_fields : (h : Hint) (ts : Dict T) → Dense ts → SentFields lib classes h no_fields ts
  unfolding packed map_fields Alike
  sent_no_fields h ts d = record {
    manifest = no_fields;
    tensors = ts;
    packs = refl;
    dense = d;
    grown = Extends-refl ts;
    alike = tt;
    back = λ e f g x le same. refl;
  }

  pub sent_field :
      (h : Hint) (k : String) (v : Value T A) (fs : Fields T A) (ts : Dict T)
      (s : Sent lib classes h v ts)
      → SentFields lib classes h fs s.tensors
      → SentFields lib classes h (field k v fs) ts
  unfolding packed map_fields ◌>>=◌ size Alike
  sent_field h k v fs ts s q = record {
    manifest = field k s.manifest q.manifest;
    tensors = q.tensors;
    packs = rw (s.packs, q.packs) refl;
    dense = q.dense;
    grown = Extends-trans ts s.tensors q.tensors s.grown q.grown;
    alike = (refl, q.alike);
    back = λ e f g x le same.
        rw
          (
            same s.manifest,
            s.back e f (Extends-trans s.tensors q.tensors e q.grown x)
                (omega (arith, le, extra-le h)),
            q.back e f g x (omega (arith, le)) same,
          )
          refl;
  }

  pub sent_no_class : (ts : Dict T) → Dense ts → SentClass lib classes [] no_fields ts
  unfolding packed map_class Alike
  sent_no_class ts d = record {
    manifest = no_fields;
    tensors = ts;
    packs = refl;
    dense = d;
    grown = Extends-refl ts;
    alike = tt;
    back = λ e f whole x le a. refl;
  }

  pub sent_class :
      (k : String) (h : Hint) (sch : List (String × Hint)) (v : Value T A) (fs : Fields T A)
      (ts : Dict T) (s : Sent lib classes h v ts)
      → SentClass lib classes sch fs s.tensors
      → SentClass lib classes ((k, h) ∷ sch) (field k v fs) ts
  unfolding packed map_class keyed ◌>>=◌ size Alike Agrees
  sent_class k h sch v fs ts s q = record {
    manifest = field k s.manifest q.manifest;
    tensors = q.tensors;
    packs = rw (s.packs, q.packs) refl;
    dense = q.dense;
    grown = Extends-trans ts s.tensors q.tensors s.grown q.grown;
    alike = (refl, q.alike);
    back = λ e f whole x le a.
        rw
          (
            a.0,
            s.back e f (Extends-trans s.tensors q.tensors e q.grown x)
                (omega (arith, le, extra-le h)),
            q.back e f whole x (omega (arith, le)) a.1,
          )
          refl;
  }

  member_back :
      (h : Hint) (fs : Fields T A) (ts : Dict T) (q : SentFields lib classes h fs ts) (e : Dict T)
      (f : ℕ)
      → Extends q.tensors e
      → 3 * size_fields fs + 1 ≤ f
      → map_fields (member (unpacked lib classes f e) (resolved lib classes f e) h) q.manifest
        ≡ ok fs
  unfolding member
  member_back any fs ts q e zero x le = absurd (omega arith)
  member_back any fs ts q e (suc f) x le =
      q.back e (suc (suc f)) (resolved lib classes (suc f) e) x (omega (arith, le))
        (λ m. resolved-any lib classes m e f)
  member_back h fs ts q e f x le = q.back e f (unpacked lib classes f e h) x le (λ m. refl)

  packs_dict :
      (fs ms : Fields T A) (ts us : Dict T)
      → any_reserved fs ≡ false
      → packed_fields lib fs ts ≡ ok (ms, us)
      → packed lib (dict fs) ts ≡ ok (dict ms, us)
  unfolding packed ◌>>=◌
  packs_dict fs ms ts us r p = refuse-false reserved_keys r ∙ rw p refl

  pub sent_mapping :
      (h : Hint) (fs : Fields T A) (ts : Dict T)
      → any_reserved fs ≡ false
      → SentFields lib classes h fs ts
      → Sent lib classes (mapping h) (dict fs) ts
  unfolding is_null size extra unpacked unpack_body by_hint entries ◌>>=◌ is_reserved
  sent_mapping h fs ts r q = record {
    manifest = dict q.manifest;
    tensors = q.tensors;
    packs = packs_dict fs q.manifest ts q.tensors r q.packs;
    dense = q.dense;
    grown = q.grown;
    solid = λ n. refl;
    back = needs;
  }
    where
      needs :
          (e : Dict T) (f : ℕ)
          → Extends q.tensors e
          → 3 * size (dict fs) + extra (mapping h) ≤ f
          → unpacked lib classes f e (mapping h) (dict q.manifest) ≡ ok (dict fs)
      needs e zero x le = absurd (omega arith)
      needs e (suc f) x le =
          rw
            (
              unmarked tensor_key_marker fs q.manifest refl r q.alike,
              member_back h fs ts q e f x (omega (arith, le)),
            )
            refl

  pub sent_dict :
      (fs : Fields T A) (ts : Dict T)
      → any_reserved fs ≡ false
      → SentFields lib classes any fs ts
      → Sent lib classes any (dict fs) ts
  unfolding is_null size extra unpacked unpack_body by_hint resolve_body ◌>>=◌ is_reserved
  sent_dict fs ts r q = record {
    manifest = dict q.manifest;
    tensors = q.tensors;
    packs = packs_dict fs q.manifest ts q.tensors r q.packs;
    dense = q.dense;
    grown = q.grown;
    solid = λ n. refl;
    back = needs;
  }
    where
      needs :
          (e : Dict T) (f : ℕ)
          → Extends q.tensors e
          → 3 * size (dict fs) + extra any ≤ f
          → unpacked lib classes f e any (dict q.manifest) ≡ ok (dict fs)
      needs e (suc (suc (suc f))) x le =
          rw
            (
              unmarked tensor_key_marker fs q.manifest refl r q.alike,
              unmarked dataclass_type_marker fs q.manifest refl r q.alike,
              q.back e (suc (suc f)) (resolved lib classes (suc f) e) x (omega (arith, le))
                  (λ m. resolved-any lib classes m e f),
            )
            refl
      needs e zero x le = absurd (omega arith)
      needs e (suc zero) x le = absurd (omega arith)
      needs e (suc (suc zero)) x le = absurd (omega arith)
