-- ===== src/Payload/Dataclasses.antt =====
-- Dataclasses come back, by the hint or by the marker of their type.
use alpagym.Base.{
  ℕ, zero, suc, ◌+◌, ◌*◌, ◌≤◌, ◌≡◌, refl, ◌∙◌, String, true, false, List, [], ◌∷◌, arith,
}
use alpagym.Base.Dict.{Dict}
use alpagym.Base.Outcome.{ok, ◌>>=◌, ◌>>◌, refuse}
use alpagym.Payload.{
  Value, Fields, str, dict, dataclass, Hint, dataclass_hint, any, Class, fields_of, Libraries,
  Result, any_reserved, named, put_field, is_reserved, tensor_key_marker, dataclass_type_marker,
  packed,
}
use alpagym.Payload.Unpack.{
  is_allowed, unpacked, unpack_body, resolve_body, map_class, by_hint, typed, keywords,
  reconstruct_dataclass, rebuilt,
}
use alpagym.Payload.Size.{size}
use alpagym.Payload.Fits.{is_null, Distinct}
use alpagym.Payload.Growth.{Extends}
use alpagym.Payload.Names.{
  Agrees, Alike, Distinct-Agrees, Agrees-put_field, Alike-Distinct, named-put_field_ne,
  named-put_field_self, lookup-put_field_self,
}
use alpagym.Payload.Sent.{Sent, SentClass, extra}
use alpagym.Payload.Mappings.{unmarked}

module _ {T A : Type 0} (lib : Libraries T A) (classes : String → Class) where
  -- A packed dataclass: its fields and the marker of its type.
  marked : String → Fields T A → Fields T A
  marked c ms = put_field dataclass_type_marker (str c) ms

  marked-Agrees :
      (c : String) (fs ms : Fields T A)
      → any_reserved fs ≡ false
      → Distinct fs
      → Alike fs ms
      → Agrees ms (marked c ms)
  unfolding marked is_reserved
  marked-Agrees c fs ms r d a =
      Agrees-put_field dataclass_type_marker (str c) ms ms
        (unmarked dataclass_type_marker fs ms refl r a)
        (Distinct-Agrees ms (Alike-Distinct fs ms a d))

  marked_untensored :
      (c : String) (fs ms : Fields T A)
      → any_reserved fs ≡ false
      → Alike fs ms
      → named tensor_key_marker (marked c ms) ≡ false
  unfolding marked is_reserved
  marked_untensored c fs ms r a =
      named-put_field_ne dataclass_type_marker tensor_key_marker (str c) ms refl
      ∙ unmarked tensor_key_marker fs ms refl r a

  keywords-map_class :
      (u : Hint → Value T A → Result (Value T A)) (sch : List (String × Hint)) (whole : Fields T A)
      → keywords u sch (dict whole) ≡ map_class u sch whole
  unfolding keywords map_class
  keywords-map_class u [] whole = refl
  keywords-map_class u ((n, h) ∷ sch) whole = refl

  pub sent_dataclass :
      (c : String) (sch : List (String × Hint)) (fs : Fields T A) (ts : Dict T)
      → classes c ≡ fields_of sch
      → any_reserved fs ≡ false
      → Distinct fs
      → SentClass lib classes sch fs ts
      → Sent lib classes (dataclass_hint c) (dataclass c fs) ts
  unfolding packed is_null size extra unpacked unpack_body by_hint typed ◌>>=◌ marked
  sent_dataclass c sch fs ts known r d q = record {
    manifest = dict (marked c q.manifest);
    tensors = q.tensors;
    packs = rw q.packs refl;
    dense = q.dense;
    grown = q.grown;
    solid = λ n. refl;
    back = needs;
  }
    where
      needs :
          (e : Dict T) (f : ℕ)
          → Extends q.tensors e
          → 3 * size (dataclass c fs) + extra (dataclass_hint c) ≤ f
          → unpacked lib classes f e (dataclass_hint c) (dict (marked c q.manifest))
            ≡ ok (dataclass c fs)
      needs e zero x le = absurd (omega arith)
      needs e (suc f) x le =
          let whole = marked c q.manifest in
          rw
            (
              marked_untensored c fs q.manifest r q.alike,
              known,
              keywords-map_class (unpacked lib classes f e) sch whole,
              q.back e f whole x (omega (arith, le)) (marked-Agrees c fs q.manifest r d q.alike),
            )
            refl

  pub sent_untyped :
      (c : String) (sch : List (String × Hint)) (fs : Fields T A) (ts : Dict T)
      → classes c ≡ fields_of sch
      → is_allowed c ≡ true
      → any_reserved fs ≡ false
      → Distinct fs
      → SentClass lib classes sch fs ts
      → Sent lib classes any (dataclass c fs) ts
  unfolding packed is_null size extra unpacked unpack_body by_hint resolve_body
      reconstruct_dataclass rebuilt refuse ◌>>◌ ◌>>=◌ marked
  sent_untyped c sch fs ts known al r d q = record {
    manifest = dict (marked c q.manifest);
    tensors = q.tensors;
    packs = rw q.packs refl;
    dense = q.dense;
    grown = q.grown;
    solid = λ n. refl;
    back = needs;
  }
    where
      needs :
          (e : Dict T) (f : ℕ)
          → Extends q.tensors e
          → 3 * size (dataclass c fs) + extra any ≤ f
          → unpacked lib classes f e any (dict (marked c q.manifest)) ≡ ok (dataclass c fs)
      needs e zero x le = absurd (omega arith)
      needs e (suc zero) x le = absurd (omega arith)
      needs e (suc (suc f)) x le =
          let whole = marked c q.manifest in
          rw
            (
              marked_untensored c fs q.manifest r q.alike,
              named-put_field_self dataclass_type_marker (str c) q.manifest,
              lookup-put_field_self dataclass_type_marker (str c) q.manifest,
              al,
              known,
              q.back e f whole x (omega (arith, le)) (marked-Agrees c fs q.manifest r d q.alike),
            )
            refl
