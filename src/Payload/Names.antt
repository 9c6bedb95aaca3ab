-- ===== src/Payload/Names.antt =====
-- Reading a packed dataclass by the names of its fields.
use alpagym.Base.{◌≡◌, refl, ap, arith, ◌∙◌, sym, inl, inr, String, true, false, some, Bool-cases}
use alpagym.Base.Texts.{same_text, same_text_comm, same_text_refl}
use text.Mathlib.TextEquality.{eq_iff}
use alpagym.Payload.{
  Value, Fields, no_fields, field, named, lookup, put_field, any_reserved, is_reserved,
}
use alpagym.Payload.Fits.{Distinct}

module _ {T A : Type 0} where
  -- Each entry of the first dict is what the second one gives for its name.
  unfoldable pub Agrees : Fields T A → Fields T A → Type 0
  Agrees no_fields whole = Unit
  Agrees (field k v fs) whole = (lookup k whole ≡ some v) × Agrees fs whole

  -- The same names in the same places.
  unfoldable pub Alike : Fields T A → Fields T A → Type 0
  Alike no_fields no_fields = Unit
  Alike (field k v fs) (field j u ms) = (k ≡ j) × Alike fs ms
  Alike _ _ = ⊥

  -- An entry under another name, in front.
  Agrees-field :
      (k : String) (v : Value T A) (fs whole : Fields T A)
      → named k fs ≡ false
      → Agrees fs whole
      → Agrees fs (field k v whole)
  unfolding Agrees lookup named
  Agrees-field k v no_fields whole h a = tt
  Agrees-field k v (field j u fs) whole h a =
      let e = same_text_comm k j in
      (ground (arith, e), Agrees-field k v fs whole (ground arith) a.1)

  pub Distinct-Agrees : (fs : Fields T A) → Distinct fs → Agrees fs fs
  unfolding Agrees Distinct lookup
  Distinct-Agrees no_fields d = tt
  Distinct-Agrees (field k v fs) d =
      let e = same_text_refl k in
      (ground (arith, e), Agrees-field k v fs fs d.0 (Distinct-Agrees fs d.1))

  pub lookup-put_field_self :
      (k : String) (v : Value T A) (fs : Fields T A) → lookup k (put_field k v fs) ≡ some v
  unfolding lookup put_field
  lookup-put_field_self k v no_fields = let e = same_text_refl k in ground (arith, e)
  lookup-put_field_self k v (field j u fs) =
      let e = same_text_refl k in ground (arith, e, lookup-put_field_self k v fs)

  pub lookup-put_field_ne :
      (k n : String) (v : Value T A) (fs : Fields T A)
      → same_text k n ≡ false
      → lookup n (put_field k v fs) ≡ lookup n fs
  unfolding lookup put_field
  lookup-put_field_ne k n v no_fields h = ground arith
  lookup-put_field_ne k n v (field j u fs) h = elim (Bool-cases (same_text j k)) [
    | inl t ↦ let e = (eq_iff j k).0 t in let q = ap (λ x. same_text x n) e in ground (arith, q)
    | inr f ↦ ground (arith, lookup-put_field_ne k n v fs h)
  ]

  pub Alike-named : (n : String) (fs ms : Fields T A) → Alike fs ms → named n ms ≡ named n fs
  unfolding Alike named
  Alike-named n no_fields no_fields a = refl
  Alike-named n (field k v fs) (field j u ms) (same, a) =
      let e = ap (λ x. same_text x n) same in ground (arith, e, Alike-named n fs ms a)
  Alike-named n no_fields (field j u ms) a = absurd a
  Alike-named n (field k v fs) no_fields a = absurd a

  pub Alike-Distinct : (fs ms : Fields T A) → Alike fs ms → Distinct fs → Distinct ms
  unfolding Alike Distinct
  Alike-Distinct no_fields no_fields a d = tt
  Alike-Distinct (field k v fs) (field j u ms) (same, a) d =
      (Alike-named j fs ms a ∙ sym (ap (λ x. named x fs) same) ∙ d.0, Alike-Distinct fs ms a d.1)
  Alike-Distinct no_fields (field j u ms) a d = absurd a
  Alike-Distinct (field k v fs) no_fields a d = absurd a

  pub any_reserved-named :
      (n : String) (fs : Fields T A)
      → is_reserved n ≡ true
      → any_reserved fs ≡ false
      → named n fs ≡ false
  unfolding any_reserved named
  any_reserved-named n no_fields r h = refl
  any_reserved-named n (field k v fs) r h = elim (Bool-cases (same_text k n)) [
    | inl t ↦ let e = (eq_iff k n).0 t in let q = ap is_reserved e in ground (arith, q)
    | inr f ↦ let ih = any_reserved-named n fs r in ground (arith, ih)
  ]

  pub named-put_field_ne :
      (k n : String) (v : Value T A) (fs : Fields T A)
      → same_text k n ≡ false
      → named n (put_field k v fs) ≡ named n fs
  unfolding named put_field
  named-put_field_ne k n v no_fields h = ground arith
  named-put_field_ne k n v (field j u fs) h = elim (Bool-cases (same_text j k)) [
    | inl t ↦ let e = (eq_iff j k).0 t in let q = ap (λ x. same_text x n) e in ground (arith, q)
    | inr f ↦ ground (arith, named-put_field_ne k n v fs h)
  ]

  pub named-put_field_self :
      (k : String) (v : Value T A) (fs : Fields T A) → named k (put_field k v fs) ≡ true
  unfolding named put_field
  named-put_field_self k v no_fields = let e = same_text_refl k in ground (arith, e)
  named-put_field_self k v (field j u fs) =
      let e = same_text_refl k in ground (arith, e, named-put_field_self k v fs)

  -- The marker of the type leaves the fields readable.
  pub Agrees-put_field :
      (k : String) (v : Value T A) (ms whole : Fields T A)
      → named k ms ≡ false
      → Agrees ms whole
      → Agrees ms (put_field k v whole)
  unfolding Agrees named
  Agrees-put_field k v no_fields whole h a = tt
  Agrees-put_field k v (field j u ms) whole h a = (
    lookup-put_field_ne k j v whole (same_text_comm k j ∙ ground arith) ∙ a.0,
    Agrees-put_field k v ms whole (ground arith) a.1,
  )
