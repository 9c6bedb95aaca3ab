-- ===== src/Payload/Growth.antt =====
-- How `tensors` grows: `pack` enters each tensor under the number of those before it.
use alpagym.Base.{ℕ, suc, ◌≤◌, ◌≡◌, ◌≢◌, refl, ◌∙◌, false, some, [], ◌∷◌, length, arith}
use alpagym.Base.Dict.{Dict, get, put, has, has-put_ne, has-some}

module _ {V : Type 0} where
  -- Every key is below the number of entries.
  abbrev pub Dense : Dict V → Type 0
  Dense d = (k : ℕ) → length d ≤ k → has k d ≡ false

  abbrev pub Extends : Dict V → Dict V → Type 0
  Extends d e = (k : ℕ) (v : V) → get k d ≡ some v → get k e ≡ some v

  pub length-put_new :
      (k : ℕ) (v : V) (d : Dict V) → has k d ≡ false → length (put k v d) ≡ suc (length d)
  length-put_new k v [] h = refl
  length-put_new k v ((j, u) ∷ d) h = ground (arith, length-put_new k v d)

  pub get-put_self : (k : ℕ) (v : V) (d : Dict V) → get k (put k v d) ≡ some v
  get-put_self k v [] = ground arith
  get-put_self k v ((j, u) ∷ d) = ground (arith, get-put_self k v d)

  pub get-put_ne : (k i : ℕ) (v : V) (d : Dict V) → k ≢ i → get i (put k v d) ≡ get i d
  get-put_ne k i v [] h = ground arith
  get-put_ne k i v ((j, u) ∷ d) h = ground (arith, get-put_ne k i v d h)

  pub put-Dense : (d : Dict V) (v : V) → Dense d → Dense (put (length d) v d)
  put-Dense d v h k le =
      let grown = length-put_new (length d) v d (h (length d) (omega arith)) in
      has-put_ne (length d) k v d (omega (arith, grown, le)) ∙ h k (omega (arith, grown, le))

  pub put-Extends : (d : Dict V) (v : V) → Dense d → Extends d (put (length d) v d)
  put-Extends d v h k w e = get-put_ne (length d) k v d (λ same. clash same) ∙ e
    where
      clash : length d ≡ k → ⊥
      clash same = let u = h k (omega arith) in let t = has-some k d w e in cc

  pub Extends-refl : (d : Dict V) → Extends d d
  Extends-refl d k v e = e

  pub Extends-trans : (d e c : Dict V) → Extends d e → Extends e c → Extends d c
  Extends-trans d e c f g k v h = g k v (f k v h)
