-- ===== src/Base/Dict.antt =====
-- Python's dict with numbers for keys, in insertion order.
use Prim.Native.Nat.{ℕ, suc, ◌≤◌}
use mathlib.Core.Path.{◌≡◌, refl}
use mathlib.Core.Bool.{Bool, true, false}
use mathlib.Core.Logic.{◌≢◌}
use mathlib.Core.List.{List, [], ◌∷◌}
use mathlib.Core.Option.{Option, none, some}
use native.Mathlib.Omega.{arith}
use alpagym.Base.Tests.{◌==◌, if◌then◌else◌}
use alpagym.Base.Lists.{length}

abbrev pub Dict : Type 0 → Type 0
Dict V = List (ℕ × V)

module _ {V : Type 0} where
  -- `d.get(k)`
  abbrev pub get : ℕ → Dict V → Option V
  get k [] = none
  get k ((j, v) ∷ d) = if j == k then some v else get k d

  -- `k in d`
  abbrev pub has : ℕ → Dict V → Bool
  has k [] = false
  has k ((j, v) ∷ d) = if j == k then true else has k d

  -- `d[k] = v`: an existing key keeps its place.
  abbrev pub put : ℕ → V → Dict V → Dict V
  put k v [] = (k, v) ∷ []
  put k v ((j, u) ∷ d) = let rest = put k v d in if j == k then (j, v) ∷ d else (j, u) ∷ rest

  -- `d.pop(k, None)`
  abbrev pub pop : ℕ → Dict V → Dict V
  pop k [] = []
  pop k ((j, v) ∷ d) = let rest = pop k d in if j == k then rest else (j, v) ∷ rest

  pub has-pop_self : (k : ℕ) (d : Dict V) → has k (pop k d) ≡ false
  has-pop_self k [] = refl
  has-pop_self k ((j, v) ∷ d) = ground (arith, has-pop_self k d)

  pub has-pop_ne : (k i : ℕ) (d : Dict V) → k ≢ i → has i (pop k d) ≡ has i d
  has-pop_ne k i [] h = refl
  has-pop_ne k i ((j, v) ∷ d) h = ground (arith, has-pop_ne k i d h)

  pub has-put_self : (k : ℕ) (v : V) (d : Dict V) → has k (put k v d) ≡ true
  has-put_self k v [] = ground arith
  has-put_self k v ((j, u) ∷ d) = ground (arith, has-put_self k v d)

  pub has-put_ne : (k i : ℕ) (v : V) (d : Dict V) → k ≢ i → has i (put k v d) ≡ has i d
  has-put_ne k i v [] h = ground arith
  has-put_ne k i v ((j, u) ∷ d) h = ground (arith, has-put_ne k i v d h)

  pub length-pop : (k : ℕ) (d : Dict V) → length (pop k d) ≤ length d
  length-pop k [] = omega arith
  length-pop k ((j, v) ∷ d) = ground (arith, length-pop k d)

  pub length-put : (k : ℕ) (v : V) (d : Dict V) → length (put k v d) ≤ suc (length d)
  length-put k v [] = omega arith
  length-put k v ((j, u) ∷ d) = ground (arith, length-put k v d)

  pub length-put-has : (k : ℕ) (v : V) (d : Dict V) → has k d ≡ true → length (put k v d) ≡ length d
  length-put-has k v [] h = cc
  length-put-has k v ((j, u) ∷ d) h = ground (arith, length-put-has k v d)

  pub pop_absent : (k : ℕ) (d : Dict V) → has k d ≡ false → pop k d ≡ d
  pop_absent k [] h = refl
  pop_absent k ((j, v) ∷ d) h = ground (arith, pop_absent k d)

  pub get-none : (k : ℕ) (d : Dict V) → get k d ≡ none → has k d ≡ false
  get-none k [] h = refl
  get-none k ((j, v) ∷ d) h = ground (arith, get-none k d)

  pub has-some : (k : ℕ) (d : Dict V) (v : V) → get k d ≡ some v → has k d ≡ true
  has-some k [] v h = cc
  has-some k ((j, u) ∷ d) v h = ground (arith, has-some k d v)
