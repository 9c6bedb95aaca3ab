-- ===== src/Base/Outcome.antt =====
-- A call that returns a value or raises an exception of the type `E`.
use mathlib.Core.Path.{◌≡◌, refl}
use mathlib.Core.Bool.{Bool, true, false}

pub data Outcome {ℓ} (E A : Type ℓ) : Type ℓ where
  ok : A → Outcome E A
  raise : E → Outcome E A

infixr 5 ◌>>◌
-- Statements in sequence.
unfoldable pub ◌>>◌ : {E B : Type 0} → Outcome E Unit → Outcome E B → Outcome E B
ok u >> k = k
raise e >> k = raise e

infixl 4 ◌>>=◌
-- A call whose value the next one takes.
unfoldable pub ◌>>=◌ {ℓ} : {E A B : Type ℓ} → Outcome E A → (A → Outcome E B) → Outcome E B
ok a >>= k = k a
raise e >>= k = raise e

-- `if bad: raise e`
unfoldable pub refuse : {E : Type 0} → Bool → E → Outcome E Unit
refuse true e = raise e
refuse false e = ok tt

opened_then :
    {E B : Type 0} (n : Outcome E Unit) (m : Outcome E B) (x : B)
    → (n >> m) ≡ ok x
    → (n ≡ ok tt) × (m ≡ ok x)
unfolding ◌>>◌
opened_then (ok u) m x h = (refl, h)
opened_then (raise e) m x h = absurd (cc h)

opened_refuse : {E : Type 0} (b : Bool) (e : E) → refuse b e ≡ ok tt → b ≡ false
unfolding refuse
opened_refuse true e h = absurd (cc h)
opened_refuse false e h = refl

passed : {E B : Type 0} (b : Bool) (e : E) (m : Outcome E B) → b ≡ false → (refuse b e >> m) ≡ m
unfolding ◌>>◌ refuse
passed false e m h = refl
passed true e m h = absurd (cc h)

module _ {E B : Type 0} {m : Outcome E B} where
  -- A chain that returns has returned from its first call.
  pub then-ok : {n : Outcome E Unit} {x : B} → (n >> m) ≡ ok x → (n ≡ ok tt) × (m ≡ ok x)
  then-ok {n} {x} h = opened_then n m x h

  -- A chain that returns has passed its first guard.
  pub refuse-ok : (e : E) {b : Bool} {x : B} → (refuse b e >> m) ≡ ok x → (b ≡ false) × (m ≡ ok x)
  refuse-ok e {b} {x} h =
      let (guard, rest) = opened_then (refuse b e) m x h in (opened_refuse b e guard, rest)

  -- A chain whose first guard lets through.
  pub refuse-false : (e : E) {b : Bool} → b ≡ false → (refuse b e >> m) ≡ m
  refuse-false e {b} h = passed b e m h

pub refused : {E : Type 0} (e : E) {b : Bool} → refuse b e ≡ ok tt → b ≡ false
refused e {b} h = opened_refuse b e h

-- What a chain returns, its last call has returned from the first one's value.
pub then-value {ℓ} :
    {E A B : Type ℓ} (n : Outcome E A) (k : A → Outcome E B) (x : B)
    → (n >>= k) ≡ ok x
    → (a : A) × ((n ≡ ok a) × (k a ≡ ok x))
unfolding ◌>>=◌
then-value (ok a) k x h = (a, (refl, h))
then-value (raise e) k x h = absurd (cc h)

pub ok-ok {ℓ} : {E A : Type ℓ} (x y : A) → ◌≡◌ {A = Outcome E A} (ok x) (ok y) → x ≡ y
ok-ok x y h = cc h
