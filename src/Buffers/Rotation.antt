-- ===== src/Buffers/Rotation.antt =====
-- Lists under the ring of camera frames: a window that a write rotates.
use native.Mathlib.Nat.{suc-mod, mod-eq_of_lt, mod_self, mod-lt}
use alpagym.Base.{
  ℕ, zero, suc, ◌%◌, ◌<◌, ◌≤◌, ltb, ◌≡◌, refl, ap, sym, ◌∙◌, inl, inr, List, [], ◌∷◌, ◌++◌,
  if◌then◌else◌, length, set, take, drop, arith, length-set, Bool-cases,
}

unfoldable pub next_slot : ℕ → ℕ → ℕ
next_slot s c = if ltb (suc s) c then suc s else 0

module _ {A : Type 0} where
  pub take-set :
      (xs : List A) (i : ℕ) (v : A)
      → i < length xs
      → take (suc i) (set xs i v) ≡ take i xs ++ v ∷ []
  take-set [] i v h = absurd (omega arith)
  take-set (x ∷ xs) zero v h = refl
  take-set (x ∷ xs) (suc i) v h = ap (◌∷◌ x) (take-set xs i v (omega arith))

  drop-set : (xs : List A) (i : ℕ) (v : A) → drop (suc i) (set xs i v) ≡ drop (suc i) xs
  drop-set [] i v = refl
  drop-set (x ∷ xs) zero v = refl
  drop-set (x ∷ xs) (suc i) v = drop-set xs i v

  drop-one : (i : ℕ) (xs : List A) → drop 1 (drop i xs) ≡ drop (suc i) xs
  drop-one zero xs = refl
  drop-one (suc i) [] = refl
  drop-one (suc i) (x ∷ xs) = drop-one i xs

  drop-append : (k : ℕ) (xs ys : List A) → k ≤ length xs → drop k (xs ++ ys) ≡ drop k xs ++ ys
  drop-append zero xs ys h = refl
  drop-append (suc k) [] ys h = absurd (omega arith)
  drop-append (suc k) (x ∷ xs) ys h = drop-append k xs ys (omega arith)

  drop_one-append : (xs ys : List A) → 0 < length xs → drop 1 (xs ++ ys) ≡ drop 1 xs ++ ys
  drop_one-append [] ys h = absurd (omega arith)
  drop_one-append (x ∷ xs) ys h = refl

  pub drop_all : (n : ℕ) (xs : List A) → length xs ≤ n → drop n xs ≡ []
  drop_all zero [] h = refl
  drop_all zero (x ∷ xs) h = absurd (omega arith)
  drop_all (suc n) [] h = refl
  drop_all (suc n) (x ∷ xs) h = drop_all n xs (omega arith)

  take_all : (n : ℕ) (xs : List A) → length xs ≤ n → take n xs ≡ xs
  take_all zero [] h = refl
  take_all zero (x ∷ xs) h = absurd (omega arith)
  take_all (suc n) [] h = refl
  take_all (suc n) (x ∷ xs) h = ap (◌∷◌ x) (take_all n xs (omega arith))

  pub append_nil : (xs : List A) → xs ++ [] ≡ xs
  append_nil [] = refl
  append_nil (x ∷ xs) = ap (◌∷◌ x) (append_nil xs)

  append_assoc : (xs ys zs : List A) → (xs ++ ys) ++ zs ≡ xs ++ (ys ++ zs)
  append_assoc [] ys zs = refl
  append_assoc (x ∷ xs) ys zs = ap (◌∷◌ x) (append_assoc xs ys zs)

  length-drop_pos : (i : ℕ) (xs : List A) → i < length xs → 0 < length (drop i xs)
  length-drop_pos i [] h = absurd (omega arith)
  length-drop_pos zero (x ∷ xs) h = omega arith
  length-drop_pos (suc i) (x ∷ xs) h = length-drop_pos i xs (omega arith)

  -- A ring read from its next slot: a write drops the oldest entry and appends the new one.
  abbrev pub rotation : ℕ → List A → List A
  rotation s xs = drop s xs ++ take s xs

  pub rotation-set :
      (s : ℕ) (xs : List A) (v : A)
      → s < length xs
      → rotation (next_slot s (length xs)) (set xs s v) ≡ drop (suc s) xs ++ (take s xs ++ v ∷ [])
  unfolding next_slot
  rotation-set s xs v h = elim (Bool-cases (ltb (suc s) (length xs))) [
    | inl t ↦ rw (t, drop-set xs s v, take-set xs s v h) refl
    | inr f ↦
        let last : length xs ≡ suc s = ground arith in
        rw (f, append_nil (set xs s v), drop_all (suc s) xs (omega (arith, last)))
          (sym (take_all (suc s) (set xs s v) (omega (arith, last, length-set xs s v)))
            ∙ take-set xs s v h)
  ]

  pub rotation-step :
      (s k : ℕ) (xs h : List A) (v : A)
      → s < length xs
      → k < length h
      → rotation s xs ≡ drop k h
      → rotation (next_slot s (length xs)) (set xs s v) ≡ drop (suc k) (h ++ v ∷ [])
  rotation-step s k xs h v lt lt' e =
      rotation-set s xs v lt
      ∙ ap (λ l. l ++ (take s xs ++ v ∷ [])) (sym (drop-one s xs))
      ∙ sym (append_assoc (drop 1 (drop s xs)) (take s xs) (v ∷ []))
      ∙ ap (λ l. l ++ v ∷ [])
          (sym (drop_one-append (drop s xs) (take s xs) (length-drop_pos s xs lt))
            ∙ ap (drop 1) e
            ∙ drop-one k h)
      ∙ sym (drop-append (suc k) h (v ∷ []) (omega arith))

pub slot-suc : (n c : ℕ) → 0 < c → suc n % c ≡ next_slot (n % c) c
unfolding next_slot
slot-suc n c pos = elim (Bool-cases (ltb (suc (n % c)) c)) [
  | inl t ↦ rw t (suc-mod n c ∙ mod-eq_of_lt (ground arith))
  | inr f ↦
      let lt : n % c < c = mod-lt n pos in
      let e : suc (n % c) ≡ c = ground arith in rw f (suc-mod n c ∙ ap (λ x. x % c) e ∙ mod_self c)
]
