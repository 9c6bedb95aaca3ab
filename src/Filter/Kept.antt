-- ===== src/Filter/Kept.antt =====
-- cosmos/rollout_filter.py: what is kept, what is dropped, and what is unlinked.
use mathlib.Core.List.{Permᴰ}
use alpagym.Base.{
  ℕ, zero, suc, ◌≤◌, ◌≡◌, refl, ap, sym, ◌∙◌, Bool, true, false, not, ◌&&◌, ◌||◌, inl, inr, List,
  [], ◌∷◌, ◌++◌, String, any, All, take, drop, take-append-drop, length, length-take, length-drop,
  min, ◌+◌, subst, leb, arith, Bool-cases,
}
use alpagym.Base.Texts.{same_text, same_text_comm, is_empty_text}
use alpagym.Base.Outcome.{ok}
use alpagym.Filter.{
  Rollout, paths, has_duplicate, insert_fresh, sort_fresh, filter_trainable_rollouts, filter_unless,
}

Perm_refl : (rs : List Rollout) → Permᴰ rs rs
Perm_refl [] = Permᴰ.nil
Perm_refl (r ∷ rs) = Permᴰ.cons refl (Perm_refl rs)

insert_fresh-Perm : (r : Rollout) (rs : List Rollout) → Permᴰ (r ∷ rs) (insert_fresh r rs)
insert_fresh-Perm r [] = Perm_refl _
insert_fresh-Perm r (s ∷ rs) = elim (Bool-cases (leb s.weight_version r.weight_version)) [
  | inl t ↦ rw t (Perm_refl _)
  | inr f ↦ rw f (Permᴰ.trans (Permᴰ.swap refl refl) (Permᴰ.cons refl (insert_fresh-Perm r rs)))
]

sort_fresh-Perm : (rs : List Rollout) → Permᴰ rs (sort_fresh rs)
unfolding sort_fresh
sort_fresh-Perm [] = Permᴰ.nil
sort_fresh-Perm (r ∷ rs) =
    Permᴰ.trans (Permᴰ.cons refl (sort_fresh-Perm rs)) (insert_fresh-Perm r (sort_fresh rs))

-- Freshest first.
abbrev Descends : List Rollout → Type 0
Descends [] = Unit
Descends (r ∷ rs) = All (λ s. s.weight_version ≤ r.weight_version) rs × Descends rs

All-insert :
    (P : Rollout → Type 0) (r : Rollout) (rs : List Rollout)
    → P r
    → All P rs
    → All P (insert_fresh r rs)
All-insert P r [] p h = (p, tt)
All-insert P r (s ∷ rs) p h = elim (Bool-cases (leb s.weight_version r.weight_version)) [
  | inl t ↦ rw t (p, h)
  | inr f ↦ rw f (h.0, All-insert P r rs p h.1)
]

All-below :
    (a b : ℕ) (rs : List Rollout)
    → a ≤ b
    → All (λ s. s.weight_version ≤ a) rs
    → All (λ s. s.weight_version ≤ b) rs
All-below a b [] le h = tt
All-below a b (s ∷ rs) le h = (omega (arith, le, h.0), All-below a b rs le h.1)

insert_fresh-Descends :
    (r : Rollout) (rs : List Rollout) → Descends rs → Descends (insert_fresh r rs)
insert_fresh-Descends r [] h = (tt, tt)
insert_fresh-Descends r (s ∷ rs) h = elim (Bool-cases (leb s.weight_version r.weight_version)) [
  | inl t ↦
      let le : s.weight_version ≤ r.weight_version = ground arith in
      rw t ((le, All-below s.weight_version r.weight_version rs le h.0), h)
  | inr f ↦
      let le : r.weight_version ≤ s.weight_version = ground arith in
      rw f (
        All-insert (λ x. x.weight_version ≤ s.weight_version) r rs le h.0,
        insert_fresh-Descends r rs h.1,
      )
]

sort_fresh-Descends : (rs : List Rollout) → Descends (sort_fresh rs)
unfolding sort_fresh
sort_fresh-Descends [] = tt
sort_fresh-Descends (r ∷ rs) = insert_fresh-Descends r (sort_fresh rs) (sort_fresh-Descends rs)

-- Every rollout of the second list is at most as fresh as every one of the first.
abbrev pub Fresher : List Rollout → List Rollout → Type 0
Fresher kept dropped = All (λ k. All (λ d. d.weight_version ≤ k.weight_version) dropped) kept

All-drop : (P : Rollout → Type 0) (n : ℕ) (rs : List Rollout) → All P rs → All P (drop n rs)
All-drop P zero rs h = h
All-drop P (suc n) [] h = tt
All-drop P (suc n) (r ∷ rs) h = All-drop P n rs h.1

split-Fresher : (n : ℕ) (rs : List Rollout) → Descends rs → Fresher (take n rs) (drop n rs)
split-Fresher zero rs h = tt
split-Fresher (suc n) [] h = tt
split-Fresher (suc n) (r ∷ rs) h =
    (All-drop (λ s. s.weight_version ≤ r.weight_version) n rs h.0, split-Fresher n rs h.1)

or-swap : (a b c : Bool) → a || (b || c) ≡ b || (a || c)
or-swap true true c = refl
or-swap true false c = refl
or-swap false b c = refl

-- A rollout's own path, if it has one, and then the paths of the others.
any-cons :
    (q : String → Bool) (r : Rollout) (rs : List Rollout)
    → any q (paths (r ∷ rs))
      ≡ (not (is_empty_text r.completion) && q r.completion) || any q (paths rs)
unfolding paths
any-cons q r rs = elim (Bool-cases (is_empty_text r.completion)) [
  | inl t ↦ rw t refl
  | inr f ↦ rw f refl
]

any-Perm :
    (q : String → Bool) {l l' : List Rollout} → Permᴰ l l' → any q (paths l) ≡ any q (paths l')
any-Perm q Permᴰ.nil = refl
any-Perm q (Permᴰ.cons {a} {b} {l₁} {l₂} e p) =
    rw (any-cons q a l₁, any-cons q b l₂, e, any-Perm q p) refl
any-Perm q (Permᴰ.swap {a} {b} {a'} {b'} {l} e f) =
    rw (any-cons q a (b ∷ l), any-cons q b l, any-cons q a' (b' ∷ l), any-cons q b' l, e, f)
      (or-swap (not (is_empty_text b'.completion) && q b'.completion)
        (not (is_empty_text a'.completion) && q a'.completion) (any q (paths l)))
any-Perm q (Permᴰ.trans p p') = any-Perm q p ∙ any-Perm q p'

duplicate-cons :
    (r : Rollout) (rs : List Rollout)
    → has_duplicate (paths (r ∷ rs))
      ≡ (not (is_empty_text r.completion) && any (same_text r.completion) (paths rs))
        || has_duplicate (paths rs)
unfolding paths
duplicate-cons r rs = elim (Bool-cases (is_empty_text r.completion)) [
  | inl t ↦ rw t refl
  | inr f ↦ rw f refl
]

exchange :
    (x y s a b h : Bool)
    → (x && ((y && s) || a)) || ((y && b) || h) ≡ (y && ((x && s) || b)) || ((x && a) || h)
exchange x y s a b h = ground arith

duplicate-Perm :
    {l l' : List Rollout} → Permᴰ l l' → has_duplicate (paths l) ≡ has_duplicate (paths l')
duplicate-Perm Permᴰ.nil = refl
duplicate-Perm (Permᴰ.cons {a} {b} {l₁} {l₂} e p) =
    rw
      (
        duplicate-cons a l₁,
        duplicate-cons b l₂,
        e,
        any-Perm (same_text b.completion) p,
        duplicate-Perm p,
      )
      refl
duplicate-Perm (Permᴰ.swap {a} {b} {a'} {b'} {l} e f) =
    rw
      (
        duplicate-cons a (b ∷ l),
        duplicate-cons b l,
        duplicate-cons a' (b' ∷ l),
        duplicate-cons b' l,
        e,
        f,
      )
      (rw
        (
          any-cons (same_text b'.completion) a' l,
          any-cons (same_text a'.completion) b' l,
          same_text_comm a'.completion b'.completion,
        )
        (exchange (not (is_empty_text b'.completion)) (not (is_empty_text a'.completion))
          (same_text b'.completion a'.completion) (any (same_text b'.completion) (paths l))
          (any (same_text a'.completion) (paths l)) (has_duplicate (paths l))))
duplicate-Perm (Permᴰ.trans p p') = duplicate-Perm p ∙ duplicate-Perm p'

paths-append : (xs ys : List Rollout) → paths (xs ++ ys) ≡ paths xs ++ paths ys
unfolding paths
paths-append [] ys = refl
paths-append (r ∷ rs) ys = elim (Bool-cases (is_empty_text r.completion)) [
  | inl t ↦ rw t (paths-append rs ys)
  | inr f ↦ rw f (ap (◌∷◌ r.completion) (paths-append rs ys))
]

any-append : (q : String → Bool) (xs ys : List String) → any q (xs ++ ys) ≡ any q xs || any q ys
any-append q [] ys = refl
any-append q (x ∷ xs) ys = elim (Bool-cases (q x)) [
  | inl t ↦ rw t refl
  | inr f ↦ rw f (any-append q xs ys)
]

-- No text of the second list is in the first.
abbrev pub Disjoint : List String → List String → Type 0
Disjoint xs ys = All (λ x. any (same_text x) ys ≡ false) xs

both-false : (a b : Bool) → a || b ≡ false → (a ≡ false) × (b ≡ false)
both-false false b h = (refl, h)
both-false true b h = absurd (cc h)

append-Disjoint : (xs ys : List String) → has_duplicate (xs ++ ys) ≡ false → Disjoint xs ys
append-Disjoint [] ys h = tt
append-Disjoint (x ∷ xs) ys h =
    let (here, rest) = both-false (any (same_text x) (xs ++ ys)) _ h in
    let (_, out) =
      both-false _ (any (same_text x) ys) (sym (any-append (same_text x) xs ys) ∙ here) in
    (out, append-Disjoint xs ys rest)

-- How `rollouts` come apart: `dropped` is what is not kept.
abbrev pub Filters : List Rollout → ℕ → List Rollout → List String → Type 0
Filters rollouts n kept unlinked =
    (dropped : List Rollout) × Permᴰ rollouts (kept ++ dropped)
    × (length kept ≡ min n (length kept + length dropped))
    × Fresher kept dropped
    × (unlinked ≡ paths dropped)
    × Disjoint (paths kept) unlinked

module _ (rollouts : List Rollout) (n : ℕ) where
  sorted-Filters :
      has_duplicate (paths rollouts) ≡ false
      → Filters rollouts n (take n (sort_fresh rollouts)) (paths (drop n (sort_fresh rollouts)))
  sorted-Filters e =
      let s = sort_fresh rollouts in
      let whole = take-append-drop n s in
      (
        drop n s,
        subst (Permᴰ rollouts) (sym whole) (sort_fresh-Perm rollouts),
        omega (arith, length-take n s, length-drop n s),
        split-Fresher n s (sort_fresh-Descends rollouts),
        refl,
        append-Disjoint (paths (take n s)) (paths (drop n s)) (
            ap has_duplicate (sym (paths-append (take n s) (drop n s)) ∙ ap paths whole)
            ∙ sym (duplicate-Perm (sort_fresh-Perm rollouts))
            ∙ e),
      )

  -- When `filter_trainable_rollouts` returns, the kept rollouts and some dropped ones are together
  -- the given ones, in another order; the kept ones are as many as asked for, or all if those
  -- are fewer; no dropped one is fresher than a kept one; the unlinked files are the dropped
  -- ones' artifacts; and no kept rollout's artifact is among them.
  pub filter_trainable_rollouts-Filters :
      (kept : List Rollout) (unlinked : List String)
      → filter_trainable_rollouts rollouts n ≡ ok (kept, unlinked)
      → Filters rollouts n kept unlinked
  unfolding filter_trainable_rollouts
  filter_trainable_rollouts-Filters kept unlinked h =
      by_duplicate (has_duplicate (paths rollouts)) refl h
    where
      by_duplicate :
          (b : Bool)
          → has_duplicate (paths rollouts) ≡ b
          → filter_unless b (sort_fresh rollouts) n ≡ ok (kept, unlinked)
          → Filters rollouts n kept unlinked
      by_duplicate true e h = absurd (cc h)
      by_duplicate false e h =
          let k : take n (sort_fresh rollouts) ≡ kept = cc h in
          let u : paths (drop n (sort_fresh rollouts)) ≡ unlinked = cc h in
          subst (Filters rollouts n kept) u (
            subst (λ x. Filters rollouts n x (paths (drop n (sort_fresh rollouts)))) k
              (sorted-Filters e))
