-- ===== src/Registry/Sticky.antt =====
-- A driver keeps its runtime.
use alpagym.Base.{
  ◌≡◌, refl, sym, ap, ◌∙◌, inl, inr, String, Bool, true, false, Option, none, some, List, [], ◌∷◌,
  if◌then◌else◌, arith, subst, Bool-cases, Option-cases,
}
use alpagym.Base.Texts.{same_text, same_text_refl}
use text.Mathlib.TextEquality.{eq_iff}
use alpagym.Base.Outcome.{ok, ok-ok}
use alpagym.Registry.{
  TopologyEndpoint, Assignment, Registry, by_id, later_or, has_id, assigned_to, key_before, least,
  assign, known, acquire_by, acquire_alpasim_runtime,
}

has_id-least :
    (log : List Assignment) (e : TopologyEndpoint) (es : List TopologyEndpoint)
    → has_id (least log e es).id (e ∷ es) ≡ true
unfolding has_id least
has_id-least log e [] = let t = same_text_refl e.id in ground (arith, t)
has_id-least log e (f ∷ fs) =
    either (key_before log f e) (has_id-least log f fs) (has_id-least log e fs)
  where
    either :
        (b : Bool)
        → has_id (least log f fs).id (f ∷ fs) ≡ true
        → has_id (least log e fs).id (e ∷ fs) ≡ true
        → has_id (least log (if b then f else e) fs).id (e ∷ f ∷ fs) ≡ true
    either true h g = ground (arith, h)
    either false h g = ground (arith, g)

by_id-id :
    (i : String) (es : List TopologyEndpoint) (f : TopologyEndpoint)
    → by_id i es ≡ some f
    → f.id ≡ i
unfolding by_id later_or
by_id-id i [] f h = absurd (cc h)
by_id-id i (e ∷ es) f h = elim (Option-cases (by_id i es)) [
  | inl n ↦ elim (Bool-cases (same_text e.id i)) [
    | inl t ↦
        let same : e ≡ f = ground (arith, h, n, t) in
        ap (λ x. x.id) (sym same) ∙ (eq_iff e.id i).0 t
    | inr t ↦ absurd (ground (arith, h, n, t))
  ]
  | inr (g, found) ↦
      let same : g ≡ f = ground (arith, h, found) in
      ap (λ x. x.id) (sym same) ∙ by_id-id i es g found
]

by_id-has_id :
    (i : String) (es : List TopologyEndpoint)
    → has_id i es ≡ true
    → (f : TopologyEndpoint) × ((by_id i es ≡ some f) × (f.id ≡ i))
unfolding has_id by_id later_or
by_id-has_id i [] h = absurd (cc h)
by_id-has_id i (e ∷ es) h = elim (Option-cases (by_id i es)) [
  | inr (g, found) ↦ (g, (rw found refl, by_id-id i es g found))
  | inl n ↦ elim (Bool-cases (same_text e.id i)) [
    | inl t ↦ (e, (rw (n, t) refl, (eq_iff e.id i).0 t))
    | inr t ↦
        let (g, (found, same)) = by_id-has_id i es (ground (arith, h, t)) in absurd (cc (found, n))
  ]
]

known-ok :
    (o : Option TopologyEndpoint) (s t : Registry) (e : TopologyEndpoint)
    → known o s ≡ ok (e, t)
    → s ≡ t
unfolding known
known-ok none s t e h = absurd (cc h)
known-ok (some f) s t e h = cc h

-- The endpoint that was chosen is found again by its id.
found_again :
    (d : String) (x : TopologyEndpoint) (xs : List TopologyEndpoint) (s : Registry)
    → s.alpasim_runtimes ≡ x ∷ xs
    → let m = least s.assignments x xs in
      let u = assign d m.id s in
      (f : TopologyEndpoint) × ((acquire_alpasim_runtime d u ≡ ok (f, u)) × (f.id ≡ m.id))
unfolding acquire_alpasim_runtime acquire_by assign assigned_to known
found_again d x xs s r =
    let m = least s.assignments x xs in
    let (f, (found, same)) = by_id-has_id m.id (x ∷ xs) (has_id-least s.assignments x xs) in
    (f, (simp (r, same_text_refl d, found) refl, same))

again_by :
    (d : String) (found : Option String) (es : List TopologyEndpoint) (s t : Registry)
    (e : TopologyEndpoint)
    → s.alpasim_runtimes ≡ es
    → acquire_alpasim_runtime d s ≡ ok (e, t)
    → acquire_by d found es s ≡ ok (e, t)
    → (f : TopologyEndpoint) × ((acquire_alpasim_runtime d t ≡ ok (f, t)) × (f.id ≡ e.id))
unfolding acquire_by
again_by d found [] s t e r whole h = absurd (cc h)
again_by d (some i) (x ∷ xs) s t e r whole h = (
  e,
  (
    subst (λ u. acquire_alpasim_runtime d u ≡ ok (e, t)) (known-ok (by_id i (x ∷ xs)) s t e h)
        whole,
    refl,
  ),
)
again_by d none (x ∷ xs) s t e r whole h =
    let same =
      ok-ok (least s.assignments x xs, assign d (least s.assignments x xs).id s) (e, t) h in
    subst
      (λ p.
        (f : TopologyEndpoint) × ((acquire_alpasim_runtime d p.1 ≡ ok (f, p.1)) × (f.id ≡ p.0.id)))
      same (found_again d x xs s r)

-- A driver that asks again is given a runtime of the same id, and nothing changes.
pub acquire-again :
    (d : String) (s t : Registry) (e : TopologyEndpoint)
    → acquire_alpasim_runtime d s ≡ ok (e, t)
    → (f : TopologyEndpoint) × ((acquire_alpasim_runtime d t ≡ ok (f, t)) × (f.id ≡ e.id))
unfolding acquire_alpasim_runtime
acquire-again d s t e h = again_by d (assigned_to d s.assignments) s.alpasim_runtimes s t e refl h h
