-- ===== src/Registry/Balance.antt =====
-- Drivers are spread evenly over the runtimes, and a driver keeps its runtime.
use alpagym.Base.{
  ℕ, zero, suc, ◌≤◌, ◌≡◌, refl, sym, ap, inl, inr, String, true, false, Option, none, some, List,
  [], ◌∷◌, if◌then◌else◌, All, arith, subst, Bool-cases, get_elem?,
}
use alpagym.Base.Texts.{same_text}
use text.Mathlib.TextEquality.{eq_iff}
use alpagym.Registry.{
  TopologyEndpoint, Assignment, Registry, by_id, assigned_to, count_of, key_before, least, assign,
  known, acquire_by, acquire_alpasim_runtime, acquired, acquire_all,
}

-- The runtimes that serve the fewest drivers and the most differ by one driver at most.
unfoldable pub Balanced : List Assignment → List TopologyEndpoint → Type 0
Balanced log es = All (λ e. All (λ f. count_of e.id log ≤ suc (count_of f.id log)) es) es

module _ {A : Type 0} where
  All-get :
      (P : A → Type 0) (xs : List A) (i : ℕ) (x : A) → All P xs → get_elem? xs i ≡ some x → P x
  All-get P [] i x a h = absurd (cc h)
  All-get P (y ∷ xs) zero x a h = let same : y ≡ x = cc h in subst P same a.0
  All-get P (y ∷ xs) (suc i) x a h = All-get P xs i x a.1 h

  get-All :
      (P : A → Type 0) (xs : List A) → ((i : ℕ) (x : A) → get_elem? xs i ≡ some x → P x) → All P xs
  get-All P [] h = tt
  get-All P (y ∷ xs) h = (h 0 y refl, get-All P xs (λ i. h (suc i)))

abbrev Least : List Assignment → TopologyEndpoint → List TopologyEndpoint → Type 0
Least log e es = All (λ f. count_of e.id log ≤ count_of f.id log) es

key_before-le :
    (log : List Assignment) (e f : TopologyEndpoint)
    → key_before log e f ≡ true
    → count_of e.id log ≤ count_of f.id log
unfolding key_before
key_before-le log e f h = ground arith

key_before-false :
    (log : List Assignment) (e f : TopologyEndpoint)
    → key_before log e f ≡ false
    → count_of f.id log ≤ count_of e.id log
unfolding key_before
key_before-false log e f h = ground arith

least-takes :
    (log : List Assignment) (e f : TopologyEndpoint) (fs : List TopologyEndpoint)
    → key_before log f e ≡ true
    → least log e (f ∷ fs) ≡ least log f fs
unfolding least
least-takes log e f fs t = ap (λ b. least log (if b then f else e) fs) t

least-keeps :
    (log : List Assignment) (e f : TopologyEndpoint) (fs : List TopologyEndpoint)
    → key_before log f e ≡ false
    → least log e (f ∷ fs) ≡ least log e fs
unfolding least
least-keeps log e f fs t = ap (λ b. least log (if b then f else e) fs) t

least-le :
    (log : List Assignment) (e : TopologyEndpoint) (es : List TopologyEndpoint)
    → count_of (least log e es).id log ≤ count_of e.id log
unfolding least
least-le log e [] = omega arith
least-le log e (f ∷ fs) = elim (Bool-cases (key_before log f e)) [
  | inl t ↦
      subst (λ m. count_of m.id log ≤ count_of e.id log) (sym (least-takes log e f fs t))
        (omega (arith, least-le log f fs, key_before-le log f e t))
  | inr t ↦
      subst (λ m. count_of m.id log ≤ count_of e.id log) (sym (least-keeps log e f fs t))
        (least-le log e fs)
]

least-Least :
    (log : List Assignment) (e : TopologyEndpoint) (es : List TopologyEndpoint)
    → Least log (least log e es) (e ∷ es)
unfolding least
least-Least log e [] = (omega arith, tt)
least-Least log e (f ∷ fs) = elim (Bool-cases (key_before log f e)) [
  | inl t ↦
      subst (λ m. Least log m (e ∷ f ∷ fs)) (sym (least-takes log e f fs t))
        (omega (arith, least-le log f fs, key_before-le log f e t), least-Least log f fs)
  | inr t ↦
      subst (λ m. Least log m (e ∷ f ∷ fs)) (sym (least-keeps log e f fs t))
        (
          least-le log e fs,
          (omega (arith, least-le log e fs, key_before-false log f e t), (least-Least log e fs).1),
        )
]

-- One more driver on the least used runtime.
step-Balanced :
    (log : List Assignment) (d : String) (m : TopologyEndpoint) (es : List TopologyEndpoint)
    → Least log m es
    → Balanced log es
    → Balanced (record { driver_id = d; alpasim_runtime_id = m.id } ∷ log) es
unfolding Balanced count_of
step-Balanced log d m es l b = get-All _ es (λ i e at_e. get-All _ es (λ j f at_f.
    pair e f (All-get _ es i e l at_e) (All-get _ es j f l at_f)
      (All-get _ es j f (All-get _ es i e b at_e) at_f)))
  where
    pair :
        (e f : TopologyEndpoint)
        → count_of m.id log ≤ count_of e.id log
        → count_of m.id log ≤ count_of f.id log
        → count_of e.id log ≤ suc (count_of f.id log)
        → (if same_text m.id e.id then suc (count_of e.id log) else count_of e.id log)
          ≤ suc (if same_text m.id f.id then suc (count_of f.id log) else count_of f.id log)
    pair e f le lf lef = elim (Bool-cases (same_text m.id e.id)) [
      | inl t ↦
          let c = ap (λ x. count_of x log) ((eq_iff m.id e.id).0 t) in
          ground (arith, t, c, le, lf, lef)
      | inr t ↦ ground (arith, t, le, lf, lef)
    ]

acquired-known : (o : Option TopologyEndpoint) (s : Registry) → acquired (known o s) s ≡ s
unfolding acquired known
acquired-known none s = refl
acquired-known (some e) s = refl

acquire_by-Balanced :
    (d : String) (found : Option String) (es : List TopologyEndpoint) (s : Registry)
    → Balanced s.assignments es
    → Balanced (acquired (acquire_by d found es s) s).assignments es
unfolding acquired acquire_by assign
acquire_by-Balanced d found [] s b = b
acquire_by-Balanced d (some i) (e ∷ es) s b =
    subst (λ t. Balanced t.assignments (e ∷ es)) (sym (acquired-known (by_id i (e ∷ es)) s)) b
acquire_by-Balanced d none (e ∷ es) s b =
    step-Balanced s.assignments d (least s.assignments e es) (e ∷ es)
      (least-Least s.assignments e es) b

runtimes_kept :
    (d : String) (found : Option String) (es : List TopologyEndpoint) (s : Registry)
    → (acquired (acquire_by d found es s) s).alpasim_runtimes ≡ s.alpasim_runtimes
unfolding acquired acquire_by assign known
runtimes_kept d found [] s = refl
runtimes_kept d (some i) (e ∷ es) s =
    ap (λ t. t.alpasim_runtimes) (acquired-known (by_id i (e ∷ es)) s)
runtimes_kept d none (e ∷ es) s = refl

-- If the runtimes are balanced, they still are after any drivers, old and new, have each acquired one.
pub acquire_all-Balanced :
    (ds : List String) (s : Registry)
    → Balanced s.assignments s.alpasim_runtimes
    → Balanced (acquire_all ds s).assignments (acquire_all ds s).alpasim_runtimes
unfolding acquire_all acquire_alpasim_runtime
acquire_all-Balanced [] s b = b
acquire_all-Balanced (d ∷ ds) s b =
    let t = acquired (acquire_alpasim_runtime d s) s in
    acquire_all-Balanced ds t (
      subst (λ es. Balanced t.assignments es)
        (sym (runtimes_kept d (assigned_to d s.assignments) s.alpasim_runtimes s))
        (acquire_by-Balanced d (assigned_to d s.assignments) s.alpasim_runtimes s b))
