-- ===== src/Buffers/Poses.antt =====
-- policies/alpamayo/buffers.py: the ego poses stay in strictly increasing order of time.
use alpagym.Base.{
  ℕ, zero, suc, ◌-◌, ◌<◌, ◌≤◌, ◌≡◌, refl, sym, false, Option, none, some, List, [], ◌∷◌, ◌++◌,
  length, drop, arith, Bool-cases, inl, inr, length-drop, All, subst,
}
use alpagym.Buffers.{EgomotionBuffer, append_pose, append_all, add_poses, last_time, stale}

abbrev pub After : Option ℕ → ℕ → Type 0
After none t = Unit
After (some previous) t = previous < t

module _ {R : Type 0} where
  -- Every pose is later than the one before it, and the first one later than `previous`.
  abbrev pub Increases : Option ℕ → List (ℕ × R) → Type 0
  Increases previous [] = Unit
  Increases previous ((t, r) ∷ l) = After previous t × Increases (some t) l

  -- No pose is later than `previous`, of which there is one if there are poses.
  abbrev Reaches : Option ℕ → List (ℕ × R) → Type 0
  Reaches none l = l ≡ []
  Reaches (some p) l = All (λ q. q.0 ≤ p) l

  Increases-weaken : (o : Option ℕ) (l : List (ℕ × R)) → Increases o l → Increases none l
  Increases-weaken o [] h = tt
  Increases-weaken o ((t, r) ∷ l) h = (tt, h.1)

  Increases-drop : (k : ℕ) (l : List (ℕ × R)) → Increases none l → Increases none (drop k l)
  Increases-drop zero l h = h
  Increases-drop (suc k) [] h = tt
  Increases-drop (suc k) ((t, r) ∷ l) h = Increases-drop k l (Increases-weaken (some t) l h.1)

  Increases-snoc :
      (o : Option ℕ) (l : List (ℕ × R)) (t : ℕ) (r : R)
      → Increases o l
      → All (λ q. q.0 < t) l
      → After o t
      → Increases o (l ++ (t, r) ∷ [])
  Increases-snoc o [] t r h a b = (b, tt)
  Increases-snoc o ((u, s) ∷ l) t r h a b = (h.0, Increases-snoc (some u) l t r h.1 a.1 a.0)

  All-snoc :
      (P : ℕ × R → Type 0) (l : List (ℕ × R)) (x : ℕ × R) → All P l → P x → All P (l ++ x ∷ [])
  All-snoc P [] x h p = (p, tt)
  All-snoc P (y ∷ l) x h p = (h.0, All-snoc P l x h.1 p)

  All-drop : (P : ℕ × R → Type 0) (k : ℕ) (l : List (ℕ × R)) → All P l → All P (drop k l)
  All-drop P zero l h = h
  All-drop P (suc k) [] h = tt
  All-drop P (suc k) (x ∷ l) h = All-drop P k l h.1

  All-le_lt : (p t : ℕ) (l : List (ℕ × R)) → p < t → All (λ q. q.0 ≤ p) l → All (λ q. q.0 < t) l
  All-le_lt p t [] lt h = tt
  All-le_lt p t (x ∷ l) lt h = (omega (arith, lt, h.0), All-le_lt p t l lt h.1)

  All-lt_le : (t : ℕ) (l : List (ℕ × R)) → All (λ q. q.0 < t) l → All (λ q. q.0 ≤ t) l
  All-lt_le t [] h = tt
  All-lt_le t (x ∷ l) h = (omega (arith, h.0), All-lt_le t l h.1)

  earlier :
      (previous : Option ℕ) (t : ℕ) (l : List (ℕ × R))
      → Reaches previous l
      → stale previous t ≡ false
      → All (λ q. q.0 < t) l
  earlier none t [] h e = tt
  earlier none t (x ∷ l) h e = absurd (cc h)
  earlier (some p) t l h e = All-le_lt p t l (ground arith) h

  -- The last pose of an increasing list is the latest.
  last_time-Reaches :
      (x : ℕ × R) (l : List (ℕ × R))
      → Increases none (x ∷ l)
      → (p : ℕ) × (last_time (x ∷ l) ≡ some p) × (x.0 ≤ p) × All (λ q. q.0 ≤ p) l
  last_time-Reaches (t, r) [] h = (t, refl, omega arith, tt)
  last_time-Reaches (t, r) ((u, s) ∷ l) h =
      let (p, e, le, all) = last_time-Reaches (u, s) l (tt, h.1.1) in
      (p, e, omega (arith, le, h.1.0), (le, all))

  abbrev pub Ordered : EgomotionBuffer R → Type 0
  Ordered b = Increases none b.poses × (length b.poses ≤ b.maxlen)

  append_all-Ordered :
      (previous : Option ℕ) (poses : List (ℕ × R)) (b : EgomotionBuffer R)
      → Reaches previous b.poses
      → Ordered b
      → Ordered (append_all previous poses b).1
  append_all-Ordered previous [] b h v = v
  append_all-Ordered previous ((t, r) ∷ poses) b h v = elim (Bool-cases (stale previous t)) [
    | inl e ↦ simp e v
    | inr e ↦
        let l = b.poses ++ (t, r) ∷ [] in
        let k = length l - b.maxlen in
        let lt = earlier previous t b.poses h e in
        simp e (
          append_all-Ordered (some t) poses (append_pose (t, r) b)
            (All-drop (λ q. q.0 ≤ t) k l
              (All-snoc (λ q. q.0 ≤ t) b.poses (t, r) (All-lt_le t b.poses lt) (omega arith)))
            (
              Increases-drop k l (Increases-snoc none b.poses t r v.0 lt tt),
              omega (arith, length-drop k l),
            ))
  ]

  start-Reaches : (l : List (ℕ × R)) → Increases none l → Reaches (last_time l) l
  start-Reaches [] h = refl
  start-Reaches (x ∷ l) h =
      let (p, e, le, all) = last_time-Reaches x l h in
      subst (λ o. Reaches o (x ∷ l)) (sym e) (le, all)

  -- `EgomotionBuffer.add`, whether it returns or raises part of the way, keeps the poses strictly
  -- increasing in time and at most `capacity` many.
  pub add_poses-Ordered :
      (poses : List (ℕ × R)) (b : EgomotionBuffer R) → Ordered b → Ordered (add_poses poses b).1
  unfolding add_poses
  add_poses-Ordered poses b v =
      append_all-Ordered (last_time b.poses) poses b (start-Reaches b.poses v.0) v
