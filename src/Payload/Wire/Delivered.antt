-- ===== src/Payload/Wire/Delivered.antt =====
-- What is received is what was sent.
use alpagym.Base.{
  ℕ, ◌≡◌, refl, sym, ap, ◌∙◌, inl, inr, Bool, true, false, none, some, List, [], ◌∷◌, map, ◌==◌,
  ◌||◌, if◌then◌else◌, arith, Bool-cases, subst,
}
use alpagym.Base.Dict.{Dict, get, put, has}
use alpagym.Base.Outcome.{ok, ◌>>=◌}
use alpagym.Payload.Specs.{TensorSpec}
use alpagym.Payload.Growth.{get-put_self, get-put_ne}
use alpagym.Payload.Wire.{
  keys, insert_key, sorted, entry, send_each, send_registered_transfer, recv_each, do_nccl_recv,
}

abbrev pub member : ℕ → List ℕ → Bool
member n [] = false
member n (k ∷ ks) = (k == n) || member n ks

module _ (before : ℕ → ℕ → Bool) where
  member-insert_key :
      (n k : ℕ) (ks : List ℕ) → member n (insert_key before k ks) ≡ ((k == n) || member n ks)
  unfolding insert_key
  member-insert_key n k [] = refl
  member-insert_key n k (j ∷ ks) = ground (arith, member-insert_key n k ks)

  member-sorted : (n : ℕ) (ks : List ℕ) → member n (sorted before ks) ≡ member n ks
  unfolding sorted
  member-sorted n [] = refl
  member-sorted n (k ∷ ks) =
      member-insert_key n k (sorted before ks) ∙ ap (λ b. (k == n) || b) (member-sorted n ks)

module _ {V : Type 0} where
  member-keys : (n : ℕ) (d : Dict V) → member n (keys d) ≡ has n d
  unfolding keys
  member-keys n [] = refl
  member-keys n ((k, v) ∷ d) = ground (arith, member-keys n d)

  absent-get : (n : ℕ) (d : Dict V) → has n d ≡ false → get n d ≡ none
  absent-get n [] h = refl
  absent-get n ((k, v) ∷ d) h = ground (arith, absent-get n d)

  present-get : (n : ℕ) (d : Dict V) → has n d ≡ true → (v : V) × (get n d ≡ some v)
  present-get n [] h = absurd (cc h)
  present-get n ((k, v) ∷ d) h = elim (Bool-cases (k == n)) [
    | inl e ↦ (v, rw e refl)
    | inr e ↦ let (u, g) = present-get n d (ground (arith, e, h)) in (u, rw e g)
  ]

  first_or_later :
      (k n : ℕ) (v : V) (ks : List ℕ) (d received : Dict V)
      → get k d ≡ some v
      → (if member n ks then get n d else get n (put k v received))
        ≡ (if (k == n) || member n ks then get n d else get n received)
  first_or_later k n v ks d received g = elim (Bool-cases (member n ks)) [
    | inl m ↦ elim (Bool-cases (k == n)) [ inl e ↦ rw (m, e) refl | inr e ↦ rw (m, e) refl ]
    | inr m ↦ elim (Bool-cases (k == n)) [
      | inl e ↦
          rw (m, e)
            (subst (λ x. get x (put k v received) ≡ get x d) (ground (arith, e))
              (get-put_self k v received ∙ sym g))
      | inr e ↦ rw (m, e) (get-put_ne k n v received (λ q. ground (arith, e, q)))
    ]
  ]

module _ {T : Type 0} (before : ℕ → ℕ → Bool) (fill : TensorSpec → T → T) (spec : T → TensorSpec)
    (filled : (t : T) → fill (spec t) t ≡ t) where
  abbrev pub specs_with : Dict T → Dict TensorSpec
  specs_with ts = map (λ entry. (entry.0, spec entry.1)) ts

  keys-specs : (ts : Dict T) → keys (specs_with ts) ≡ keys ts
  unfolding keys
  keys-specs [] = refl
  keys-specs ((k, t) ∷ ts) = ap (λ ks. k ∷ ks) (keys-specs ts)

  get-specs :
      (n : ℕ) (ts : Dict T) (t : T) → get n ts ≡ some t → get n (specs_with ts) ≡ some (spec t)
  get-specs n [] t h = absurd (cc h)
  get-specs n ((k, u) ∷ ts) t h = elim (Bool-cases (k == n)) [
    | inl e ↦ rw e (let s : u ≡ t = ground (arith, e, h) in ap (λ x. some (spec x)) s)
    | inr e ↦ rw e (get-specs n ts t (ground (arith, e, h)))
  ]

  each_delivered :
      (ks : List ℕ) (ts received : Dict T)
      → ((n : ℕ) → member n ks ≡ true → has n ts ≡ true)
      → (sent : List T) × ((send_each ts ks ≡ ok sent)
          × ((got : Dict T) × ((recv_each fill (specs_with ts) ks sent received ≡ ok got)
                × ((n : ℕ) → get n got ≡ (if member n ks then get n ts else get n received)))))
  unfolding send_each recv_each ◌>>=◌ entry
  each_delivered [] ts received h = ([], (refl, (received, (refl, λ n. refl))))
  each_delivered (k ∷ ks) ts received h =
      let (t, g) = present-get k ts (h k (ground arith)) in
      let (sent, (s, (got, (r, eq)))) =
        each_delivered ks ts (put k t received) (λ n m. h n (ground (arith, m))) in
      (
        t ∷ sent,
        (
          rw (g, s) refl,
          (
            got,
            (
              rw (get-specs k ts t g, filled t, r) refl,
              λ n. eq n ∙ first_or_later k n t ks ts received g,
            ),
          ),
        ),
      )

  -- Sending the tensors of a transfer and receiving them by specs that give each its own shape and dtype
  -- both return, when a buffer of a tensor's shape and dtype is filled with the tensor. What is received has the keys
  -- of what was sent and, under each, its tensor.
  pub received-sent :
      (ts : Dict T)
      → (sent : List T) × ((send_registered_transfer before ts ≡ ok sent)
          × ((got : Dict T) × ((do_nccl_recv fill before (specs_with ts) sent ≡ ok got)
                × ((n : ℕ) → get n got ≡ get n ts))))
  unfolding send_registered_transfer do_nccl_recv
  received-sent ts =
      let ks = sorted before (keys ts) in
      let (sent, (s, (got, (r, eq)))) =
        each_delivered ks ts []
          (λ n m. sym (member-sorted before n (keys ts) ∙ member-keys n ts) ∙ m) in
      (sent, (s, (got, (rw (keys-specs ts) r, λ n. eq n ∙ whole n))))
    where
      whole : (n : ℕ) → (if member n (sorted before (keys ts)) then get n ts else none) ≡ get n ts
      whole n = elim (Bool-cases (has n ts)) [
        | inl e ↦ rw (member-sorted before n (keys ts), member-keys n ts, e) refl
        | inr e ↦
            rw (member-sorted before n (keys ts), member-keys n ts, e) (sym (absent-get n ts e))
      ]
