-- ===== src/Nccl/CommInit/Ranks.antt =====
-- transport/nccl/comm_init.py: `assign_rank_once` called by any number of processes, whose accesses
-- to the counter interleave in any order.
use alpagym.Base.{
  ℕ, zero, suc, ◌+◌, ◌-◌, ◌<◌, ◌≤◌, ◌≡◌, refl, ap, ◌∙◌, sym, subst, true, false, ◌⊎◌, inl, inr,
  List, [], ◌∷◌, length, All, arith, min,
}
use alpagym.Nccl.CommInit.{Role, policy, rollout, base, exceeds, rank_at, RankCounter, snoc}

-- An increment that gives a rank, an increment that is refused, and the decrement that follows it.
pub data Step (role : Role) (num world : ℕ) : RankCounter → RankCounter → Type 0 where
  grant :
      {y : RankCounter}
      → exceeds role num world (rank_at role num y.counter) ≡ false
      → Step role num world y (record y {
        counter = y.counter + 1;
        issued = snoc y.issued (rank_at role num y.counter);
      })
  refuse_rank :
      {y : RankCounter}
      → exceeds role num world (rank_at role num y.counter) ≡ true
      → Step role num world y (record y { counter = y.counter + 1; refusing = suc y.refusing })
  take_back :
      {y : RankCounter} {n : ℕ}
      → y.refusing ≡ suc n
      → Step role num world y (record y { counter = y.counter - 1; refusing = n })

pub data Reach (role : Role) (num world : ℕ) : RankCounter → Type 0 where
  start : Reach role num world (record { counter = 0; refusing = 0; issued = [] })
  next :
      {y z : RankCounter}
      → Reach role num world y
      → Step role num world y z
      → Reach role num world z

-- a, a + 1, ..., a + n - 1
abbrev pub count_up : ℕ → ℕ → List ℕ
count_up a zero = []
count_up a (suc n) = a ∷ count_up (suc a) n

count_up-snoc : (a n c : ℕ) → a + n ≡ c → snoc (count_up a n) c ≡ count_up a (suc n)
count_up-snoc a zero c h = ap (λ x. x ∷ []) (omega arith)
count_up-snoc a (suc n) c h = ap (◌∷◌ a) (count_up-snoc (suc a) n c (omega arith))

All-snoc : (P : ℕ → Type 0) (l : List ℕ) (r : ℕ) → All P l → P r → All P (snoc l r)
All-snoc P [] r h p = (p, tt)
All-snoc P (x ∷ l) r h p = (h.0, All-snoc P l r h.1 p)

length-count_up : (a n : ℕ) → length (count_up a n) ≡ n
length-count_up a zero = refl
length-count_up a (suc n) = ap suc (length-count_up (suc a) n)

exceeds_mono :
    (role : Role) (num world a b : ℕ)
    → a ≤ b
    → exceeds role num world a ≡ true
    → exceeds role num world b ≡ true
exceeds_mono policy num world a b le h = ground arith
exceeds_mono rollout num world a b le h = ground arith

module _ (role : Role) (num world : ℕ) where
  record IsDense (y : RankCounter) : Type 0 where
    given : ℕ
    counted : y.counter ≡ given + y.refusing
    full : (y.refusing ≡ 0) ⊎ (exceeds role num world (base role num + given) ≡ true)
    listed : y.issued ≡ count_up (base role num) given
    fit : All (λ r. exceeds role num world r ≡ false) y.issued

  Step-IsDense : {y z : RankCounter} → Step role num world y z → IsDense y → IsDense z
  Step-IsDense (grant {y} e) d = elim d.full [
    | inl r ↦ record {
      given = suc d.given;
      counted = omega (arith, d.counted, r);
      full = inl r;
      listed =
          ap (λ l. snoc l (rank_at role num y.counter)) d.listed
          ∙ count_up-snoc (base role num) d.given (rank_at role num y.counter)
              (omega (arith, d.counted, r));
      fit = All-snoc (λ x. exceeds role num world x ≡ false) y.issued _ d.fit e;
    }
    | inr f ↦ absurd (
        cc (
          e,
          exceeds_mono role num world (base role num + d.given) (rank_at role num y.counter)
              (omega (arith, d.counted)) f,
        ))
  ]
  Step-IsDense (refuse_rank {y} e) d = record {
    given = d.given;
    counted = omega (arith, d.counted);
    full = elim d.full [
      | inl r ↦ inr (subst (λ x. exceeds role num world x ≡ true) (omega (arith, d.counted, r)) e)
      | inr f ↦ inr f
    ];
    listed = d.listed;
    fit = d.fit;
  }
  Step-IsDense (take_back {y} {n} e) d = record {
    given = d.given;
    counted = omega (arith, d.counted, e);
    full = elim d.full [ inl r ↦ absurd (omega (arith, r, e)) | inr f ↦ inr f ];
    listed = d.listed;
    fit = d.fit;
  }

  Reach-IsDense : {y : RankCounter} → Reach role num world y → IsDense y
  Reach-IsDense start = record {
    given = 0;
    counted = refl;
    full = inl refl;
    listed = refl;
    fit = tt;
  }
  Reach-IsDense (next r s) = Step-IsDense s (Reach-IsDense r)

-- The bound on a role's ranks.
abbrev pub limit : Role → ℕ → ℕ → ℕ
limit policy num world = min num world
limit rollout num world = world

fits_limit :
    (role : Role) (num world r : ℕ) → exceeds role num world r ≡ false → r < limit role num world
fits_limit policy num world r h = ground arith
fits_limit rollout num world r h = ground arith

All-map : (P Q : ℕ → Type 0) → ((r : ℕ) → P r → Q r) → (l : List ℕ) → All P l → All Q l
All-map P Q f [] h = tt
All-map P Q f (x ∷ l) h = (f x h.0, All-map P Q f l h.1)

-- However many processes of one role call `assign_rank_once`, and however their accesses to the
-- counter interleave, refusals that have not been taken back included, the ranks given out are
-- the consecutive numbers from the role's first one, each once, and below the role's limit.
pub issued-dense :
    (role : Role) (num world : ℕ) (y : RankCounter)
    → Reach role num world y
    → (y.issued ≡ count_up (base role num) (length y.issued))
      × All (λ r. r < limit role num world) y.issued
issued-dense role num world y r =
    let d = Reach-IsDense role num world r in
    (
      d.listed
          ∙ ap (count_up (base role num))
              (sym (ap length d.listed ∙ length-count_up (base role num) d.given)),
      All-map _ _ (fits_limit role num world) y.issued d.fit,
    )
