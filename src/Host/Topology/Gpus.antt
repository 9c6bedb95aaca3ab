-- ===== src/Host/Topology/Gpus.antt =====
-- run_topology.py: ranges of GPU ids, and lists of host plans.
use alpagym.Base.{
  ℕ, zero, suc, ◌+◌, ◌-◌, ◌<◌, ◌≡◌, refl, ap, Bool, true, false, List, [], ◌∷◌, ◌++◌, map, String,
  arith, All, Bool-cases, inl, inr,
}
use alpagym.Base.Int.{ℤ, pos, ◌+ℤ◌, ◌-ℤ◌}
use alpagym.Host.Topology.{
  RunHostPlan, iota, range, cosmos_gpu_ids, alpasim_gpu_ids, filter, shared_host, cosmos_host,
  alpasim_host, enumerate,
}

add_pos : (a b c : ℕ) → a + b ≡ c → pos a +ℤ pos b ≡ pos c
unfolding ◌+ℤ◌
add_pos a b c h = ground arith

sub_pos : (a b c : ℕ) → a + c ≡ b → pos b -ℤ pos a ≡ pos c
unfolding ◌-ℤ◌
sub_pos a b c h = ground arith

shift : (a b c n : ℕ) → a + b ≡ c → map (λ i. pos a +ℤ pos i) (iota b n) ≡ map pos (iota c n)
shift a b c zero h = refl
shift a b c (suc n) h =
    rw (add_pos a b c h) (ap (◌∷◌ (pos c)) (shift a (suc b) (suc c) n (omega arith)))

range_pos : (a b n : ℕ) → a + n ≡ b → range (pos a) (pos b) ≡ map pos (iota a n)
range_pos a b n h = rw (sub_pos a b n h) (shift a 0 a n (omega arith))

iota-append :
    (a b c m n : ℕ)
    → a + m ≡ b
    → m + n ≡ c
    → map pos (iota a m) ++ map pos (iota b n) ≡ map pos (iota a c)
iota-append a b c zero n h e =
    let at : b ≡ a = omega arith in let all : n ≡ c = omega arith in rw (at, all) refl
iota-append a b zero (suc m) n h e = absurd (omega arith)
iota-append a b (suc c) (suc m) n h e =
    ap (◌∷◌ (pos a)) (iota-append (suc a) b c m n (omega arith) (omega arith))

range-append :
    (a b n : ℕ) → a + n ≡ b → range (pos 0) (pos a) ++ range (pos a) (pos b) ≡ range (pos 0) (pos b)
range-append a b n h =
    rw (range_pos 0 a a (omega arith), range_pos a b n h, range_pos 0 b b (omega arith))
      (iota-append 0 a b a n (omega arith) h)

-- A host's GPUs, Cosmos work first, are the node's, each once.
abbrev pub Covers : ℤ → RunHostPlan → Type 0
Covers gpus_per_node h = cosmos_gpu_ids h ++ alpasim_gpu_ids h ≡ range (pos 0) gpus_per_node

pub cosmos_host-Covers : (g i : ℕ) (name : String) → Covers (pos g) (cosmos_host (pos g) i name)
unfolding cosmos_gpu_ids alpasim_gpu_ids
cosmos_host-Covers g i name = simp (add_pos g 0 g (omega arith)) (range-append g g 0 (omega arith))

pub alpasim_host-Covers : (g i : ℕ) (name : String) → Covers (pos g) (alpasim_host (pos g) i name)
unfolding cosmos_gpu_ids alpasim_gpu_ids
alpasim_host-Covers g i name = simp (add_pos 0 g g (omega arith)) (range-append 0 g g (omega arith))

pub shared_host-Covers :
    (g a : ℕ) (name : String) → a < g → Covers (pos g) (shared_host (pos g) (pos a) name)
unfolding cosmos_gpu_ids alpasim_gpu_ids
shared_host-Covers g a name h =
    rw (sub_pos a g (g - a) (omega arith), add_pos (g - a) a g (omega arith))
      (range-append (g - a) g a (omega arith))

pub enumerate-hostnames :
    (plan : ℕ → String → RunHostPlan)
    → ((i : ℕ) (name : String) → (plan i name).hostname ≡ name)
    → (start : ℕ) (names : List String) → map (λ h. h.hostname) (enumerate plan start names) ≡ names
enumerate-hostnames plan h start [] = refl
enumerate-hostnames plan h start (name ∷ names) =
    rw (h start name) (ap (◌∷◌ name) (enumerate-hostnames plan h (suc start) names))

pub enumerate-All :
    (P : RunHostPlan → Type 0) (plan : ℕ → String → RunHostPlan)
    → ((i : ℕ) (name : String) → P (plan i name))
    → (start : ℕ) (names : List String) → All P (enumerate plan start names)
enumerate-All P plan h start [] = tt
enumerate-All P plan h start (name ∷ names) =
    (h start name, enumerate-All P plan h (suc start) names)

pub All-append :
    (P : RunHostPlan → Type 0) (xs ys : List RunHostPlan) → All P xs → All P ys → All P (xs ++ ys)
All-append P [] ys h k = k
All-append P (x ∷ xs) ys h k = (h.0, All-append P xs ys h.1 k)

pub map-append :
    {B : Type 0} (f : RunHostPlan → B) (xs ys : List RunHostPlan)
    → map f (xs ++ ys) ≡ map f xs ++ map f ys
map-append f [] ys = refl
map-append f (x ∷ xs) ys = ap (◌∷◌ (f x)) (map-append f xs ys)

pub filter-append :
    (p : RunHostPlan → Bool) (xs ys : List RunHostPlan)
    → filter p (xs ++ ys) ≡ filter p xs ++ filter p ys
filter-append p [] ys = refl
filter-append p (x ∷ xs) ys = elim (Bool-cases (p x)) [
  | inl t ↦ rw t (ap (◌∷◌ x) (filter-append p xs ys))
  | inr f ↦ rw f (filter-append p xs ys)
]

pub filter-All :
    (p : RunHostPlan → Bool) (xs : List RunHostPlan) → All (λ h. p h ≡ true) xs → filter p xs ≡ xs
filter-All p [] h = refl
filter-All p (x ∷ xs) h = rw h.0 (ap (◌∷◌ x) (filter-All p xs h.1))

pub filter_none :
    (p : RunHostPlan → Bool) (xs : List RunHostPlan) → All (λ h. p h ≡ false) xs → filter p xs ≡ []
filter_none p [] h = refl
filter_none p (x ∷ xs) h = rw h.0 (filter_none p xs h.1)
