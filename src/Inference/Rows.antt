-- ===== src/Inference/Rows.antt =====
-- The rows of a stacked batch and of its outputs.
use alpagym.Base.{
  ℕ, zero, suc, ◌+◌, ◌≡◌, refl, sym, ap, ◌∙◌, inl, inr, Bool, true, false, List, [], ◌∷◌, map,
  if◌then◌else◌, length, length-map, arith, Option-cases, subst, Option, none, some, get_elem?, all,
}
use alpagym.Base.Outcome.{ok, refuse-ok, then-value, ok-ok}
use alpagym.Inference.{
  Torch, ModelInput, ModelOutput, BatchedModelOutput, EngineError, stack, no_inputs, stack_error,
  stack_field, stack_optional_tensors, stack_present, or_raise, is_none, present, cons_present,
  select_optional, output_at, outputs_from,
}
use alpagym.Inference.Engine.{PendingRequest, zipped}
use alpagym.Inference.Queue.{Answered}

module _ {T : Type 0} (torch : Torch T) where
  -- Row `i` of a batched input.
  unfoldable pub input_row : ModelInput T → ℕ → ModelInput T
  input_row b i = record {
    ego_history_xyz = torch.select b.ego_history_xyz i;
    ego_history_rot = torch.select b.ego_history_rot i;
    camera_frames = torch.select b.camera_frames i;
    camera_indices = torch.select b.camera_indices i;
    relative_timestamps = torch.select b.relative_timestamps i;
    route_xy = torch.select b.route_xy i;
    seed = select_optional torch i b.seed;
  }

  or_raise-ok :
      {B : Type 0} (e : EngineError) (o : Option B) (b : B) → or_raise e o ≡ ok b → o ≡ some b
  unfolding or_raise
  or_raise-ok e none b h = absurd (cc h)
  or_raise-ok e (some c) b h = cc h

  get-map :
      (f : ModelInput T → T) (xs : List (ModelInput T)) (i : ℕ) (x : ModelInput T)
      → get_elem? xs i ≡ some x
      → get_elem? (map f xs) i ≡ some (f x)
  get-map f [] i x h = absurd (cc h)
  get-map f (y ∷ xs) zero x h = cc h
  get-map f (y ∷ xs) (suc i) x h = get-map f xs i x h

  get-present :
      (os : List (Option T)) (ts : List T) (i : ℕ) (o : Option T)
      → present torch os ≡ some ts
      → get_elem? os i ≡ some o
      → (t : T) × ((o ≡ some t) × (get_elem? ts i ≡ some t))
  unfolding present cons_present
  get-present [] ts i o p g = absurd (cc g)
  get-present (none ∷ os) ts i o p g = absurd (cc p)
  get-present (some t ∷ os) ts i o p g = elim (Option-cases (present torch os)) [
    | inl n ↦ absurd (cc (p, n))
    | inr (us, e) ↦
        placed us (λ m. get-present os us m o e) (ap (cons_present torch t) (sym e) ∙ p) i g
  ]
    where
      placed :
          (us : List T)
          → ((m : ℕ)
              → get_elem? os m ≡ some o
              → (u : T) × ((o ≡ some u) × (get_elem? us m ≡ some u)))
          → some (t ∷ us) ≡ some ts
          → (i : ℕ) → get_elem? (some t ∷ os) i ≡ some o
          → (u : T) × ((o ≡ some u) × (get_elem? ts i ≡ some u))
      placed us e q zero g =
          let same : t ∷ us ≡ ts = cc q in
          (t, (cc g, subst (λ l. get_elem? l 0 ≡ some t) same refl))
      placed us e q (suc m) g =
          let (u, (h, w)) = e m g in
          let same : t ∷ us ≡ ts = cc q in
          (u, (h, subst (λ l. get_elem? l (suc m) ≡ some u) same w))

  all-none :
      (os : List (Option T)) (i : ℕ) (o : Option T)
      → all (is_none torch) os ≡ true
      → get_elem? os i ≡ some o
      → o ≡ none
  unfolding is_none
  all-none [] i o a g = absurd (cc g)
  all-none (none ∷ os) zero o a g = cc g
  all-none (none ∷ os) (suc i) o a g = all-none os i o a g
  all-none (some t ∷ os) i o a g = absurd (cc a)

  pub zipped-rows :
      (R : ModelInput T → ModelOutput T → Type 0) (batch : List (PendingRequest T))
      (ys : List (ModelOutput T))
      → length ys ≡ length batch
      → ((i : ℕ) (r : PendingRequest T) (y : ModelOutput T)
          → get_elem? batch i ≡ some r
          → get_elem? ys i ≡ some y
          → R r.model_input y)
      → Answered R batch (zipped batch ys) []
  unfolding Answered zipped
  zipped-rows R [] ys e h = refl
  zipped-rows R (r ∷ rs) [] e h = absurd (omega arith)
  zipped-rows R (r ∷ rs) (y ∷ ys) e h =
      (refl, (h 0 r y refl refl, zipped-rows R rs ys (omega arith) (λ i. h (suc i))))

  pub outputs_from-at :
      (o : BatchedModelOutput T) (n i k : ℕ) (ys : List (ModelOutput T)) (j : ℕ) (y : ModelOutput T)
      → outputs_from torch o n i k ≡ ok ys
      → get_elem? ys j ≡ some y
      → output_at torch o n (i + j) ≡ ok y
  unfolding outputs_from
  outputs_from-at o n i zero ys j y h g = absurd (cc (ap (λ l. get_elem? l j) (ok-ok [] ys h), g))
  outputs_from-at o n i (suc k) ys zero y h g =
      let (z, (e, h1)) = then-value (output_at torch o n i) _ ys h in
      let (zs, (f, h2)) = then-value (outputs_from torch o n (suc i) k) _ ys h1 in
      let head = subst (λ l. get_elem? l 0 ≡ some y) (sym (ok-ok (z ∷ zs) ys h2)) g in
      subst (λ a. output_at torch o n a ≡ ok y) (omega arith) (e ∙ ap ok (cc head))
  outputs_from-at o n i (suc k) ys (suc j) y h g =
      let (z, (e, h1)) = then-value (output_at torch o n i) _ ys h in
      let (zs, (f, h2)) = then-value (outputs_from torch o n (suc i) k) _ ys h1 in
      let later = subst (λ l. get_elem? l (suc j) ≡ some y) (sym (ok-ok (z ∷ zs) ys h2)) g in
      subst (λ a. output_at torch o n a ≡ ok y) (omega arith)
        (outputs_from-at o n (suc i) k zs j y f later)

  pub outputs-at :
      (o : BatchedModelOutput T) (n k : ℕ) (ys : List (ModelOutput T)) (j : ℕ) (y : ModelOutput T)
      → outputs_from torch o n 0 k ≡ ok ys
      → get_elem? ys j ≡ some y
      → output_at torch o n j ≡ ok y
  outputs-at o n k ys j y h g =
      subst (λ a. output_at torch o n a ≡ ok y) (omega arith) (outputs_from-at o n 0 k ys j y h g)

  -- What `torch.stack` promises: the list's length in front, and its members along the first axis.
  module _
      (stack_leading : (ts : List T) (b : T)
        → torch.stack ts ≡ some b
        → torch.leading b ≡ length ts)
      (stack_select : (ts : List T) (b t : T) (i : ℕ)
        → torch.stack ts ≡ some b
        → get_elem? ts i ≡ some t
        → torch.select b i ≡ t) where
    field-select :
        (f : ModelInput T → T) (xs : List (ModelInput T)) (b : T) (i : ℕ) (x : ModelInput T)
        → stack_field torch f xs ≡ ok b
        → get_elem? xs i ≡ some x
        → torch.select b i ≡ f x
    unfolding stack_field
    field-select f xs b i x h g =
        stack_select (map f xs) b (f x) i (or_raise-ok stack_error (torch.stack (map f xs)) b h)
          (get-map f xs i x g)

    present-select :
        (os : List (Option T)) (found : Option (List T)) (b o : Option T) (i : ℕ)
        → present torch os ≡ found
        → stack_present torch found ≡ ok b
        → get_elem? os i ≡ some o
        → select_optional torch i b ≡ o
    unfolding stack_present select_optional
    present-select os none b o i e h g = absurd (cc h)
    present-select os (some ts) b o i e h g =
        let (c, (stacks, last)) = then-value (or_raise stack_error (torch.stack ts)) _ b h in
        let (t, (own, at)) = get-present os ts i o e g in
        subst (λ u. select_optional torch i u ≡ o) (ok-ok (some c) b last)
          (ap some (stack_select ts c t i (or_raise-ok stack_error (torch.stack ts) c stacks) at)
            ∙ sym own)

    seeds-select_by :
        (c : Bool) (os : List (Option T)) (b o : Option T) (i : ℕ)
        → all (is_none torch) os ≡ c
        → (if c then ok none else stack_present torch (present torch os)) ≡ ok b
        → get_elem? os i ≡ some o
        → select_optional torch i b ≡ o
    unfolding select_optional
    seeds-select_by true os b o i a h g =
        subst (λ u. select_optional torch i u ≡ o) (ok-ok none b h) (sym (all-none os i o a g))
    seeds-select_by false os b o i a h g = present-select os (present torch os) b o i refl h g

    seeds-select :
        (os : List (Option T)) (b o : Option T) (i : ℕ)
        → stack_optional_tensors torch os ≡ ok b
        → get_elem? os i ≡ some o
        → select_optional torch i b ≡ o
    unfolding stack_optional_tensors
    seeds-select os b o i h g = seeds-select_by (all (is_none torch) os) os b o i refl h g

    get-seed :
        (xs : List (ModelInput T)) (i : ℕ) (x : ModelInput T)
        → get_elem? xs i ≡ some x
        → get_elem? (map (λ x. x.seed) xs) i ≡ some x.seed
    get-seed [] i x h = absurd (cc h)
    get-seed (y ∷ xs) zero x h = let same : y ≡ x = cc h in ap (λ z. some z.seed) same
    get-seed (y ∷ xs) (suc i) x h = get-seed xs i x h

    -- Row `i` of a stacked batch is its `i`-th input, and it has as many rows as inputs.
    pub stack-row :
        (xs : List (ModelInput T)) (b : ModelInput T)
        → stack torch xs ≡ ok b
        → (torch.leading b.ego_history_xyz ≡ length xs)
          × ((i : ℕ) (x : ModelInput T) → get_elem? xs i ≡ some x → input_row b i ≡ x)
    unfolding stack input_row stack_field
    stack-row xs b h =
        let (ne, h0) = refuse-ok no_inputs h in
        let (b1, (e1, h1)) = then-value (stack_field torch (λ x. x.ego_history_xyz) xs) _ b h0 in
        let (b2, (e2, h2)) = then-value (stack_field torch (λ x. x.ego_history_rot) xs) _ b h1 in
        let (b3, (e3, h3)) = then-value (stack_field torch (λ x. x.camera_frames) xs) _ b h2 in
        let (b4, (e4, h4)) = then-value (stack_field torch (λ x. x.camera_indices) xs) _ b h3 in
        let (b5, (e5, h5)) =
          then-value (stack_field torch (λ x. x.relative_timestamps) xs) _ b h4 in
        let (b6, (e6, h6)) = then-value (stack_field torch (λ x. x.route_xy) xs) _ b h5 in
        let (b7, (e7, h7)) =
          then-value (stack_optional_tensors torch (map (λ x. x.seed) xs)) _ b h6 in
        subst
          (λ c.
            (torch.leading c.ego_history_xyz ≡ length xs)
            × ((i : ℕ) (x : ModelInput T) → get_elem? xs i ≡ some x → input_row c i ≡ x))
          (ok-ok _ b h7)
          (
            stack_leading (map (λ x. x.ego_history_xyz) xs) b1 (or_raise-ok stack_error _ b1 e1)
                ∙ length-map (λ x. x.ego_history_xyz) xs,
            λ i x g.
                rw
                  (
                    field-select (λ x. x.ego_history_xyz) xs b1 i x e1 g,
                    field-select (λ x. x.ego_history_rot) xs b2 i x e2 g,
                    field-select (λ x. x.camera_frames) xs b3 i x e3 g,
                    field-select (λ x. x.camera_indices) xs b4 i x e4 g,
                    field-select (λ x. x.relative_timestamps) xs b5 i x e5 g,
                    field-select (λ x. x.route_xy) xs b6 i x e6 g,
                    seeds-select (map (λ x. x.seed) xs) b7 x.seed i e7 (get-seed xs i x g),
                  )
                  refl,
          )

module _ {T : Type 0} where
  pub get-input :
      (batch : List (PendingRequest T)) (i : ℕ) (r : PendingRequest T)
      → get_elem? batch i ≡ some r
      → get_elem? (map (λ r. r.model_input) batch) i ≡ some r.model_input
  get-input [] i r h = absurd (cc h)
  get-input (q ∷ batch) zero r h = let same : q ≡ r = cc h in ap (λ z. some z.model_input) same
  get-input (q ∷ batch) (suc i) r h = get-input batch i r h
