-- ===== src/Buffers/Ring.antt =====
-- policies/alpamayo/buffers.py: the ring shows the last frames in the order of their arrival.
use native.Mathlib.Nat.{mod-eq_of_lt, mod-lt}
use alpagym.Base.{
  ℕ, suc, ◌+◌, ◌-◌, ◌%◌, ◌==◌, ◌<◌, ◌≤◌, ltb, min, ◌≡◌, refl, ap, sym, ◌∙◌, subst, Bool, true,
  false, inl, inr, Option, none, some, List, [], ◌∷◌, ◌++◌, if◌then◌else◌, length, set, take, drop,
  arith, length-append, length-set, Bool-cases, dec_lt,
}
use alpagym.Buffers.Rotation.{
  next_slot, rotation, take-set, drop_all, append_nil, rotation-set, rotation-step, slot-suc,
}
use alpagym.Buffers.{
  CameraFrameBuffer, stored, rotated, valid_frames, ordered_view, from_cache, add, clear,
  FrameError, frame_mismatch,
}
use alpagym.Base.Outcome.{Outcome, ok, raise}

module _ {F : Type 0} where
  -- The buffer that the frames of `h`, oldest first, lead to.
  record IsRing (b : CameraFrameBuffer F) (h : List (F × ℕ)) : Type 0 where
    positive : 0 < b.capacity
    sized : length b.slots ≡ b.capacity
    counted : b.write_idx ≡ length h
    young : length h ≤ b.capacity → take (length h) b.slots ≡ h
    full : b.capacity ≤ length h → rotated b ≡ drop (length h - b.capacity) h
    cached : (view : List (F × ℕ)) → b.ordered_cache ≡ some view → view ≡ rotated b

  length-snoc : (h : List (F × ℕ)) (x : F × ℕ) → length (h ++ x ∷ []) ≡ suc (length h)
  length-snoc h x = omega (arith, length-append h (x ∷ []))

  module _ (b : CameraFrameBuffer F) (h : List (F × ℕ)) (frame : F) (at : ℕ) (v : IsRing b h) where
    abbrev h' : List (F × ℕ)
    h' = h ++ (frame, at) ∷ []

    slot_lt : b.write_idx % b.capacity < length b.slots
    slot_lt = omega (arith, mod-lt b.write_idx v.positive, v.sized)

    young_slot : length h < b.capacity → b.write_idx % b.capacity ≡ length h
    young_slot lt = mod-eq_of_lt (omega (arith, lt, v.counted)) ∙ v.counted

    stored-young : length h' ≤ b.capacity → take (length h') (stored frame at b).slots ≡ h'
    stored-young le =
        let n = length-snoc h (frame, at) in
        let lt : length h < b.capacity = omega (arith, le, n) in
        rw (n, young_slot lt)
          (take-set b.slots (length h) (frame, at) (omega (arith, lt, v.sized))
            ∙ ap (λ l. l ++ (frame, at) ∷ []) (v.young (omega (arith, lt))))

    next_rotated :
        rotated (stored frame at b)
        ≡ rotation
            (next_slot (b.write_idx % b.capacity) (length b.slots))
            (set b.slots (b.write_idx % b.capacity) (frame, at))
    next_rotated =
        ap (λ s. rotation s (set b.slots (b.write_idx % b.capacity) (frame, at)))
          (ap (λ w. w % b.capacity) (the_suc b.write_idx)
            ∙ slot-suc b.write_idx b.capacity v.positive
            ∙ ap (next_slot (b.write_idx % b.capacity)) (sym v.sized))
      where
        the_suc : (n : ℕ) → n + 1 ≡ suc n
        the_suc n = omega arith

    stored-full :
        b.capacity ≤ length h' → rotated (stored frame at b) ≡ drop (length h' - b.capacity) h'
    stored-full le = elim (dec_lt (length h) b.capacity) [
      | yes lt ↦
          let n = length-snoc h (frame, at) in
          let z : length h' - b.capacity ≡ 0 = omega (arith, n, lt) in
          next_rotated
          ∙ rotation-set (b.write_idx % b.capacity) b.slots (frame, at) slot_lt
          ∙ rw
              (
                young_slot lt,
                drop_all (suc (length h)) b.slots (omega (arith, le, n, v.sized)),
                v.young (omega (arith, lt)),
                z,
              )
              refl
      | no ge ↦
          next_rotated
          ∙ rotation-step (b.write_idx % b.capacity) (length h - b.capacity) b.slots h (frame, at)
              slot_lt (omega (arith, ge, v.positive)) (v.full (omega (arith, ge)))
          ∙ ap (λ k. drop k h')
              (let e : suc (length h - b.capacity) ≡ length h' - b.capacity =
                  omega (arith, ge, length-snoc h (frame, at)) in
                e)
    ]

    stored-IsRing : IsRing (stored frame at b) h'
    stored-IsRing = record {
      positive = v.positive;
      sized = length-set b.slots _ _ ∙ v.sized;
      counted = omega (arith, v.counted, length-snoc h (frame, at));
      young = stored-young;
      full = stored-full;
      cached = λ view e. absurd (cc e);
    }

  -- The last `n` entries.
  abbrev pub latest : ℕ → List (F × ℕ) → List (F × ℕ)
  latest n h = drop (length h - n) h

  from_cache-latest :
      (b : CameraFrameBuffer F) (h : List (F × ℕ))
      → IsRing b h
      → rotated b ≡ latest b.capacity h
      → (o : Option (List (F × ℕ))) → b.ordered_cache ≡ o
      → ((from_cache b o).0 ≡ latest b.capacity h) × IsRing (from_cache b o).1 h
  from_cache-latest b h v r (some view) e = (v.cached view e ∙ r, v)
  from_cache-latest b h v r none e = (
    r,
    record {
      positive = v.positive;
      sized = v.sized;
      counted = v.counted;
      young = v.young;
      full = v.full;
      cached = λ view q. cc q;
    },
  )

  ordered_view-latest :
      (b : CameraFrameBuffer F) (h : List (F × ℕ))
      → IsRing b h
      → ((ordered_view b).0 ≡ latest b.capacity h) × IsRing (ordered_view b).1 h
  unfolding ordered_view valid_frames
  ordered_view-latest b h v = elim (Bool-cases (ltb (min b.write_idx b.capacity) b.capacity)) [
    | inl t ↦
        let lt : b.write_idx < b.capacity = ground arith in
        let m : min b.write_idx b.capacity ≡ length h = omega (arith, lt, v.counted) in
        let z : length h - b.capacity ≡ 0 = omega (arith, lt, v.counted) in
        simp t (ap (λ k. take k b.slots) m ∙ v.young (omega (arith, lt, v.counted)) ∙ rw z refl, v)
    | inr f ↦
        let ge : b.capacity ≤ b.write_idx = ground arith in
        let r = v.full (omega (arith, ge, v.counted)) in
        elim (Bool-cases (b.write_idx % b.capacity == 0)) [
          | inl t ↦
              let e : b.write_idx % b.capacity ≡ 0 = ground arith in
              simp (f, t) (sym (append_nil b.slots) ∙ sym (ap (λ s. rotation s b.slots) e) ∙ r, v)
          | inr g ↦ simp (f, g) (from_cache-latest b h v r b.ordered_cache refl)
        ]
  ]

  clear-IsRing : (b : CameraFrameBuffer F) (h : List (F × ℕ)) → IsRing b h → IsRing (clear b) []
  unfolding clear
  clear-IsRing b h v = record {
    positive = v.positive;
    sized = v.sized;
    counted = refl;
    young = λ le. refl;
    full = λ le. absurd (omega (arith, le, v.positive));
    cached = λ view e. absurd (cc e);
  }

-- What a policy does with the ring, in any order.
pub data Use (F : Type 0) : Type 0 where
  add_use : (frame : F) (timestamp_us : ℕ) → Use F
  view_use clear_use : Use F

module _ {F : Type 0} (fits : F → Bool) where
  abbrev continue :
      (CameraFrameBuffer F → Outcome FrameError (CameraFrameBuffer F))
      → Outcome FrameError (CameraFrameBuffer F)
      → Outcome FrameError (CameraFrameBuffer F)
  continue f (ok b) = f b
  continue f (raise e) = raise e

  abbrev use_one : Use F → CameraFrameBuffer F → Outcome FrameError (CameraFrameBuffer F)
  use_one (add_use frame at) b = add fits frame at b
  use_one view_use b = ok (ordered_view b).1
  use_one clear_use b = ok (clear b)

  unfoldable pub use_all :
      List (Use F) → CameraFrameBuffer F → Outcome FrameError (CameraFrameBuffer F)
  use_all [] b = ok b
  use_all (u ∷ us) b = continue (use_all us) (use_one u b)

  -- The frames since the last `clear`, oldest first.
  abbrev pub history : List (Use F) → List (F × ℕ) → List (F × ℕ)
  history [] h = h
  history (add_use frame at ∷ us) h = history us (h ++ (frame, at) ∷ [])
  history (view_use ∷ us) h = history us h
  history (clear_use ∷ us) h = history us []

  cache-capacity :
      (b : CameraFrameBuffer F) (o : Option (List (F × ℕ)))
      → (from_cache b o).1.capacity ≡ b.capacity
  cache-capacity b none = refl
  cache-capacity b (some view) = refl

  view-capacity : (b : CameraFrameBuffer F) → (ordered_view b).1.capacity ≡ b.capacity
  unfolding ordered_view
  view-capacity b = elim (Bool-cases (ltb (valid_frames b) b.capacity)) [
    | inl t ↦ simp t refl
    | inr f ↦ elim (Bool-cases (b.write_idx % b.capacity == 0)) [
      | inl t ↦ simp (f, t) refl
      | inr g ↦ simp (f, g) (cache-capacity b b.ordered_cache)
    ]
  ]

  -- The ring after its use, with the capacity that it had.
  abbrev Leads : CameraFrameBuffer F → CameraFrameBuffer F → List (F × ℕ) → Type 0
  Leads b b' h = IsRing b' h × (b'.capacity ≡ b.capacity)

  add-Leads :
      (us : List (Use F)) (frame : F) (at : ℕ) (b b' : CameraFrameBuffer F) (h : List (F × ℕ))
      (c : Bool)
      → (use_all us (stored frame at b) ≡ ok b' → Leads (stored frame at b) b' h)
      → continue (use_all us) (if c then ok (stored frame at b) else raise frame_mismatch) ≡ ok b'
      → Leads b b' h
  add-Leads us frame at b b' h true ih e = ih e
  add-Leads us frame at b b' h false ih e = absurd (cc e)

  use_all-Leads :
      (us : List (Use F)) (b b' : CameraFrameBuffer F) (h : List (F × ℕ))
      → IsRing b h
      → use_all us b ≡ ok b'
      → Leads b b' (history us h)
  unfolding use_all add clear
  use_all-Leads [] b b' h v e = subst (λ x. Leads b x h) (cc e) (v, refl)
  use_all-Leads (add_use frame at ∷ us) b b' h v e =
      add-Leads us frame at b b' (history us (h ++ (frame, at) ∷ [])) (fits frame)
        (use_all-Leads us (stored frame at b) b' (h ++ (frame, at) ∷ [])
          (stored-IsRing b h frame at v))
        e
  use_all-Leads (view_use ∷ us) b b' h v e =
      let (r, c) = use_all-Leads us (ordered_view b).1 b' h (ordered_view-latest b h v).1 e in
      (r, c ∙ view-capacity b)
  use_all-Leads (clear_use ∷ us) b b' h v e =
      use_all-Leads us (clear b) b' [] (clear-IsRing b h v) e

  -- Whatever the adds, views and clears since a buffer of a positive capacity was made with
  -- arbitrary contents, if none of them raised, then the ordered view, cached or not, is the frames
  -- since the last `clear` in the order of their arrival, of these the latest `capacity`.
  pub ordered_view-shows :
      (capacity : ℕ) (slots : List (F × ℕ)) (us : List (Use F)) (b : CameraFrameBuffer F)
      → 0 < capacity
      → length slots ≡ capacity
      → use_all us
          (record { capacity = capacity; slots = slots; write_idx = 0; ordered_cache = none })
        ≡ ok b
      → (ordered_view b).0 ≡ latest capacity (history us [])
  ordered_view-shows capacity slots us b pos size e =
      let (r, c) =
        use_all-Leads us
          (record { capacity = capacity; slots = slots; write_idx = 0; ordered_cache = none }) b []
          (record {
            positive = pos;
            sized = size;
            counted = refl;
            young = λ le. refl;
            full = λ le. absurd (omega (arith, le, pos));
            cached = λ view q. absurd (cc q);
          })
          e in
      (ordered_view-latest b (history us []) r).0 ∙ ap (λ n. latest n (history us [])) c
