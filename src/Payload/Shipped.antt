-- ===== src/Payload/Shipped.antt =====
-- What reaches NCCL: the tensors that `pack` enters.
use alpagym.Base.{
  ℕ, ◌≡◌, ◌≢◌, refl, sym, ◌∙◌, inl, inr, false, some, [], length, arith, Bool-cases, ℕ_discrete,
  subst,
}
use alpagym.Base.Dict.{Dict, get, put}
use alpagym.Base.Outcome.{ok, refuse-ok, then-value}
use alpagym.Payload.{
  Value, Items, Fields, tensor, list, tuple, dict, dataclass, no_items, item, no_fields, field,
  Libraries, packed, packed_items, packed_fields, pack, wire, zero_elements, reserved_keys,
}
use alpagym.Payload.Growth.{Dense, put-Dense, get-put_self, get-put_ne}

module _ {T A : Type 0} (lib : Libraries T A) where
  abbrev pub Shippable : T → Type 0
  Shippable t = (lib.numel t ≢ 0) × (lib.is_bool t ≡ false)

  -- `tensor_0`, `tensor_1`, ... without a gap, each one that pynccl can send.
  abbrev pub Shipment : Dict T → Type 0
  Shipment ts = Dense ts × ((k : ℕ) (t : T) → get k ts ≡ some t → Shippable t)

  module _ (keeps : (t : T) → lib.numel (lib.to_uint8 t) ≡ lib.numel t)
      (unbools : (t : T) → lib.is_bool (lib.to_uint8 t) ≡ false) where
    wire-Shippable : (t : T) → lib.numel t ≢ 0 → Shippable (wire lib t)
    unfolding wire
    wire-Shippable t ne = elim (Bool-cases (lib.is_bool t)) [
      | inl b ↦ rw b (λ z. ne (sym (keeps t) ∙ z), unbools t)
      | inr b ↦ rw b (ne, b)
    ]

    put-Shipment :
        (t : T) (ts : Dict T)
        → lib.numel t ≢ 0
        → Shipment ts
        → Shipment (put (length ts) (wire lib t) ts)
    put-Shipment t ts ne s = (put-Dense ts (wire lib t) s.0, holds)
      where
        holds : (k : ℕ) (u : T) → get k (put (length ts) (wire lib t) ts) ≡ some u → Shippable u
        holds k u g = elim (ℕ_discrete (length ts) k) [
          | yes e ↦
              subst Shippable (cc (g, get-put_self (length ts) (wire lib t) ts))
                (wire-Shippable t ne)
          | no e ↦ s.1 k u (sym (get-put_ne (length ts) k (wire lib t) ts e) ∙ g)
        ]

    mutual
      unfolding packed

      packed-Shipment :
          (v : Value T A) (ts : Dict T) (m : Value T A) (us : Dict T)
          → Shipment ts
          → packed lib v ts ≡ ok (m, us)
          → Shipment us
      packed-Shipment (tensor t) ts m us s h =
          let (ne, e) = refuse-ok zero_elements h in
          subst Shipment (cc e) (put-Shipment t ts (ground arith) s)
      packed-Shipment (dataclass c fs) ts m us s h =
          let (q, (e, k)) = then-value (packed_fields lib fs ts) _ (m, us) h in
          subst Shipment (cc k) (fields-Shipment fs ts q.0 q.1 s e)
      packed-Shipment (list xs) ts m us s h =
          let (q, (e, k)) = then-value (packed_items lib xs ts) _ (m, us) h in
          subst Shipment (cc k) (items-Shipment xs ts q.0 q.1 s e)
      packed-Shipment (tuple xs) ts m us s h =
          let (q, (e, k)) = then-value (packed_items lib xs ts) _ (m, us) h in
          subst Shipment (cc k) (items-Shipment xs ts q.0 q.1 s e)
      packed-Shipment (dict fs) ts m us s h =
          let (r, rest) = refuse-ok reserved_keys h in
          let (q, (e, k)) = then-value (packed_fields lib fs ts) _ (m, us) rest in
          subst Shipment (cc k) (fields-Shipment fs ts q.0 q.1 s e)
      packed-Shipment _ ts m us s h = subst Shipment (cc h) s

      items-Shipment :
          (xs : Items T A) (ts : Dict T) (ms : Items T A) (us : Dict T)
          → Shipment ts
          → packed_items lib xs ts ≡ ok (ms, us)
          → Shipment us
      items-Shipment no_items ts ms us s h = subst Shipment (cc h) s
      items-Shipment (item v xs) ts ms us s h =
          let (q, (e, k)) = then-value (packed lib v ts) _ (ms, us) h in
          let (p, (d, l)) = then-value (packed_items lib xs q.1) _ (ms, us) k in
          subst Shipment (cc l) (items-Shipment xs q.1 p.0 p.1 (packed-Shipment v ts q.0 q.1 s e) d)

      fields-Shipment :
          (fs : Fields T A) (ts : Dict T) (ms : Fields T A) (us : Dict T)
          → Shipment ts
          → packed_fields lib fs ts ≡ ok (ms, us)
          → Shipment us
      fields-Shipment no_fields ts ms us s h = subst Shipment (cc h) s
      fields-Shipment (field n v fs) ts ms us s h =
          let (q, (e, k)) = then-value (packed lib v ts) _ (ms, us) h in
          let (p, (d, l)) = then-value (packed_fields lib fs q.1) _ (ms, us) k in
          subst Shipment (cc l)
            (fields-Shipment fs q.1 p.0 p.1 (packed-Shipment v ts q.0 q.1 s e) d)

    -- Where the conversion to uint8 keeps the number of elements and gives no bool tensor: whatever `pack` returns,
    -- its tensors are named by the numbers below their count and none of them is empty or of bools.
    pub pack-Shipment : (v m : Value T A) (ts : Dict T) → pack lib v ≡ ok (m, ts) → Shipment ts
    unfolding pack
    pack-Shipment v m ts h = packed-Shipment v [] m ts ((λ k le. refl), λ k t e. absurd (cc e)) h
