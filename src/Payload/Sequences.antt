-- ===== src/Payload/Sequences.antt =====
-- Lists and tuples come back.
use alpagym.Base.{ℕ, zero, suc, ◌+◌, ◌*◌, ◌≤◌, ◌≡◌, refl, String, arith}
use alpagym.Base.Dict.{Dict}
use alpagym.Base.Outcome.{ok, ◌>>=◌}
use alpagym.Payload.{
  Value, Items, list, tuple, no_items, item, Hint, Hints, tuple_of, tuple_each, any, no_hints, hint,
  Class, Libraries, packed,
}
use alpagym.Payload.Unpack.{
  unpacked, resolved, unpack_body, resolve_body, map_items, map_each, by_hint, iterated,
}
use alpagym.Payload.Size.{size}
use alpagym.Payload.Fits.{is_null}
use alpagym.Payload.Growth.{Dense, Extends, Extends-refl, Extends-trans}
use alpagym.Payload.Sent.{Sent, SentItems, SentEach, extra, extra-le}
use alpagym.Payload.Leaves.{resolved-any}

module _ {T A : Type 0} (lib : Libraries T A) (classes : String → Class) where
  pub sent_no_items : (h : Hint) (ts : Dict T) → Dense ts → SentItems lib classes h no_items ts
  unfolding packed map_items
  sent_no_items h ts d = record {
    manifest = no_items;
    tensors = ts;
    packs = refl;
    dense = d;
    grown = Extends-refl ts;
    back = λ e f g x le same. refl;
  }

  pub sent_item :
      (h : Hint) (v : Value T A) (xs : Items T A) (ts : Dict T) (s : Sent lib classes h v ts)
      → SentItems lib classes h xs s.tensors
      → SentItems lib classes h (item v xs) ts
  unfolding packed map_items ◌>>=◌ size
  sent_item h v xs ts s q = record {
    manifest = item s.manifest q.manifest;
    tensors = q.tensors;
    packs = rw (s.packs, q.packs) refl;
    dense = q.dense;
    grown = Extends-trans ts s.tensors q.tensors s.grown q.grown;
    back = λ e f g x le same.
        rw
          (
            same s.manifest,
            s.back e f (Extends-trans s.tensors q.tensors e q.grown x)
                (omega (arith, le, extra-le h)),
            q.back e f g x (omega (arith, le)) same,
          )
          refl;
  }

  pub sent_tuple :
      (h : Hint) (xs : Items T A) (ts : Dict T)
      → SentItems lib classes h xs ts
      → Sent lib classes (tuple_of h) (tuple xs) ts
  unfolding packed ◌>>=◌ is_null size extra unpacked unpack_body by_hint iterated
  sent_tuple h xs ts q = record {
    manifest = list q.manifest;
    tensors = q.tensors;
    packs = rw q.packs refl;
    dense = q.dense;
    grown = q.grown;
    solid = λ n. refl;
    back = needs;
  }
    where
      needs :
          (e : Dict T) (f : ℕ)
          → Extends q.tensors e
          → 3 * size (tuple xs) + extra (tuple_of h) ≤ f
          → unpacked lib classes f e (tuple_of h) (list q.manifest) ≡ ok (tuple xs)
      needs e zero x le = absurd (omega arith)
      needs e (suc f) x le =
          rw (q.back e f (unpacked lib classes f e h) x (omega (arith, le)) (λ m. refl)) refl

  pub sent_list :
      (xs : Items T A) (ts : Dict T)
      → SentItems lib classes any xs ts
      → Sent lib classes any (list xs) ts
  unfolding packed ◌>>=◌ is_null size extra unpacked unpack_body by_hint resolve_body
  sent_list xs ts q = record {
    manifest = list q.manifest;
    tensors = q.tensors;
    packs = rw q.packs refl;
    dense = q.dense;
    grown = q.grown;
    solid = λ n. refl;
    back = needs;
  }
    where
      needs :
          (e : Dict T) (f : ℕ)
          → Extends q.tensors e
          → 3 * size (list xs) + extra any ≤ f
          → unpacked lib classes f e any (list q.manifest) ≡ ok (list xs)
      needs e (suc (suc (suc f))) x le =
          rw
            (q.back e (suc (suc f)) (resolved lib classes (suc f) e) x (omega (arith, le))
              (λ m. resolved-any lib classes m e f))
            refl
      needs e zero x le = absurd (omega arith)
      needs e (suc zero) x le = absurd (omega arith)
      needs e (suc (suc zero)) x le = absurd (omega arith)

  pub sent_no_hints : (ts : Dict T) → Dense ts → SentEach lib classes no_hints no_items ts
  unfolding packed map_each
  sent_no_hints ts d = record {
    manifest = no_items;
    tensors = ts;
    packs = refl;
    dense = d;
    grown = Extends-refl ts;
    back = λ e f x le. refl;
  }

  pub sent_hint :
      (h : Hint) (hs : Hints) (v : Value T A) (xs : Items T A) (ts : Dict T)
      (s : Sent lib classes h v ts)
      → SentEach lib classes hs xs s.tensors
      → SentEach lib classes (hint h hs) (item v xs) ts
  unfolding packed map_each ◌>>=◌ size
  sent_hint h hs v xs ts s q = record {
    manifest = item s.manifest q.manifest;
    tensors = q.tensors;
    packs = rw (s.packs, q.packs) refl;
    dense = q.dense;
    grown = Extends-trans ts s.tensors q.tensors s.grown q.grown;
    back = λ e f x le.
        rw
          (
            s.back e f (Extends-trans s.tensors q.tensors e q.grown x)
                (omega (arith, le, extra-le h)),
            q.back e f x (omega (arith, le)),
          )
          refl;
  }

  pub sent_each :
      (hs : Hints) (xs : Items T A) (ts : Dict T)
      → SentEach lib classes hs xs ts
      → Sent lib classes (tuple_each hs) (tuple xs) ts
  unfolding packed ◌>>=◌ is_null size extra unpacked unpack_body by_hint iterated
  sent_each hs xs ts q = record {
    manifest = list q.manifest;
    tensors = q.tensors;
    packs = rw q.packs refl;
    dense = q.dense;
    grown = q.grown;
    solid = λ n. refl;
    back = needs;
  }
    where
      needs :
          (e : Dict T) (f : ℕ)
          → Extends q.tensors e
          → 3 * size (tuple xs) + extra (tuple_each hs) ≤ f
          → unpacked lib classes f e (tuple_each hs) (list q.manifest) ≡ ok (tuple xs)
      needs e zero x le = absurd (omega arith)
      needs e (suc f) x le = rw (q.back e f x (omega (arith, le))) refl
