-- ===== src/Payload/Sent.antt =====
-- What it is for a packed value to come back.
use alpagym.Base.{ℕ, ◌+◌, ◌*◌, ◌≤◌, ◌≡◌, String, false, List, arith}
use alpagym.Base.Dict.{Dict}
use alpagym.Base.Outcome.{ok}
use alpagym.Payload.{
  Value, Items, Fields, Hint, Hints, optional, Class, Libraries, Result, packed, packed_items,
  packed_fields,
}
use alpagym.Payload.Unpack.{unpacked, map_items, map_fields, map_each, map_class}
use alpagym.Payload.Size.{size, size_items, size_fields}
use alpagym.Payload.Fits.{is_null}
use alpagym.Payload.Growth.{Dense, Extends}
use alpagym.Payload.Names.{Agrees, Alike}

-- The fuel that a hint asks for beside its value's.
unfoldable pub extra : Hint → ℕ
extra (optional h) = 1
extra h = 0

pub extra-le : (h : Hint) → extra h ≤ 1
unfolding extra
extra-le (optional h) = omega arith
extra-le _ = omega arith

module _ {T A : Type 0} (lib : Libraries T A) (classes : String → Class) where
  -- `v` is packed after the tensors `ts`, and with any dict that holds at least the tensors then
  -- there its manifest unpacks to `v`.
  pub record Sent (h : Hint) (v : Value T A) (ts : Dict T) : Type 0 where
    pub manifest : Value T A
    pub tensors : Dict T
    pub packs : packed lib v ts ≡ ok (manifest, tensors)
    pub dense : Dense tensors
    pub grown : Extends ts tensors
    pub solid : is_null v ≡ false → is_null manifest ≡ false
    pub back :
        (e : Dict T) (f : ℕ)
        → Extends tensors e
        → 3 * size v + extra h ≤ f
        → unpacked lib classes f e h manifest ≡ ok v

  pub record SentItems (h : Hint) (xs : Items T A) (ts : Dict T) : Type 0 where
    pub manifest : Items T A
    pub tensors : Dict T
    pub packs : packed_items lib xs ts ≡ ok (manifest, tensors)
    pub dense : Dense tensors
    pub grown : Extends ts tensors
    pub back :
        (e : Dict T) (f : ℕ) (g : Value T A → Result (Value T A))
        → Extends tensors e
        → 3 * size_items xs + 1 ≤ f
        → ((m : Value T A) → g m ≡ unpacked lib classes f e h m)
        → map_items g manifest ≡ ok xs

  pub record SentEach (hs : Hints) (xs : Items T A) (ts : Dict T) : Type 0 where
    pub manifest : Items T A
    pub tensors : Dict T
    pub packs : packed_items lib xs ts ≡ ok (manifest, tensors)
    pub dense : Dense tensors
    pub grown : Extends ts tensors
    pub back :
        (e : Dict T) (f : ℕ)
        → Extends tensors e
        → 3 * size_items xs + 1 ≤ f
        → map_each (unpacked lib classes f e) hs manifest ≡ ok xs

  pub record SentFields (h : Hint) (fs : Fields T A) (ts : Dict T) : Type 0 where
    pub manifest : Fields T A
    pub tensors : Dict T
    pub packs : packed_fields lib fs ts ≡ ok (manifest, tensors)
    pub dense : Dense tensors
    pub grown : Extends ts tensors
    pub alike : Alike fs manifest
    pub back :
        (e : Dict T) (f : ℕ) (g : Value T A → Result (Value T A))
        → Extends tensors e
        → 3 * size_fields fs + 1 ≤ f
        → ((m : Value T A) → g m ≡ unpacked lib classes f e h m)
        → map_fields g manifest ≡ ok fs

  pub record SentClass (sch : List (String × Hint)) (fs : Fields T A) (ts : Dict T) : Type 0 where
    pub manifest : Fields T A
    pub tensors : Dict T
    pub packs : packed_fields lib fs ts ≡ ok (manifest, tensors)
    pub dense : Dense tensors
    pub grown : Extends ts tensors
    pub alike : Alike fs manifest
    pub back :
        (e : Dict T) (f : ℕ) (whole : Fields T A)
        → Extends tensors e
        → 3 * size_fields fs + 1 ≤ f
        → Agrees manifest whole
        → map_class (unpacked lib classes f e) sch whole ≡ ok fs
