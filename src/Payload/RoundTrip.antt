-- ===== src/Payload/RoundTrip.antt =====
-- The round trip of `pack` and `unpack`.
use alpagym.Base.{ℕ, ◌*◌, ◌≤◌, ◌≡◌, refl, String, true, List, [], arith}
use alpagym.Base.Dict.{Dict}
use alpagym.Base.Outcome.{ok, ◌>>=◌}
use alpagym.Payload.{
  Value, Items, Fields, dataclass, Hint, Hints, dataclass_hint, any, plain, Class, Libraries, pack,
}
use alpagym.Payload.Unpack.{unpack}
use alpagym.Payload.Size.{size}
use alpagym.Payload.Fits.{
  Fits, FitsItems, FitsEach, FitsFields, FitsClass, fits_tensor, fits_null, fits_some, fits_plain,
  fits_leaf, fits_list, fits_dict, fits_mapping, fits_tuple, fits_each, fits_dataclass,
  fits_untyped, fits_no_items, fits_item, fits_no_hints, fits_hint, fits_no_fields, fits_field,
  fits_no_class, fits_class,
}
use alpagym.Payload.Growth.{Dense, Extends, Extends-refl}
use alpagym.Payload.Sent.{Sent, SentItems, SentEach, SentFields, SentClass, extra}
use alpagym.Payload.Leaves.{
  sent_tensor, sent_leaf, sent_null, sent_some, unpacked_plain, unpacked-any,
}
use alpagym.Payload.Sequences.{
  sent_no_items, sent_item, sent_tuple, sent_list, sent_no_hints, sent_hint, sent_each,
}
use alpagym.Payload.Mappings.{
  sent_no_fields, sent_field, sent_no_class, sent_class, sent_mapping, sent_dict,
}
use alpagym.Payload.Dataclasses.{sent_dataclass, sent_untyped}

module _ {T A : Type 0} (lib : Libraries T A) (classes : String → Class)
    (restores : (t : T) → lib.is_bool t ≡ true → lib.to_bool (lib.to_uint8 t) ≡ t) where
  mutual
    sent :
        (h : Hint) (v : Value T A) (ts : Dict T)
        → Dense ts
        → Fits lib classes h v
        → Sent lib classes h v ts
    sent h v ts d (fits_tensor _ t ne) = sent_tensor lib classes restores h t ts ne d
    sent h v ts d (fits_null g) = sent_null lib classes g ts d
    sent h v ts d (fits_some g _ o n w) = sent_some lib classes g v ts o n (sent g v ts d w)
    sent h v ts d (fits_plain _ l) =
        sent_leaf lib classes plain v ts l d
          (λ e f le. unpacked_plain lib classes v e f l (omega (arith, le)))
    sent h v ts d (fits_leaf _ l) =
        sent_leaf lib classes any v ts l d (λ e f le. unpacked-any lib classes v e f l le)
    sent h v ts d (fits_list xs w) = sent_list lib classes xs ts (sent_items any xs ts d w)
    sent h v ts d (fits_dict fs r w) = sent_dict lib classes fs ts r (sent_fields any fs ts d w)
    sent h v ts d (fits_mapping g fs r w) =
        sent_mapping lib classes g fs ts r (sent_fields g fs ts d w)
    sent h v ts d (fits_tuple g xs w) = sent_tuple lib classes g xs ts (sent_items g xs ts d w)
    sent h v ts d (fits_each hs xs w) = sent_each lib classes hs xs ts (sent_all hs xs ts d w)
    sent h v ts d (fits_dataclass c sch fs known r u w) =
        sent_dataclass lib classes c sch fs ts known r u (sent_known sch fs ts d w)
    sent h v ts d (fits_untyped c sch fs known al r u w) =
        sent_untyped lib classes c sch fs ts known al r u (sent_known sch fs ts d w)

    sent_items :
        (h : Hint) (xs : Items T A) (ts : Dict T)
        → Dense ts
        → FitsItems lib classes h xs
        → SentItems lib classes h xs ts
    sent_items h xs ts d (fits_no_items _) = sent_no_items lib classes h ts d
    sent_items h xs ts d (fits_item _ v ys w ws) =
        let s = sent h v ts d w in
        sent_item lib classes h v ys ts s (sent_items h ys s.tensors s.dense ws)

    sent_all :
        (hs : Hints) (xs : Items T A) (ts : Dict T)
        → Dense ts
        → FitsEach lib classes hs xs
        → SentEach lib classes hs xs ts
    sent_all hs xs ts d fits_no_hints = sent_no_hints lib classes ts d
    sent_all hs xs ts d (fits_hint h gs v ys w ws) =
        let s = sent h v ts d w in
        sent_hint lib classes h gs v ys ts s (sent_all gs ys s.tensors s.dense ws)

    sent_fields :
        (h : Hint) (fs : Fields T A) (ts : Dict T)
        → Dense ts
        → FitsFields lib classes h fs
        → SentFields lib classes h fs ts
    sent_fields h fs ts d (fits_no_fields _) = sent_no_fields lib classes h ts d
    sent_fields h fs ts d (fits_field _ k v gs w ws) =
        let s = sent h v ts d w in
        sent_field lib classes h k v gs ts s (sent_fields h gs s.tensors s.dense ws)

    sent_known :
        (sch : List (String × Hint)) (fs : Fields T A) (ts : Dict T)
        → Dense ts
        → FitsClass lib classes sch fs
        → SentClass lib classes sch fs ts
    sent_known sch fs ts d fits_no_class = sent_no_class lib classes ts d
    sent_known sch fs ts d (fits_class k h more v gs w ws) =
        let s = sent h v ts d w in
        sent_class lib classes k h more v gs ts s (sent_known more gs s.tensors s.dense ws)

  abbrev pub episode_path : String
  episode_path = "alpagym_runtime.types.EpisodeOutput"

  -- The manifest of such an episode unpacks with any dict that has the tensors it was packed with.
  pub unpack_extended :
      (fs : Fields T A) (f : ℕ)
      → Fits lib classes (dataclass_hint episode_path) (dataclass episode_path fs)
      → 3 * size (dataclass episode_path fs) ≤ f
      → (m : Value T A) × ((ts : Dict T) × ((pack lib (dataclass episode_path fs) ≡ ok (m, ts))
            × ((e : Dict T)
                → Extends ts e
                → unpack lib classes f (m, e) ≡ ok (dataclass episode_path fs))))
  unfolding pack unpack extra
  unpack_extended fs f w le =
      let s = sent (dataclass_hint episode_path) (dataclass episode_path fs) [] (λ k z. refl) w in
      (s.manifest, (s.tensors, (s.packs, λ e x. s.back e f x (omega (arith, le)))))

  -- An episode that `Fits` the type hints of its dataclasses packs, and unpacking the result with a stack of three
  -- times the episode's size gives the episode back, where a bool tensor survives the way to uint8 and back.
  -- `Fits` asks for more than the hints do: no tensor has no elements, no dict or dataclass has a field by a
  -- name of the manifest's own, a list or a dict stands only under `Any` or a mapping, a dataclass under `Any` is of
  -- an allowed module, a tuple stands only where a hint names a tuple, and no NumPy array or scalar stands anywhere,
  -- `Any` included, since these come back as lists and as Python's numbers.
  pub unpack-pack :
      (fs : Fields T A) (f : ℕ)
      → Fits lib classes (dataclass_hint episode_path) (dataclass episode_path fs)
      → 3 * size (dataclass episode_path fs) ≤ f
      → (pack lib (dataclass episode_path fs) >>= unpack lib classes f)
        ≡ ok (dataclass episode_path fs)
  unfolding ◌>>=◌
  unpack-pack fs f w le =
      let (m, (ts, (p, back))) = unpack_extended fs f w le in rw p (back ts (Extends-refl ts))
