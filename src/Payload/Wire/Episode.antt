-- ===== src/Payload/Wire/Episode.antt =====
-- An episode from the rollout worker to the trainer: `pack`, `json.dumps`, the sends, `json.loads`, `_collect_tensor_specs`, the receives, `unpack`.
use alpagym.Base.{ℕ, ◌≡◌, String, Bool, List}
use alpagym.Base.Dict.{Dict}
use alpagym.Base.Outcome.{ok}
use alpagym.Payload.{Value, Class, Libraries, Result, pack}
use alpagym.Payload.Manifest.{manifest_text, read_manifest}
use alpagym.Payload.Unpack.{unpack}
use alpagym.Payload.Fits.{Fits}
use alpagym.Payload.Specs.{Metadata, TensorSpec, collect_tensor_specs}
use alpagym.Payload.Wire.{send_registered_transfer, do_nccl_recv}

module _ {T A : Type 0} (lib : Libraries T A) (classes : String → Class) (metadata : Metadata T A)
    (before : ℕ → ℕ → Bool) (fill : TensorSpec → T → T) {J : Type 0} (dumps : Value T A → Result J)
    (loads : J → Result (Value T A)) where
  -- The seven calls return, and the last of them returns the episode.
  pub record Arrives (v : Value T A) (f : ℕ) : Type 0 where
    pub manifest : Value T A
    pub tensors : Dict T
    pub packs : pack lib v ≡ ok (manifest, tensors)
    pub text : J
    pub writes : manifest_text dumps manifest ≡ ok text
    pub sent : List T
    pub sends : send_registered_transfer before tensors ≡ ok sent
    pub read : Value T A
    pub reads : read_manifest loads text ≡ ok read
    pub specs : Dict TensorSpec
    pub collects : collect_tensor_specs metadata read ≡ ok specs
    pub received : Dict T
    pub receives : do_nccl_recv fill before specs sent ≡ ok received
    pub unpacks : unpack lib classes f (read, received) ≡ ok v
