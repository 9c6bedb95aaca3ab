-- ===== src/Payload/Manifest.antt =====
-- transport/nccl/endpoints.py: the manifest as a text in the store, from `NcclEpisodeWriter.write` to
-- `_resolve_nccl_handle`. `J` is a JSON text; `dumps` and `loads` are Python's.
pub mod Json
use alpagym.Base.{String, Bool, true, Option, none, some}
use alpagym.Base.Outcome.{Outcome, ok, raise, ◌>>=◌}
use alpagym.Payload.{
  Value, Items, Fields, null, bool, num, str, tensor_name, other, list, dict, no_items, item,
  no_fields, field, Result, key_error, type_error, lookup,
}

-- `json.dumps({"manifest": payload.manifest})`
unfoldable pub manifest_text : {T A J : Type 0} → (Value T A → Result J) → Value T A → Result J
manifest_text dumps manifest = dumps (dict (field "manifest" manifest no_fields))

module _ {T A : Type 0} where
  unfoldable pub found_or : Option (Value T A) → Result (Value T A)
  found_or none = raise key_error
  found_or (some v) = ok v

  -- `v["manifest"]`
  unfoldable pub manifest_in : Value T A → Result (Value T A)
  manifest_in (dict fs) = found_or (lookup "manifest" fs)
  manifest_in v = raise type_error

  -- `json.loads(metadata_str)["manifest"]`
  unfoldable pub read_manifest : {J : Type 0} → (J → Result (Value T A)) → J → Result (Value T A)
  read_manifest loads text = loads text >>= manifest_in
